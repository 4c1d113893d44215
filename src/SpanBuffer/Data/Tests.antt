-- ===== src/SpanBuffer/Data/Tests.antt =====
-- The data of a database span.
use forge_ops_tracker_cpp.Prelude.{◌≡◌, refl, some, Bytes, codes, bytes_eq}
use forge_ops_tracker_cpp.Scan.{scan}
use forge_ops_tracker_cpp.SqlStatement.{mask, mask_rule, literal_quote, string_quote, quoted_end}
use forge_ops_tracker_cpp.TraceParent.{trimmed}
use forge_ops_tracker_cpp.Json.Example.{Value, text, fields, end, field, values, values_lawful}
use forge_ops_tracker_cpp.SpanBuffer.Data.{
  span_data, database_data, normalize_system, with_system, mask_statement, with_statement, text_at,
}
use forge_ops_tracker_cpp.SpanBuffer.Data.Masked.{database_statement-masked, sent_system}

abbrev query : Value
query = fields (
    field (codes "db.statement") (text (codes "\"x\""))
      (field (codes "db.system") (text (codes " MySQL")) end))

masked_query :
    text_at values (codes "db.statement") (span_data values (codes "database") query)
    ≡ some (codes "?")
unfolding span_data database_data normalize_system with_system trimmed mask_statement with_statement
    mask scan mask_rule literal_quote string_quote quoted_end bytes_eq
masked_query = refl

database_statement-masked_example :
    (statement : Bytes) × (text_at values (codes "db.statement") query ≡ some statement)
    × (mask statement (sent_system (text_at values (codes "db.system") query)) ≡ some (codes "?"))
database_statement-masked_example =
    database_statement-masked values values_lawful query (codes "?") masked_query
