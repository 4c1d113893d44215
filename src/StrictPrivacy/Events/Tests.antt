-- ===== src/StrictPrivacy/Events/Tests.antt =====
-- An event stripped.
use forge_ops_tracker_cpp.Prelude.{◌≡◌, refl, List, [], ◌∷◌, Bytes, codes, bytes_eq}
use forge_ops_tracker_cpp.Json.Example.{
  Value, text, number, items, item, no_items, fields, field, end, values, values_lawful,
}
use forge_ops_tracker_cpp.StrictPrivacy.Events.{
  is_plain, kept_names, allowed, keep_allowed, user_id, keep_user_id, event,
}
use forge_ops_tracker_cpp.StrictPrivacy.Events.Private.{PrivateEvent, event-PrivateEvent}

abbrev payload : Value
payload = fields (
    field (codes "message") (text (codes "no user 7")) (
      field (codes "context")
        (fields (
          field (codes "plan") (text (codes "pro"))
            (field (codes "name") (text (codes "Ann")) end)))
        (field (codes "user")
          (fields (
            field (codes "id") (number (codes "7"))
              (field (codes "email") (text (codes "a@b.c")) end)))
          (field (codes "backtrace")
            (items (item (fields (field (codes "context_line") (text (codes "x")) end)) no_items))
            end))))

abbrev names : List Bytes
names = codes "plan" ∷ []

kept_context :
    keep_user_id values (
      keep_allowed values names (codes "context") (
        fields (
          field
            (codes "context")
            (fields (
              field
                (codes "plan")
                (text (codes "pro"))
                (field (codes "name") (text (codes "Ann")) end)))
            end)))
    ≡ fields (field (codes "context") (fields (field (codes "plan") (text (codes "pro")) end)) end)
unfolding keep_allowed allowed kept_names is_plain keep_user_id user_id bytes_eq
kept_context = refl

event-PrivateEvent_example : PrivateEvent values names payload (event values payload names)
event-PrivateEvent_example = event-PrivateEvent values values_lawful payload names refl
