-- ===== src/TraceParent/Header.antt =====
-- src/trace_parent.cpp: the header that build writes is read back by parse, and what parse accepts.
use forge_ops_tracker_cpp.Prelude.{
  ℕ, zero, suc, ◌+◌, ◌≤◌, ◌≡◌, refl, sym, ap, ◌∙◌, Bool, true, false, [], ◌∷◌, ◌++◌, append_assoc,
  some, Bytes, codes, bytes_eq, arith, length, take, drop, all, length-take, length-drop,
  length-append, ◌==◌,
}
use forge_ops_tracker_cpp.TraceParent.{
  Context, parse, build, all_zeros, is_hex_digit, is_blank, skip_blanks, cut_blanks, trimmed,
  well_formed, tail_allowed, dash_at, context_of, parse_value, is_lower_hex, substr, fixed_length,
}

-- An id that the specification allows.
pub record IsId (n : ℕ) (id : Bytes) : Type 0 where
  pub long : length id ≡ n
  pub hex : all is_hex_digit id ≡ true
  pub used : all_zeros id ≡ false

take_front : (n : ℕ) (t r : Bytes) → length t ≡ n → take n (t ++ r) ≡ t
take_front zero [] r h = refl
take_front zero (c ∷ t) r h = absurd (omega arith)
take_front (suc n) [] r h = absurd (omega arith)
take_front (suc n) (c ∷ t) r h = ap (◌∷◌ c) (take_front n t r (omega arith))

drop_front : (n k : ℕ) (t r : Bytes) → length t ≡ n → drop (n + k) (t ++ r) ≡ drop k r
drop_front zero k [] r h = rw zero_plus
  where
    zero_plus : 0 + k ≡ k
    zero_plus = omega arith
drop_front zero k (c ∷ t) r h = absurd (omega arith)
drop_front (suc n) k [] r h = absurd (omega arith)
drop_front (suc n) k (c ∷ t) r h = rw (suc_plus n k) (drop_front n k t r (omega arith))
  where
    suc_plus : (a b : ℕ) → suc a + b ≡ suc (a + b)
    suc_plus a b = omega arith

cut_blanks-concat :
    (s : Bytes) (c : ℕ) → is_blank c ≡ false → cut_blanks (s ++ c ∷ []) ≡ s ++ c ∷ []
unfolding cut_blanks
cut_blanks-concat [] c h = ground arith
cut_blanks-concat (d ∷ []) c h = ground (arith, cut_blanks-concat [] c h)
cut_blanks-concat (d ∷ e ∷ s) c h = ground (arith, cut_blanks-concat (e ∷ s) c h)

trimmed-build : (t s : Bytes) → trimmed (build t s) ≡ build t s
unfolding trimmed build skip_blanks
trimmed-build t s = ap cut_blanks last_byte ∙ cut_blanks-concat front b'1' refl ∙ sym last_byte
  where
    front : Bytes
    front = codes "00-" ++ (t ++ (codes "-" ++ (s ++ codes "-0")))

    last_byte : codes "00-" ++ (t ++ (codes "-" ++ (s ++ codes "-01"))) ≡ front ++ b'1' ∷ []
    last_byte = simp append_assoc

abbrev first_is_dash : Bytes → Bool
first_is_dash s = elim s [ [] ↦ 0 | c ∷ rest ↦ c ] == b'-'

module _ (t s : Bytes) (vt : IsId 32 t) (vs : IsId 16 s) where
  abbrev behind : Bytes
  behind = b'-' ∷ (s ++ codes "-01")

  trace_field : take 32 (t ++ behind) ≡ t
  trace_field = take_front 32 t behind vt.long

  span_field : take 16 (drop 33 (t ++ behind)) ≡ s
  span_field = rw (drop_front 32 1 t behind vt.long) (take_front 16 s (codes "-01") vs.long)

  length-build : length (build t s) ≡ fixed_length
  unfolding build
  length-build =
      omega (arith, length-append t behind, length-append s (codes "-01"), vt.long, vs.long)

  fields_hex :
      (is_lower_hex (build t s) 3 32 ≡ true)
      × (is_lower_hex (build t s) 36 16 ≡ true)
      × (is_lower_hex (build t s) 53 2 ≡ true)
  unfolding is_lower_hex build
  fields_hex = (
    rw trace_field vt.hex,
    rw span_field vs.hex,
    rw (drop_front 32 18 t behind vt.long) (rw (drop_front 16 1 s (codes "-01") vs.long) refl),
  )

  dashes : (dash_at (build t s) 35 ≡ true) × (dash_at (build t s) 52 ≡ true)
  unfolding dash_at build
  dashes = (
    ap first_is_dash (drop_front 32 0 t behind vt.long),
    ap first_is_dash (drop_front 32 17 t behind vt.long ∙ drop_front 16 0 s (codes "-01") vs.long),
  )

  build-start : (is_lower_hex (build t s) 0 2 ≡ true) × (dash_at (build t s) 2 ≡ true)
  unfolding is_lower_hex dash_at build
  build-start = (refl, refl)

  build-well_formed : well_formed (build t s) ≡ true
  unfolding well_formed
  build-well_formed =
      rw
        (build-start.0, build-start.1, fields_hex.0, dashes.0, fields_hex.1, dashes.1, fields_hex.2)

  build-tail_allowed : tail_allowed (build t s) ≡ true
  unfolding tail_allowed
  build-tail_allowed = rw length-build refl

  context_of-build : context_of (build t s) ≡ some (record { trace_id = t; parent_span_id = s })
  unfolding context_of build
  context_of-build = rw (trace_field, span_field, vt.used, vs.used) refl

  first_bytes : bytes_eq (take 2 (build t s)) (codes "ff") ≡ false
  unfolding build bytes_eq
  first_bytes = refl

  parse_value-build : parse_value (build t s) ≡ some (record { trace_id = t; parent_span_id = s })
  unfolding parse_value
  parse_value-build =
      rw (length-build, build-well_formed, first_bytes, build-tail_allowed) context_of-build

-- What build writes for two ids that the specification allows, parse reads back as those two ids.
pub parse-build :
    (trace_id span_id : Bytes)
    → IsId 32 trace_id
    → IsId 16 span_id
    → parse (build trace_id span_id)
      ≡ some (record { trace_id = trace_id; parent_span_id = span_id })
unfolding parse
parse-build t s vt vs = rw (trimmed-build t s) (parse_value-build t s vt vs)

well_formed_ids :
    (value : Bytes)
    → well_formed value ≡ true
    → (is_lower_hex value 3 32 ≡ true) × (is_lower_hex value 36 16 ≡ true)
unfolding well_formed
well_formed_ids value h = ground arith

accepted_parts :
    (value : Bytes) (c : Context)
    → parse_value value ≡ some c
    → (fixed_length ≤ length value) × (well_formed value ≡ true) × (context_of value ≡ some c)
unfolding parse_value
accepted_parts value c h = ground arith

context_of-some :
    (value : Bytes) (c : Context)
    → context_of value ≡ some c
    → (c.trace_id ≡ substr value 3 32)
      × (c.parent_span_id ≡ substr value 36 16)
      × (all_zeros (substr value 3 32) ≡ false)
      × (all_zeros (substr value 36 16) ≡ false)
unfolding context_of
context_of-some value c h = ground arith

substr-IsId :
    (value id : Bytes) (from count : ℕ)
    → id ≡ substr value from count
    → from + count ≤ length value
    → is_lower_hex value from count ≡ true
    → all_zeros (substr value from count) ≡ false
    → IsId count id
unfolding is_lower_hex
substr-IsId value id from count e long hex used = record {
  long =
      ap length e
      ∙ omega (arith, length-take count (drop from value), length-drop from value, long);
  hex = ap (all is_hex_digit) e ∙ hex;
  used = ap all_zeros e ∙ used;
}

context_of-IsId :
    (value : Bytes) (c : Context)
    → fixed_length ≤ length value
    → is_lower_hex value 3 32 ≡ true
    → is_lower_hex value 36 16 ≡ true
    → context_of value ≡ some c
    → IsId 32 c.trace_id × IsId 16 c.parent_span_id
context_of-IsId value c long trace span h =
    let (a, b, p, q) = context_of-some value c h in
    (
      substr-IsId value c.trace_id 3 32 a (omega arith) trace p,
      substr-IsId value c.parent_span_id 36 16 b (omega arith) span q,
    )

parse_value-IsId :
    (value : Bytes) (c : Context)
    → parse_value value ≡ some c
    → IsId 32 c.trace_id × IsId 16 c.parent_span_id
parse_value-IsId value c h =
    let (long, formed, made) = accepted_parts value c h in
    let (trace, span) = well_formed_ids value formed in context_of-IsId value c long trace span made

parse-IsId :
    (raw : Bytes) (c : Context) → parse raw ≡ some c → IsId 32 c.trace_id × IsId 16 c.parent_span_id
unfolding parse
parse-IsId raw c h = parse_value-IsId (trimmed raw) c h

-- Whatever text comes in, an accepted one gives two ids of the right length, in lowercase
-- hexadecimal and not all zeros, and the header built from them is accepted with the same ids.
pub parse_sound :
    (raw : Bytes) {c : Context}
    → parse raw ≡ some c
    → IsId 32 c.trace_id
      × IsId 16 c.parent_span_id
      × (parse (build c.trace_id c.parent_span_id) ≡ some c)
parse_sound raw {c} h =
    let ids = parse-IsId raw c h in
    (ids.0, ids.1, parse-build c.trace_id c.parent_span_id ids.0 ids.1)
