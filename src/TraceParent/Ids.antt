-- ===== src/TraceParent/Ids.antt =====
-- src/trace_parent.cpp: the ids that are generated.
use forge_ops_tracker_cpp.Prelude.{
  ℕ, ◌*◌, ◌/◌, ◌%◌, ◌<◌, ◌≡◌, refl, ap, ◌∙◌, true, false, List, [], ◌∷◌, some, Bytes, length, all,
  All, arith, Bool-cases, inl, inr,
}
use forge_ops_tracker_cpp.TraceParent.{
  is_hex_digit, all_zeros, hex_digit, random_hex, random_non_zero_hex,
}
use forge_ops_tracker_cpp.TraceParent.Header.{IsId}

pub hex_digit-hex : (n : ℕ) → n < 16 → is_hex_digit (hex_digit n) ≡ true
unfolding hex_digit
hex_digit-hex n h = ground arith

length-random_hex : (draw : List ℕ) → length (random_hex draw) ≡ 2 * length draw
unfolding random_hex
length-random_hex [] = refl
length-random_hex (value ∷ rest) = omega (arith, length-random_hex rest)

random_hex-hex : (draw : List ℕ) → all is_hex_digit (random_hex draw) ≡ true
unfolding random_hex
random_hex-hex [] = refl
random_hex-hex (value ∷ rest) =
    rw (hex_digit-hex (value % 256 / 16) (omega arith), hex_digit-hex (value % 16) (omega arith))
      (random_hex-hex rest)

abbrev pub Draws : ℕ → List (List ℕ) → Type 0
Draws n draws = All (λ draw. length draw ≡ n) draws

-- Whatever the random device gives, an id made of draws of `n` bytes has 2 * n lowercase hexadecimal
-- digits and is not all zeros: it is one that the header may carry.
pub generated-IsId :
    (n : ℕ) (draws : List (List ℕ)) {id : Bytes}
    → Draws n draws
    → random_non_zero_hex draws ≡ some id
    → IsId (2 * n) id
unfolding random_non_zero_hex
generated-IsId n [] h e = cc
generated-IsId n (draw ∷ rest) {id} h e = elim (Bool-cases (all_zeros (random_hex draw))) [
  | inl zeros ↦ generated-IsId n rest h.1 (ground arith)
  | inr used ↦ made (ground arith) used
]
  where
    made : id ≡ random_hex draw → all_zeros (random_hex draw) ≡ false → IsId (2 * n) id
    made same used = record {
      long = ap length same ∙ omega (arith, length-random_hex draw, h.0);
      hex = ap (all is_hex_digit) same ∙ random_hex-hex draw;
      used = ap all_zeros same ∙ used;
    }
