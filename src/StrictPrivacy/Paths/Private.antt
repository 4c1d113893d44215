-- ===== src/StrictPrivacy/Paths/Private.antt =====
-- src/strict_privacy.cpp: what a raw path cannot carry out.
use forge_ops_tracker_cpp.Prelude.{
  ℕ, ◌+◌, ◌≤◌, ◌≡◌, refl, Bool, true, false, not, List, [], ◌∷◌, ◌++◌, Bytes, codes, length, all,
  any, arith, ltb, ◌==◌, if◌then◌else◌,
}
use forge_ops_tracker_cpp.Scan.{first_is, is_digit}
use forge_ops_tracker_cpp.Scan.Laws.{all-append}
use forge_ops_tracker_cpp.StrictPrivacy.Paths.{
  strict_path, raw_path, is_id, character_count, k_max_segment_length, is_route_parameter,
  segments_of, filled, without_query,
}

character_count-append :
    (a b : Bytes) → character_count (a ++ b) ≡ character_count a + character_count b
unfolding character_count
character_count-append [] b = omega arith
character_count-append (c ∷ a) b = ground (arith, character_count-append a b)

abbrev pub no_digit : ℕ → Bool
no_digit c = not (is_digit c)

-- A text without a digit and with at most so many characters.
pub record Plain (n : ℕ) (s : Bytes) : Type 0 where
  pub digitless : all no_digit s ≡ true
  pub short : character_count s ≤ n

Plain-append : (m n : ℕ) (a b : Bytes) → Plain m a → Plain n b → Plain (m + n) (a ++ b)
Plain-append m n a b pa pb = record {
  digitless = all-append no_digit a b pa.digitless pb.digitless;
  short = omega (arith, character_count-append a b, pa.short, pb.short);
}

all_not_any : (s : Bytes) → any is_digit s ≡ false → all no_digit s ≡ true
all_not_any [] h = refl
all_not_any (c ∷ s) h = ground (arith, all_not_any s)

Plain-slash : (b : Bool) → Plain 1 (if b then codes "/" else [])
unfolding character_count
Plain-slash true = record { digitless = refl; short = omega arith }
Plain-slash false = record { digitless = refl; short = omega arith }

Plain-more : (b : Bool) → Plain 6 (if b then codes "/:path" else [])
unfolding character_count
Plain-more true = record { digitless = refl; short = omega arith }
Plain-more false = record { digitless = refl; short = omega arith }

Plain-id : Plain k_max_segment_length (codes ":id")
unfolding character_count
Plain-id = record { digitless = refl; short = omega arith }

Plain-kept : (first : Bytes) → is_id first ≡ false → Plain k_max_segment_length first
unfolding is_id
Plain-kept first h = record { digitless = all_not_any first (ground arith); short = ground arith }

Plain-first :
    (b : Bool) (first : Bytes)
    → is_id first ≡ b
    → Plain k_max_segment_length (if b then codes ":id" else first)
Plain-first true first h = Plain-id
Plain-first false first h = Plain-kept first h

Plain-raw_path : (whole : Bytes) (segments : List Bytes) → Plain 47 (raw_path whole segments)
unfolding raw_path
Plain-raw_path whole [] = unfold character_count in record { digitless = refl; short = omega arith }
Plain-raw_path whole (first ∷ rest) =
    Plain-append 1 46 _ _ (Plain-slash (first_is (λ c. c == b'/') whole)) (
      Plain-append 40 6 _ _ (Plain-first (is_id first) first refl)
        (Plain-more (ltb 0 (length rest))))

-- A path that is no route template keeps no digit, and no more than 47 characters.
pub strict_path-Plain :
    (path : Bytes)
    → any is_route_parameter (segments_of (without_query path)) ≡ false
    → Plain 47 (strict_path path)
unfolding strict_path
strict_path-Plain path h =
    rw h (Plain-raw_path (without_query path) (filled (segments_of (without_query path))))
