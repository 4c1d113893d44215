-- ===== src/SqlStatement/Masking.antt =====
-- src/sql_statement.cpp: what is never in a masked statement.
use forge_ops_tracker_cpp.Prelude.{
  ℕ, zero, suc, ◌+◌, ◌≤◌, ◌≡◌, refl, Bool, true, false, not, ◌&&◌, [], ◌∷◌, ◌++◌, Option, none,
  some, Bytes, codes, length, take, all, length-take, length-append, arith, ltb, if◌then◌else◌,
  ◌==◌,
}
use forge_ops_tracker_cpp.Scan.{scan}
use forge_ops_tracker_cpp.Scan.Laws.{all-scan, all-append, all-take}
use forge_ops_tracker_cpp.SqlStatement.{
  mask, mask_rule, literal_quote, string_quote, unquoted, cut_back, truncated, is_double_quoting,
  k_max_length,
}

-- No byte that opens a string literal; the double quote is one in MySQL and MariaDB.
abbrev pub no_quote : Bool → ℕ → Bool
no_quote double_quoted c = not (c == b'\'') && not (double_quoted && c == b'"')

unquoted-masked :
    (before : Option ℕ) (s out : Bytes) (n : ℕ)
    → unquoted before s ≡ some (out, n)
    → out ≡ codes "?"
unfolding unquoted
unquoted-masked before [] out n h = cc
unquoted-masked before (c ∷ s) out n h = ground arith

mask_rule-written :
    (double_quoted : Bool) (before : Option ℕ) (s out : Bytes) (n : ℕ)
    → mask_rule double_quoted before s ≡ some (out, n)
    → all (no_quote double_quoted) out ≡ true
unfolding mask_rule
mask_rule-written double_quoted before s out n h = ground (arith, unquoted-masked before s out n)

literal_quote-none :
    (double_quoted : Bool) (before : Option ℕ) (c : ℕ) (s : Bytes)
    → literal_quote double_quoted before (c ∷ s) ≡ none
    → no_quote double_quoted c ≡ true
unfolding literal_quote string_quote
literal_quote-none double_quoted before c s h = ground arith

mask_rule-copied :
    (double_quoted : Bool) (before : Option ℕ) (c : ℕ) (s : Bytes)
    → mask_rule double_quoted before (c ∷ s) ≡ none
    → no_quote double_quoted c ≡ true
unfolding mask_rule
mask_rule-copied double_quoted before c s h =
    ground (arith, literal_quote-none double_quoted before c s)

cut_back-le : (out : Bytes) (n : ℕ) → cut_back out n ≤ n
unfolding cut_back
cut_back-le out zero = omega arith
cut_back-le out (suc n) = ground (arith, cut_back-le out n)

length-cut : (out : Bytes) (n : ℕ) → length (take n out ++ codes "...") ≤ n + 3
length-cut out n = omega (arith, length-append (take n out) (codes "..."), length-take n out)

length-chosen :
    (long : Bool) (out cut : Bytes)
    → (long ≡ false → length out ≤ k_max_length)
    → length cut ≤ k_max_length + 3
    → length (if long then cut else out) ≤ k_max_length + 3
length-chosen true out cut short h = h
length-chosen false out cut short h = omega (arith, short refl)

length-truncated : (out : Bytes) → length (truncated out) ≤ k_max_length + 3
unfolding truncated
length-truncated out =
    length-chosen (ltb k_max_length (length out)) out
      (take (cut_back out k_max_length) out ++ codes "...")
      (λ h. ltb_false k_max_length (length out) h)
      (omega (arith, cut_back-le out k_max_length, length-cut out (cut_back out k_max_length)))
  where
    ltb_false : (a b : ℕ) → ltb a b ≡ false → b ≤ a
    ltb_false a b h = ground arith

all-truncated :
    (double_quoted : Bool) (out : Bytes)
    → all (no_quote double_quoted) out ≡ true
    → all (no_quote double_quoted) (truncated out) ≡ true
unfolding truncated
all-truncated d out h = ground (
  arith,
  all-append (no_quote d) (take (cut_back out k_max_length) out) (codes "...")
      (all-take (no_quote d) (cut_back out k_max_length) out h),
  dots d,
)
  where
    dots : (d : Bool) → all (no_quote d) (codes "...") ≡ true
    dots true = refl
    dots false = refl

-- Whatever the statement, no quote of a string literal is in its masked form, in MySQL and MariaDB
-- no double quote either, and the form is no longer than 4003 bytes.
pub mask_hides :
    (statement : Bytes) (system : Option Bytes) {out : Bytes}
    → mask statement system ≡ some out
    → (all (no_quote (is_double_quoting system)) out ≡ true) × (length out ≤ 4003)
unfolding mask
mask_hides statement system {out} h =
    let d = is_double_quoting system in
    let text = scan (mask_rule d) 0 none statement in
    let quiet : all (no_quote d) text ≡ true =
      all-scan (mask_rule d) (no_quote d) (mask_rule-copied d) (mask_rule-written d) 0 none
        statement in
    ground (arith, all-truncated d text quiet, length-truncated text)
