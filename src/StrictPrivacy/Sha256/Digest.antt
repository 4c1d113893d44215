-- ===== src/StrictPrivacy/Sha256/Digest.antt =====
-- src/strict_privacy.cpp: the form of a fingerprint, and the padding.
use forge_ops_tracker_cpp.Prelude.{
  ℕ, zero, suc, ◌+◌, ◌-◌, ◌/◌, ◌%◌, ◌^◌, ◌≤◌, ◌≡◌, refl, ap, true, ◌∷◌, ◌++◌, Bytes, codes, length,
  all, arith, length-append, length-take,
}
use forge_ops_tracker_cpp.Scan.Laws.{all-append, all-take}
use forge_ops_tracker_cpp.TraceParent.{is_hex_digit, hex_digit}
use forge_ops_tracker_cpp.TraceParent.Ids.{hex_digit-hex}
use forge_ops_tracker_cpp.StrictPrivacy.Messages.{normalize_message}
use forge_ops_tracker_cpp.StrictPrivacy.Sha256.{
  State, zeros_after, zeros, length_bytes, padded, hex_word, hex_state, sha256_hex,
  message_fingerprint,
}

abc_digest :
    sha256_hex (codes "abc")
    ≡ codes "ba7816bf8f01cfea414140de5dae2223b00361a396177a9cb410ff61f20015ad"
unfolding sha256_hex hex_state hex_word hex_digit
abc_digest = refl

two_blocks :
    sha256_hex (codes "abcdbcdecdefdefgefghfghighijhijkijkljklmklmnlmnomnopnopq")
    ≡ codes "248d6a61d20638b8e5c026930c3e6039a33ce45964ff2167f6ecedd419db06c1"
unfolding sha256_hex hex_state hex_word hex_digit
two_blocks = refl

-- The loop that pads ends within 64 rounds, at a size of 56 modulo 64.
zeros_after-ends :
    (fuel size : ℕ) → (120 - size % 64) % 64 ≤ fuel → (size + zeros_after fuel size) % 64 ≡ 56
unfolding zeros_after
zeros_after-ends zero size h = omega arith
zeros_after-ends (suc fuel) size h = ground (arith, zeros_after-ends fuel (size + 1))

length-zeros : (n : ℕ) → length (zeros n) ≡ n
unfolding zeros
length-zeros zero = refl
length-zeros (suc n) = ap suc (length-zeros n)

length-padded : (bytes : Bytes) → length (padded bytes) % 64 ≡ 0
unfolding padded length_bytes
length-padded bytes =
    let n = zeros_after 64 (length bytes + 1) in
    let tail = length_bytes (length bytes) in
    omega (
      arith,
      length-append bytes (0x80 ∷ (zeros n ++ tail)),
      length-append (zeros n) tail,
      length-zeros n,
      zeros_after-ends 64 (length bytes + 1) (omega arith),
    )

record IsHex (n : ℕ) (s : Bytes) : Type 0 where
  long : length s ≡ n
  hex : all is_hex_digit s ≡ true

IsHex-append : (m n : ℕ) (a b : Bytes) → IsHex m a → IsHex n b → IsHex (m + n) (a ++ b)
IsHex-append m n a b ha hb = record {
  long = omega (arith, length-append a b, ha.long, hb.long);
  hex = all-append is_hex_digit a b ha.hex hb.hex;
}

hex_word-IsHex : (w : ℕ) → IsHex 8 (hex_word w)
unfolding hex_word
hex_word-IsHex w = record {
  long = refl;
  hex =
      rw
        (
          digit (w / 16 ^ 7),
          digit (w / 16 ^ 6),
          digit (w / 16 ^ 5),
          digit (w / 16 ^ 4),
          digit (w / 16 ^ 3),
          digit (w / 16 ^ 2),
          digit (w / 16),
          digit w,
        )
        refl;
}
  where
    digit : (n : ℕ) → is_hex_digit (hex_digit (n % 16)) ≡ true
    digit n = hex_digit-hex (n % 16) (omega arith)

hex_state-IsHex : (s : State) → IsHex 64 (hex_state s)
unfolding hex_state
hex_state-IsHex s = IsHex-append 8 56 _ _ (hex_word-IsHex s.a) (
    IsHex-append 8 48 _ _ (hex_word-IsHex s.b) (
      IsHex-append 8 40 _ _ (hex_word-IsHex s.c) (
        IsHex-append 8 32 _ _ (hex_word-IsHex s.d) (
          IsHex-append 8 24 _ _ (hex_word-IsHex s.e) (
            IsHex-append 8 16 _ _ (hex_word-IsHex s.f)
              (IsHex-append 8 8 _ _ (hex_word-IsHex s.g) (hex_word-IsHex s.h)))))))

sha256_hex-IsHex : (bytes : Bytes) → IsHex 64 (sha256_hex bytes)
unfolding sha256_hex
sha256_hex-IsHex bytes = hex_state-IsHex _

-- The fingerprint of every message has 32 lowercase hexadecimal digits, and what is hashed for it is
-- padded to whole blocks of 64 bytes: the loop that pads ends.
pub fingerprint_form :
    (message : Bytes)
    → (length (message_fingerprint message) ≡ 32)
      × (all is_hex_digit (message_fingerprint message) ≡ true)
      × (length (padded (normalize_message message)) % 64 ≡ 0)
unfolding message_fingerprint
fingerprint_form message =
    let text = sha256_hex (normalize_message message) in
    let form = sha256_hex-IsHex (normalize_message message) in
    (
      omega (arith, length-take 32 text, form.long),
      all-take is_hex_digit 32 text form.hex,
      length-padded (normalize_message message),
    )
