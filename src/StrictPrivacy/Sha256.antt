-- ===== src/StrictPrivacy/Sha256.antt =====
-- src/strict_privacy.cpp: SHA-256 over 32-bit words, and the fingerprint of a message.
pub mod Digest
mod Tests
use Prim.Native.Nat.{bit_and, bit_or, bit_xor}
use forge_ops_tracker_cpp.Prelude.{
  ℕ, zero, suc, ◌+◌, ◌-◌, ◌*◌, ◌/◌, ◌%◌, ◌^◌, List, [], ◌∷◌, ◌++◌, Bytes, length, take, drop, ◌==◌,
  if◌then◌else◌,
}
use forge_ops_tracker_cpp.TraceParent.{hex_digit}
use forge_ops_tracker_cpp.StrictPrivacy.Messages.{normalize_message}

-- std::uint32_t
abbrev u32 : ℕ → ℕ
u32 n = n % 2 ^ 32

abbrev rotate_right : ℕ → ℕ → ℕ
rotate_right value bits = bit_or (value / 2 ^ bits) (u32 (value * 2 ^ (32 - bits)))

abbrev k_round_constants : List ℕ
k_round_constants =
    0x428a_2f98 ∷ 0x7137_4491 ∷ 0xb5c0_fbcf ∷ 0xe9b5_dba5 ∷ 0x3956_c25b ∷ 0x59f1_11f1 ∷ 0x923f_82a4
    ∷ 0xab1c_5ed5 ∷ 0xd807_aa98 ∷ 0x1283_5b01 ∷ 0x2431_85be ∷ 0x550c_7dc3 ∷ 0x72be_5d74
    ∷ 0x80de_b1fe ∷ 0x9bdc_06a7 ∷ 0xc19b_f174 ∷ 0xe49b_69c1 ∷ 0xefbe_4786 ∷ 0x0fc1_9dc6
    ∷ 0x240c_a1cc ∷ 0x2de9_2c6f ∷ 0x4a74_84aa ∷ 0x5cb0_a9dc ∷ 0x76f9_88da ∷ 0x983e_5152
    ∷ 0xa831_c66d ∷ 0xb003_27c8 ∷ 0xbf59_7fc7 ∷ 0xc6e0_0bf3 ∷ 0xd5a7_9147 ∷ 0x06ca_6351
    ∷ 0x1429_2967 ∷ 0x27b7_0a85 ∷ 0x2e1b_2138 ∷ 0x4d2c_6dfc ∷ 0x5338_0d13 ∷ 0x650a_7354
    ∷ 0x766a_0abb ∷ 0x81c2_c92e ∷ 0x9272_2c85 ∷ 0xa2bf_e8a1 ∷ 0xa81a_664b ∷ 0xc24b_8b70
    ∷ 0xc76c_51a3 ∷ 0xd192_e819 ∷ 0xd699_0624 ∷ 0xf40e_3585 ∷ 0x106a_a070 ∷ 0x19a4_c116
    ∷ 0x1e37_6c08 ∷ 0x2748_774c ∷ 0x34b0_bcb5 ∷ 0x391c_0cb3 ∷ 0x4ed8_aa4a ∷ 0x5b9c_ca4f
    ∷ 0x682e_6ff3 ∷ 0x748f_82ee ∷ 0x78a5_636f ∷ 0x84c8_7814 ∷ 0x8cc7_0208 ∷ 0x90be_fffa
    ∷ 0xa450_6ceb ∷ 0xbef9_a3f7 ∷ 0xc671_78f2 ∷ []

pub record State : Type 0 where
  pub a : ℕ
  pub b : ℕ
  pub c : ℕ
  pub d : ℕ
  pub e : ℕ
  pub f : ℕ
  pub g : ℕ
  pub h : ℕ

abbrev initial : State
initial = record {
  a = 0x6a09_e667;
  b = 0xbb67_ae85;
  c = 0x3c6e_f372;
  d = 0xa54f_f53a;
  e = 0x510e_527f;
  f = 0x9b05_688c;
  g = 0x1f83_d9ab;
  h = 0x5be0_cd19;
}

-- How many zeros the loop adds to a text of that size. The fuel is enough at 64.
pub zeros_after : ℕ → ℕ → ℕ
zeros_after zero size = 0
zeros_after (suc fuel) size =
    let more = zeros_after fuel (size + 1) in if size % 64 == 56 then 0 else suc more

pub zeros : ℕ → Bytes
zeros zero = []
zeros (suc n) = 0 ∷ zeros n

-- The length in bits, wrapped as a std::uint64_t, in eight bytes.
pub length_bytes : ℕ → Bytes
length_bytes size =
    let bits = size * 8 % 2 ^ 64 in
    bits / 2 ^ 56 % 256
    ∷ bits / 2 ^ 48 % 256
    ∷ bits / 2 ^ 40 % 256
    ∷ bits / 2 ^ 32 % 256
    ∷ bits / 2 ^ 24 % 256
    ∷ bits / 2 ^ 16 % 256
    ∷ bits / 2 ^ 8 % 256
    ∷ bits % 256
    ∷ []

pub padded : Bytes → Bytes
unfolding zeros_after zeros length_bytes
padded bytes =
    bytes ++ 0x80 ∷ (zeros (zeros_after 64 (length bytes + 1)) ++ length_bytes (length bytes))

-- The big-endian words of a block, the last one first.
words_onto : List ℕ → Bytes → List ℕ
words_onto w (p ∷ q ∷ r ∷ s ∷ rest) =
    words_onto (bit_or (p * 2 ^ 24) (bit_or (q * 2 ^ 16) (bit_or (r * 2 ^ 8) s)) ∷ w) rest
words_onto w _ = w

nth : List ℕ → ℕ → ℕ
nth [] i = 0
nth (x ∷ w) zero = x
nth (x ∷ w) (suc i) = nth w i

abbrev small_zero : ℕ → ℕ
small_zero x = bit_xor (bit_xor (rotate_right x 7) (rotate_right x 18)) (x / 2 ^ 3)

abbrev small_one : ℕ → ℕ
small_one x = bit_xor (bit_xor (rotate_right x 17) (rotate_right x 19)) (x / 2 ^ 10)

-- `n` further words; w[i - k] is at k - 1.
extended : ℕ → List ℕ → List ℕ
unfolding nth
extended zero w = w
extended (suc n) w =
    extended n (u32 (nth w 15 + small_zero (nth w 14) + nth w 6 + small_one (nth w 1)) ∷ w)

reversed_onto : List ℕ → List ℕ → List ℕ
reversed_onto out [] = out
reversed_onto out (x ∷ w) = reversed_onto (x ∷ out) w

round : ℕ → ℕ → State → State
round k w s =
    let s1 = bit_xor (bit_xor (rotate_right s.e 6) (rotate_right s.e 11)) (rotate_right s.e 25) in
    let choose = bit_xor (bit_and s.e s.f) (bit_and (2 ^ 32 - 1 - s.e) s.g) in
    let temp1 = u32 (s.h + s1 + choose + k + w) in
    let s0 = bit_xor (bit_xor (rotate_right s.a 2) (rotate_right s.a 13)) (rotate_right s.a 22) in
    let majority = bit_xor (bit_xor (bit_and s.a s.b) (bit_and s.a s.c)) (bit_and s.b s.c) in
    let temp2 = u32 (s0 + majority) in
    record {
      a = u32 (temp1 + temp2);
      b = s.a;
      c = s.b;
      d = s.c;
      e = u32 (s.d + temp1);
      f = s.e;
      g = s.f;
      h = s.g;
    }

rounds : List ℕ → List ℕ → State → State
unfolding round
rounds (k ∷ ks) (w ∷ ws) s = rounds ks ws (round k w s)
rounds _ _ s = s

block_step : Bytes → State → State
unfolding words_onto extended reversed_onto rounds
block_step block s =
    let t = rounds k_round_constants (reversed_onto [] (extended 48 (words_onto [] block))) s in
    record {
      a = u32 (s.a + t.a);
      b = u32 (s.b + t.b);
      c = u32 (s.c + t.c);
      d = u32 (s.d + t.d);
      e = u32 (s.e + t.e);
      f = u32 (s.f + t.f);
      g = u32 (s.g + t.g);
      h = u32 (s.h + t.h);
    }

-- The loop over the blocks, of which there are `n`.
blocks_from : ℕ → Bytes → State → State
unfolding block_step
blocks_from zero text s = s
blocks_from (suc n) text s = blocks_from n (drop 64 text) (block_step (take 64 text) s)

-- "%08x"
pub hex_word : ℕ → Bytes
hex_word w =
    hex_digit (w / 16 ^ 7 % 16)
    ∷ hex_digit (w / 16 ^ 6 % 16)
    ∷ hex_digit (w / 16 ^ 5 % 16)
    ∷ hex_digit (w / 16 ^ 4 % 16)
    ∷ hex_digit (w / 16 ^ 3 % 16)
    ∷ hex_digit (w / 16 ^ 2 % 16)
    ∷ hex_digit (w / 16 % 16)
    ∷ hex_digit (w % 16)
    ∷ []

pub hex_state : State → Bytes
hex_state s =
    hex_word s.a
    ++ (hex_word s.b
        ++ (hex_word s.c
            ++ (hex_word s.d
                ++ (hex_word s.e ++ (hex_word s.f ++ (hex_word s.g ++ hex_word s.h))))))

pub sha256_hex : Bytes → Bytes
unfolding padded blocks_from
sha256_hex bytes =
    let text = padded bytes in hex_state (blocks_from (length text / 64) text initial)

abbrev pub k_fingerprint_length : ℕ
k_fingerprint_length = 32

pub message_fingerprint : Bytes → Bytes
message_fingerprint message = take k_fingerprint_length (sha256_hex (normalize_message message))
