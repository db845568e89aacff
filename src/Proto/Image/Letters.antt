-- ===== src/Proto/Image/Letters.antt =====
-- The base64 letters and their 6-bit values, for `valid_png_base64` of
-- crates/agent-seat-proto/src/message.rs.
use agent_seat_proto.Prelude.{
  ℕ, zero, suc, ◌%◌, ◌<◌, ◌≡◌, refl, arith, Bool, true, false, ◌&&◌, ◌==◌, ==_iff, none, some,
}
use Prim.Native.Nat.{bit_and}
use agent_seat_proto.Proto.Image.{base64_value, is_alphabet, is_pad}
use agent_seat_proto.Proto.Image.Base64.{base64_char}

-- The value of a letter, 0 for any other byte.
abbrev pub val : ℕ → ℕ
val byte = elim (base64_value byte) [ none ↦ 0 | some v ↦ v ]

pub base64_value-letter : (byte : ℕ) → is_alphabet byte ≡ true → base64_value byte ≡ some (val byte)
unfolding is_alphabet base64_value
base64_value-letter byte h = ground arith

pub val-lt : (byte : ℕ) → val byte < 64
unfolding base64_value
val-lt byte = ground arith

pub base64_char-val : (byte : ℕ) → is_alphabet byte ≡ true → base64_char (val byte) ≡ byte
unfolding is_alphabet base64_value base64_char
base64_char-val byte h = ground arith

pub val-base64_char : (v : ℕ) → v < 64 → base64_value (base64_char v) ≡ some v
unfolding base64_value base64_char
val-base64_char v h = ground arith

pub is_alphabet-base64_char : (v : ℕ) → v < 64 → is_alphabet (base64_char v) ≡ true
unfolding is_alphabet base64_char
is_alphabet-base64_char v h = ground arith

pub is_pad-letter : (byte : ℕ) → is_alphabet byte ≡ true → is_pad byte ≡ false
unfolding is_alphabet
is_pad-letter byte h = ground arith

pub is_alphabet-pad : is_alphabet b'=' ≡ false
unfolding is_alphabet
is_alphabet-pad = refl

-- Masks of 6-bit values as remainders, by evaluation.
checks_under : (ℕ → Bool) → ℕ → Bool
checks_under test zero = true
checks_under test (suc bound) = checks_under test bound && test bound

checks_under_lem :
    (test : ℕ → Bool) (v bound : ℕ) → v < bound → checks_under test bound ≡ true → test v ≡ true
unfolding checks_under
checks_under_lem test v (suc bound) inside passed = ground (arith, checks_under_lem test v bound)
checks_under_lem test v zero inside passed = absurd (omega arith)

mask3_table : checks_under (λ v. bit_and v 3 == v % 4) 64 ≡ true
unfolding checks_under
mask3_table = refl

mask15_table : checks_under (λ v. bit_and v 15 == v % 16) 64 ≡ true
unfolding checks_under
mask15_table = refl

pub mask3 : (v : ℕ) → v < 64 → bit_and v 3 ≡ v % 4
mask3 v h = (==_iff _ _).0 (checks_under_lem _ v 64 h mask3_table)

pub mask15 : (v : ℕ) → v < 64 → bit_and v 15 ≡ v % 16
mask15 v h = (==_iff _ _).0 (checks_under_lem _ v 64 h mask15_table)
