-- ===== src/Proto/Image.antt =====
-- `valid_png_base64` and `base64_value` of crates/agent-seat-proto/src/message.rs.
pub mod Base64
pub mod Letters
pub mod Groups
pub mod Encoded
pub mod Tail
pub mod Canonical
use Prim.Native.Nat.{bit_and}
use agent_seat_proto.Prelude.{
  ℕ, zero, suc, ◌+◌, ◌-◌, ◌%◌, Bool, true, false, not, ◌&&◌, ◌||◌, ltb, leb, ◌==◌, if◌then◌else◌,
  Option, none, some, List, [], ◌∷◌, length, take, drop, all,
}
use agent_seat_proto.Prelude.Text.{chars, same}
use mathlib.Core.List.{reverse}

unfoldable pub base64_value : ℕ → Option ℕ
base64_value byte =
    if leb b'A' byte && leb byte b'Z'
    then some (byte - b'A')
    else if leb b'a' byte && leb byte b'z'
    then some (byte - b'a' + 26)
    else if leb b'0' byte && leb byte b'9'
    then some (byte - b'0' + 52)
    else if byte == b'+'
    then some 62
    else if byte == b'/'
    then some 63
    else none

-- `byte.is_ascii_alphanumeric() || matches!(byte, b'+' | b'/')`
unfoldable pub is_alphabet : ℕ → Bool
is_alphabet byte =
    (leb b'A' byte && leb byte b'Z')
    || (leb b'a' byte && leb byte b'z')
    || (leb b'0' byte && leb byte b'9')
    || byte == b'+'
    || byte == b'/'

abbrev pub is_pad : ℕ → Bool
is_pad byte = byte == b'='

-- `iter().take_while(p).count()`
unfoldable pub count_while : (ℕ → Bool) → List ℕ → ℕ
count_while p [] = 0
count_while p (x ∷ xs) = if p x then suc (count_while p xs) else 0

unfoldable pub last : List ℕ → Option ℕ
last [] = none
last (x ∷ []) = some x
last (x ∷ y ∷ rest) = last (y ∷ rest)

-- `last.and_then(|byte| base64_value(*byte)).is_some_and(|value| value & mask == 0)`
abbrev pub has_zero_bits : ℕ → Option ℕ → Bool
has_zero_bits mask none = false
has_zero_bits mask (some value) = bit_and value mask == 0

abbrev pub value_of : Option ℕ → Option ℕ
value_of none = none
value_of (some byte) = base64_value byte

-- The final `match padding`.
unfoldable pub padding_bits : ℕ → List ℕ → Bool
padding_bits zero body = true
padding_bits (suc zero) body = has_zero_bits 0b11 (value_of (last body))
padding_bits (suc (suc zero)) body = has_zero_bits 0b1111 (value_of (last body))
padding_bits (suc (suc (suc n))) body = false

unfoldable pub valid_padding : List ℕ → ℕ → Bool
valid_padding bytes padding =
    let body = take (length bytes - padding) bytes in
    if ltb 2 padding
    then false
    else if not (all is_alphabet body) || not (all is_pad (drop (length bytes - padding) bytes))
    then false
    else padding_bits padding body

-- `[u8]::starts_with`
unfoldable pub starts_with : List ℕ → List ℕ → Bool
starts_with bytes prefix = same (take (length prefix) bytes) prefix

unfoldable pub valid_png_base64 : List ℕ → Bool
valid_png_base64 bytes =
    if ltb (length bytes) 12
      || not (length bytes % 4 == 0)
      || not (starts_with bytes (chars "iVBORw0KGgo"))
    then false
    else valid_padding bytes (count_while is_pad (reverse bytes))
