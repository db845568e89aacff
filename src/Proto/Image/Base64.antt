-- ===== src/Proto/Image/Base64.antt =====
-- The reference encoding of RFC 4648, beside `valid_png_base64` of
-- crates/agent-seat-proto/src/message.rs.
use agent_seat_proto.Prelude.{ℕ, ◌+◌, ◌-◌, ◌*◌, ◌/◌, ◌%◌, ltb, ◌==◌, if◌then◌else◌, List, [], ◌∷◌}

-- The letter of a 6-bit value.
unfoldable pub base64_char : ℕ → ℕ
base64_char v =
    if ltb v 26
    then v + b'A'
    else if ltb v 52
    then v - 26 + b'a'
    else if ltb v 62
    then v - 52 + b'0'
    else if v == 62
    then b'+'
    else b'/'

unfoldable pub encode : List ℕ → List ℕ
encode [] = []
encode (a ∷ []) = base64_char (a / 4) ∷ base64_char (a % 4 * 16) ∷ b'=' ∷ b'=' ∷ []
encode (a ∷ b ∷ []) =
    base64_char (a / 4) ∷ base64_char (a % 4 * 16 + b / 16) ∷ base64_char (b % 16 * 4) ∷ b'=' ∷ []
encode (a ∷ b ∷ c ∷ rest) =
    base64_char (a / 4)
    ∷ base64_char (a % 4 * 16 + b / 16)
    ∷ base64_char (b % 16 * 4 + c / 64)
    ∷ base64_char (c % 64)
    ∷ encode rest
