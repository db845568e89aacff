-- ===== src/Proto/Text.antt =====
-- Text admitted for typing and transfer: `validate_text_content` of
-- crates/agent-seat-proto/src/message.rs and its two sets of diagnostics. A `usize` has 64 bits.
use agent_seat_proto.Prelude.{
  ℕ, ◌+◌, ◌^◌, ◌-◌, String, Bool, not, ◌&&◌, ◌||◌, ltb, leb, ◌==◌, if◌then◌else◌, [], ◌∷◌, is_empty,
  Result, ok, err, ◌>>=◌,
}
use agent_seat_proto.Prelude.Text.{Str}

pub record TextValidationErrors : Type 0 where
  pub empty : String
  pub control : String
  pub bound : String

abbrev pub keyboard_errors : TextValidationErrors
keyboard_errors = record {
  empty = "keyboard text is empty";
  control = "keyboard text contains an unsupported control character";
  bound = "keyboard text exceeds the action bound";
}

abbrev pub transfer_errors : TextValidationErrors
transfer_errors = record {
  empty = "transfer text is empty";
  control = "transfer text contains an unsupported control character";
  bound = "transfer text exceeds the scalar bound";
}

-- `char::is_control`: the general category Cc.
unfoldable pub is_control : ℕ → Bool
is_control c = ltb c 0x20 || (leb 0x7f c && leb c 0x9f)

abbrev pub newline : ℕ
newline = 10

abbrev pub tab : ℕ
tab = 9

unfoldable pub is_refused : ℕ → Bool
unfolding is_control
is_refused c = is_control c && not (c == newline || c == tab)

-- The loop over `text.chars()`, with its checked counter.
pub count_scalars : TextValidationErrors → ℕ → Str → Result String ℕ
unfolding is_refused
count_scalars errors scalars [] = ok scalars
count_scalars errors scalars (c ∷ rest) =
    if is_refused c
    then err errors.control
    else if ltb scalars (2 ^ 64 - 1)
    then count_scalars errors (scalars + 1) rest
    else err "text scalar count overflowed"

unfoldable pub validate_text_content : Str → ℕ → TextValidationErrors → Result String (Unit {0})
unfolding count_scalars
validate_text_content text maximum_scalars errors = if is_empty text then err errors.empty else do
  scalars ← count_scalars errors 0 text
  if ltb maximum_scalars scalars then err errors.bound else ok tt

unfoldable pub validate_keyboard_text : Str → ℕ → Result String (Unit {0})
unfolding validate_text_content
validate_keyboard_text text maximum_actions =
    validate_text_content text maximum_actions keyboard_errors
