-- ===== src/Proto/Input.antt =====
-- The pointer, keyboard and text-transfer calls of crates/agent-seat-proto/src/message.rs.
use agent_seat_proto.Prelude.{ℕ, not, if◌then◌else◌, ok, err, ◌>>◌}
use agent_seat_proto.Proto.Limits.{
  max_input_actions, max_input_text_bytes, max_keyboard_modifiers, max_long_input_actions,
  max_long_input_text_bytes, max_text_transfer_bytes, max_text_transfer_scalars,
}
use agent_seat_proto.Proto.Bounded.{BoundedText, BoundedList}
use agent_seat_proto.Proto.Order.{strictly_ordered}
use agent_seat_proto.Proto.Text.{validate_text_content, validate_keyboard_text, transfer_errors}
use agent_seat_proto.Proto.Keyboard.{KeyboardKey, KeyboardModifier, modifier_ord, PointerButton}
use agent_seat_proto.Proto.Hello.{Validated}
use agent_seat_proto.Proto.Requests.{TargetRequest, validate_target}

pub record PointerMoveRequest : Type 0 where
  pub target : TargetRequest
  pub x : ℕ
  pub y : ℕ

unfoldable pub validate_pointer_move : PointerMoveRequest → Validated
validate_pointer_move r = validate_target r.target

pub record PointerClickRequest : Type 0 where
  pub target : TargetRequest
  pub x : ℕ
  pub y : ℕ
  pub button : PointerButton

unfoldable pub validate_pointer_click : PointerClickRequest → Validated
validate_pointer_click r = validate_target r.target

pub record KeyboardTypeRequest : Type 0 where
  pub target : TargetRequest
  pub text : BoundedText max_input_text_bytes

unfoldable pub validate_keyboard_type : KeyboardTypeRequest → Validated
validate_keyboard_type r =
    validate_target r.target >> validate_keyboard_text r.text.text max_input_actions

pub record KeyboardWriteRequest : Type 0 where
  pub target : TargetRequest
  pub text : BoundedText max_long_input_text_bytes

unfoldable pub validate_keyboard_write : KeyboardWriteRequest → Validated
validate_keyboard_write r =
    validate_target r.target >> validate_keyboard_text r.text.text max_long_input_actions

pub record TextInsertRequest : Type 0 where
  pub target : TargetRequest
  pub text : BoundedText max_text_transfer_bytes

unfoldable pub validate_text_insert : TextInsertRequest → Validated
validate_text_insert r =
    validate_target r.target
    >> validate_text_content r.text.text max_text_transfer_scalars transfer_errors

pub record KeyboardKeyRequest : Type 0 where
  pub target : TargetRequest
  pub key : KeyboardKey
  pub modifiers : BoundedList KeyboardModifier max_keyboard_modifiers

unfoldable pub validate_keyboard_key : KeyboardKeyRequest → Validated
validate_keyboard_key r =
    validate_target r.target
    >> (if not (strictly_ordered r.modifiers.items)
        then err "keyboard modifiers must be unique and canonically ordered"
        else ok tt)
