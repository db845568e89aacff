-- ===== src/Proto/Region.antt =====
-- `CaptureRegion` of crates/agent-seat-proto/src/message.rs, with its checked arithmetic: a
-- coordinate is a `u16`, a `usize` has 64 bits.
pub mod Laws
use agent_seat_proto.Prelude.{
  ℕ, ◌+◌, ◌*◌, ◌^◌, ◌-◌, String, Bool, true, false, not, ◌&&◌, ◌||◌, ltb, ◌==◌, if◌then◌else◌,
  Option, none, some, List, [], ◌∷◌, any, is_empty, Result, ok, err, ◌>>=◌, ◌>>◌, check, ok_or,
}
use agent_seat_proto.Prelude.Int.{ℤ}
use agent_seat_proto.Prelude.Text.{Str, chars, same}
use agent_seat_proto.Proto.Limits.{
  max_application_id_bytes, max_applications, max_capture_height, max_capture_region_height,
  max_capture_region_pixels, max_capture_region_width, max_capture_width, max_events,
  max_input_actions, max_input_text_bytes, max_keyboard_modifiers, max_long_input_actions,
  max_long_input_text_bytes, max_poll_wait_ms, max_text_transfer_bytes, max_text_transfer_scalars,
}
use agent_seat_proto.Proto.Bounded.{BoundedText, BoundedList}
use agent_seat_proto.Proto.Order.{Ord, rank_ord, strictly_ordered}
use agent_seat_proto.Proto.Identity.{ClientId, Generation, Sequence, WorkspaceId}
use agent_seat_proto.Proto.Text.{validate_text_content, validate_keyboard_text, transfer_errors}
use agent_seat_proto.Proto.Keyboard.{KeyboardKey, KeyboardModifier, modifier_ord, PointerButton}
use agent_seat_proto.Proto.Hello.{Validated}
use agent_seat_proto.Proto.Requests.{TargetRequest, validate_target}

pub record CaptureRegion : Type 0 where
  pub x : ℕ
  pub y : ℕ
  pub width : ℕ
  pub height : ℕ

-- `u16::checked_add`, and `usize::checked_mul` on 64 bits.
unfoldable pub checked_add_u16 : ℕ → ℕ → Option ℕ
checked_add_u16 a b = if ltb (a + b) (2 ^ 16) then some (a + b) else none

unfoldable pub checked_mul_usize : ℕ → ℕ → Option ℕ
checked_mul_usize a b = if ltb (a * b) (2 ^ 64) then some (a * b) else none

unfoldable pub validate_capture_region : CaptureRegion → Validated
unfolding checked_add_u16 checked_mul_usize
validate_capture_region r = do
  pixels ← ok_or (checked_mul_usize r.width r.height) "capture region dimensions overflow"
  right ← ok_or (checked_add_u16 r.x r.width) "capture region horizontal extent overflowed"
  bottom ← ok_or (checked_add_u16 r.y r.height) "capture region vertical extent overflowed"
  if r.width == 0
        || r.height == 0
        || ltb max_capture_region_width r.width
        || ltb max_capture_region_height r.height
        || ltb max_capture_region_pixels pixels
        || ltb max_capture_width right
        || ltb max_capture_height bottom
      then err "capture region is outside revision bounds"
      else ok tt

pub record CaptureRegionRequest : Type 0 where
  pub target : TargetRequest
  pub region : CaptureRegion

unfoldable pub validate_capture_region_request : CaptureRegionRequest → Validated
validate_capture_region_request r = validate_target r.target >> validate_capture_region r.region
