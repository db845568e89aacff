-- ===== src/Proto/Region/Laws.antt =====
-- The capture regions of crates/agent-seat-proto/src/message.rs that are admitted.
use agent_seat_proto.Prelude.{◌+◌, ◌*◌, ◌^◌, ◌≤◌, ◌<◌, ◌≡◌, arith, ok}
use agent_seat_proto.Proto.Region.{CaptureRegion, validate_capture_region}

-- The fields of the wire type are `u16`.
pub record IsU16 (r : CaptureRegion) : Type 0 where
  pub x_fits : r.x < 2 ^ 16
  pub y_fits : r.y < 2 ^ 16
  pub width_fits : r.width < 2 ^ 16
  pub height_fits : r.height < 2 ^ 16

-- The region is nonempty, no larger than its own bounds, and lies within the largest capture.
pub record IsInside (r : CaptureRegion) : Type 0 where
  pub wide : 0 < r.width
  pub high : 0 < r.height
  pub narrow : r.width ≤ 1024
  pub short : r.height ≤ 1024
  pub area : r.width * r.height ≤ 262144
  pub right : r.x + r.width ≤ 2048
  pub bottom : r.y + r.height ≤ 2048

-- An admitted capture region is not empty, within its own bounds, and inside the largest capture.
pub validate_capture_region-IsInside :
    (r : CaptureRegion) → validate_capture_region r ≡ ok tt → IsInside r
unfolding validate_capture_region
validate_capture_region-IsInside r h = ground arith

-- A region of 16-bit coordinates that is not empty, within its own bounds, and inside the largest
-- capture is admitted: no checked sum or product overflows.
pub IsInside-validate_capture_region :
    (r : CaptureRegion) → IsU16 r → IsInside r → validate_capture_region r ≡ ok tt
unfolding validate_capture_region
IsInside-validate_capture_region r u h = ground arith
