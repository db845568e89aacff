-- ===== src/Proto/Captures/Laws.antt =====
-- The captures of crates/agent-seat-proto/src/message.rs that are admitted.
use agent_seat_proto.Prelude.{◌*◌, ◌<◌, ◌≤◌, ◌≡◌, List, ℕ, true, ok, arith}
use agent_seat_proto.Prelude.Text.{as_bytes}
use agent_seat_proto.Proto.Image.{valid_png_base64}
use agent_seat_proto.Proto.Image.Canonical.{Encodes, valid_png_base64-Encodes}
use agent_seat_proto.Proto.Region.{validate_capture_region, checked_mul_usize}
use agent_seat_proto.Proto.Requests.{validate_target}
use agent_seat_proto.Proto.Region.Laws.{IsInside, validate_capture_region-IsInside}
use agent_seat_proto.Proto.Captures.{
  CaptureReply, validate_capture, CaptureRegionReply, validate_capture_region_reply,
}

record Sized (r : CaptureReply) : Type 0 where
  wide : 0 < r.width
  high : 0 < r.height
  narrow : r.width ≤ 2048
  short : r.height ≤ 2048
  area : r.width * r.height ≤ 1920 * 1080
  image : valid_png_base64 (as_bytes r.content.text) ≡ true

validate_capture-Sized : (r : CaptureReply) → validate_capture r ≡ ok tt → Sized r
unfolding validate_capture checked_mul_usize validate_target
validate_capture-Sized r h = ground arith

-- An admitted capture is not empty, at most 2048 wide and high and at most 1920 * 1080 pixels in
-- all, and its data are the padded base64 encoding of bytes that begin with the PNG signature.
pub validate_capture-canonical :
    (r : CaptureReply)
    → validate_capture r ≡ ok tt
    → (0 < r.width)
      × (r.width ≤ 2048)
      × (0 < r.height)
      × (r.height ≤ 2048)
      × (r.width * r.height ≤ 1920 * 1080)
      × ((rest : List ℕ) × Encodes (as_bytes r.content.text) rest)
validate_capture-canonical r h =
    let s = validate_capture-Sized r h in
    (s.wide, s.narrow, s.high, s.short, s.area, valid_png_base64-Encodes _ s.image)

region_parts :
    (r : CaptureRegionReply)
    → validate_capture_region_reply r ≡ ok tt
    → (validate_capture_region r.region ≡ ok tt)
      × (valid_png_base64 (as_bytes r.content.text) ≡ true)
unfolding validate_capture_region_reply validate_target
region_parts r h = ground arith

-- An admitted region capture has a region that lies inside the largest capture, and its data are
-- the padded base64 encoding of bytes that begin with the PNG signature.
pub validate_capture_region_reply-canonical :
    (r : CaptureRegionReply)
    → validate_capture_region_reply r ≡ ok tt
    → IsInside r.region × ((rest : List ℕ) × Encodes (as_bytes r.content.text) rest)
validate_capture_region_reply-canonical r h =
    let (region, image) = region_parts r h in
    (validate_capture_region-IsInside r.region region, valid_png_base64-Encodes _ image)
