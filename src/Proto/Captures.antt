-- ===== src/Proto/Captures.antt =====
-- `CaptureReply` and `CaptureRegionReply` of crates/agent-seat-proto/src/message.rs.
pub mod Laws
use agent_seat_proto.Prelude.{
  ℕ, ◌*◌, Bool, true, false, not, ◌&&◌, ◌||◌, ltb, ◌==◌, if◌then◌else◌, Option, none, some, List,
  [], ◌∷◌, all, is_empty, ok, err, ◌>>=◌, ◌>>◌, ok_or, String,
}
use agent_seat_proto.Prelude.Text.{Str, chars, as_bytes}
use agent_seat_proto.Proto.Limits.{
  max_applications, max_capture_data_bytes, max_capture_height, max_capture_pixels,
  max_capture_width, max_text_transfer_bytes,
}
use agent_seat_proto.Proto.Bounded.{BoundedText, BoundedList}
use agent_seat_proto.Proto.Order.{windows}
use agent_seat_proto.Proto.Identity.{
  ClientId, Generation, LaunchToken, RequestId, Sequence, SessionId,
}
use agent_seat_proto.Proto.Hello.{Validated, Name, Diagnostic, Assurance, ErrorCode, is_some_empty}
use agent_seat_proto.Proto.Requests.{TargetRequest, validate_target, ApplicationId, ends_with}
use agent_seat_proto.Proto.Region.{CaptureRegion, validate_capture_region, checked_mul_usize}
use agent_seat_proto.Proto.Image.{valid_png_base64}
use agent_seat_proto.Proto.Desktop.{
  DesktopSnapshot, validate_snapshot, EventBatch, validate_batch, validate_each,
}

pub data CaptureFormat : Type 0 where
  png : CaptureFormat

abbrev pub CaptureData : Type 0
CaptureData = BoundedText max_capture_data_bytes

pub record CaptureReply : Type 0 where
  pub target : TargetRequest
  pub width : ℕ
  pub height : ℕ
  pub format : CaptureFormat
  pub content : CaptureData

unfoldable pub validate_capture : CaptureReply → Validated
validate_capture r =
    validate_target r.target
    >> (ok_or (checked_mul_usize r.width r.height) "capture dimensions overflow" >>= λ pixels.
        if r.width == 0
          || r.height == 0
          || ltb max_capture_width r.width
          || ltb max_capture_height r.height
          || ltb max_capture_pixels pixels
        then err "capture dimensions are outside revision bounds"
        else if not (valid_png_base64 (as_bytes r.content.text))
        then err "capture data is not a canonical base64 PNG"
        else ok tt)

pub record CaptureRegionReply : Type 0 where
  pub target : TargetRequest
  pub region : CaptureRegion
  pub format : CaptureFormat
  pub content : CaptureData

unfoldable pub validate_capture_region_reply : CaptureRegionReply → Validated
validate_capture_region_reply r =
    validate_target r.target
    >> (validate_capture_region r.region
        >> (if not (valid_png_base64 (as_bytes r.content.text))
            then err "capture data is not a canonical base64 PNG"
            else ok tt))
