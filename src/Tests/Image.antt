-- ===== src/Tests/Image.antt =====
-- The capture check at small images.
use agent_seat_proto.Prelude.{ℕ, ◌≡◌, refl, true, List, ok}
use agent_seat_proto.Prelude.Text.{chars, as_bytes, same}
use agent_seat_proto.Proto.Image.{
  valid_png_base64, starts_with, count_while, valid_padding, padding_bits, is_alphabet,
}
use agent_seat_proto.Proto.Image.Canonical.{Encodes, valid_png_base64-Encodes}
use agent_seat_proto.Proto.Region.{CaptureRegion, validate_capture_region, checked_mul_usize}
use agent_seat_proto.Proto.Requests.{validate_target}
use agent_seat_proto.Proto.Captures.{
  CaptureReply, CaptureRegionReply, png, validate_capture, validate_capture_region_reply,
}

-- The signature and one zero byte.
abbrev png_text : List ℕ
png_text = chars "iVBORw0KGgoA"

png_text-valid : valid_png_base64 png_text ≡ true
unfolding valid_png_base64 starts_with same count_while valid_padding padding_bits is_alphabet
png_text-valid = refl

valid_png_base64-Encodes_example : (rest : List ℕ) × Encodes png_text rest
valid_png_base64-Encodes_example = valid_png_base64-Encodes png_text png_text-valid

abbrev corner : CaptureRegion
corner = record { x = 1024; y = 1792; width = 1024; height = 256 }

corner-validate : validate_capture_region corner ≡ ok tt
unfolding validate_capture_region
corner-validate = refl

abbrev icon : CaptureReply
icon = record {
  target = record { client = 7; generation = 1 };
  width = 32;
  height = 16;
  format = png;
  content = record { text = png_text };
}

icon-validate : validate_capture icon ≡ ok tt
unfolding validate_capture validate_target checked_mul_usize valid_png_base64 starts_with same
    count_while valid_padding padding_bits is_alphabet as_bytes
icon-validate = refl

abbrev icon_region : CaptureRegionReply
icon_region = record {
  target = record { client = 7; generation = 1 };
  region = corner;
  format = png;
  content = record { text = png_text };
}

icon_region-validate : validate_capture_region_reply icon_region ≡ ok tt
unfolding validate_capture_region_reply validate_target validate_capture_region valid_png_base64
    starts_with same count_while valid_padding padding_bits is_alphabet as_bytes
icon_region-validate = refl
