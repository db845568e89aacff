-- ===== src/Proto/Page.antt =====
-- `ApplicationDescriptor` and `ApplicationPage` of crates/agent-seat-proto/src/message.rs.
pub mod Laws
use agent_seat_proto.Prelude.{
  ℕ, ◌*◌, Bool, true, false, not, ◌&&◌, ◌||◌, ltb, ◌==◌, if◌then◌else◌, Option, none, some, List,
  [], ◌∷◌, all, is_empty, ok, err, ◌>>=◌, ◌>>◌, ok_or, String,
}
use agent_seat_proto.Prelude.Text.{Str, chars, as_bytes}
use agent_seat_proto.Proto.Limits.{
  max_applications, max_capture_data_bytes, max_capture_height, max_capture_pixels,
  max_capture_width, max_text_transfer_bytes,
}
use agent_seat_proto.Proto.Bounded.{BoundedText, BoundedList}
use agent_seat_proto.Proto.Order.{windows}
use agent_seat_proto.Proto.Identity.{
  ClientId, Generation, LaunchToken, RequestId, Sequence, SessionId,
}
use agent_seat_proto.Proto.Hello.{Validated, Name, Diagnostic, Assurance, ErrorCode, is_some_empty}
use agent_seat_proto.Proto.Requests.{TargetRequest, validate_target, ApplicationId, ends_with}
use agent_seat_proto.Proto.Region.{CaptureRegion, validate_capture_region, checked_mul_usize}
use agent_seat_proto.Proto.Image.{valid_png_base64}
use agent_seat_proto.Proto.Desktop.{
  DesktopSnapshot, validate_snapshot, EventBatch, validate_batch, validate_each,
}

pub record ApplicationDescriptor : Type 0 where
  pub id : ApplicationId
  pub name : Name
  pub user_entry : Bool

unfoldable pub validate_application : ApplicationDescriptor → Validated
validate_application a =
    if is_empty a.id.text || not (ends_with a.id.text (chars ".desktop")) || is_empty a.name.text
    then err "application descriptor is not canonical"
    else ok tt

-- `<` on `str`: the bytes in dictionary order.
unfoldable pub lex_less : List ℕ → List ℕ → Bool
lex_less [] [] = false
lex_less [] (y ∷ ys) = true
lex_less (x ∷ xs) [] = false
lex_less (x ∷ xs) (y ∷ ys) = ltb x y || (x == y && lex_less xs ys)

abbrev pub str_less : Str → Str → Bool
str_less s t = lex_less (as_bytes s) (as_bytes t)

pub record ApplicationPage : Type 0 where
  pub applications : BoundedList ApplicationDescriptor max_applications
  pub next_cursor : Option ℕ

unfoldable pub validate_page : ApplicationPage → Validated
validate_page p =
    validate_each validate_application p.applications.items
    >> (if not (all (λ pair. str_less pair.0.id.text pair.1.id.text) (windows p.applications.items))
        then err "application IDs must be unique and canonically ordered"
        else ok tt)
