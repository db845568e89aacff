-- ===== src/Proto/Hello.antt =====
-- The opening of a session in crates/agent-seat-proto/src/message.rs: `Hello`, `Welcome`,
-- `Limits`, `Goodbye` and their validation.
use agent_seat_proto.Prelude.{
  ℕ, String, Bool, false, not, ◌&&◌, ◌||◌, ltb, ◌==◌, if◌then◌else◌, Option, none, some, is_empty,
  Result, ok, err, ◌>>◌, check,
}
use agent_seat_proto.Prelude.Text.{same}
use agent_seat_proto.Proto.Limits.{
  protocol_name, protocol_revision, max_name_bytes, max_version_bytes, max_purpose_bytes,
  max_diagnostic_bytes, max_capabilities, max_features, max_request_frame_bytes,
  max_response_frame_bytes, max_events, max_poll_wait_ms,
}
use agent_seat_proto.Proto.Bounded.{BoundedText, BoundedList}
use agent_seat_proto.Proto.Order.{strictly_ordered}
use agent_seat_proto.Proto.Identity.{SessionId}
use agent_seat_proto.Proto.Capability.{Capability, capability_ord, Feature, feature_ord}

abbrev pub Name : Type 0
Name = BoundedText max_name_bytes

abbrev pub Version : Type 0
Version = BoundedText max_version_bytes

abbrev pub Purpose : Type 0
Purpose = BoundedText max_purpose_bytes

abbrev pub Diagnostic : Type 0
Diagnostic = BoundedText max_diagnostic_bytes

-- A validation failure is the text that the source returns.
abbrev pub Validated : Type 0
Validated = Result String (Unit {0})

pub record PeerInfo : Type 0 where
  pub name : Name
  pub version : Version
  pub purpose : Purpose

unfoldable pub validate_peer : PeerInfo → Validated
validate_peer p =
    if is_empty p.name.text
    then err "peer name is empty"
    else if is_empty p.version.text
    then err "peer version is empty"
    else if is_empty p.purpose.text
    then err "peer purpose is empty"
    else ok tt

pub record Hello : Type 0 where
  pub protocol : Name
  pub revision : ℕ
  pub peer : PeerInfo
  pub requested : BoundedList Capability max_capabilities

unfoldable pub is_compatible : Hello → Bool
is_compatible h = same h.protocol.text protocol_name && h.revision == protocol_revision

unfoldable pub validate_hello : Hello → Validated
validate_hello h =
    validate_peer h.peer
    >> check (strictly_ordered h.requested.items)
        "requested capabilities must be unique and canonically ordered"

pub record ProviderInfo : Type 0 where
  pub name : Name
  pub version : Version

unfoldable pub validate_provider : ProviderInfo → Validated
validate_provider p =
    if is_empty p.name.text || is_empty p.version.text
    then err "provider name and version must be nonempty"
    else ok tt

pub data Backend : Type 0 where
  x11_ewmh : Backend

pub data Assurance : Type 0 where
  tier0 : Assurance

pub record Limits : Type 0 where
  pub request_frame_bytes : ℕ
  pub response_frame_bytes : ℕ
  pub events_per_poll : ℕ
  pub poll_wait_ms : ℕ

unfoldable pub validate_limits : Limits → Validated
validate_limits l =
    if l.request_frame_bytes == 0
      || ltb max_request_frame_bytes l.request_frame_bytes
      || l.response_frame_bytes == 0
      || ltb max_response_frame_bytes l.response_frame_bytes
      || l.events_per_poll == 0
      || ltb max_events l.events_per_poll
      || ltb max_poll_wait_ms l.poll_wait_ms
    then err "provider limits are outside revision bounds"
    else ok tt

pub record Welcome : Type 0 where
  pub protocol : Name
  pub revision : ℕ
  pub session : SessionId
  pub provider : ProviderInfo
  pub backend : Backend
  pub assurance : Assurance
  pub features : BoundedList Feature max_features
  pub granted : BoundedList Capability max_capabilities
  pub limits : Limits

unfoldable pub validate_welcome : Welcome → Validated
validate_welcome w =
    if not (same w.protocol.text protocol_name) || not (w.revision == protocol_revision)
    then err "welcome protocol or revision is incompatible"
    else validate_provider w.provider
      >> (validate_limits w.limits
          >> (if not (strictly_ordered w.features.items) || not (strictly_ordered w.granted.items)
              then err "welcome features and grants must be canonically ordered"
              else ok tt))

pub data ErrorCode : Type 0 where
  unavailable incompatible_revision refused no_such_client stale unsupported timed_out : ErrorCode
  invalid_argument malformed too_large internal resync_required revoked session_closed : ErrorCode

-- `ErrorCode::as_str`
unfoldable pub error_code_text : ErrorCode → String
error_code_text unavailable = "unavailable"
error_code_text incompatible_revision = "incompatible_revision"
error_code_text refused = "refused"
error_code_text no_such_client = "no_such_client"
error_code_text stale = "stale"
error_code_text unsupported = "unsupported"
error_code_text timed_out = "timed_out"
error_code_text invalid_argument = "invalid_argument"
error_code_text malformed = "malformed"
error_code_text too_large = "too_large"
error_code_text internal = "internal"
error_code_text resync_required = "resync_required"
error_code_text revoked = "revoked"
error_code_text session_closed = "session_closed"

-- `option.as_ref().is_some_and(|text| text.is_empty())`
abbrev pub is_some_empty : {max : ℕ} → Option (BoundedText max) → Bool
is_some_empty none = false
is_some_empty (some t) = is_empty t.text

pub record Goodbye : Type 0 where
  pub code : ErrorCode
  pub message : Option Diagnostic

unfoldable pub validate_goodbye : Goodbye → Validated
validate_goodbye g = if is_some_empty g.message then err "goodbye diagnostic is empty" else ok tt
