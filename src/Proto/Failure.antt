-- ===== src/Proto/Failure.antt =====
-- `Retry` and `ProtocolError` of crates/agent-seat-proto/src/message.rs.
use agent_seat_proto.Prelude.{◌||◌, if◌then◌else◌, Option, ok, err, String}
use agent_seat_proto.Proto.Identity.{Generation, Sequence}
use agent_seat_proto.Proto.Hello.{Validated, Name, Diagnostic, ErrorCode, is_some_empty}

pub data Retry : Type 0 where
  never reobserve reconnect : Retry

-- `Retry::as_str`
unfoldable pub retry_text : Retry → String
retry_text never = "never"
retry_text reobserve = "reobserve"
retry_text reconnect = "reconnect"

pub record ProtocolError : Type 0 where
  pub code : ErrorCode
  pub retry : Retry
  pub field : Option Name
  pub message : Option Diagnostic
  pub current_generation : Option Generation
  pub current_sequence : Option Sequence

unfoldable pub validate_error : ProtocolError → Validated
validate_error e =
    if is_some_empty e.field || is_some_empty e.message
    then err "error field or diagnostic is empty"
    else ok tt
