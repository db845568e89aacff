-- ===== src/Proto/Replies.antt =====
-- The replies of crates/agent-seat-proto/src/message.rs, `Outcome` and `Response`.
use agent_seat_proto.Prelude.{
  ℕ, Bool, true, false, not, ◌&&◌, ◌||◌, ltb, ◌==◌, if◌then◌else◌, Option, ok, err, ◌>>◌,
}
use agent_seat_proto.Proto.Limits.{max_text_transfer_bytes}
use agent_seat_proto.Proto.Identity.{ClientId, LaunchToken, RequestId, Sequence, SessionId}
use agent_seat_proto.Proto.Hello.{Validated, Assurance}
use agent_seat_proto.Proto.Requests.{TargetRequest, validate_target}
use agent_seat_proto.Proto.Desktop.{DesktopSnapshot, validate_snapshot, EventBatch, validate_batch}
use agent_seat_proto.Proto.Failure.{ProtocolError, validate_error}
use agent_seat_proto.Proto.Captures.{
  CaptureReply, validate_capture, CaptureRegionReply, validate_capture_region_reply,
}
use agent_seat_proto.Proto.Page.{ApplicationPage, validate_page}

pub data InputTerminal : Type 0 where
  queued interrupted : InputTerminal

pub record InputReply : Type 0 where
  pub completed : ℕ
  pub requested : ℕ
  pub terminal : InputTerminal

abbrev pub is_queued : InputTerminal → Bool
is_queued queued = true
is_queued InputTerminal.interrupted = false

unfoldable pub validate_input : InputReply → Validated
validate_input r =
    if r.requested == 0 || ltb r.requested r.completed
    then err "input action counts are invalid"
    else if is_queued r.terminal && not (r.completed == r.requested)
    then err "queued input result is incomplete"
    else ok tt

pub data TextTransferTerminal : Type 0 where
  delivered offered interrupted : TextTransferTerminal

pub record TextTransferReply : Type 0 where
  pub target : TargetRequest
  pub requested_bytes : ℕ
  pub delivered_bytes : ℕ
  pub terminal : TextTransferTerminal

-- The guards of the final `match` on the terminal state.
unfoldable pub terminal_agrees : TextTransferTerminal → ℕ → ℕ → Bool
terminal_agrees delivered done requested = done == requested
terminal_agrees offered done requested = done == 0
terminal_agrees TextTransferTerminal.interrupted done requested = done == 0

unfoldable pub validate_text_transfer : TextTransferReply → Validated
validate_text_transfer r =
    validate_target r.target
    >> (if r.requested_bytes == 0
          || ltb max_text_transfer_bytes r.requested_bytes
          || ltb r.requested_bytes r.delivered_bytes
        then err "text-transfer byte counts are invalid"
        else if terminal_agrees r.terminal r.delivered_bytes r.requested_bytes
        then ok tt
        else err "text-transfer terminal state contradicts its byte counts")

pub record SeatStatus : Type 0 where
  pub session : SessionId
  pub sequence : Sequence
  pub assurance : Assurance

pub record Subscription : Type 0 where
  pub cursor : Sequence

pub data Observation : Type 0 where
  observed timed_out target_gone : Observation

pub record ManagementReply : Type 0 where
  pub observation : Observation
  pub sequence : Sequence

pub record LaunchReply : Type 0 where
  pub token : LaunchToken
  pub client : Option ClientId

pub data Reply : Type 0 where
  seat_status : SeatStatus → Reply
  desktop_snapshot : DesktopSnapshot → Reply
  subscribed : Subscription → Reply
  events : EventBatch → Reply
  management : ManagementReply → Reply
  applications : ApplicationPage → Reply
  launched : LaunchReply → Reply
  input : InputReply → Reply
  text_transfer : TextTransferReply → Reply
  capture : CaptureReply → Reply
  capture_region : CaptureRegionReply → Reply

unfoldable pub validate_reply : Reply → Validated
validate_reply (seat_status r) = ok tt
validate_reply (desktop_snapshot r) = validate_snapshot r
validate_reply (subscribed r) = ok tt
validate_reply (events r) = validate_batch r
validate_reply (management r) = ok tt
validate_reply (applications r) = validate_page r
validate_reply (launched r) = ok tt
validate_reply (input r) = validate_input r
validate_reply (text_transfer r) = validate_text_transfer r
validate_reply (capture r) = validate_capture r
validate_reply (capture_region r) = validate_capture_region_reply r

pub data Outcome : Type 0 where
  success : Reply → Outcome
  failure : ProtocolError → Outcome

unfoldable pub validate_outcome : Outcome → Validated
validate_outcome (success reply) = validate_reply reply
validate_outcome (failure error) = validate_error error

pub record Response : Type 0 where
  pub id : RequestId
  pub outcome : Outcome

unfoldable pub validate_response : Response → Validated
validate_response r = validate_outcome r.outcome
