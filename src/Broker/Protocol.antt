-- ===== src/Broker/Protocol.antt =====
-- The fixed frames of crates/agent-seat-activity-broker/src/lib.rs: the status request and its
-- answer, and the eligibility assertion. A stream to read is the bytes that it gives before it ends,
-- fails or is too slow.
pub mod Frames
pub mod Shape
pub mod Canonical
pub mod Ready
use agent_seat_proto.Prelude.{
  ℕ, ◌+◌, ◌≡◌, Bool, true, false, not, ◌&&◌, ◌||◌, ◌==◌, ltb, if◌then◌else◌, List, [], ◌∷◌, ◌++◌,
  take, drop, length, Result, ok, err, ◌>>=◌, ◌>>◌, check,
}
use agent_seat_proto.Prelude.Text.{same, chars}
use agent_seat_proto.Prelude.Bytes.{to_be_bytes, from_be_bytes, byte_at}

abbrev pub broker_magic : List ℕ
broker_magic = chars "ASAB"

abbrev pub broker_revision : ℕ
broker_revision = 1

abbrev pub op_status : ℕ
op_status = 1

abbrev pub request_bytes : ℕ
request_bytes = 8

abbrev pub response_bytes : ℕ
response_bytes = 24

abbrev pub eligibility_magic : List ℕ
eligibility_magic = chars "ASEL"

abbrev pub eligibility_revision : ℕ
eligibility_revision = 1

abbrev pub eligibility_frame_bytes : ℕ
eligibility_frame_bytes = 8

pub data ProtocolError : Type 0 where
  unreachable incompatible malformed : ProtocolError

pub data EligibilityState : Type 0 where
  eligible ineligible : EligibilityState

pub data BrokerState : Type 0 where
  arming ready stopped unavailable : BrokerState

pub data StopReason : Type 0 where
  nothing activity event_loss evidence_lost internal eligibility_changed : StopReason

unfoldable pub encode_eligibility : EligibilityState → ℕ
encode_eligibility eligible = 1
encode_eligibility ineligible = 2

unfoldable pub decode_eligibility : ℕ → Result ProtocolError EligibilityState
decode_eligibility value =
    if value == 1 then ok eligible else if value == 2 then ok ineligible else err malformed

unfoldable pub encode_state : BrokerState → ℕ
encode_state arming = 4
encode_state ready = 1
encode_state stopped = 2
encode_state unavailable = 3

unfoldable pub decode_state : ℕ → Result ProtocolError BrokerState
decode_state value =
    if value == 4
    then ok arming
    else if value == 1
    then ok ready
    else if value == 2
    then ok stopped
    else if value == 3
    then ok unavailable
    else err malformed

unfoldable pub encode_reason : StopReason → ℕ
encode_reason nothing = 0
encode_reason activity = 1
encode_reason event_loss = 2
encode_reason evidence_lost = 3
encode_reason internal = 4
encode_reason eligibility_changed = 5

unfoldable pub decode_reason : ℕ → Result ProtocolError StopReason
decode_reason value =
    if value == 0
    then ok nothing
    else if value == 1
    then ok activity
    else if value == 2
    then ok event_loss
    else if value == 3
    then ok evidence_lost
    else if value == 4
    then ok internal
    else if value == 5
    then ok eligibility_changed
    else err malformed

pub record BrokerStatus : Type 0 where
  pub instance_id : ℕ
  pub epoch : ℕ
  pub state : BrokerState
  pub reason : StopReason

abbrev pub is_ready : BrokerState → Bool
is_ready arming = false
is_ready ready = true
is_ready stopped = false
is_ready unavailable = false

unfoldable pub is_same_ready : BrokerStatus → BrokerStatus → Bool
is_same_ready a later =
    is_ready a.state
    && is_ready later.state
    && a.instance_id == later.instance_id
    && a.epoch == later.epoch

unfoldable pub encode : BrokerStatus → List ℕ
encode s =
    broker_magic
    ++ to_be_bytes 2 broker_revision
    ++ encode_state s.state
      ∷ encode_reason s.reason
      ∷ (to_be_bytes 8 s.instance_id ++ to_be_bytes 8 s.epoch)

-- The pairs that `matches!` admits.
unfoldable pub valid_state : BrokerState → StopReason → Bool
valid_state arming nothing = true
valid_state ready nothing = true
valid_state stopped activity = true
valid_state stopped eligibility_changed = true
valid_state unavailable event_loss = true
valid_state unavailable evidence_lost = true
valid_state unavailable internal = true
valid_state _ _ = false

-- `bytes[from..from + count]`
abbrev pub slice : ℕ → ℕ → List ℕ → List ℕ
slice from count bytes = take count (drop from bytes)

abbrev pub has_header : List ℕ → ℕ → List ℕ → Bool
has_header magic revision bytes =
    same (take 4 bytes) magic && from_be_bytes (slice 4 2 bytes) == revision

-- The fields of a frame whose header is right.
unfoldable pub decode_fields : BrokerState → StopReason → ℕ → ℕ → Result ProtocolError BrokerStatus
decode_fields state reason instance_id epoch =
    if not (valid_state state reason)
    then err malformed
    else if instance_id == 0 || epoch == 0
    then err malformed
    else ok (record { instance_id = instance_id; epoch = epoch; state = state; reason = reason })

unfoldable pub decode : List ℕ → Result ProtocolError BrokerStatus
decode bytes =
    if not (has_header broker_magic broker_revision bytes)
    then err incompatible
    else decode_state (byte_at 6 bytes) >>= λ state. decode_reason (byte_at 7 bytes) >>= λ reason.
        decode_fields state reason (from_be_bytes (slice 8 8 bytes))
          (from_be_bytes (slice 16 8 bytes))

-- `stream.read_exact(&mut [0; n])`
abbrev pub read_exact : ℕ → List ℕ → Result ProtocolError (List ℕ)
read_exact n stream = if ltb (length stream) n then err unreachable else ok (take n stream)

-- The bytes that `write_status_request` and `write_eligibility` write.
unfoldable pub status_request : List ℕ
status_request = broker_magic ++ to_be_bytes 2 broker_revision ++ op_status ∷ 0 ∷ []

unfoldable pub eligibility_frame : EligibilityState → List ℕ
eligibility_frame state =
    eligibility_magic ++ to_be_bytes 2 eligibility_revision ++ encode_eligibility state ∷ 0 ∷ []

unfoldable pub read_status_request : List ℕ → Result ProtocolError (Unit {0})
read_status_request stream = read_exact request_bytes stream >>= λ bytes.
    check (has_header broker_magic broker_revision bytes) incompatible
    >> check (not (not (byte_at 6 bytes == op_status) || not (byte_at 7 bytes == 0))) malformed

unfoldable pub read_status_response : List ℕ → Result ProtocolError BrokerStatus
read_status_response stream = read_exact response_bytes stream >>= decode

unfoldable pub read_eligibility : List ℕ → Result ProtocolError EligibilityState
read_eligibility stream = read_exact eligibility_frame_bytes stream >>= λ frame.
    if not (has_header eligibility_magic eligibility_revision frame) || not (byte_at 7 frame == 0)
    then err incompatible
    else decode_eligibility (byte_at 6 frame)
