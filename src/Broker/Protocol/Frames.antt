-- ===== src/Broker/Protocol/Frames.antt =====
-- The frames of crates/agent-seat-activity-broker/src/lib.rs, written and read.
use agent_seat_proto.Prelude.{
  ℕ, ◌<◌, ◌≤◌, ◌^◌, ◌≡◌, refl, ◌∙◌, arith, true, false, not, List, ◌++◌, length, ok, ◌>>=◌, ◌==◌,
  ltb, length-append, take-append, check, ◌>>◌, ◌||◌,
}
use agent_seat_proto.Prelude.Text.{same}
use agent_seat_proto.Prelude.Bytes.{
  to_be_bytes, from_be_bytes, byte_at, from_be_bytes-to_be_bytes, to_le_bytes, from_le_bytes,
}
use agent_seat_proto.Broker.Protocol.{
  BrokerStatus, BrokerState, StopReason, EligibilityState, eligible, ineligible, arming, ready,
  stopped, unavailable, nothing, activity, event_loss, evidence_lost, internal, eligibility_changed,
  encode, decode, decode_state, decode_reason, encode_state, encode_reason, valid_state,
  decode_fields, eligibility_frame, read_eligibility, encode_eligibility, decode_eligibility,
  status_request, read_status_request, has_header, slice, broker_magic, broker_revision,
  read_status_response, malformed, read_exact, response_bytes, request_bytes,
  eligibility_frame_bytes, incompatible, eligibility_magic, eligibility_revision, op_status,
}

-- What `decode` asks of a status.
pub record Valid (s : BrokerStatus) : Type 0 where
  pub pair : valid_state s.state s.reason ≡ true
  pub instance_nonzero : 0 < s.instance_id
  pub instance_bound : s.instance_id < 2 ^ 64
  pub epoch_nonzero : 0 < s.epoch
  pub epoch_bound : s.epoch < 2 ^ 64

decode_state-encode_state : (s : BrokerState) → decode_state (encode_state s) ≡ ok s
unfolding decode_state encode_state
decode_state-encode_state arming = refl
decode_state-encode_state ready = refl
decode_state-encode_state stopped = refl
decode_state-encode_state unavailable = refl

decode_reason-encode_reason : (r : StopReason) → decode_reason (encode_reason r) ≡ ok r
unfolding decode_reason encode_reason
decode_reason-encode_reason nothing = refl
decode_reason-encode_reason activity = refl
decode_reason-encode_reason event_loss = refl
decode_reason-encode_reason evidence_lost = refl
decode_reason-encode_reason internal = refl
decode_reason-encode_reason eligibility_changed = refl

decode_fields-Valid :
    (s : BrokerStatus) → Valid s → decode_fields s.state s.reason s.instance_id s.epoch ≡ ok s
unfolding decode_fields
decode_fields-Valid s valid =
    rw
      (
        valid.pair,
        nonzero s.instance_id valid.instance_nonzero,
        nonzero s.epoch valid.epoch_nonzero,
      )
      refl
  where
    nonzero : (n : ℕ) → 0 < n → (n == 0) ≡ false
    nonzero n above = ground arith

pub decode_header :
    (bytes : List ℕ)
    → has_header broker_magic broker_revision bytes ≡ true
    → decode bytes ≡ (
        decode_state (byte_at 6 bytes) >>= λ state. decode_reason (byte_at 7 bytes) >>= λ reason.
        decode_fields state reason
          (from_be_bytes (slice 8 8 bytes))
          (from_be_bytes (slice 16 8 bytes)))
unfolding decode
decode_header bytes header = rw header refl

header_encode : (s : BrokerStatus) → has_header broker_magic broker_revision (encode s) ≡ true
unfolding encode to_be_bytes to_le_bytes from_be_bytes from_le_bytes same
header_encode s = refl

state_encode : (s : BrokerStatus) → byte_at 6 (encode s) ≡ encode_state s.state
unfolding encode to_be_bytes to_le_bytes byte_at
state_encode s = refl

reason_encode : (s : BrokerStatus) → byte_at 7 (encode s) ≡ encode_reason s.reason
unfolding encode to_be_bytes to_le_bytes byte_at
reason_encode s = refl

instance_encode : (s : BrokerStatus) → slice 8 8 (encode s) ≡ to_be_bytes 8 s.instance_id
unfolding encode to_be_bytes to_le_bytes
instance_encode s = refl

epoch_encode : (s : BrokerStatus) → slice 16 8 (encode s) ≡ to_be_bytes 8 s.epoch
unfolding encode to_be_bytes to_le_bytes
epoch_encode s = refl

decode-encode : (s : BrokerStatus) → Valid s → decode (encode s) ≡ ok s
decode-encode s valid =
    decode_header (encode s) (header_encode s)
    ∙ rw
        (
          state_encode s,
          decode_state-encode_state s.state,
          reason_encode s,
          decode_reason-encode_reason s.reason,
          instance_encode s,
          epoch_encode s,
          from_be_bytes-to_be_bytes 8 s.instance_id (valid.instance_bound),
          from_be_bytes-to_be_bytes 8 s.epoch (valid.epoch_bound),
        )
        (decode_fields-Valid s valid)

read_exact-append : (n : ℕ) (bs rest : List ℕ) → length bs ≡ n → read_exact n (bs ++ rest) ≡ ok bs
read_exact-append n bs rest len =
    rw
      (
        ← len,
        ltb_lem (length (bs ++ rest)) (length bs) (omega (arith, length-append bs rest)),
        take-append bs rest,
      )
      refl
  where
    ltb_lem : (a b : ℕ) → b ≤ a → ltb a b ≡ false
    ltb_lem a b le = ground arith

length-encode : (s : BrokerStatus) → length (encode s) ≡ response_bytes
unfolding encode to_be_bytes to_le_bytes
length-encode s = refl

pub length-eligibility_frame :
    (state : EligibilityState) → length (eligibility_frame state) ≡ eligibility_frame_bytes
unfolding eligibility_frame to_be_bytes to_le_bytes
length-eligibility_frame state = refl

length-status_request : length status_request ≡ request_bytes
unfolding status_request to_be_bytes to_le_bytes
length-status_request = refl

-- A valid status is read back from its encoding, whatever bytes follow it on the stream.
pub read_status_response-encode :
    (s : BrokerStatus) (rest : List ℕ) → Valid s → read_status_response (encode s ++ rest) ≡ ok s
unfolding read_status_response
read_status_response-encode s rest valid =
    rw (read_exact-append response_bytes (encode s) rest (length-encode s)) (decode-encode s valid)

accepted_request :
    (check (has_header broker_magic broker_revision status_request) incompatible
      >> check
          (not (not (byte_at 6 status_request == op_status) || not (byte_at 7 status_request == 0)))
          malformed)
    ≡ ok tt
unfolding status_request to_be_bytes to_le_bytes from_be_bytes from_le_bytes same byte_at
accepted_request = refl

-- The provider's status request is read back, whatever bytes follow it on the stream.
pub read_status_request-status_request :
    (rest : List ℕ) → read_status_request (status_request ++ rest) ≡ ok tt
unfolding read_status_request
read_status_request-status_request rest =
    rw (read_exact-append request_bytes status_request rest length-status_request) accepted_request

accepted_frame :
    (state : EligibilityState)
    → (has_header eligibility_magic eligibility_revision (eligibility_frame state) ≡ true)
      × (byte_at 7 (eligibility_frame state) ≡ 0)
      × (decode_eligibility (byte_at 6 (eligibility_frame state)) ≡ ok state)
unfolding eligibility_frame encode_eligibility decode_eligibility to_be_bytes to_le_bytes
    from_be_bytes from_le_bytes same byte_at
accepted_frame eligible = (refl, refl, refl)
accepted_frame ineligible = (refl, refl, refl)

-- Either assertion of the session is read back, whatever bytes follow it on the stream.
pub read_eligibility-eligibility_frame :
    (state : EligibilityState) (rest : List ℕ)
    → read_eligibility (eligibility_frame state ++ rest) ≡ ok state
unfolding read_eligibility
read_eligibility-eligibility_frame state rest =
    let (header, zero_end, decoded) = accepted_frame state in
    rw
      (
        read_exact-append eligibility_frame_bytes (eligibility_frame state) rest
            (length-eligibility_frame state),
        header,
        zero_end,
        decoded,
      )
      refl
