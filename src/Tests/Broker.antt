-- ===== src/Tests/Broker.antt =====
-- The broker's frames at one status.
use agent_seat_proto.Prelude.{◌≡◌, refl, arith, ok, [], ◌∷◌, ◌++◌, take, All}
use agent_seat_proto.Prelude.Bytes.{IsByte, to_be_bytes, to_le_bytes}
use agent_seat_proto.Broker.Protocol.{
  BrokerStatus, ready, nothing, encode, ineligible, read_status_response, read_status_request,
  read_eligibility, valid_state, eligibility_frame, status_request, encode_state, encode_reason,
  encode_eligibility,
}
use agent_seat_proto.Broker.Protocol.Frames.{
  Valid, read_status_response-encode, read_status_request-status_request,
  read_eligibility-eligibility_frame,
}
use agent_seat_proto.Broker.Protocol.Canonical.{encode-read_status_response}

abbrev first_status : BrokerStatus
first_status = record { instance_id = 77; epoch = 1; state = ready; reason = nothing }

first_status-Valid : Valid first_status
unfolding valid_state
first_status-Valid = record {
  pair = refl;
  instance_nonzero = omega arith;
  instance_bound = omega arith;
  epoch_nonzero = omega arith;
  epoch_bound = omega arith;
}

first_status-read : read_status_response (encode first_status ++ 9 ∷ []) ≡ ok first_status
first_status-read = read_status_response-encode first_status (9 ∷ []) first_status-Valid

encoded_bytes : All IsByte (encode first_status ++ 9 ∷ [])
unfolding encode to_be_bytes to_le_bytes encode_state encode_reason
encoded_bytes = ground arith

encode-read_status_response_example :
    Valid first_status × (encode first_status ≡ take 24 (encode first_status ++ 9 ∷ []))
encode-read_status_response_example =
    encode-read_status_response (encode first_status ++ 9 ∷ []) first_status encoded_bytes
      first_status-read

request-read : read_status_request (status_request ++ []) ≡ ok tt
request-read = read_status_request-status_request []

request_bytes_lem : All IsByte (status_request ++ [])
unfolding status_request to_be_bytes to_le_bytes
request_bytes_lem = ground arith

frame-read : read_eligibility (eligibility_frame ineligible ++ 1 ∷ []) ≡ ok ineligible
frame-read = read_eligibility-eligibility_frame ineligible (1 ∷ [])

frame_bytes_lem : All IsByte (eligibility_frame ineligible ++ 1 ∷ [])
unfolding eligibility_frame encode_eligibility to_be_bytes to_le_bytes
frame_bytes_lem = ground arith
