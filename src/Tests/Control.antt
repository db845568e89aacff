-- ===== src/Tests/Control.antt =====
-- The control plane at one operator's command.
use agent_seat_proto.Prelude.{◌≡◌, ◌⊎◌, refl, arith, true, ok, length, All}
use agent_seat_proto.Prelude.Bytes.{to_le_bytes, IsByte}
use agent_seat_proto.Seat.Gate.{SeatStatus}
use agent_seat_proto.Seat.Control.{
  Connection, accepted, handle_pending, encode_status, decode_status, enable, disable,
}
use agent_seat_proto.Seat.Control.Authority.{Commanded, handle_pending-Commanded}
use agent_seat_proto.Seat.Control.Answers.{operator, Answered, handle_pending-Answered}
use agent_seat_proto.Seat.Control.Frames.{decode_status-encode_status}

abbrev enabled_once : SeatStatus
enabled_once = record { enabled = true; generation = 300 }

length_lem : length (encode_status enabled_once) ≡ 13
unfolding encode_status to_le_bytes
length_lem = refl

bytes_lem : All IsByte (encode_status enabled_once)
unfolding encode_status to_le_bytes
bytes_lem = ground arith

enabled_once-read : decode_status (encode_status enabled_once) ≡ ok enabled_once
enabled_once-read = decode_status-encode_status enabled_once (omega arith)

handle_pending-Commanded_example :
    ((handle_pending 1000 (accepted (operator 1000 enable (ok tt))) 4).gate ≡ 4)
    ⊎ (c : Connection) × (accepted (operator 1000 enable (ok tt)) ≡ accepted c)
      × Commanded 1000 c 4 (handle_pending 1000 (accepted (operator 1000 enable (ok tt))) 4).gate
handle_pending-Commanded_example =
    handle_pending-Commanded 1000 (accepted (operator 1000 enable (ok tt))) 4

handle_pending-Answered_example :
    Answered disable 5 (ok tt) (handle_pending 1000 (accepted (operator 1000 disable (ok tt))) 5)
handle_pending-Answered_example = handle_pending-Answered 1000 disable (ok tt) 5 (omega arith)
