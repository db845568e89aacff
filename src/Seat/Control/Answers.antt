-- ===== src/Seat/Control/Answers.antt =====
-- The answer of the control plane of crates/agent-seat-x11/src/seat.rs to one command.
use agent_seat_proto.Prelude.{
  ℕ, ◌+◌, ◌<◌, ◌≤◌, ◌^◌, ◌≡◌, refl, ap, arith, String, Bool, true, false, List, Result, ok, err,
  some, none, map_err, ==_self,
}
use agent_seat_proto.Prelude.Text.{same}
use agent_seat_proto.Prelude.Bytes.{to_le_bytes, byte_at}
use agent_seat_proto.Seat.Gate.{
  SeatStatus, from_raw, set_enabled, u64_max, exhausted, disabled_terminal,
}
use agent_seat_proto.Seat.Gate.Alone.{set_enabled-Settled, Settled, done, spent}
use agent_seat_proto.Seat.Control.{
  encode_status, ControlCommand, status, enable, disable, Connection, accepted, Handled,
  handle_pending, authenticate, serve, command, acknowledge, request_frame, command_code,
  read_response, ControlError, transition, cannot_acknowledge,
}
use agent_seat_proto.Seat.Control.Frames.{decode_status-encode_status}

-- A connection of the operator's own process that sends one command and nothing else.
abbrev pub operator : ℕ → ControlCommand → Result String (Unit {0}) → Connection
operator euid cmd write = record {
  peer_uid = ok euid;
  timeouts = ok tt;
  sent = request_frame cmd;
  write = write;
}

-- What a command does to the word, and the status it is answered with.
unfoldable pub run_command : ControlCommand → ℕ → Result String SeatStatus × ℕ
run_command status gate = (ok (from_raw gate), gate)
run_command enable gate = set_enabled true gate
run_command disable gate = set_enabled false gate

handle_command :
    (euid : ℕ) (cmd : ControlCommand) (write : Result String (Unit {0})) (gate : ℕ)
    → handle_pending euid (accepted (operator euid cmd write)) gate
      ≡ acknowledge (operator euid cmd write) (run_command cmd gate)
unfolding handle_pending authenticate serve command run_command request_frame command_code byte_at
    same
handle_command euid status write gate = rw (==_self euid) refl
handle_command euid enable write gate = rw (==_self euid) refl
handle_command euid disable write gate = rw (==_self euid) refl

-- The answer to the operator: the word is the command's, the bytes handed to the stream decode to its
-- status, and the result is that of their write; or the command is to enable, in one of the last two
-- words, and the error leaves the last word.
pub data Answered (cmd : ControlCommand) (gate : ℕ) (write : Result String (Unit {0})) (h : Handled)
    : Type 0 where
  answered :
      (bytes : List ℕ)
      → h.written ≡ some bytes
      → h.result ≡ map_err cannot_acknowledge write
      → read_response bytes ≡ ok (from_raw h.gate)
      → (run_command cmd gate).1 ≡ h.gate
      → Answered cmd gate write h
  spent_out :
      cmd ≡ enable
      → u64_max ≤ gate + 1
      → h.result ≡ err (transition exhausted)
      → h.written ≡ none
      → h.gate ≡ disabled_terminal
      → Answered cmd gate write h

read_response-encode_status :
    (s : SeatStatus) → s.generation < 2 ^ 64 → read_response (encode_status s) ≡ ok s
unfolding read_response encode_status to_le_bytes
read_response-encode_status s bound = decode_status-encode_status s bound

from_raw_bound : (raw : ℕ) → raw ≤ u64_max → (from_raw raw).generation < 2 ^ 64
unfolding from_raw
from_raw_bound raw bound = omega arith

answer_lem :
    {enabled : Bool} {gate : ℕ} (cmd : ControlCommand) (c : Connection)
    (r : Result String SeatStatus × ℕ)
    → Settled enabled gate r
    → run_command cmd gate ≡ r
    → (enabled ≡ true → cmd ≡ enable)
    → Answered cmd gate c.write (acknowledge c r)
unfolding acknowledge
answer_lem cmd c (ok s, g) (done is on bound up near) run which =
    answered (encode_status s) refl refl (read_lem s g is bound) (ap (λ q. q.1) run)
  where
    read_lem :
        (s : SeatStatus) (g : ℕ)
        → ◌≡◌ {A = Result String SeatStatus} (ok s) (ok (from_raw g))
        → g ≤ u64_max
        → read_response (encode_status s) ≡ ok (from_raw g)
    read_lem s g is bound =
        let same_status : s ≡ from_raw g = cc in
        rw same_status (read_response-encode_status (from_raw g) (from_raw_bound g bound))
answer_lem cmd c (err e, g) (done is on bound up near) run which = absurd (ground arith)
answer_lem cmd c (ok s, g) (spent asked last is) run which = absurd (error_lem (ap (λ q. q.0) is))
  where
    error_lem : ◌≡◌ {A = Result String SeatStatus} (ok s) (err exhausted) → ⊥
    error_lem h = ground arith
answer_lem cmd c (err e, g) (spent asked last is) run which =
    spent_out (which asked) last (ap (λ q. err_of q.0) is) refl (ap (λ q. q.1) is)
  where
    err_of : Result String SeatStatus → Result ControlError (Unit {0})
    err_of (ok s) = ok tt
    err_of (err e) = err (transition e)

acknowledge-Answered :
    (euid : ℕ) (cmd : ControlCommand) (write : Result String (Unit {0})) (gate : ℕ)
    → gate ≤ u64_max
    → Answered cmd gate write (acknowledge (operator euid cmd write) (run_command cmd gate))
unfolding run_command
acknowledge-Answered euid status write gate bound =
    unfold acknowledge in
    answered (encode_status (from_raw gate)) refl refl
      (read_response-encode_status (from_raw gate) (from_raw_bound gate bound)) refl
acknowledge-Answered euid enable write gate bound =
    answer_lem enable (operator euid enable write) (set_enabled true gate)
      (set_enabled-Settled true gate bound) refl (λ _. refl)
acknowledge-Answered euid disable write gate bound =
    answer_lem disable (operator euid disable write) (set_enabled false gate)
      (set_enabled-Settled false gate bound) refl (λ h. absurd (ground arith))

-- For a word in range, a connection of the operator's own that carries one command moves the word to
-- what the command makes of it. One write is asked for, of the bytes from which the client's reader
-- makes the status of that word, and the result is ok exactly as that write is. Only a command to
-- enable in one of the last two words is an error without a write, and leaves the last word.
pub handle_pending-Answered :
    (euid : ℕ) (cmd : ControlCommand) (write : Result String (Unit {0})) (gate : ℕ)
    → gate ≤ u64_max
    → Answered cmd gate write (handle_pending euid (accepted (operator euid cmd write)) gate)
handle_pending-Answered euid cmd write gate bound =
    rw (handle_command euid cmd write gate) (acknowledge-Answered euid cmd write gate bound)
