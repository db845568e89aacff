-- ===== src/Seat/Control.antt =====
-- The private control plane of crates/agent-seat-x11/src/seat.rs: one five-byte request and one
-- thirteen-byte answer on an authenticated local connection.
pub mod Frames
pub mod Authority
pub mod Answers
use agent_seat_proto.Prelude.{
  ℕ, ◌+◌, ◌≡◌, String, Bool, true, false, not, ◌||◌, ◌==◌, ltb, if◌then◌else◌, Option, none, some,
  List, [], ◌∷◌, ◌++◌, take, drop, length, Result, ok, err, map_err, ◌>>=◌,
}
use agent_seat_proto.Prelude.Text.{same, chars}
use agent_seat_proto.Prelude.Bytes.{to_le_bytes, from_le_bytes, byte_at}
use agent_seat_proto.Seat.Gate.{SeatStatus, from_raw, set_enabled}

abbrev pub control_magic : List ℕ
control_magic = chars "ASG1"

abbrev pub request_bytes : ℕ
request_bytes = length control_magic + 1

abbrev pub response_bytes : ℕ
response_bytes = length control_magic + 1 + 8

abbrev pub status_code : ℕ
status_code = 0

abbrev pub enable_code : ℕ
enable_code = 1

abbrev pub disable_code : ℕ
disable_code = 2

pub data ControlCommand : Type 0 where
  status enable disable : ControlCommand

unfoldable pub command_code : ControlCommand → ℕ
command_code status = status_code
command_code enable = enable_code
command_code disable = disable_code

-- `u8::from(enabled)`
abbrev pub bool_byte : Bool → ℕ
bool_byte true = 1
bool_byte false = 0

unfoldable pub encode_status : SeatStatus → List ℕ
encode_status s = control_magic ++ bool_byte s.enabled ∷ to_le_bytes 8 s.generation

unfoldable pub decode_enabled : ℕ → Result String Bool
decode_enabled b =
    if b == 0
    then ok false
    else if b == 1
    then ok true
    else err "provider returned an invalid seat-control state"

unfoldable pub decode_status : List ℕ → Result String SeatStatus
decode_status response =
    if not (same (take 4 response) control_magic)
    then err "provider returned an invalid seat-control response"
    else decode_enabled (byte_at 4 response) >>= λ enabled.
        ok (record { enabled = enabled; generation = from_le_bytes (drop 5 response) })

-- What the operating system does on one connection: the peer's uid, the timeouts, all that the peer
-- sends before it closes, fails or is too slow, and the write.
pub record Connection : Type 0 where
  pub peer_uid : Result String ℕ
  pub timeouts : Result String (Unit {0})
  pub sent : List ℕ
  pub write : Result String (Unit {0})

pub data Pending : Type 0 where
  would_block : Pending
  accept_error : String → Pending
  accepted : Connection → Pending

pub data ControlError : Type 0 where
  accept_failed cannot_authenticate cannot_bound transition cannot_acknowledge :
      String → ControlError

-- What one call leaves: its result, the word, and what it hands to `write_all`.
pub record Handled : Type 0 where
  pub result : Result ControlError (Unit {0})
  pub gate : ℕ
  pub written : Option (List ℕ)

abbrev pub ignored : ℕ → Handled
ignored gate = record { result = ok tt; gate = gate; written = none }

abbrev pub refused : ControlError → ℕ → Handled
refused e gate = record { result = err e; gate = gate; written = none }

-- `set_enabled(..)?` and the acknowledgement.
unfoldable pub acknowledge : Connection → Result String SeatStatus × ℕ → Handled
acknowledge c (err e, gate) = refused (transition e) gate
acknowledge c (ok s, gate) = record {
  result = map_err cannot_acknowledge c.write;
  gate = gate;
  written = some (encode_status s);
}

-- The `match` on the command byte.
unfoldable pub command : Connection → ℕ → ℕ → Handled
command c code gate =
    if code == status_code
    then acknowledge c (ok (from_raw gate), gate)
    else if code == enable_code
    then acknowledge c (set_enabled true gate)
    else if code == disable_code
    then acknowledge c (set_enabled false gate)
    else ignored gate

unfoldable pub serve : Connection → ℕ → Handled
serve c gate =
    let request = take request_bytes c.sent in
    if ltb (length c.sent) request_bytes || not (same (take 4 request) control_magic)
    then ignored gate
    else command c (byte_at 4 request) gate

unfoldable pub authenticate :
    ℕ → Connection → Result String ℕ → Result String (Unit {0}) → ℕ → Handled
authenticate euid c (err e) bounded gate = refused (cannot_authenticate e) gate
authenticate euid c (ok uid) (err e) gate =
    if not (uid == euid) then ignored gate else refused (cannot_bound e) gate
authenticate euid c (ok uid) (ok _) gate = if not (uid == euid) then ignored gate else serve c gate

-- `handle_pending` of a process with effective uid `euid`.
unfoldable pub handle_pending : ℕ → Pending → ℕ → Handled
handle_pending euid would_block gate = ignored gate
handle_pending euid (accept_error e) gate = refused (accept_failed e) gate
handle_pending euid (accepted c) gate = authenticate euid c c.peer_uid c.timeouts gate

-- The five bytes that `request` writes.
unfoldable pub request_frame : ControlCommand → List ℕ
request_frame c = control_magic ++ command_code c ∷ []

-- What `request` makes of the bytes that come back.
unfoldable pub read_response : List ℕ → Result String SeatStatus
read_response bytes =
    if ltb (length bytes) response_bytes
    then err "cannot read seat-control response"
    else decode_status (take response_bytes bytes)
