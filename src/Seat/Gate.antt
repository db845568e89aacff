-- ===== src/Seat/Gate.antt =====
-- `SeatGate` of crates/agent-seat-x11/src/seat.rs: one 64-bit atomic word, odd while the seat is
-- enabled. `turn` is one round of the loop in `set_enabled`, with one access to the word at most;
-- `Step` interleaves the rounds of any number of callers.
pub mod Alone
pub mod Forward
pub mod Revocation
use agent_seat_proto.Prelude.{
  ℕ, ◌+◌, ◌-◌, ◌/◌, ◌%◌, ◌^◌, ◌≡◌, String, Bool, true, false, not, ◌&&◌, ◌==◌, ltb, if◌then◌else◌,
  Option, none, some, Result, ok, err,
}

abbrev pub u64_max : ℕ
u64_max = 2 ^ 64 - 1

abbrev pub disabled_terminal : ℕ
disabled_terminal = u64_max

abbrev pub exhausted : String
exhausted = "seat transition space is exhausted; restart the provider"

-- `raw != DISABLED_TERMINAL && raw & 1 == 1`
unfoldable pub is_enabled : ℕ → Bool
is_enabled raw = not (raw == disabled_terminal) && raw % 2 == 1

pub record SeatStatus : Type 0 where
  pub enabled : Bool
  pub generation : ℕ

unfoldable pub from_raw : ℕ → SeatStatus
from_raw raw = record { enabled = is_enabled raw; generation = raw / 2 }

-- `SeatGate::new`, `permit` and `accepts`; a permit is the word that it was issued at.
abbrev pub new_gate : ℕ
new_gate = 0

unfoldable pub permit : ℕ → Option ℕ
permit gate = if is_enabled gate then some gate else none

unfoldable pub accepts : ℕ → ℕ → Bool
accepts gate p = gate == p && is_enabled p

abbrev pub same_bool : Bool → Bool → Bool
same_bool true b = b
same_bool false b = not b

-- `current.checked_add(1)`
unfoldable pub checked_succ : ℕ → Option ℕ
checked_succ n = if ltb n u64_max then some (n + 1) else none

pub data Caller : Type 0 where
  idle : Caller
  called : Bool → Caller
  looping : Bool → ℕ → Caller
  returned : Result String SeatStatus → Caller

unfoldable pub exchange : Bool → ℕ → ℕ → ℕ → Caller × ℕ
exchange enabled current next gate =
    if gate == current then (returned (ok (from_raw next)), next) else (looping enabled gate, gate)

unfoldable pub advance : Bool → ℕ → Option ℕ → ℕ → Caller × ℕ
advance enabled current none gate = (
  returned (if enabled then err exhausted else ok (from_raw disabled_terminal)),
  disabled_terminal,
)
advance enabled current (some next) gate =
    if next == disabled_terminal
    then (returned (err exhausted), disabled_terminal)
    else exchange enabled current next gate

-- One round: `current` is what the caller last saw, `gate` the word now.
unfoldable pub turn : Bool → ℕ → ℕ → Caller × ℕ
turn enabled current gate =
    if same_bool (is_enabled current) enabled
    then (returned (ok (from_raw current)), gate)
    else advance enabled current (checked_succ current) gate

pub record World : Type 0 where
  pub gate : ℕ
  pub callers : ℕ → Caller

unfoldable pub update : (ℕ → Caller) → ℕ → Caller → ℕ → Caller
update callers i c j = if j == i then c else callers j

unfoldable pub is_settled : Caller → Bool
is_settled idle = true
is_settled (called e) = false
is_settled (looping e c) = false
is_settled (returned r) = true

abbrev pub nobody : World
nobody = record { gate = new_gate; callers = λ _. idle }

-- A call begins, loads the word, or goes once round its loop.
pub data Step (w : World) : World → Type 0 where
  begin :
      (i : ℕ) (enabled : Bool)
      → is_settled (w.callers i) ≡ true
      → Step w (record w { callers = update w.callers i (called enabled) })
  load :
      (i : ℕ) (enabled : Bool)
      → w.callers i ≡ called enabled
      → Step w (record w { callers = update w.callers i (looping enabled w.gate) })
  round :
      (i : ℕ) (enabled : Bool) (current : ℕ)
      → w.callers i ≡ looping enabled current
      → Step w (record {
        gate = (turn enabled current w.gate).1;
        callers = update w.callers i (turn enabled current w.gate).0;
      })

pub data Reach (w : World) : World → Type 0 where
  here : Reach w w
  further : {v u : World} → Reach w v → Step v u → Reach w u

-- `set_enabled` when no other caller intervenes.
unfoldable pub advance_alone : Bool → Option ℕ → Result String SeatStatus × ℕ
advance_alone enabled none =
    (if enabled then err exhausted else ok (from_raw disabled_terminal), disabled_terminal)
advance_alone enabled (some next) =
    if next == disabled_terminal
    then (err exhausted, disabled_terminal)
    else (ok (from_raw next), next)

unfoldable pub set_enabled : Bool → ℕ → Result String SeatStatus × ℕ
set_enabled enabled gate =
    if same_bool (is_enabled gate) enabled
    then (ok (from_raw gate), gate)
    else advance_alone enabled (checked_succ gate)
