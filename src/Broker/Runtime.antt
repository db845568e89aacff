-- ===== src/Broker/Runtime.antt =====
-- The broker process, crates/agent-seat-activity-broker/src/main.rs: one round of its loop. What a
-- round reads of the kernel, of evdev and of the sockets is a record, and time is in nanoseconds.
pub mod Startup
pub mod Invariant
pub mod Quiet
pub mod Answers
pub mod Arming
pub mod Total
use agent_seat_proto.Prelude.{
  ℕ, ◌+◌, ◌^◌, ◌-◌, Bool, true, false, not, ◌&&◌, ◌||◌, ◌==◌, ltb, leb, if◌then◌else◌, String,
  Option, none, some, List, [], ◌∷◌, Result, ok, err, ◌>>=◌, ◌>>◌, is_ok, or_else,
}
use agent_seat_proto.Broker.Protocol.{
  BrokerStatus, BrokerState, StopReason, EligibilityState, ProtocolError, arming, ready, stopped,
  unavailable, nothing, activity, event_loss, evidence_lost, eligibility_changed, eligible,
  ineligible, unreachable, encode, read_eligibility, read_status_request,
}

abbrev pub arm_quiet_interval : ℕ
arm_quiet_interval = 250_000_000

-- A terminal state with its reason.
abbrev pub Update : Type 0
Update = BrokerState × StopReason

-- `EventSummary`, as far as the broker tells its variants apart.
pub data SynchronizationCode : Type 0 where
  syn_report syn_config syn_mt_report syn_dropped : SynchronizationCode

pub data EventSummary : Type 0 where
  synchronization : SynchronizationCode → EventSummary
  physical : EventSummary

-- The flags of one descriptor after a poll.
pub record Revents : Type 0 where
  pub readable : Bool
  pub error : Bool
  pub hang_up : Bool
  pub invalid : Bool

-- `events.intersects(PollFlags::ERR | PollFlags::HUP | PollFlags::NVAL)`
abbrev pub is_lost : Revents → Bool
is_lost events = events.error || events.hang_up || events.invalid

-- One device in one round; `none` is a failed `fetch_events`.
pub record Reading : Type 0 where
  pub revents : Revents
  pub fetched : Option (List EventSummary)

pub record Stream : Type 0 where
  pub peer_uid : ℕ

-- `listener.accept()`, the peer's credentials and `set_nonblocking`.
pub data Accepted : Type 0 where
  would_block : Accepted
  accept_failed : String → Accepted
  unauthenticated : String → Accepted
  connected : Stream → Result String (Unit {0}) → Accepted

-- What a round finds outside the process, beginning with the poll.
pub record Round : Type 0 where
  pub polled : Result String (Unit {0})
  pub eligibility_events : Revents
  pub eligibility_bytes : List ℕ
  pub readings : List Reading
  pub now : ℕ
  pub listener_events : Revents
  pub accepted : Accepted
  pub provider_events : Revents
  pub request : List ℕ
  pub written : Bool
  pub flushed : Bool

pub record Broker : Type 0 where
  pub status : BrokerStatus
  pub devices : List ℕ
  pub eligibility : Bool
  pub arm_deadline : Option ℕ
  pub provider : Option Stream

-- `epoch.saturating_add(1)` of a 64-bit word.
abbrev pub saturating_succ : ℕ → ℕ
saturating_succ n = if ltb n (2 ^ 64 - 1) then n + 1 else 2 ^ 64 - 1

unfoldable pub terminal : BrokerStatus → BrokerState → StopReason → BrokerStatus
terminal status state reason = record {
  instance_id = status.instance_id;
  epoch = saturating_succ status.epoch;
  state = state;
  reason = reason;
}

unfoldable pub classify_eligibility_transition : Result ProtocolError EligibilityState → Update
classify_eligibility_transition (ok ineligible) = (stopped, eligibility_changed)
classify_eligibility_transition (ok eligible) = (unavailable, evidence_lost)
classify_eligibility_transition (err e) = (unavailable, evidence_lost)

unfoldable pub classify_input_event : EventSummary → Option Update
classify_input_event (synchronization syn_report) = none
classify_input_event (synchronization syn_dropped) = some (unavailable, event_loss)
classify_input_event (synchronization syn_config) = some (stopped, activity)
classify_input_event (synchronization syn_mt_report) = some (stopped, activity)
classify_input_event physical = some (stopped, activity)

-- The loop over the events of one device, up to the first that ends the evidence.
unfoldable pub first_update : List EventSummary → Option Update
first_update [] = none
first_update (event ∷ rest) = or_else (classify_input_event event) (first_update rest)

abbrev pub fetched_update : Option (List EventSummary) → Option Update
fetched_update none = some (unavailable, evidence_lost)
fetched_update (some events) = first_update events

-- The body of the loop over the devices.
unfoldable pub device_update : Reading → Option Update
unfolding first_update
device_update reading =
    if is_lost reading.revents
    then some (unavailable, evidence_lost)
    else if not reading.revents.readable
    then none
    else fetched_update reading.fetched

-- `devices.iter_mut().zip(device_events)`, with an end as soon as there is an update.
unfoldable pub scan_devices : List ℕ → List Reading → Option Update
scan_devices [] readings = none
scan_devices (device ∷ devices) [] = none
scan_devices (device ∷ devices) (reading ∷ readings) =
    or_else (device_update reading) (scan_devices devices readings)

-- The eligibility channel is polled only while it is held.
unfoldable pub eligibility_update : Bool → Revents → List ℕ → Option Update
eligibility_update held events bytes =
    if not held
    then none
    else if is_lost events
    then some (unavailable, evidence_lost)
    else if events.readable
    then some (classify_eligibility_transition (read_eligibility bytes))
    else none

unfoldable pub terminal_update : Broker → Round → Option Update
terminal_update b r =
    or_else (eligibility_update b.eligibility r.eligibility_events r.eligibility_bytes)
      (scan_devices b.devices r.readings)

-- `arm_deadline.is_some_and(|deadline| Instant::now() >= deadline)`
abbrev pub is_due : Option ℕ → ℕ → Bool
is_due none now = false
is_due (some deadline) now = leb deadline now

-- The broker once its evidence is over.
unfoldable pub stop : Broker → BrokerState → StopReason → Broker
stop b state reason = record b {
  status = terminal b.status state reason;
  devices = [];
  eligibility = false;
  arm_deadline = none;
}

-- The broker at the end of the quiet interval.
unfoldable pub become_ready : Broker → Broker
become_ready b = record b {
  status = record {
    instance_id = b.status.instance_id;
    epoch = b.status.epoch;
    state = ready;
    reason = b.status.reason;
  };
  arm_deadline = none;
}

unfoldable pub apply_update : Broker → ℕ → Option Update → Broker
apply_update b now (some (state, reason)) = stop b state reason
apply_update b now none = if is_due b.arm_deadline now then become_ready b else b

-- What a round makes of the evidence, before it looks at the sockets of the provider.
unfoldable pub observe : Broker → Round → Broker
observe b r = apply_update b r.now (terminal_update b r)

unfoldable pub accept_provider : Accepted → ℕ → Result String (Option Stream)
accept_provider would_block uid = ok none
accept_provider (accept_failed error) uid = err error
accept_provider (unauthenticated error) uid = err error
accept_provider (connected stream (ok _)) uid =
    if not (stream.peer_uid == uid) then ok none else ok (some stream)
accept_provider (connected stream (err error)) uid =
    if not (stream.peer_uid == uid) then ok none else err error

-- The pair that the status begins with.
unfoldable pub initial_update : Bool → Option Update → Update
initial_update false update = (stopped, eligibility_changed)
initial_update true (some update) = update
initial_update true none = (arming, nothing)

-- `matches!(state, BrokerState::Arming | BrokerState::Ready)`
abbrev pub is_live : BrokerState → Bool
is_live arming = true
is_live ready = true
is_live stopped = false
is_live unavailable = false

abbrev pub is_arming : BrokerState → Bool
is_arming arming = true
is_arming ready = false
is_arming stopped = false
is_arming unavailable = false

-- The variables as the loop begins, at the time `now`.
abbrev pub begin : ℕ → List ℕ → ℕ → Update → Broker
begin instance_id devices now (state, reason) = record {
  status = record { instance_id = instance_id; epoch = 1; state = state; reason = reason };
  devices = if is_live state then devices else [];
  eligibility = is_live state;
  arm_deadline = if is_arming state then some (now + arm_quiet_interval) else none;
  provider = none;
}

unfoldable pub initial_broker : ℕ → List ℕ → ℕ → Bool → Option Update → Broker
initial_broker instance_id devices now is_eligible update =
    begin instance_id devices now (initial_update is_eligible update)

-- The listener is polled only while there is no provider.
unfoldable pub accept : ℕ → Option Stream → Revents → Accepted → Result String (Option Stream)
accept uid (some stream) events accepted = ok (some stream)
accept uid none events accepted =
    if is_lost events
    then err "provider listener was lost"
    else if events.readable
    then accept_provider accepted uid
    else ok none

-- The provider's stream after a round, and the frame that it was sent.
pub record Answer : Type 0 where
  pub provider : Option Stream
  pub frame : Option (List ℕ)

-- A request is read, and the frame goes out if it is one.
unfoldable pub respond : BrokerStatus → Stream → Round → Answer
respond status stream r =
    if not (is_ok (read_status_request r.request))
    then record { provider = none; frame = none }
    else if not r.written
    then record { provider = none; frame = none }
    else if not r.flushed
    then record { provider = none; frame = some (encode status) }
    else record { provider = some stream; frame = some (encode status) }

-- The provider is polled only if it was connected when the round began.
unfoldable pub answer : BrokerStatus → Option Stream → Option Stream → Round → Answer
answer status none current r = record { provider = current; frame = none }
answer status (some polled) none r = record { provider = none; frame = none }
answer status (some polled) (some stream) r =
    if is_lost r.provider_events
    then record { provider = none; frame = none }
    else if r.provider_events.readable
    then respond status stream r
    else record { provider = some stream; frame = none }

pub record Turn : Type 0 where
  pub broker : Broker
  pub frame : Option (List ℕ)

-- The sockets of the provider, once the status is up to date.
unfoldable pub attend : ℕ → Broker → Option Stream → Round → Result String Turn
attend uid b polled r = accept uid polled r.listener_events r.accepted >>= λ current.
    let sent = answer b.status polled current r in
    ok (record { broker = record b { provider = sent.provider }; frame = sent.frame })

-- One iteration of the loop: a poll that fails ends it.
unfoldable pub round : ℕ → Broker → Round → Result String Turn
round uid b r = r.polled >> attend uid (observe b r) b.provider r

-- The frames that went to providers, and the broker at the end.
pub record Served : Type 0 where
  pub broker : Broker
  pub frames : List (Option (List ℕ))

-- The loop for as long as rounds come; it ends early only by an error.
unfoldable pub run_rounds : ℕ → Broker → List Round → Result String Served
run_rounds uid b [] = ok (record { broker = b; frames = [] })
run_rounds uid b (r ∷ rs) = round uid b r >>= λ turn. run_rounds uid turn.broker rs >>= λ rest.
    ok (record { broker = rest.broker; frames = turn.frame ∷ rest.frames })
