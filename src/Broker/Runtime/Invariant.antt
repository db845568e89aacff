-- ===== src/Broker/Runtime/Invariant.antt =====
-- The broker of crates/agent-seat-activity-broker/src/main.rs between two rounds.
use agent_seat_proto.Prelude.{
  ℕ, ◌+◌, ◌^◌, ◌<◌, ◌≤◌, ◌≡◌, refl, sym, ◌∙◌, arith, Bool, true, false, if◌then◌else◌, Option, none,
  some, List, [], ◌∷◌, Result, ok, err, >>=-eq-ok, >>-eq-ok, inl, inr, Bool-cases, or_else, is_some,
}
use agent_seat_proto.Broker.Protocol.{
  BrokerState, StopReason, arming, ready, stopped, unavailable, nothing, activity, event_loss,
  evidence_lost, internal, eligibility_changed, valid_state, eligible, ineligible, ProtocolError,
  EligibilityState, read_eligibility,
}
use agent_seat_proto.Broker.Protocol.Frames.{Valid}
use agent_seat_proto.Broker.Runtime.{
  Update, EventSummary, synchronization, syn_report, syn_config, syn_mt_report, syn_dropped,
  physical, Reading, Round, Broker, Turn, Served, Stream, Revents, is_live, is_arming, terminal,
  classify_eligibility_transition, classify_input_event, first_update, fetched_update,
  device_update, scan_devices, eligibility_update, terminal_update, is_due, apply_update,
  become_ready, stop, observe, begin, accept, answer, attend, arm_quiet_interval, round, run_rounds,
}

pub record Inv (instance_id : ℕ) (enrolled : List ℕ) (b : Broker) : Type 0 where
  pub valid : Valid b.status
  pub same_instance : b.status.instance_id ≡ instance_id
  pub held : b.eligibility ≡ is_live b.status.state
  pub watched : b.devices ≡ (if is_live b.status.state then enrolled else [])
  pub armed : is_some b.arm_deadline ≡ is_arming b.status.state
  pub first_epoch : is_live b.status.state ≡ true → b.status.epoch ≡ 1
  pub few_epochs : b.status.epoch ≤ 2

-- An update ends the evidence, with a reason that fits.
abbrev pub IsTerminal : Update → Type 0
IsTerminal (state, reason) = (is_live state ≡ false) × (valid_state state reason ≡ true)

abbrev pub AllTerminal : Option Update → Type 0
AllTerminal none = Unit
AllTerminal (some update) = IsTerminal update

classify_input_event-Terminal : (event : EventSummary) → AllTerminal (classify_input_event event)
unfolding classify_input_event valid_state
classify_input_event-Terminal (synchronization syn_report) = tt
classify_input_event-Terminal (synchronization syn_config) = (refl, refl)
classify_input_event-Terminal (synchronization syn_mt_report) = (refl, refl)
classify_input_event-Terminal (synchronization syn_dropped) = (refl, refl)
classify_input_event-Terminal physical = (refl, refl)

or_else-Terminal :
    (first later : Option Update)
    → AllTerminal first
    → AllTerminal later
    → AllTerminal (or_else first later)
or_else-Terminal none later h k = k
or_else-Terminal (some update) later h k = h

first_update-Terminal : (events : List EventSummary) → AllTerminal (first_update events)
unfolding first_update
first_update-Terminal [] = tt
first_update-Terminal (event ∷ rest) =
    or_else-Terminal (classify_input_event event) (first_update rest)
      (classify_input_event-Terminal event) (first_update-Terminal rest)

fetched_update-Terminal :
    (fetched : Option (List EventSummary)) → AllTerminal (fetched_update fetched)
unfolding valid_state
fetched_update-Terminal none = (refl, refl)
fetched_update-Terminal (some events) = first_update-Terminal events

device_update-Terminal : (reading : Reading) → AllTerminal (device_update reading)
unfolding device_update valid_state
device_update-Terminal reading = ground (arith, fetched_update-Terminal reading.fetched)

scan_devices-Terminal :
    (devices : List ℕ) (readings : List Reading) → AllTerminal (scan_devices devices readings)
unfolding scan_devices
scan_devices-Terminal [] readings = tt
scan_devices-Terminal (device ∷ devices) [] = tt
scan_devices-Terminal (device ∷ devices) (reading ∷ readings) =
    or_else-Terminal (device_update reading) (scan_devices devices readings)
      (device_update-Terminal reading) (scan_devices-Terminal devices readings)

transition-Terminal :
    (transition : Result ProtocolError EligibilityState)
    → IsTerminal (classify_eligibility_transition transition)
unfolding classify_eligibility_transition valid_state
transition-Terminal (ok eligible) = (refl, refl)
transition-Terminal (ok ineligible) = (refl, refl)
transition-Terminal (err e) = (refl, refl)

eligibility_update-Terminal :
    (held : Bool) (events : Revents) (bytes : List ℕ)
    → AllTerminal (eligibility_update held events bytes)
unfolding eligibility_update valid_state
eligibility_update-Terminal held events bytes =
    ground (arith, transition-Terminal (read_eligibility bytes))

pub terminal_update-Terminal : (b : Broker) (r : Round) → AllTerminal (terminal_update b r)
unfolding terminal_update
terminal_update-Terminal b r =
    or_else-Terminal (eligibility_update b.eligibility r.eligibility_events r.eligibility_bytes)
      (scan_devices b.devices r.readings)
      (eligibility_update-Terminal b.eligibility r.eligibility_events r.eligibility_bytes)
      (scan_devices-Terminal b.devices r.readings)

-- A broker that has lost its evidence has nothing more to look at.
pub terminal_update-stopped :
    {i : ℕ} {enrolled : List ℕ} (b : Broker) (r : Round)
    → Inv i enrolled b
    → is_live b.status.state ≡ false
    → terminal_update b r ≡ none
unfolding terminal_update eligibility_update scan_devices
terminal_update-stopped b r inv off = rw (inv.held, inv.watched, off) refl

is_due-armed :
    (deadline : Option ℕ) (now : ℕ) → is_due deadline now ≡ true → is_some deadline ≡ true
is_due-armed none now h = cc
is_due-armed (some at) now h = refl

ready_reason :
    (state : BrokerState) (reason : StopReason)
    → is_arming state ≡ true
    → valid_state state reason ≡ true
    → (valid_state ready reason ≡ true) × (is_live state ≡ true)
unfolding valid_state
ready_reason arming nothing h v = (refl, refl)
ready_reason arming activity h v = absurd (cc)
ready_reason arming event_loss h v = absurd (cc)
ready_reason arming evidence_lost h v = absurd (cc)
ready_reason arming internal h v = absurd (cc)
ready_reason arming eligibility_changed h v = absurd (cc)
ready_reason ready reason h v = absurd (cc)
ready_reason stopped reason h v = absurd (cc)
ready_reason unavailable reason h v = absurd (cc)

-- A round that returns changes the provider's stream of what it observed, and nothing else of it.
pub attend-eq-ok :
    (uid : ℕ) (b : Broker) (polled : Option Stream) (r : Round) (t : Turn)
    → attend uid b polled r ≡ ok t
    → (p : Option Stream) × (t.broker ≡ record b { provider = p })
      × ((current : Option Stream) × (t.frame ≡ (answer b.status polled current r).frame))
unfolding attend
attend-eq-ok uid b polled r t done =
    let (current, accepted, rest) =
      >>=-eq-ok (accept uid polled r.listener_events r.accepted) _ done in
    ((answer b.status polled current r).provider, cc, (current, cc))

pub round-eq-ok :
    (uid : ℕ) (b : Broker) (r : Round) (t : Turn)
    → round uid b r ≡ ok t
    → (p : Option Stream) × (t.broker ≡ record (observe b r) { provider = p })
      × ((current : Option Stream) × (t.frame
            ≡ (answer (observe b r).status b.provider current r).frame))
unfolding round
round-eq-ok uid b r t done =
    let (_, attended) = >>-eq-ok r.polled _ done in
    attend-eq-ok uid (observe b r) b.provider r t attended

pub run_rounds_done :
    (uid : ℕ) (b : Broker) (s : Served) → run_rounds uid b [] ≡ ok s → b ≡ s.broker
unfolding run_rounds
run_rounds_done uid b s done = cc

pub run_rounds_step :
    (uid : ℕ) (b : Broker) (r : Round) (rs : List Round) (s : Served)
    → run_rounds uid b (r ∷ rs) ≡ ok s
    → (t : Turn) × (rest : Served) × (round uid b r ≡ ok t)
      × (run_rounds uid t.broker rs ≡ ok rest)
      × (s.broker ≡ rest.broker)
      × (s.frames ≡ t.frame ∷ rest.frames)
unfolding run_rounds
run_rounds_step uid b r rs s done =
    let (t, turned, more) = >>=-eq-ok (round uid b r) _ done in
    let (rest, ran, last) = >>=-eq-ok (run_rounds uid t.broker rs) _ more in
    (t, rest, turned, ran, cc, cc)

pub not_arming : (state : BrokerState) → is_live state ≡ false → is_arming state ≡ false
not_arming state h = ground arith

module _ (i : ℕ) (enrolled : List ℕ) where
  become_ready-Inv :
      (b : Broker)
      → is_arming b.status.state ≡ true
      → Inv i enrolled b
      → Inv i enrolled (become_ready b)
  unfolding become_ready
  become_ready-Inv b on inv =
      let (fits, live) = ready_reason b.status.state b.status.reason on inv.valid.pair in
      record {
        valid = record {
          pair = fits;
          instance_nonzero = inv.valid.instance_nonzero;
          instance_bound = inv.valid.instance_bound;
          epoch_nonzero = inv.valid.epoch_nonzero;
          epoch_bound = inv.valid.epoch_bound;
        };
        same_instance = inv.same_instance;
        held = inv.held ∙ live;
        watched = inv.watched ∙ rw live refl;
        armed = refl;
        first_epoch = λ _. inv.first_epoch live;
        few_epochs = inv.few_epochs;
      }

  stop-Inv :
      (b : Broker) (state : BrokerState) (reason : StopReason)
      → IsTerminal (state, reason)
      → is_live b.status.state ≡ true
      → Inv i enrolled b
      → Inv i enrolled (stop b state reason)
  unfolding stop terminal
  stop-Inv b state reason (over, fits) live inv =
      let first = inv.first_epoch live in
      record {
        valid = record {
          pair = fits;
          instance_nonzero = inv.valid.instance_nonzero;
          instance_bound = inv.valid.instance_bound;
          epoch_nonzero = rw first (omega arith);
          epoch_bound = rw first (omega arith);
        };
        same_instance = inv.same_instance;
        held = sym over;
        watched = rw over refl;
        armed = sym (not_arming state over);
        first_epoch = λ on. absurd (cc);
        few_epochs = rw first (omega arith);
      }

  apply_update-Inv :
      (b : Broker) (now : ℕ) (update : Option Update)
      → AllTerminal update
      → (is_live b.status.state ≡ false → update ≡ none)
      → Inv i enrolled b
      → Inv i enrolled (apply_update b now update)
  unfolding apply_update
  apply_update-Inv b now none fits over inv = elim (Bool-cases (is_due b.arm_deadline now)) [
    | inl due ↦
        rw due (become_ready-Inv b (sym inv.armed ∙ is_due-armed b.arm_deadline now due) inv)
    | inr early ↦ rw early inv
  ]
  apply_update-Inv b now (some (state, reason)) fits over inv =
      elim (Bool-cases (is_live b.status.state)) [
        | inl live ↦ stop-Inv b state reason fits live inv
        | inr off ↦ absurd (cc (over off))
      ]

  -- The part of a round before the sockets are looked at.
  pub observe-Inv : (b : Broker) (r : Round) → Inv i enrolled b → Inv i enrolled (observe b r)
  unfolding observe
  observe-Inv b r inv =
      apply_update-Inv b r.now (terminal_update b r) (terminal_update-Terminal b r)
        (terminal_update-stopped b r inv) inv

  with_provider-Inv :
      (b : Broker) (p : Option Stream)
      → Inv i enrolled b
      → Inv i enrolled (record b { provider = p })
  with_provider-Inv b p inv = record {
    valid = inv.valid;
    same_instance = inv.same_instance;
    held = inv.held;
    watched = inv.watched;
    armed = inv.armed;
    first_epoch = inv.first_epoch;
    few_epochs = inv.few_epochs;
  }

  -- A round keeps the invariant.
  pub round-Inv :
      (uid : ℕ) (b : Broker) (r : Round) (t : Turn)
      → round uid b r ≡ ok t
      → Inv i enrolled b
      → Inv i enrolled t.broker
  round-Inv uid b r t done inv =
      let (p, same, _) = round-eq-ok uid b r t done in
      rw same (with_provider-Inv (observe b r) p (observe-Inv b r inv))

  -- Every broker that rounds lead to keeps the invariant.
  pub run_rounds-Inv :
      (uid : ℕ) (b : Broker) (rs : List Round) (s : Served)
      → run_rounds uid b rs ≡ ok s
      → Inv i enrolled b
      → Inv i enrolled s.broker
  run_rounds-Inv uid b [] s done inv = rw (← run_rounds_done uid b s done) inv
  run_rounds-Inv uid b (r ∷ rs) s done inv =
      let (t, rest, turned, ran, same, _) = run_rounds_step uid b r rs s done in
      let kept = run_rounds-Inv uid t.broker rs rest ran (round-Inv uid b r t turned inv) in
      rw same kept

  -- The broker that `run` begins with, if its instance is a nonzero word.
  pub begin-Inv :
      (now : ℕ) (state : BrokerState) (reason : StopReason)
      → 0 < i
      → i < 2 ^ 64
      → valid_state state reason ≡ true
      → Inv i enrolled (begin i enrolled now (state, reason))
  begin-Inv now state reason above below fits = record {
    valid = record {
      pair = fits;
      instance_nonzero = above;
      instance_bound = below;
      epoch_nonzero = omega arith;
      epoch_bound = omega arith;
    };
    same_instance = refl;
    held = refl;
    watched = refl;
    armed = armed_lem (is_arming state);
    first_epoch = λ _. refl;
    few_epochs = omega arith;
  }
    where
      armed_lem :
          (b : Bool) → is_some {A = ℕ} (if b then some (now + arm_quiet_interval) else none) ≡ b
      armed_lem true = refl
      armed_lem false = refl
