-- ===== src/Broker/Runtime/Quiet.antt =====
-- Quiet rounds of the loop of crates/agent-seat-activity-broker/src/main.rs, and terminal states.
use agent_seat_proto.Prelude.{
  ℕ, ◌≡◌, ◌↔◌, refl, ◌∙◌, arith, true, false, Option, none, some, List, [], ◌∷◌, ok, ◌⊎◌, inl, inr,
  Bool-cases, All, take, length, or_else, is_some,
}
use agent_seat_proto.Broker.Runtime.{
  Update, EventSummary, synchronization, syn_report, syn_config, syn_mt_report, syn_dropped,
  physical, Revents, Reading, Round, Broker, Turn, Served, is_live, is_lost, classify_input_event,
  first_update, fetched_update, device_update, scan_devices, eligibility_update, terminal_update,
  apply_update, is_due, become_ready, stop, observe, terminal, round, run_rounds,
}
use agent_seat_proto.Broker.Runtime.Invariant.{
  Inv, round-Inv, run_rounds_done, run_rounds_step, round-eq-ok, terminal_update-stopped,
  terminal_update-Terminal, AllTerminal, not_arming,
}

-- A device that reports nothing, or nothing but ends of reports.
pub record QuietReading (reading : Reading) : Type 0 where
  pub intact : is_lost reading.revents ≡ false
  pub silent :
      (reading.revents.readable ≡ false)
      ⊎ ((events : List EventSummary) × (reading.fetched ≡ some events)
          × All (λ event. event ≡ synchronization syn_report) events)

-- A round in which no eligibility frame comes and every enrolled device is quiet.
pub record Quiet (enrolled : List ℕ) (r : Round) : Type 0 where
  pub channel : is_lost r.eligibility_events ≡ false
  pub unasserted : r.eligibility_events.readable ≡ false
  pub devices : All QuietReading (take (length enrolled) r.readings)

or_else-none_iff :
    (first later : Option Update) → (or_else first later ≡ none) ↔ ((first ≡ none) × (later ≡ none))
or_else-none_iff none later = (λ h. (refl, h), λ h. h.1)
or_else-none_iff (some update) later = (λ h. absurd (cc), λ h. h.0)

classify-none_iff :
    (event : EventSummary)
    → (classify_input_event event ≡ none) ↔ (event ≡ synchronization syn_report)
unfolding classify_input_event
classify-none_iff (synchronization syn_report) = (λ _. refl, λ _. refl)
classify-none_iff (synchronization syn_config) = (λ h. absurd (cc), λ h. absurd (cc))
classify-none_iff (synchronization syn_mt_report) = (λ h. absurd (cc), λ h. absurd (cc))
classify-none_iff (synchronization syn_dropped) = (λ h. absurd (cc), λ h. absurd (cc))
classify-none_iff physical = (λ h. absurd (cc), λ h. absurd (cc))

first_update-none_iff :
    (events : List EventSummary)
    → (first_update events ≡ none) ↔ All (λ event. event ≡ synchronization syn_report) events
unfolding first_update
first_update-none_iff [] = (λ _. tt, λ _. refl)
first_update-none_iff (event ∷ rest) = (
  λ h.
      let (one, more) = (or_else-none_iff (classify_input_event event) (first_update rest)).0 h in
      ((classify-none_iff event).0 one, (first_update-none_iff rest).0 more),
  λ h.
      (or_else-none_iff (classify_input_event event) (first_update rest)).1
        ((classify-none_iff event).1 h.0, (first_update-none_iff rest).1 h.1),
)

fetched_update-none :
    (fetched : Option (List EventSummary))
    → fetched_update fetched ≡ none
    → (events : List EventSummary) × (fetched ≡ some events)
      × All (λ event. event ≡ synchronization syn_report) events
fetched_update-none none h = absurd (cc)
fetched_update-none (some events) h = (events, refl, (first_update-none_iff events).0 h)

device_update-none_iff : (reading : Reading) → (device_update reading ≡ none) ↔ QuietReading reading
unfolding device_update
device_update-none_iff reading = (
  λ h. elim (Bool-cases (is_lost reading.revents)) [
    | inl lost ↦ absurd (cc (rw lost at h))
    | inr intact ↦ elim (Bool-cases reading.revents.readable) [
      | inr off ↦ record { intact = intact; silent = inl off }
      | inl on ↦ record {
        intact = intact;
        silent = inr (fetched_update-none reading.fetched (rw (intact, on) at h));
      }
    ]
  ],
  λ quiet. elim quiet.silent [
    | inl off ↦ rw (quiet.intact, off) refl
    | inr (events, fetched, reports) ↦ elim (Bool-cases reading.revents.readable) [
      | inl on ↦ rw (quiet.intact, on, fetched) ((first_update-none_iff events).1 reports)
      | inr off ↦ rw (quiet.intact, off) refl
    ]
  ],
)

scan_devices-none_iff :
    (devices : List ℕ) (readings : List Reading)
    → (scan_devices devices readings ≡ none) ↔ All QuietReading (take (length devices) readings)
unfolding scan_devices
scan_devices-none_iff [] readings = (λ _. tt, λ _. refl)
scan_devices-none_iff (device ∷ devices) [] = (λ _. tt, λ _. refl)
scan_devices-none_iff (device ∷ devices) (reading ∷ readings) = (
  λ h.
      let (one, more) =
        (or_else-none_iff (device_update reading) (scan_devices devices readings)).0 h in
      ((device_update-none_iff reading).0 one, (scan_devices-none_iff devices readings).0 more),
  λ h.
      (or_else-none_iff (device_update reading) (scan_devices devices readings)).1
        ((device_update-none_iff reading).1 h.0, (scan_devices-none_iff devices readings).1 h.1),
)

eligibility_update-none_iff :
    (events : Revents) (bytes : List ℕ)
    → (eligibility_update true events bytes ≡ none)
      ↔ ((is_lost events ≡ false) × (events.readable ≡ false))
unfolding eligibility_update
eligibility_update-none_iff events bytes = (λ h. ground arith, λ h. ground arith)

apply_update-live_iff :
    (b : Broker) (now : ℕ) (update : Option Update)
    → AllTerminal update
    → is_live b.status.state ≡ true
    → (is_live (apply_update b now update).status.state ≡ true) ↔ (update ≡ none)
unfolding apply_update become_ready stop terminal
apply_update-live_iff b now (some (state, reason)) (over, _) live =
    (λ h. absurd (cc), λ h. absurd (cc))
apply_update-live_iff b now none fits live = (
  λ _. refl,
  λ _. elim (Bool-cases (is_due b.arm_deadline now)) [
    | inl due ↦ rw due refl
    | inr early ↦ rw early live
  ],
)

not_due : (deadline : Option ℕ) (now : ℕ) → is_some deadline ≡ false → is_due deadline now ≡ false
not_due none now h = refl
not_due (some at) now h = absurd (cc)

module _ (i : ℕ) (enrolled : List ℕ) where
  pub terminal_update-none_iff :
      (b : Broker) (r : Round)
      → Inv i enrolled b
      → is_live b.status.state ≡ true
      → (terminal_update b r ≡ none) ↔ Quiet enrolled r
  unfolding terminal_update
  terminal_update-none_iff b r inv live =
      let channel = eligibility_update-none_iff r.eligibility_events r.eligibility_bytes in
      let scanned = scan_devices-none_iff enrolled r.readings in
      let both =
        or_else-none_iff (eligibility_update true r.eligibility_events r.eligibility_bytes)
          (scan_devices enrolled r.readings) in
      rw (inv.held, inv.watched, live)
        (
          λ h. record {
            channel = (channel.0 (both.0 h).0).0;
            unasserted = (channel.0 (both.0 h).0).1;
            devices = scanned.0 (both.0 h).1;
          },
          λ quiet. both.1 (channel.1 (quiet.channel, quiet.unasserted), scanned.1 quiet.devices),
        )

  -- What a round observes: the broker stays live exactly if the round is quiet.
  pub observe-live_iff :
      (b : Broker) (r : Round)
      → Inv i enrolled b
      → is_live b.status.state ≡ true
      → (is_live (observe b r).status.state ≡ true) ↔ Quiet enrolled r
  unfolding observe
  observe-live_iff b r inv live =
      let stays =
        apply_update-live_iff b r.now (terminal_update b r) (terminal_update-Terminal b r) live in
      let undisturbed = terminal_update-none_iff b r inv live in
      (λ h. undisturbed.0 (stays.0 h), λ quiet. stays.1 (undisturbed.1 quiet))

  -- Nothing that a round observes changes a status without evidence.
  pub observe-stopped :
      (b : Broker) (r : Round)
      → Inv i enrolled b
      → is_live b.status.state ≡ false
      → (observe b r).status ≡ b.status
  unfolding observe apply_update
  observe-stopped b r inv off =
      rw
        (
          terminal_update-stopped b r inv off,
          not_due b.arm_deadline r.now (inv.armed ∙ not_arming b.status.state off),
        )
        refl

  pub round-status :
      (uid : ℕ) (b : Broker) (r : Round) (t : Turn)
      → round uid b r ≡ ok t
      → t.broker.status ≡ (observe b r).status
  round-status uid b r t done = let (p, same, _) = round-eq-ok uid b r t done in rw same refl

  -- Once the evidence is over, no round changes the status.
  pub run_rounds-final :
      (uid : ℕ) (b : Broker) (rs : List Round) (s : Served)
      → Inv i enrolled b
      → run_rounds uid b rs ≡ ok s
      → is_live b.status.state ≡ false
      → s.broker.status ≡ b.status
  run_rounds-final uid b [] s inv done off = rw (run_rounds_done uid b s done) refl
  run_rounds-final uid b (r ∷ rs) s inv done off =
      let (t, rest, turned, ran, same, _) = run_rounds_step uid b r rs s done in
      let unchanged = round-status uid b r t turned ∙ observe-stopped b r inv off in
      let later =
        run_rounds-final uid t.broker rs rest (round-Inv i enrolled uid b r t turned inv) ran
          (rw unchanged off) in
      rw same (later ∙ unchanged)

  -- The broker is live after rounds exactly if it was so before them and every one of them was quiet:
  -- no eligibility frame, no lost channel or device, and no event but ends of reports.
  pub run_rounds-live_iff :
      (uid : ℕ) (b : Broker) (rs : List Round) (s : Served)
      → Inv i enrolled b
      → run_rounds uid b rs ≡ ok s
      → (is_live s.broker.status.state ≡ true)
        ↔ ((is_live b.status.state ≡ true) × All (Quiet enrolled) rs)
  run_rounds-live_iff uid b [] s inv done =
      rw (← run_rounds_done uid b s done) (λ live. (live, tt), λ h. h.0)
  run_rounds-live_iff uid b (r ∷ rs) s inv done =
      let (t, rest, turned, ran, same, _) = run_rounds_step uid b r rs s done in
      let later =
        run_rounds-live_iff uid t.broker rs rest (round-Inv i enrolled uid b r t turned inv) ran in
      let now = round-status uid b r t turned in
      rw same (
        λ live. elim (Bool-cases (is_live b.status.state)) [
          | inl on ↦
              let (stayed, quiet) = later.0 live in
              (on, ((observe-live_iff b r inv on).0 (rw (← now) stayed), quiet))
          | inr off ↦ absurd (cc (observe-stopped b r inv off, (later.0 live).0))
        ],
        λ h. later.1 (rw now ((observe-live_iff b r inv h.0).1 h.1.0), h.1.1),
      )
