-- ===== src/Broker/Runtime/Startup/Opens.antt =====
-- The first look at the devices and the random instance,
-- crates/agent-seat-activity-broker/src/main.rs.
use agent_seat_proto.Prelude.{
  ℕ, ◌-◌, ◌^◌, ◌≤◌, ◌<◌, ◌≡◌, refl, arith, Bool, true, false, ◌==◌, ltb, String, Option, none, some,
  List, [], ◌∷◌, ◌++◌, length, is_empty, take, Result, ok, err, ◌>>◌, >>=-eq-ok, >>-eq-ok, map_err,
  Bool-cases, inl, inr, All, All-append, All-take, length-append, length-take_bound,
}
use agent_seat_proto.Prelude.Bytes.{IsByte, from_le_bytes, from_le_bytes_bound}
use agent_seat_proto.Broker.Protocol.{stopped, unavailable, activity, evidence_lost, valid_state}
use agent_seat_proto.Broker.Runtime.{
  Update, EventSummary, synchronization, syn_report, syn_config, syn_mt_report, syn_dropped,
  physical, is_lost, classify_input_event,
}
use agent_seat_proto.Broker.Runtime.Invariant.{AllTerminal, IsTerminal}
use agent_seat_proto.Broker.Runtime.Startup.{Stop, failed, Device, or_failed}
use agent_seat_proto.Broker.Runtime.Startup.Initial.{
  held_keys, Queue, ended, seen, note_event, scan_queue, scan_queues, after_queue, or_look,
  initial_device_update, nonzero, fill_random,
}

-- An update of the first look, where there is one, ends the evidence.
abbrev QueueFits : Queue → Type 0
QueueFits (ended update) = IsTerminal update
QueueFits (seen found) = Unit

note_event-Fits :
    (event : EventSummary) (found : Bool)
    → QueueFits (note_event (classify_input_event event) found)
unfolding classify_input_event valid_state
note_event-Fits (synchronization syn_report) found = tt
note_event-Fits (synchronization syn_config) found = tt
note_event-Fits (synchronization syn_mt_report) found = tt
note_event-Fits (synchronization syn_dropped) found = (refl, refl)
note_event-Fits physical found = tt

scan_queue-Fits : (events : List EventSummary) (found : Bool) → QueueFits (scan_queue events found)
unfolding scan_queue
scan_queue-Fits [] found = tt
scan_queue-Fits (event ∷ events) found =
    elim (note_event (classify_input_event event) found)
        as (λ q.
          QueueFits q
          → QueueFits
              (elim q [ ended update ↦ ended update | seen found' ↦ scan_queue events found' ])) [
                | ended update ↦ λ fits. fits
                | seen found' ↦ λ fits. scan_queue-Fits events found'
              ]
      (note_event-Fits event found)

same_update :
    (u v : Option Update)
    → ◌≡◌ {A = Result Stop (Option Update)} (ok u) (ok v)
    → AllTerminal u
    → AllTerminal v
same_update u v h fits = let e : u ≡ v = cc in rw (← e) fits

after_queue-Terminal :
    (q : Queue) (next : Bool → Result Stop (Option Update)) (update : Option Update)
    → QueueFits q
    → after_queue q next ≡ ok update
    → ((found : Bool) → next found ≡ ok update → AllTerminal update)
    → AllTerminal update
after_queue-Terminal (ended u) next update fits h later = same_update (some u) update h fits
after_queue-Terminal (seen found) next update fits h later = later found h

scan_queues-Terminal :
    (devices : List Device) (found : Bool) (update : Option Update)
    → scan_queues devices found ≡ ok update
    → AllTerminal update
unfolding scan_queues valid_state
scan_queues-Terminal [] true update h = same_update (some (stopped, activity)) update h (refl, refl)
scan_queues-Terminal [] false update h = same_update none update h tt
scan_queues-Terminal (device ∷ devices) found update h =
    elim (Bool-cases (is_lost device.revents)) [
      | inl lost ↦
          same_update (some (unavailable, evidence_lost)) update (rw lost at h) (refl, refl)
      | inr intact ↦ elim (Bool-cases device.revents.readable) [
        | inr off ↦ scan_queues-Terminal devices found update (rw (intact, off) at h)
        | inl on ↦
            let (events, fetched, more) =
              >>=-eq-ok (map_err failed device.fetched) _ (rw (intact, on) at h) in
            after_queue-Terminal (scan_queue events found) _ update (scan_queue-Fits events found)
              more (λ found' h'. scan_queues-Terminal devices found' update h')
      ]
    ]

held_keys-Terminal :
    (devices : List Device) (update : Option Update)
    → held_keys devices ≡ ok update
    → AllTerminal update
unfolding held_keys valid_state
held_keys-Terminal [] update h = same_update none update h tt
held_keys-Terminal (device ∷ devices) update h = elim (Bool-cases device.has_keys) [
  | inr keyless ↦ held_keys-Terminal devices update (rw keyless at h)
  | inl keyed ↦
      let (pressed, read, more) = >>=-eq-ok (map_err failed device.key_state) _ (rw keyed at h) in
      elim (Bool-cases (is_empty pressed)) [
        | inl free ↦ held_keys-Terminal devices update (rw free at more)
        | inr down ↦ same_update (some (stopped, activity)) update (rw down at more) (refl, refl)
      ]
]

pub initial_device_update-Terminal :
    (devices : List Device) (polled : Result String (Unit {0})) (update : Option Update)
    → initial_device_update devices polled ≡ ok update
    → AllTerminal update
unfolding initial_device_update
initial_device_update-Terminal devices polled update h =
    let (held, looked, more) = >>=-eq-ok (held_keys devices) _ h in
    or_look-Terminal held (held_keys-Terminal devices held looked) more
  where
    or_look-Terminal :
        (first : Option Update)
        → AllTerminal first
        → or_look first (or_failed polled >> scan_queues devices false) ≡ ok update
        → AllTerminal update
    or_look-Terminal (some u) fits k = same_update (some u) update k fits
    or_look-Terminal none fits k =
        scan_queues-Terminal devices false update (>>-eq-ok (or_failed polled) _ k).1

abbrev pub AllRandom : List (Result String (List ℕ)) → Type 0
AllRandom [] = Unit
AllRandom (ok bytes ∷ rest) = All IsByte bytes × AllRandom rest
AllRandom (err e ∷ rest) = AllRandom rest

nonzero-Word :
    (bytes : List ℕ) (i : ℕ)
    → All IsByte bytes
    → length bytes ≡ 8
    → nonzero (from_le_bytes bytes) ≡ ok i
    → (0 < i) × (i < 2 ^ 64)
nonzero-Word bytes i every eight h =
    let bound = from_le_bytes_bound bytes every in
    let word : from_le_bytes bytes < 2 ^ 64 = rw eight at bound in
    elim (Bool-cases (from_le_bytes bytes == 0)) [
      | inl zero_word ↦ absurd (cc (rw zero_word at h))
      | inr some_word ↦
          let e : from_le_bytes bytes ≡ i = cc (rw some_word at h) in rw (← e) (ground arith, word)
    ]

pub fill_random-Word :
    (bytes : List ℕ) (draws : List (Result String (List ℕ))) (i : ℕ)
    → All IsByte bytes
    → length bytes ≤ 8
    → AllRandom draws
    → fill_random bytes draws ≡ ok i
    → (0 < i) × (i < 2 ^ 64)
unfolding fill_random
fill_random-Word bytes [] i every fits random h = elim (Bool-cases (ltb (length bytes) 8)) [
  | inl short ↦ absurd (cc (rw short at h))
  | inr full ↦ nonzero-Word bytes i every (ground arith) (rw full at h)
]
fill_random-Word bytes (ok more ∷ rest) i every fits random h =
    elim (Bool-cases (ltb (length bytes) 8)) [
      | inr full ↦ nonzero-Word bytes i every (ground arith) (rw full at h)
      | inl short ↦ elim (Bool-cases (is_empty more)) [
        | inl none_drawn ↦ absurd (cc (rw (short, none_drawn) at h))
        | inr some_drawn ↦
            fill_random-Word (bytes ++ take (8 - length bytes) more) rest i
              (All-append IsByte bytes (take (8 - length bytes) more) every
                (All-take IsByte (8 - length bytes) more random.0))
              (omega (
                arith,
                length-append bytes (take (8 - length bytes) more),
                length-take_bound (8 - length bytes) more,
              ))
              random.1 (rw (short, some_drawn) at h)
      ]
    ]
fill_random-Word bytes (err e ∷ rest) i every fits random h =
    elim (Bool-cases (ltb (length bytes) 8)) [
      | inr full ↦ nonzero-Word bytes i every (ground arith) (rw full at h)
      | inl short ↦ absurd (cc (rw short at h))
    ]
