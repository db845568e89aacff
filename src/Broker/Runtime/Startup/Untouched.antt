-- ===== src/Broker/Runtime/Startup/Untouched.antt =====
-- The first look at the devices, `initial_device_update` of
-- crates/agent-seat-activity-broker/src/main.rs.
use agent_seat_proto.Prelude.{
  ℕ, ◌≡◌, refl, ap, ◌∙◌, Bool, true, false, ◌⊎◌, String, Option, none, some, List, [], ◌∷◌, Result,
  ok, is_empty, >>=-eq-ok, map_err-eq-ok, >>-eq-ok, map_err, Bool-cases, inl, inr, All,
}
use agent_seat_proto.Broker.Runtime.{
  Update, EventSummary, synchronization, syn_report, syn_config, syn_mt_report, syn_dropped,
  physical, is_lost, classify_input_event,
}
use agent_seat_proto.Broker.Runtime.Startup.{Stop, failed, Device, or_failed}
use agent_seat_proto.Broker.Runtime.Startup.Initial.{
  held_keys, Queue, ended, seen, scan_queue, scan_queues, after_queue, or_look,
  initial_device_update,
}

abbrev pub AllReports : List EventSummary → Type 0
AllReports = All (λ event. event ≡ synchronization syn_report)

-- No key is held.
abbrev pub Free : Device → Type 0
Free device = (device.has_keys ≡ false) ⊎ (device.key_state ≡ ok [])

-- Nothing is lost, and nothing is queued but ends of reports.
abbrev pub Calm : Device → Type 0
Calm device =
    (is_lost device.revents ≡ false)
    × ((device.revents.readable ≡ false)
        ⊎ ((events : List EventSummary) × (device.fetched ≡ ok events) × AllReports events))

pub record Untouched (device : Device) : Type 0 where
  pub free : Free device
  pub calm : Calm device

held_keys-Free : (devices : List Device) → held_keys devices ≡ ok none → All Free devices
unfolding held_keys
held_keys-Free [] h = tt
held_keys-Free (device ∷ devices) h = elim (Bool-cases device.has_keys) [
  | inr keyless ↦ (inl keyless, held_keys-Free devices (rw keyless at h))
  | inl keyed ↦
      let (pressed, read, more) = >>=-eq-ok (map_err failed device.key_state) _ (rw keyed at h) in
      elim (Bool-cases (is_empty pressed)) [
        | inr down ↦ absurd (cc (rw down at more))
        | inl free ↦ (
          inr (map_err-eq-ok failed device.key_state read ∙ ap (λ l. ok l) (empty pressed free)),
          held_keys-Free devices (rw free at more),
        )
      ]
]
  where
    empty : (l : List ℕ) → is_empty l ≡ true → l ≡ []
    empty [] e = refl
    empty (c ∷ l) e = absurd (cc)

-- Activity that was seen stays seen, and a queue without it holds only ends of reports.
scan_queue-seen :
    (events : List EventSummary) (found : Bool)
    → scan_queue events found ≡ seen false
    → (found ≡ false) × AllReports events
unfolding scan_queue classify_input_event
scan_queue-seen [] found h = (cc, tt)
scan_queue-seen (synchronization syn_report ∷ events) found h =
    let (before, reports) = scan_queue-seen events found h in (before, (refl, reports))
scan_queue-seen (synchronization syn_config ∷ events) found h =
    absurd (cc ((scan_queue-seen events true h).0))
scan_queue-seen (synchronization syn_mt_report ∷ events) found h =
    absurd (cc ((scan_queue-seen events true h).0))
scan_queue-seen (synchronization syn_dropped ∷ events) found h = absurd (cc)
scan_queue-seen (physical ∷ events) found h = absurd (cc ((scan_queue-seen events true h).0))

after_queue-none :
    (q : Queue) (next : Bool → Result Stop (Option Update))
    → after_queue q next ≡ ok none
    → (found : Bool) × (q ≡ seen found) × (next found ≡ ok none)
after_queue-none (ended update) next h = absurd (cc)
after_queue-none (seen found) next h = (found, refl, h)

scan_queues-Calm :
    (devices : List Device) (found : Bool)
    → scan_queues devices found ≡ ok none
    → (found ≡ false) × All Calm devices
unfolding scan_queues
scan_queues-Calm [] true h = absurd (cc)
scan_queues-Calm [] false h = (refl, tt)
scan_queues-Calm (device ∷ devices) found h = elim (Bool-cases (is_lost device.revents)) [
  | inl lost ↦ absurd (cc (rw lost at h))
  | inr intact ↦ elim (Bool-cases device.revents.readable) [
    | inr off ↦
        let (before, calm) = scan_queues-Calm devices found (rw (intact, off) at h) in
        (before, ((intact, inl off), calm))
    | inl on ↦
        let (events, fetched, more) =
          >>=-eq-ok (map_err failed device.fetched) _ (rw (intact, on) at h) in
        let (found', queue, later) = after_queue-none (scan_queue events found) _ more in
        let (after, calm) = scan_queues-Calm devices found' later in
        let (before, reports) = scan_queue-seen events found (rw after at queue) in
        (
          before,
          ((intact, inr (events, map_err-eq-ok failed device.fetched fetched, reports)), calm),
        )
  ]
]

both : (devices : List Device) → All Free devices → All Calm devices → All Untouched devices
both [] free calm = tt
both (device ∷ devices) free calm =
    (record { free = free.0; calm = calm.0 }, both devices free.1 calm.1)

or_look-none :
    (first : Option Update) (next : Result Stop (Option Update))
    → or_look first next ≡ ok none
    → (first ≡ none) × (next ≡ ok none)
or_look-none none next h = (refl, h)
or_look-none (some update) next h = absurd (cc)

-- If the first look finds no update, then no key or button of any device is held, no device is lost,
-- and the queues hold nothing but ends of reports.
pub initial_device_update-Untouched :
    (devices : List Device) (polled : Result String (Unit {0}))
    → initial_device_update devices polled ≡ ok none
    → All Untouched devices
unfolding initial_device_update
initial_device_update-Untouched devices polled h =
    let (held, looked, more) = >>=-eq-ok (held_keys devices) _ h in
    let (nothing_held, rest) = or_look-none held _ more in
    let (_, scanned) = >>-eq-ok (or_failed polled) _ rest in
    both devices (held_keys-Free devices (rw nothing_held at looked))
      (scan_queues-Calm devices false scanned).1
