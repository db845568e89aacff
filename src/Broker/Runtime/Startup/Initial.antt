-- ===== src/Broker/Runtime/Startup/Initial.antt =====
-- The last checks before the loop of crates/agent-seat-activity-broker/src/main.rs, and the broker
-- that it begins with.
use agent_seat_proto.Prelude.{
  ℕ, ◌+◌, ◌-◌, Bool, true, false, not, ◌==◌, ltb, if◌then◌else◌, String, Option, none, some, List,
  [], ◌∷◌, ◌++◌, length, is_empty, take, Result, ok, err, ◌>>=◌, ◌>>◌, map_err, map,
}
use agent_seat_proto.Prelude.Text.{same, chars}
use agent_seat_proto.Prelude.Bytes.{from_le_bytes}
use agent_seat_proto.Devices.Inherited.{InheritedFile, receive_inherited_files}
use agent_seat_proto.Devices.DeviceSet.{max_event_descriptors}
use agent_seat_proto.Broker.Protocol.{
  stopped, unavailable, activity, evidence_lost, EligibilityState, eligible, ineligible,
}
use agent_seat_proto.Broker.Runtime.{
  Update, EventSummary, Broker, is_lost, classify_input_event, initial_broker,
}
use agent_seat_proto.Broker.Runtime.Startup.{
  Stop, failed, waiting, Device, World, parse, or_failed, read_enrolled_device_set, open_devices,
  match_devices, read_initial_eligibility,
}

-- A key or button that is held.
unfoldable pub held_keys : List Device → Result Stop (Option Update)
held_keys [] = ok none
held_keys (device ∷ devices) =
    let rest = held_keys devices in
    let looked = map_err failed device.key_state >>= λ pressed.
    if not (is_empty pressed) then ok (some (stopped, activity)) else rest in
    if device.has_keys then looked else rest

-- What the loop over a queue has found: an end, or whether there was activity.
pub data Queue : Type 0 where
  ended : Update → Queue
  seen : Bool → Queue

abbrev pub note_event : Option Update → Bool → Queue
note_event none found = seen found
note_event (some (unavailable, reason)) found = ended (unavailable, reason)
note_event (some (stopped, activity)) found = seen true
note_event (some (_, _)) found = seen found

unfoldable pub scan_queue : List EventSummary → Bool → Queue
scan_queue [] found = seen found
scan_queue (event ∷ events) found = elim (note_event (classify_input_event event) found) [
  | ended update ↦ ended update
  | seen found' ↦ scan_queue events found'
]

abbrev pub after_queue : Queue → (Bool → Result Stop (Option Update)) → Result Stop (Option Update)
after_queue (ended update) next = ok (some update)
after_queue (seen found) next = next found

abbrev pub or_look : Option Update → Result Stop (Option Update) → Result Stop (Option Update)
or_look (some update) next = ok (some update)
or_look none next = next

-- The loop over the devices and their first poll.
unfoldable pub scan_queues : List Device → Bool → Result Stop (Option Update)
scan_queues [] found = ok (if found then some (stopped, activity) else none)
scan_queues (device ∷ devices) found =
    if is_lost device.revents
    then ok (some (unavailable, evidence_lost))
    else if not device.revents.readable
    then scan_queues devices found
    else map_err failed device.fetched >>= λ events.
        after_queue (scan_queue events found) (λ found'. scan_queues devices found')

unfoldable pub initial_device_update :
    List Device → Result String (Unit {0}) → Result Stop (Option Update)
initial_device_update devices polled =
    held_keys devices >>= λ held. or_look held (or_failed polled >> scan_queues devices false)

-- `u64::from_ne_bytes` of a little-endian host, and the test for zero.
abbrev pub nonzero : ℕ → Result Stop ℕ
nonzero instance_id =
    if instance_id == 0
    then err (failed "random broker instance identifier was zero")
    else ok instance_id

-- `random_instance` with the bytes so far.
unfoldable pub fill_random : List ℕ → List (Result String (List ℕ)) → Result Stop ℕ
fill_random bytes [] = if ltb (length bytes) 8 then err waiting else nonzero (from_le_bytes bytes)
fill_random bytes (drawn ∷ rest) =
    if not (ltb (length bytes) 8)
    then nonzero (from_le_bytes bytes)
    else map_err failed drawn >>= λ more.
        if is_empty more
        then err (failed "random source returned no instance bytes")
        else fill_random (bytes ++ take (8 - length bytes) more) rest

unfoldable pub random_instance : List (Result String (List ℕ)) → Result Stop ℕ
random_instance draws = fill_random [] draws

abbrev pub is_eligible : EligibilityState → Bool
is_eligible eligible = true
is_eligible ineligible = false

-- The uid of the provider, the devices, and the broker that the loop begins with.
pub record Started : Type 0 where
  pub uid : ℕ
  pub devices : List Device
  pub broker : Broker

-- The checks from the eligibility channel on.
unfoldable pub arm : World → ℕ → List Device → Result Stop Started
arm w uid devices =
    or_failed w.eligibility
    >> (read_initial_eligibility w.attempts >>= λ state.
        initial_device_update devices w.initial_poll >>= λ update.
        random_instance w.random >>= λ instance_id. ok (record {
          uid = uid;
          devices = devices;
          broker =
              initial_broker instance_id (map (λ d. d.id) devices) w.now (is_eligible state) update;
        }))

-- The enrolled devices and the descriptors that follow the device set.
unfoldable pub open_all : World → ℕ → List InheritedFile → Result Stop Started
open_all w uid [] = err (failed "first inherited descriptor must be named enrolled-device-set")
open_all w uid (first ∷ rest) =
    if not (same first.name (chars "enrolled-device-set"))
    then err (failed "first inherited descriptor must be named enrolled-device-set")
    else read_enrolled_device_set (w.set_file first.descriptor) 0 >>= λ enrolled.
        if not (length enrolled == length rest)
        then err (failed "inherited event descriptor count does not match enrollment")
        else open_devices w.device 0 rest >>= λ devices.
            if is_empty devices
            then err (failed "at least one inherited event descriptor is required")
            else match_devices devices enrolled >> arm w uid devices

unfoldable pub start : World → Result Stop Started
start w = parse w.arguments >>= λ uid.
    if w.broker_uid == 0
    then err (failed "broker must run as a confined non-root service user")
    else if w.broker_uid == uid
    then err (failed "broker and enrolled provider must use distinct UIDs")
    else or_failed w.listener
      >> (map_err (λ e. failed "cannot receive inherited descriptors")
            (receive_inherited_files (max_event_descriptors + 1) 1 w.activation)
          >>= λ files. open_all w uid files)
