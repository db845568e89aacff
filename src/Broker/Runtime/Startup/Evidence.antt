-- ===== src/Broker/Runtime/Startup/Evidence.antt =====
-- The checks before the loop of crates/agent-seat-activity-broker/src/main.rs: the uids, the device
-- set and the devices.
use agent_seat_proto.Prelude.{
  ℕ, suc, ◌+◌, ◌≡◌, ◌≢◌, refl, ap, arith, false, ◌==◌, String, Option, List, [], ◌∷◌, map, length,
  is_empty, Result, ok, >>=-eq-ok, >>-eq-ok, map_err, Bool-cases, inl, inr,
}
use mathlib.Core.List.{cons-ne-nil}
use agent_seat_proto.Prelude.Text.{same, chars}
use agent_seat_proto.Devices.Inherited.{InheritedFile, receive_inherited_files}
use agent_seat_proto.Devices.InputSet.{event_name}
use agent_seat_proto.Devices.DeviceSet.{max_event_descriptors, EnrolledDevice}
use agent_seat_proto.Broker.Protocol.{EligibilityState}
use agent_seat_proto.Broker.Runtime.{Update, initial_broker}
use agent_seat_proto.Broker.Runtime.Startup.{
  failed, Device, World, parse, or_failed, read_enrolled_device_set, open_devices, match_devices,
  read_initial_eligibility,
}
use agent_seat_proto.Broker.Runtime.Startup.Initial.{
  initial_device_update, random_instance, is_eligible, Started, arm, open_all, start,
}
use agent_seat_proto.Broker.Runtime.Startup.Enrolled.{
  HoldsSet, read_enrolled_device_set-HoldsSet, Matched, match_devices-Matched,
}

length-open_devices :
    (open_device : ℕ → Result String Device) (index : ℕ) (files : List InheritedFile)
    (devices : List Device)
    → open_devices open_device index files ≡ ok devices
    → length devices ≡ length files
unfolding open_devices
length-open_devices open_device index [] devices h = let e : [] ≡ devices = cc in rw (← e) refl
length-open_devices open_device index (file ∷ files) devices h =
    elim (Bool-cases (same file.name (event_name index))) [
      | inr off ↦ absurd (cc (rw off at h))
      | inl on ↦
          let (device, one, more) =
            >>=-eq-ok (map_err failed (open_device file.descriptor)) _ (rw on at h) in
          let (rest, others, last) =
            >>=-eq-ok (open_devices open_device (index + 1) files) _ more in
          let e : device ∷ rest ≡ devices = cc in
          rw (← e) (ap suc (length-open_devices open_device (index + 1) files rest others))
    ]

-- What the checks from the eligibility channel on have found.
pub record Looked (w : World) (s : Started) : Type 0 where
  pub state : EligibilityState
  pub update : Option Update
  pub instance_id : ℕ
  pub frame : read_initial_eligibility w.attempts ≡ ok state
  pub looked : initial_device_update s.devices w.initial_poll ≡ ok update
  pub drawn : random_instance w.random ≡ ok instance_id
  pub begun :
      s.broker
      ≡ initial_broker instance_id (map (λ d. d.id) s.devices) w.now (is_eligible state) update

arm-Looked :
    (w : World) (uid : ℕ) (devices : List Device) (s : Started)
    → arm w uid devices ≡ ok s
    → (s.uid ≡ uid) × (s.devices ≡ devices) × Looked w s
unfolding arm
arm-Looked w uid devices s h =
    let (_, h1) = >>-eq-ok (or_failed w.eligibility) _ h in
    let (state, frame, h2) = >>=-eq-ok (read_initial_eligibility w.attempts) _ h1 in
    let (update, looked, h3) = >>=-eq-ok (initial_device_update devices w.initial_poll) _ h2 in
    let (instance_id, drawn, h4) = >>=-eq-ok (random_instance w.random) _ h3 in
    let same_devices : s.devices ≡ devices = cc h4 in
    (
      cc h4,
      same_devices,
      record {
        state = state;
        update = update;
        instance_id = instance_id;
        frame = frame;
        looked = rw same_devices looked;
        drawn = drawn;
        begun = cc (h4, same_devices);
      },
    )

-- The devices that were opened are those that were enrolled.
pub record Enrolled (w : World) (s : Started) : Type 0 where
  pub enrolled : List EnrolledDevice
  pub set_descriptor : ℕ
  pub listed : HoldsSet (w.set_file set_descriptor) enrolled
  pub matched : Matched s.devices enrolled
  pub some_device : s.devices ≢ []

-- Where the loop begins, the broker has its own uid, which is neither root's nor the provider's.
pub record Opened (w : World) (s : Started) : Type 0 where
  pub confined : w.broker_uid ≢ 0
  pub distinct : w.broker_uid ≢ s.uid
  pub parsed : parse w.arguments ≡ ok s.uid
  pub evidence : Enrolled w s
  pub first_look : Looked w s

open_all-Enrolled :
    (w : World) (uid : ℕ) (files : List InheritedFile) (s : Started)
    → open_all w uid files ≡ ok s
    → (s.uid ≡ uid) × Enrolled w s × Looked w s
unfolding open_all
open_all-Enrolled w uid [] s h = absurd (cc)
open_all-Enrolled w uid (first ∷ rest) s h =
    elim (Bool-cases (same first.name (chars "enrolled-device-set"))) [
      | inr off ↦ absurd (cc (rw off at h))
      | inl on ↦
          let (enrolled, read, h1) =
            >>=-eq-ok (read_enrolled_device_set (w.set_file first.descriptor) 0) _ (rw on at h) in
          elim (Bool-cases (length enrolled == length rest)) [
            | inr differ ↦ absurd (cc (rw differ at h1))
            | inl count ↦
                let (devices, opened, h2) =
                  >>=-eq-ok (open_devices w.device 0 rest) _ (rw count at h1) in
                elim (Bool-cases (is_empty devices)) [
                  | inl empty ↦ absurd (cc (rw empty at h2))
                  | inr found ↦
                      let (fits, h3) =
                        >>-eq-ok (match_devices devices enrolled) _ (rw found at h2) in
                      let (same_uid, same_devices, first_look) = arm-Looked w uid devices s h3 in
                      let many : length devices ≡ length enrolled =
                        ground (arith, length-open_devices w.device 0 rest devices opened) in
                      (
                        same_uid,
                        record {
                          enrolled = enrolled;
                          set_descriptor = first.descriptor;
                          listed = read_enrolled_device_set-HoldsSet _ enrolled read;
                          matched =
                              rw same_devices (match_devices-Matched devices enrolled many fits);
                          some_device = rw same_devices (nonempty devices found);
                        },
                        first_look,
                      )
                ]
          ]
    ]
  where
    nonempty : (ds : List Device) → is_empty ds ≡ false → ds ≢ []
    nonempty [] empty = absurd (cc)
    nonempty (d ∷ ds) empty = cons-ne-nil d ds

-- A broker whose loop begins runs under a uid that is neither root's nor the provider's. Its device set
-- was decoded from the whole of a regular file of root's with one link, mode 0600 and a bounded size;
-- there is a device, and one for each of the set, with exactly the enrolled codes of every kind. The
-- loop begins with what it read of the eligibility channel, of the devices and of the random source.
pub start-Opened : (w : World) (s : Started) → start w ≡ ok s → Opened w s
unfolding start
start-Opened w s h =
    let (uid, parsed, h1) = >>=-eq-ok (parse w.arguments) _ h in
    elim (Bool-cases (w.broker_uid == 0)) [
      | inl root ↦ absurd (cc (rw root at h1))
      | inr confined ↦ elim (Bool-cases (w.broker_uid == uid)) [
        | inl shared ↦ absurd (cc (rw (confined, shared) at h1))
        | inr distinct ↦
            let (_, h2) = >>-eq-ok (or_failed w.listener) _ (rw (confined, distinct) at h1) in
            let (files, received, h3) =
              >>=-eq-ok
                (map_err (λ e. failed "cannot receive inherited descriptors")
                  (receive_inherited_files (max_event_descriptors + 1) 1 w.activation))
                _ h2 in
            let (same_uid, evidence, first_look) = open_all-Enrolled w uid files s h3 in
            record {
              confined = apart w.broker_uid 0 confined;
              distinct = rw same_uid (apart w.broker_uid uid distinct);
              parsed = rw same_uid parsed;
              evidence = evidence;
              first_look = first_look;
            }
      ]
    ]
  where
    apart : (a b : ℕ) → (a == b) ≡ false → a ≢ b
    apart a b differ = ground arith
