-- ===== src/Broker/Runtime/Startup/Enrolled.antt =====
-- The device set and the devices of it, `read_enrolled_device_set` and
-- `matches_device_capabilities` of crates/agent-seat-activity-broker/src/main.rs.
use agent_seat_proto.Prelude.{
  ℕ, ◌+◌, ◌%◌, ◌≤◌, ◌≡◌, take, length-take_le, take_short, ltb, ltb→lt, arith, true, false, String,
  List, [], ◌∷◌, length, Result, ok, >>=-eq-ok, map_err-eq-ok, map_err, Bool-cases, inl, inr,
}
use agent_seat_proto.Prelude.Text.{same, same→eq}
use agent_seat_proto.Devices.DeviceSet.{
  max_device_set_bytes, EnrolledDevice, DeviceCapabilities, CapabilityKind, absolute, event,
  force_feedback, keys, leds, misc, relative, sound, switch, property,
}
use agent_seat_proto.Devices.DeviceSet.Record.{decode_device_set}
use agent_seat_proto.Devices.DeviceSet.Bitmaps.{bitmap_codes, value_of, matches}
use agent_seat_proto.Broker.Runtime.Startup.{
  failed, Device, SetFile, is_private, read_enrolled_device_set, match_devices,
  matches_device_capabilities,
}

-- A regular file of root's with one link, for root's eyes only, and of a bounded size.
pub record IsPrivate (file : SetFile) : Type 0 where
  pub regular : file.is_file ≡ true
  pub single : file.links ≡ 1
  pub rooted : file.owner ≡ 0
  pub secret : file.mode % 0o1000 ≡ 0o600
  pub small : file.size ≤ max_device_set_bytes

-- The device set that such a file holds.
pub record HoldsSet (opened : Result String SetFile) (enrolled : List EnrolledDevice) : Type 0 where
  pub file : SetFile
  pub contents : List ℕ
  pub found : opened ≡ ok file
  pub guarded : IsPrivate file
  pub read : file.contents ≡ ok contents
  pub short : length contents ≤ max_device_set_bytes
  pub decoded : decode_device_set contents ≡ ok enrolled

is_private-IsPrivate : (file : SetFile) → is_private file 0 ≡ true → IsPrivate file
unfolding is_private
is_private-IsPrivate file h = record {
  regular = ground arith;
  single = ground arith;
  rooted = ground arith;
  secret = ground arith;
  small = ground arith;
}

not_below : (a b : ℕ) → ltb a b ≡ false → b ≤ a
not_below a b h = ground arith

take-short :
    (n : ℕ) (bytes : List ℕ)
    → ltb n (length (take (n + 1) bytes)) ≡ false
    → (length bytes ≤ n) × (take (n + 1) bytes ≡ bytes)
take-short n bytes small =
    let h = not_below n (length (take (n + 1) bytes)) small in
    elim (Bool-cases (ltb n (length bytes))) [
      | inl long ↦
          let more = ltb→lt n (length bytes) long in
          absurd (omega (arith, length-take_le (n + 1) bytes (omega arith)))
      | inr short ↦
          let fits = not_below n (length bytes) short in
          (fits, take_short (n + 1) bytes (omega arith))
    ]

pub read_enrolled_device_set-HoldsSet :
    (opened : Result String SetFile) (enrolled : List EnrolledDevice)
    → read_enrolled_device_set opened 0 ≡ ok enrolled
    → HoldsSet opened enrolled
unfolding read_enrolled_device_set
read_enrolled_device_set-HoldsSet opened enrolled h =
    let (file, found, h1) = >>=-eq-ok (map_err failed opened) _ h in
    elim (Bool-cases (is_private file 0)) [
      | inr exposed ↦ absurd (cc (rw exposed at h1))
      | inl guarded ↦
          let (contents, read, h2) =
            >>=-eq-ok (map_err failed file.contents) _ (rw guarded at h1) in
          let bytes = take (max_device_set_bytes + 1) contents in
          elim (Bool-cases (ltb max_device_set_bytes (length bytes))) [
            | inl large ↦ absurd (cc (rw large at h2))
            | inr small ↦
                let (short, whole) = take-short max_device_set_bytes contents small in
                record {
                  file = file;
                  contents = contents;
                  found = map_err-eq-ok failed opened found;
                  guarded = is_private-IsPrivate file guarded;
                  read = map_err-eq-ok failed file.contents read;
                  short = short;
                  decoded =
                      rw (← whole) (map_err-eq-ok _ (decode_device_set bytes) (rw small at h2));
                }
          ]
    ]

-- The device has exactly the enrolled codes of every kind.
abbrev pub SameCodes : Device → DeviceCapabilities → Type 0
SameCodes device expected =
    (kind : CapabilityKind) → bitmap_codes (value_of kind expected) ≡ device.supported kind

-- The devices have the codes that were enrolled, one for one.
abbrev pub Matched : List Device → List EnrolledDevice → Type 0
Matched [] [] = Unit
Matched [] (d ∷ enrolled) = ⊥
Matched (device ∷ devices) [] = ⊥
Matched (device ∷ devices) (d ∷ enrolled) =
    SameCodes device d.capabilities × Matched devices enrolled

matches-SameCodes :
    (device : Device) (expected : DeviceCapabilities)
    → matches_device_capabilities device expected ≡ true
    → (kind : CapabilityKind) → matches expected kind (device.supported kind) ≡ true
unfolding matches_device_capabilities
matches-SameCodes device expected h absolute = ground arith
matches-SameCodes device expected h event = ground arith
matches-SameCodes device expected h force_feedback = ground arith
matches-SameCodes device expected h keys = ground arith
matches-SameCodes device expected h leds = ground arith
matches-SameCodes device expected h misc = ground arith
matches-SameCodes device expected h relative = ground arith
matches-SameCodes device expected h sound = ground arith
matches-SameCodes device expected h switch = ground arith
matches-SameCodes device expected h property = ground arith

matched-codes :
    (codes : CapabilityKind → List ℕ) (expected : DeviceCapabilities) (kind : CapabilityKind)
    → matches expected kind (codes kind) ≡ true
    → bitmap_codes (value_of kind expected) ≡ codes kind
unfolding matches
matched-codes codes expected kind h = same→eq (bitmap_codes (value_of kind expected)) (codes kind) h

pub match_devices-Matched :
    (devices : List Device) (enrolled : List EnrolledDevice)
    → length devices ≡ length enrolled
    → match_devices devices enrolled ≡ ok tt
    → Matched devices enrolled
unfolding match_devices
match_devices-Matched [] [] same h = tt
match_devices-Matched [] (d ∷ enrolled) same h = absurd (omega arith)
match_devices-Matched (device ∷ devices) [] same h = absurd (omega arith)
match_devices-Matched (device ∷ devices) (d ∷ enrolled) same h =
    elim (Bool-cases (matches_device_capabilities device d.capabilities)) [
      | inr off ↦ absurd (cc (rw off at h))
      | inl on ↦ (
        λ kind.
            matched-codes device.supported d.capabilities kind
              (matches-SameCodes device d.capabilities on kind),
        match_devices-Matched devices enrolled (omega arith) (rw on at h),
      )
    ]
