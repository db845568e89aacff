-- ===== src/Devices/DeviceSet.antt =====
-- The reviewed device record, crates/agent-seat-activity-broker/src/device_set.rs. A path is printed
-- whole, so one that is not UTF-8 is outside the model; a `usize` has 64 bits.
pub mod Record
pub mod Bitmaps
pub mod Values
pub mod Canonical
pub mod RoundTrip
use agent_seat_proto.Prelude.{
  ℕ, zero, suc, ◌+◌, ◌*◌, ◌-◌, ◌/◌, ◌%◌, ◌^◌, Bool, true, false, not, ◌&&◌, ◌||◌, ◌==◌, ltb, leb,
  if◌then◌else◌, Option, none, some, is_some, List, [], ◌∷◌, ◌++◌, length, is_empty, all, any,
  Result, ok, err, ◌>>=◌, ◌>>◌, ok_or, check,
}
use agent_seat_proto.Prelude.Text.{same, chars}
use agent_seat_proto.Prelude.Utf8.{is_utf8}
use agent_seat_proto.Prelude.Decimal.{to_string, parse_u32, is_digit}
use agent_seat_proto.Prelude.Split.{split, split_terminator, strip_prefix, ends_with, join}
use agent_seat_proto.Prelude.Paths.{components, starts_with, file_name, is_absolute, is_plain}
use agent_seat_proto.Devices.InputSet.{event_name, is_named, is_behind}

abbrev pub header : List ℕ
header = chars "agent-seat-device-set\t1\n"

abbrev pub max_value_bytes : ℕ
max_value_bytes = 1024

abbrev pub max_capability_value_bytes : ℕ
max_capability_value_bytes = 4096

abbrev pub max_device_set_bytes : ℕ
max_device_set_bytes = 64 * 1024

-- `MAX_EVENT_DESCRIPTORS`
abbrev pub max_event_descriptors : ℕ
max_event_descriptors = 32

pub data IdentityStrength : Type 0 where
  topology serial : IdentityStrength

pub data DeviceSetError : Type 0 where
  invalid too_large : DeviceSetError

pub record DeviceIdentity : Type 0 where
  pub path : List ℕ
  pub bus : Option (List ℕ)
  pub vendor : Option (List ℕ)
  pub model : Option (List ℕ)
  pub revision : Option (List ℕ)
  pub serial_number : Option (List ℕ)

-- The ten bitmaps, in the order of the array.
pub record DeviceCapabilities : Type 0 where
  pub abs : List ℕ
  pub ev : List ℕ
  pub ff : List ℕ
  pub key : List ℕ
  pub led : List ℕ
  pub msc : List ℕ
  pub rel : List ℕ
  pub snd : List ℕ
  pub sw : List ℕ
  pub properties : List ℕ

pub data CapabilityKind : Type 0 where
  absolute event force_feedback keys leds misc relative sound switch property : CapabilityKind

pub record EnrolledDevice : Type 0 where
  pub event_number : ℕ
  pub sysfs_path : List ℕ
  pub classes : List (List ℕ)
  pub identity : DeviceIdentity
  pub capabilities : DeviceCapabilities

abbrev pub is_printable : ℕ → Bool
is_printable byte = leb 0x20 byte && leb byte 0x7e

unfoldable pub validate_value : List ℕ → Result DeviceSetError (Unit {0})
validate_value value =
    if is_empty value
      || (same value (chars "-")
          || (ltb max_value_bytes (length value) || not (all is_printable value)))
    then err invalid
    else ok tt

-- One of the optional values that are there.
unfoldable pub validate_some : Option (List ℕ) → Result DeviceSetError (Unit {0})
validate_some none = ok tt
validate_some (some value) = validate_value value

-- `DeviceIdentity::new`
unfoldable pub new_identity :
    List ℕ
    → Option (List ℕ)
    → Option (List ℕ)
    → Option (List ℕ)
    → Option (List ℕ)
    → Option (List ℕ)
    → Result DeviceSetError DeviceIdentity
new_identity path bus vendor model revision serial_number =
    validate_value path
    >> (validate_some bus
        >> (validate_some vendor
            >> (validate_some model
                >> (validate_some revision
                    >> (validate_some serial_number
                        >> (if is_some vendor && not (is_some model)
                              || not (is_some vendor) && is_some model
                            then err invalid
                            else ok (record {
                              path = path;
                              bus = bus;
                              vendor = vendor;
                              model = model;
                              revision = revision;
                              serial_number = serial_number;
                            })))))))

unfoldable pub strength : DeviceIdentity → IdentityStrength
strength identity = if is_some identity.serial_number then serial else topology

abbrev pub is_lower_hex : ℕ → Bool
is_lower_hex byte = is_digit byte || leb b'a' byte && leb byte b'f'

abbrev pub starts_with_space : List ℕ → Bool
starts_with_space [] = false
starts_with_space (c ∷ rest) = c == b' '

-- `value.contains("  ")`
unfoldable pub has_double_space : List ℕ → Bool
has_double_space [] = false
has_double_space (c ∷ rest) = c == b' ' && starts_with_space rest || has_double_space rest

unfoldable pub validate_capability_value : List ℕ → Result DeviceSetError (Unit {0})
validate_capability_value value =
    if is_empty value
      || (ltb max_capability_value_bytes (length value)
          || (starts_with_space value
              || (ends_with b' ' value
                  || (has_double_space value
                      || not (all (λ byte. byte == b' ' || is_lower_hex byte) value)))))
    then err invalid
    else ok tt

-- `DeviceCapabilities::new`
unfoldable pub new_capabilities : DeviceCapabilities → Result DeviceSetError DeviceCapabilities
new_capabilities c =
    validate_capability_value c.abs
    >> (validate_capability_value c.ev
        >> (validate_capability_value c.ff
            >> (validate_capability_value c.key
                >> (validate_capability_value c.led
                    >> (validate_capability_value c.msc
                        >> (validate_capability_value c.rel
                            >> (validate_capability_value c.snd
                                >> (validate_capability_value c.sw
                                    >> (validate_capability_value c.properties >> ok c)))))))))

unfoldable pub validate_sysfs_path : ℕ → List ℕ → Result DeviceSetError (Unit {0})
validate_sysfs_path event_number path =
    if not (is_absolute path)
      || (not (starts_with (components path) (components (chars "/sys/devices")))
          || (not (is_named (file_name (components path)) event_number)
              || not (all is_plain (components path))))
    then err invalid
    else ok tt

abbrev pub allowed : List (List ℕ)
allowed =
    chars "key"
    ∷ chars "keyboard"
    ∷ chars "mouse"
    ∷ chars "touchpad"
    ∷ chars "touchscreen"
    ∷ chars "tablet"
    ∷ []

-- `allowed.iter().position(…)`, counted from `index`.
unfoldable pub position : ℕ → List (List ℕ) → List ℕ → Option ℕ
position index [] name = none
position index (a ∷ rest) name =
    let later = position (index + 1) rest name in if same a name then some index else later

-- The loop of `validate_classes`.
unfoldable pub check_classes :
    Option ℕ → List (List ℕ) → List (List ℕ) → Result DeviceSetError (Unit {0})
check_classes previous seen [] = ok tt
check_classes previous seen (name ∷ rest) = ok_or (position 0 allowed name) invalid >>= λ place.
    if is_behind previous place || any (same name) seen
    then err invalid
    else check_classes (some place) (name ∷ seen) rest

unfoldable pub validate_classes : List (List ℕ) → Result DeviceSetError (Unit {0})
validate_classes classes =
    if is_empty classes || ltb 6 (length classes)
    then err invalid
    else check_classes none [] classes

-- `EnrolledDevice::new`
unfoldable pub new_device : EnrolledDevice → Result DeviceSetError EnrolledDevice
new_device d =
    validate_sysfs_path d.event_number d.sysfs_path >> (validate_classes d.classes >> ok d)
