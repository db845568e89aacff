-- ===== src/Devices/DeviceSet/Record.antt =====
-- The text of a device record, crates/agent-seat-activity-broker/src/device_set.rs: one line of
-- nineteen fields for each device.
use agent_seat_proto.Prelude.{
  ℕ, ◌+◌, not, ◌||◌, ltb, leb, if◌then◌else◌, Option, none, some, List, [], ◌∷◌, ◌++◌, map, length,
  is_empty, Result, ok, err, ◌>>=◌, ◌>>◌, ok_or, ◌==◌,
}
use agent_seat_proto.Prelude.Text.{same, chars}
use agent_seat_proto.Prelude.Utf8.{is_utf8}
use agent_seat_proto.Prelude.Decimal.{to_string, parse_u32}
use agent_seat_proto.Prelude.Split.{split, split_terminator, strip_prefix, ends_with, join}
use agent_seat_proto.Devices.InputSet.{event_name, is_behind}
use agent_seat_proto.Devices.DeviceSet.{
  DeviceSetError, invalid, too_large, EnrolledDevice, header, max_device_set_bytes,
  max_event_descriptors, validate_value, new_identity, new_capabilities, validate_sysfs_path,
  validate_classes, new_device,
}

unfoldable pub optional : Option (List ℕ) → List ℕ
optional none = chars "-"
optional (some value) = value

unfoldable pub parse_optional : List ℕ → Result DeviceSetError (Option (List ℕ))
parse_optional value =
    if same value (chars "-") then ok none else validate_value value >> ok (some value)

-- The nineteen fields of a line.
unfoldable pub fields_of : EnrolledDevice → List (List ℕ)
fields_of d =
    event_name d.event_number
    ∷ d.sysfs_path
    ∷ join b',' d.classes
    ∷ d.identity.path
    ∷ optional d.identity.bus
    ∷ optional d.identity.vendor
    ∷ optional d.identity.model
    ∷ optional d.identity.revision
    ∷ optional d.identity.serial_number
    ∷ d.capabilities.abs
    ∷ d.capabilities.ev
    ∷ d.capabilities.ff
    ∷ d.capabilities.key
    ∷ d.capabilities.led
    ∷ d.capabilities.msc
    ∷ d.capabilities.rel
    ∷ d.capabilities.snd
    ∷ d.capabilities.sw
    ∷ d.capabilities.properties
    ∷ []

-- `writeln!`, without the end of the line.
unfoldable pub device_line : EnrolledDevice → List ℕ
device_line d = join b'\t' (fields_of d)

-- The loop of `encode_device_set`.
unfoldable pub push_devices :
    Option ℕ → List ℕ → List EnrolledDevice → Result DeviceSetError (List ℕ)
push_devices previous output [] = ok output
push_devices previous output (d ∷ ds) =
    let next = output ++ (device_line d ++ b'\n' ∷ []) in
    let rest = push_devices (some d.event_number) next ds in
    if is_behind previous d.event_number
    then err invalid
    else validate_sysfs_path d.event_number d.sysfs_path
      >> (validate_classes d.classes
          >> (if ltb max_device_set_bytes (length next) then err too_large else rest))

unfoldable pub encode_device_set : List EnrolledDevice → Result DeviceSetError (List ℕ)
encode_device_set ds =
    if is_empty ds || ltb max_event_descriptors (length ds)
    then err too_large
    else push_devices none header ds

unfoldable pub canonical_event_number : List ℕ → Result DeviceSetError ℕ
canonical_event_number value = ok_or (strip_prefix (chars "event") value) invalid >>= λ digits.
    ok_or (parse_u32 digits) invalid >>= λ number.
    if not (same (to_string number) digits) then err invalid else ok number

-- `str::lines`: an end of line may have a carriage return before it.
unfoldable pub strip_return : List ℕ → List ℕ
strip_return [] = []
strip_return (c ∷ []) = if c == b'\r' then [] else c ∷ []
strip_return (c ∷ d ∷ rest) = c ∷ strip_return (d ∷ rest)

unfoldable pub lines : List ℕ → List (List ℕ)
lines s = map strip_return (split_terminator b'\n' s)

-- What the loop makes of the fields of a line.
unfoldable pub decode_fields : List (List ℕ) → Result DeviceSetError EnrolledDevice
decode_fields
      (event ∷ sysfs ∷ classes ∷ path ∷ bus ∷ vendor ∷ model ∷ revision ∷ serial_number ∷ abs ∷ ev
        ∷ ff ∷ key ∷ led ∷ msc ∷ rel ∷ snd ∷ sw ∷ properties ∷ []) =
    canonical_event_number event >>= λ number. parse_optional bus >>= λ bus'.
    parse_optional vendor >>= λ vendor'. parse_optional model >>= λ model'.
    parse_optional revision >>= λ revision'. parse_optional serial_number >>= λ serial'.
    new_identity path bus' vendor' model' revision' serial' >>= λ identity.
    new_capabilities (record {
      abs = abs;
      ev = ev;
      ff = ff;
      key = key;
      led = led;
      msc = msc;
      rel = rel;
      snd = snd;
      sw = sw;
      properties = properties;
    })
    >>= λ capabilities. new_device (record {
      event_number = number;
      sysfs_path = sysfs;
      classes = split b',' classes;
      identity = identity;
      capabilities = capabilities;
    })
decode_fields _ = err invalid

-- The loop over the lines, when `count` devices are there.
unfoldable pub decode_devices : ℕ → List (List ℕ) → Result DeviceSetError (List EnrolledDevice)
decode_devices count [] = ok []
decode_devices count (text ∷ rest) =
    let decoded = decode_fields (split b'\t' text) >>= λ d.
    decode_devices (count + 1) rest >>= λ ds. ok (d ∷ ds) in
    if leb max_event_descriptors count then err too_large else decoded

-- The end of `decode_device_set`: the devices must spell the same record.
unfoldable pub if_canonical :
    List ℕ → List EnrolledDevice → Result DeviceSetError (List EnrolledDevice)
if_canonical bytes ds =
    encode_device_set ds >>= λ canonical. if not (same canonical bytes) then err invalid else ok ds

unfoldable pub decode_body : List ℕ → List ℕ → Result DeviceSetError (List EnrolledDevice)
decode_body bytes body =
    if is_empty body || not (ends_with b'\n' body)
    then err invalid
    else decode_devices 0 (lines body) >>= λ ds. if_canonical bytes ds

unfoldable pub decode_device_set : List ℕ → Result DeviceSetError (List EnrolledDevice)
decode_device_set bytes =
    if ltb max_device_set_bytes (length bytes)
    then err too_large
    else if not (is_utf8 bytes)
    then err invalid
    else ok_or (strip_prefix header bytes) invalid >>= λ body. decode_body bytes body
