-- ===== src/Tests/Devices.antt =====
-- The records of devices and the inherited descriptors at small inputs.
use agent_seat_proto.Prelude.{
  ℕ, ◌≡◌, ◌≢◌, ◌≤◌, refl, arith, true, none, some, List, [], ◌∷◌, ◌++◌, length, ok,
}
use agent_seat_proto.Prelude.Text.{chars, same}
use agent_seat_proto.Devices.Inherited.{
  validate_names, checked_add, adopt, receive_named, receive_inherited_files,
}
use agent_seat_proto.Devices.InputSet.{
  encode_input_set, push_mappings, validate_order, check_order, line, valid_sysfs_path, event_name,
  is_named, decode_lines,
}
use agent_seat_proto.Devices.DeviceSet.{
  validate_value, validate_some, new_identity, has_double_space, validate_capability_value,
  new_capabilities, validate_sysfs_path, position, check_classes, validate_classes, new_device,
}
use agent_seat_proto.Devices.DeviceSet.Record.{
  optional, parse_optional, fields_of, device_line, push_devices, encode_device_set,
  canonical_event_number, strip_return, lines, decode_fields, decode_devices, if_canonical,
  decode_body, decode_device_set,
}
use agent_seat_proto.Devices.DeviceSet.Bitmaps.{
  scan_hex, parse_hex, trailing_zeros, word_codes, words_codes, insert, sort, bitmap_codes, matches,
}
use agent_seat_proto.Prelude.Utf8.{lead, utf8_from, is_utf8}
use agent_seat_proto.Prelude.Decimal.{emit, to_string, scan, parse_below, parse_u32, parse_usize}
use agent_seat_proto.Prelude.Split.{
  split, split_once, split_terminator, join, ends_with, strip_prefix,
}
use agent_seat_proto.Prelude.Paths.{same_components, pieces, components, starts_with, file_name}
use agent_seat_proto.Devices.InputSet.{
  InputClassMapping, decode_input_set, same_mapping, decode_body as decode_manifest, decode_line,
  parse_event_name, new,
}
use agent_seat_proto.Devices.InputSet.RoundTrip.{decode_input_set-encode_input_set}
use agent_seat_proto.Devices.InputSet.Canonical.{encode_input_set-decode_input_set}
use agent_seat_proto.Devices.DeviceSet.{EnrolledDevice, header, max_event_descriptors}
use agent_seat_proto.Devices.DeviceSet.RoundTrip.{Printable, decode_device_set-encode_device_set}
use agent_seat_proto.Devices.DeviceSet.Canonical.{Reviewed, encode_device_set-Reviewed}
use agent_seat_proto.Devices.Inherited.{InheritedFile, Activation}
use agent_seat_proto.Devices.Inherited.Exact.{Exact, receive_inherited_files-Exact}

abbrev mappings : List InputClassMapping
mappings =
    record { event_number = 2; sysfs_path = chars "/sys/devices/e/event2" }
    ∷ record { event_number = 10; sysfs_path = chars "/sys/devices/e/event10" }
    ∷ []

abbrev manifest : List ℕ
manifest =
    chars "ASIS\t1\n"
    ++ (chars "event2\t/sys/devices/e/event2\n" ++ chars "event10\t/sys/devices/e/event10\n")

manifest_encoded : encode_input_set mappings ≡ ok manifest
unfolding encode_input_set push_mappings validate_order check_order line valid_sysfs_path
    validate_names checked_add adopt receive_named receive_inherited_files event_name is_named
    decode_lines validate_value validate_some new_identity has_double_space
    validate_capability_value new_capabilities validate_sysfs_path position check_classes
    validate_classes new_device optional parse_optional fields_of device_line push_devices
    encode_device_set canonical_event_number strip_return lines decode_fields decode_devices
    if_canonical decode_body decode_device_set scan_hex parse_hex trailing_zeros word_codes
    words_codes insert sort bitmap_codes matches lead utf8_from is_utf8 emit to_string scan
    parse_below parse_u32 parse_usize split split_terminator join ends_with strip_prefix pieces
    components starts_with file_name same
manifest_encoded = refl

manifest_decoded : decode_input_set manifest ≡ ok mappings
manifest_decoded =
    decode_input_set-encode_input_set mappings manifest (omega arith, (omega arith, tt))
      manifest_encoded

decode_input_set-encode_input_set_example : decode_input_set manifest ≡ ok mappings
decode_input_set-encode_input_set_example =
    decode_input_set-encode_input_set mappings manifest (omega arith, (omega arith, tt))
      manifest_encoded

encode_input_set-decode_input_set_example : encode_input_set mappings ≡ ok manifest
encode_input_set-decode_input_set_example =
    encode_input_set-decode_input_set manifest mappings manifest_decoded

abbrev keyboard : EnrolledDevice
keyboard = record {
  event_number = 2;
  sysfs_path = chars "/sys/devices/e/event2";
  classes = chars "key" ∷ chars "keyboard" ∷ [];
  identity = record {
    path = chars "pci-0";
    bus = some (chars "usb");
    vendor = some (chars "046d");
    model = some (chars "c548");
    revision = none;
    serial_number = none;
  };
  capabilities = record {
    abs = chars "0";
    ev = chars "120013";
    ff = chars "0";
    key = chars "7 ff9f";
    led = chars "1f";
    msc = chars "10";
    rel = chars "0";
    snd = chars "0";
    sw = chars "0";
    properties = chars "0";
  };
}

abbrev record_text : List ℕ
record_text =
    chars "agent-seat-device-set\t1\nevent2\t/sys/devices/e/event2\tkey,keyboard\tpci-0\tusb\t"
    ++ chars "046d\tc548\t-\t-\t0\t120013\t0\t7 ff9f\t1f\t10\t0\t0\t0\t0\n"

record_encoded : encode_device_set (keyboard ∷ []) ≡ ok record_text
unfolding validate_names checked_add adopt receive_named receive_inherited_files event_name is_named
    decode_lines validate_value validate_some new_identity has_double_space
    validate_capability_value new_capabilities validate_sysfs_path position check_classes
    validate_classes new_device optional parse_optional fields_of device_line push_devices
    encode_device_set canonical_event_number strip_return lines decode_fields decode_devices
    if_canonical decode_body decode_device_set scan_hex parse_hex trailing_zeros word_codes
    words_codes insert sort bitmap_codes matches lead utf8_from is_utf8 emit to_string scan
    parse_below parse_u32 parse_usize split split_terminator join ends_with strip_prefix pieces
    components starts_with file_name same
record_encoded = refl

keyboard-Printable : Printable keyboard
unfolding validate_names checked_add adopt receive_named receive_inherited_files event_name is_named
    decode_lines validate_value validate_some new_identity has_double_space
    validate_capability_value new_capabilities validate_sysfs_path position check_classes
    validate_classes new_device optional parse_optional fields_of device_line push_devices
    encode_device_set canonical_event_number strip_return lines decode_fields decode_devices
    if_canonical decode_body decode_device_set scan_hex parse_hex trailing_zeros word_codes
    words_codes insert sort bitmap_codes matches lead utf8_from is_utf8 emit to_string scan
    parse_below parse_u32 parse_usize split split_terminator join ends_with strip_prefix pieces
    components starts_with file_name same
keyboard-Printable = record {
  number = omega arith;
  path = record { clear = ground arith; text = refl };
  identity = refl;
  capabilities = refl;
}

record_decoded : decode_device_set record_text ≡ ok (keyboard ∷ [])
record_decoded =
    decode_device_set-encode_device_set (keyboard ∷ []) record_text (keyboard-Printable, tt)
      record_encoded

decode_device_set-encode_device_set_example : decode_device_set record_text ≡ ok (keyboard ∷ [])
decode_device_set-encode_device_set_example =
    decode_device_set-encode_device_set (keyboard ∷ []) record_text (keyboard-Printable, tt)
      record_encoded

encode_device_set-Reviewed_example :
    (keyboard ∷ [] ≢ [])
    × (length (keyboard ∷ []) ≤ max_event_descriptors)
    × Reviewed none header (keyboard ∷ []) record_text
encode_device_set-Reviewed_example =
    encode_device_set-Reviewed (keyboard ∷ []) record_text record_encoded

abbrev activation : Activation
activation = record {
  listen_fds = some (chars "2");
  listen_fdnames = some (chars "listener:enrolled-device-set:event0");
  received = some (3 ∷ 4 ∷ []);
  confine = λ fd. true;
}

abbrev files : List InheritedFile
files =
    record { name = chars "enrolled-device-set"; descriptor = 3 }
    ∷ record { name = chars "event0"; descriptor = 4 }
    ∷ []

files_received : receive_inherited_files 33 1 activation ≡ ok files
unfolding validate_names checked_add adopt receive_named receive_inherited_files event_name is_named
    decode_lines validate_value validate_some new_identity has_double_space
    validate_capability_value new_capabilities validate_sysfs_path position check_classes
    validate_classes new_device optional parse_optional fields_of device_line push_devices
    encode_device_set canonical_event_number strip_return lines decode_fields decode_devices
    if_canonical decode_body decode_device_set scan_hex parse_hex trailing_zeros word_codes
    words_codes insert sort bitmap_codes matches lead utf8_from is_utf8 emit to_string scan
    parse_below parse_u32 parse_usize split split_terminator join ends_with strip_prefix pieces
    components starts_with file_name same
files_received = refl

receive_inherited_files-Exact_example : Exact 33 1 activation files
receive_inherited_files-Exact_example =
    receive_inherited_files-Exact 33 1 activation files files_received

abbrev normal : InputClassMapping
normal = record { event_number = 2; sysfs_path = chars "/sys/devices/e/event2" }

abbrev respelled : InputClassMapping
respelled = record { event_number = 2; sysfs_path = chars "/sys//devices/./e/event2/" }

-- Two manifests that differ give mappings that are equal to the source.
respelled_lem :
    (decode_input_set (chars "ASIS\t1\nevent2\t/sys/devices/e/event2\n") ≡ ok (normal ∷ []))
    × (decode_input_set (chars "ASIS\t1\nevent2\t/sys//devices/./e/event2/\n")
        ≡ ok (respelled ∷ []))
    × (same_mapping normal respelled ≡ true)
unfolding decode_input_set decode_manifest decode_lines decode_line parse_event_name new
    valid_sysfs_path validate_order check_order event_name is_named same_mapping same_components
    components pieces starts_with file_name split split_terminator split_once strip_prefix ends_with
    is_utf8 utf8_from lead parse_u32 parse_below scan to_string emit same
respelled_lem = (refl, refl, refl)
