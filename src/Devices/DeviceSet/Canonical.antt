-- ===== src/Devices/DeviceSet/Canonical.antt =====
-- The lists of devices that the encoder and the decoder of
-- crates/agent-seat-activity-broker/src/device_set.rs take.
use agent_seat_proto.Prelude.{
  ℕ, ◌≤◌, ◌<◌, ◌≡◌, ◌≢◌, sym, ◌∙◌, arith, false, not, ◌||◌, ltb, Option, none, some, List, [], ◌∷◌,
  ◌++◌, map, length, is_empty, All, ok, >>-eq-ok, >>=-eq-ok, ok_or, Bool-cases, inl, inr,
}
use mathlib.Core.List.{append-nil, cons-ne-nil}
use agent_seat_proto.Prelude.Text.{same, same→eq}
use agent_seat_proto.Prelude.Utf8.{is_utf8}
use agent_seat_proto.Prelude.Split.{regroup, strip_prefix, ends_with, terminated}
use agent_seat_proto.Devices.InputSet.{is_behind}
use agent_seat_proto.Devices.DeviceSet.{
  invalid, EnrolledDevice, header, max_device_set_bytes, max_event_descriptors, validate_sysfs_path,
  validate_classes,
}
use agent_seat_proto.Devices.DeviceSet.Record.{
  device_line, push_devices, encode_device_set, lines, decode_devices, if_canonical, decode_body,
  decode_device_set,
}

if_canonical_sound :
    (bytes : List ℕ) (ds ds' : List EnrolledDevice)
    → if_canonical bytes ds ≡ ok ds'
    → encode_device_set ds' ≡ ok bytes
unfolding if_canonical
if_canonical_sound bytes ds ds' h =
    let (canonical, encoded, rest) = >>=-eq-ok (encode_device_set ds) _ h in
    elim (Bool-cases (same canonical bytes)) [
      | inr off ↦ absurd (cc (rw off at rest))
      | inl on ↦ let whole = rw on at rest in cc (whole, encoded, same→eq canonical bytes on)
    ]

decode_body_sound :
    (bytes body : List ℕ) (ds : List EnrolledDevice)
    → decode_body bytes body ≡ ok ds
    → encode_device_set ds ≡ ok bytes
unfolding decode_body
decode_body_sound bytes body ds h =
    elim (Bool-cases (is_empty body || not (ends_with b'\n' body))) [
      | inl bad ↦ absurd (cc (rw bad at h))
      | inr fine ↦
          let (found, decoded, rest) = >>=-eq-ok (decode_devices 0 (lines body)) _ (rw fine at h) in
          if_canonical_sound bytes found ds rest
    ]

-- A record that is read as a list of devices is, byte for byte, the encoding of that list.
pub encode_device_set-decode_device_set :
    (bytes : List ℕ) (ds : List EnrolledDevice)
    → decode_device_set bytes ≡ ok ds
    → encode_device_set ds ≡ ok bytes
unfolding decode_device_set
encode_device_set-decode_device_set bytes ds h =
    elim (Bool-cases (ltb max_device_set_bytes (length bytes))) [
      | inl large ↦ absurd (cc (rw large at h))
      | inr small ↦ elim (Bool-cases (is_utf8 bytes)) [
        | inr off ↦ absurd (cc (rw (small, off) at h))
        | inl text ↦
            let (body, stripped, rest) =
              >>=-eq-ok (ok_or (strip_prefix header bytes) invalid) _ (rw (small, text) at h) in
            decode_body_sound bytes body ds rest
      ]
    ]

abbrev pub IsAfter : Option ℕ → ℕ → Type 0
IsAfter none n = Unit
IsAfter (some previous) n = previous < n

-- The numbers ascend strictly, from `previous` on.
abbrev pub IsAscending : Option ℕ → List EnrolledDevice → Type 0
IsAscending previous [] = Unit
IsAscending previous (d ∷ ds) =
    IsAfter previous d.event_number × IsAscending (some d.event_number) ds

-- What the constructor of a device asks of its path and its classes.
abbrev pub IsChecked : EnrolledDevice → Type 0
IsChecked d =
    (validate_sysfs_path d.event_number d.sysfs_path ≡ ok tt) × (validate_classes d.classes ≡ ok tt)

IsAfter-is_behind :
    (previous : Option ℕ) (n : ℕ) → is_behind previous n ≡ false → IsAfter previous n
IsAfter-is_behind none n h = tt
IsAfter-is_behind (some previous) n h = ground arith

-- The record that a list of devices is encoded as.
pub record Reviewed (previous : Option ℕ) (output : List ℕ) (ds : List EnrolledDevice)
    (bytes : List ℕ) : Type 0 where
  pub checked : All IsChecked ds
  pub ascending : IsAscending previous ds
  pub spelled : bytes ≡ output ++ terminated b'\n' (map device_line ds)
  pub within : length bytes ≤ max_device_set_bytes

push_devices-Reviewed :
    (previous : Option ℕ) (output : List ℕ) (ds : List EnrolledDevice) (bytes : List ℕ)
    → length output ≤ max_device_set_bytes
    → push_devices previous output ds ≡ ok bytes
    → Reviewed previous output ds bytes
unfolding push_devices terminated
push_devices-Reviewed previous output [] bytes fits h =
    let same_text : output ≡ bytes = cc in
    record {
      checked = tt;
      ascending = tt;
      spelled = sym same_text ∙ sym (append-nil output);
      within = rw (← same_text) fits;
    }
push_devices-Reviewed previous output (d ∷ ds) bytes fits h =
    elim (Bool-cases (is_behind previous d.event_number)) [
      | inl late ↦ absurd (cc (rw late at h))
      | inr after ↦
          let next = output ++ (device_line d ++ b'\n' ∷ []) in
          let (path, h1) =
            >>-eq-ok (validate_sysfs_path d.event_number d.sysfs_path) _ (rw after at h) in
          let (classes, h2) = >>-eq-ok (validate_classes d.classes) _ h1 in
          elim (Bool-cases (ltb max_device_set_bytes (length next))) [
            | inl large ↦ absurd (cc (rw large at h2))
            | inr small ↦
                let rest =
                  push_devices-Reviewed (some d.event_number) next ds bytes (ground arith)
                    (rw small at h2) in
                record {
                  checked = ((path, classes), rest.checked);
                  ascending = (IsAfter-is_behind previous d.event_number after, rest.ascending);
                  spelled =
                      rest.spelled
                      ∙ regroup b'\n' output (device_line d)
                          (terminated b'\n' (map device_line ds));
                  within = rest.within;
                }
          ]
    ]

-- Whatever is encoded is between 1 and 32 devices with ascending numbers and checked paths and classes,
-- and its text is the header and one line for each of them, within the bound.
pub encode_device_set-Reviewed :
    (ds : List EnrolledDevice) (bytes : List ℕ)
    → encode_device_set ds ≡ ok bytes
    → (ds ≢ []) × (length ds ≤ max_event_descriptors) × Reviewed none header ds bytes
unfolding encode_device_set
encode_device_set-Reviewed [] bytes h = absurd (cc)
encode_device_set-Reviewed (d ∷ ds) bytes h =
    elim (Bool-cases (ltb max_event_descriptors (length (d ∷ ds)))) [
      | inl many ↦ absurd (cc (rw many at h))
      | inr few ↦ (
        cons-ne-nil d ds,
        ground arith,
        push_devices-Reviewed none header (d ∷ ds) bytes (omega arith) (rw few at h),
      )
    ]
