-- ===== src/Devices/DeviceSet/RoundTrip.antt =====
-- Device records of crates/agent-seat-activity-broker/src/device_set.rs, encoded and decoded.
use agent_seat_proto.Prelude.{
  ℕ, ◌+◌, ◌^◌, ◌<◌, ◌≤◌, ◌≡◌, refl, ap, ◌∙◌, arith, true, false, not, ◌==◌, ltb, List, [], ◌∷◌, map,
  length, is_empty, All, All-imp, All-append, ok, err, ltb-eq_false, leb-eq_false, if◌then◌else◌,
  ◌>>=◌, ok_or,
}
use agent_seat_proto.Prelude.Text.{same, same_self}
use agent_seat_proto.Prelude.Utf8.{is_utf8, is_utf8-ascii, is_utf8-append}
use agent_seat_proto.Prelude.Decimal.{to_string, parse_u32}
use agent_seat_proto.Prelude.Decimal.Laws.{parse_u32-to_string}
use agent_seat_proto.Prelude.Split.{
  Lacks, split, join, split-join, terminated, ends_with, split_terminator-terminated,
  terminated_utf8, terminated-ends_with, strip_prefix, strip_prefix-append,
}
use agent_seat_proto.Devices.InputSet.{event_name}
use agent_seat_proto.Devices.InputSet.Names.{event_name-Plain, stripped}
use agent_seat_proto.Devices.DeviceSet.{
  invalid, EnrolledDevice, header, max_device_set_bytes, max_event_descriptors, new_identity,
  new_capabilities, new_device,
}
use agent_seat_proto.Devices.DeviceSet.Record.{
  fields_of, device_line, encode_device_set, canonical_event_number, strip_return, lines,
  decode_fields, decode_devices, if_canonical, decode_body, decode_device_set,
}
use agent_seat_proto.Devices.DeviceSet.Values.{
  Field, Plain-Field, Clear-Lacks, Identified, new_identity-Identified, PlainMaps,
  new_capabilities-PlainMaps, Classified, validate_classes-Classified,
}
use agent_seat_proto.Devices.DeviceSet.Canonical.{IsChecked, encode_device_set-Reviewed}

-- A device as its constructors make it, whose path is a text without control bytes.
pub record Printable (d : EnrolledDevice) : Type 0 where
  pub number : d.event_number < 2 ^ 32
  pub path : Field d.sysfs_path
  pub identity :
      (let i = d.identity in new_identity i.path i.bus i.vendor i.model i.revision i.serial_number)
      ≡ ok d.identity
  pub capabilities : new_capabilities d.capabilities ≡ ok d.capabilities

fields-Field :
    (d : EnrolledDevice)
    → Field d.sysfs_path
    → Classified d.classes
    → Identified d.identity
    → PlainMaps d.capabilities
    → All Field (fields_of d)
unfolding fields_of
fields-Field d path classes i c = (
  Plain-Field _ (event_name-Plain d.event_number),
  (
    path,
    (
      Plain-Field _ classes.plain,
      (
        Plain-Field _ i.path,
        (
          Plain-Field _ i.bus.plain,
          (
            Plain-Field _ i.vendor.plain,
            (
              Plain-Field _ i.model.plain,
              (
                Plain-Field _ i.revision.plain,
                (
                  Plain-Field _ i.serial_number.plain,
                  (
                    Plain-Field _ c.abs,
                    (
                      Plain-Field _ c.ev,
                      (
                        Plain-Field _ c.ff,
                        (
                          Plain-Field _ c.key,
                          (
                            Plain-Field _ c.led,
                            (
                              Plain-Field _ c.msc,
                              (
                                Plain-Field _ c.rel,
                                (
                                  Plain-Field _ c.snd,
                                  (Plain-Field _ c.sw, (Plain-Field _ c.properties, tt)),
                                ),
                              ),
                            ),
                          ),
                        ),
                      ),
                    ),
                  ),
                ),
              ),
            ),
          ),
        ),
      ),
    ),
  ),
)

-- The fields between tabs hold no end of line and no carriage return, and are a text.
join-Lacks :
    (b : ℕ) (ps : List (List ℕ))
    → ltb b 0x20 ≡ true
    → (b'\t' == b) ≡ false
    → All Field ps
    → Lacks b (join b'\t' ps)
unfolding join
join-Lacks b [] control other h = tt
join-Lacks b (p ∷ []) control other h = Clear-Lacks b p control h.0.clear
join-Lacks b (p ∷ q ∷ rest) control other h =
    All-append (λ c. (c == b) ≡ false) p (b'\t' ∷ join b'\t' (q ∷ rest))
      (Clear-Lacks b p control h.0.clear) (other, join-Lacks b (q ∷ rest) control other h.1)

join_utf8 : (ps : List (List ℕ)) → All Field ps → is_utf8 (join b'\t' ps) ≡ true
unfolding join
join_utf8 [] h = unfold is_utf8 in refl
join_utf8 (p ∷ []) h = h.0.text
join_utf8 (p ∷ q ∷ rest) h = is_utf8-append p (b'\t' ∷ join b'\t' (q ∷ rest)) h.0.text (
    is_utf8-append (b'\t' ∷ []) (join b'\t' (q ∷ rest)) (is_utf8-ascii (b'\t' ∷ []) (refl, tt))
      (join_utf8 (q ∷ rest) h.1))

strip_return-Lacks : (s : List ℕ) → Lacks b'\r' s → strip_return s ≡ s
unfolding strip_return
strip_return-Lacks [] h = refl
strip_return-Lacks (c ∷ []) h = rw h.0 refl
strip_return-Lacks (c ∷ d ∷ s) h = ap (◌∷◌ c) (strip_return-Lacks (d ∷ s) h.1)

canonical_event_number-event_name :
    (n : ℕ) → n < 2 ^ 32 → canonical_event_number (event_name n) ≡ ok n
unfolding canonical_event_number
canonical_event_number-event_name n small =
    ap
      (λ o. ok_or o invalid >>= λ digits. ok_or (parse_u32 digits) invalid >>= λ number.
        if not (same (to_string number) digits) then err invalid else ok number)
      (stripped n)
    ∙ rw (parse_u32-to_string n small, same_self (to_string n)) refl

decode_fields-fields_of :
    (d : EnrolledDevice) → Printable d → IsChecked d → decode_fields (fields_of d) ≡ ok d
unfolding decode_fields fields_of new_device
decode_fields-fields_of d p (path, classes) =
    let i = new_identity-Identified d.identity p.identity in
    rw
      (
        canonical_event_number-event_name d.event_number p.number,
        i.bus.parsed,
        i.vendor.parsed,
        i.model.parsed,
        i.revision.parsed,
        i.serial_number.parsed,
        p.identity,
        p.capabilities,
        (validate_classes-Classified d.classes classes).parsed,
        path,
        classes,
      )
      refl

-- One line of a record: what it lacks, that it is a text, and that it is read back.
pub record Line (d : EnrolledDevice) : Type 0 where
  pub no_newline : Lacks b'\n' (device_line d)
  pub kept : strip_return (device_line d) ≡ device_line d
  pub text : is_utf8 (device_line d) ≡ true
  pub decoded : decode_fields (split b'\t' (device_line d)) ≡ ok d

Line-Printable : (d : EnrolledDevice) → Printable d → IsChecked d → Line d
unfolding device_line
Line-Printable d p checked =
    let fields =
      fields-Field d p.path (validate_classes-Classified d.classes checked.1)
        (new_identity-Identified d.identity p.identity)
        (new_capabilities-PlainMaps d.capabilities p.capabilities) in
    record {
      no_newline = join-Lacks b'\n' (fields_of d) refl refl fields;
      kept =
          strip_return-Lacks (join b'\t' (fields_of d))
            (join-Lacks b'\r' (fields_of d) refl refl fields);
      text = join_utf8 (fields_of d) fields;
      decoded = ap decode_fields (split_fields d fields) ∙ decode_fields-fields_of d p checked;
    }
  where
    split_fields :
        (d : EnrolledDevice)
        → All Field (fields_of d)
        → split b'\t' (join b'\t' (fields_of d)) ≡ fields_of d
    split_fields d fields =
        unfold fields_of in
        split-join b'\t' (event_name d.event_number) _
          (All-imp (λ s (f : Field s). Clear-Lacks b'\t' s refl f.clear) (fields_of d) fields)

All-Line : (ds : List EnrolledDevice) → All Printable ds → All IsChecked ds → All Line ds
All-Line [] p c = tt
All-Line (d ∷ ds) p c = (Line-Printable d p.0 c.0, All-Line ds p.1 c.1)

lines-terminated :
    (ds : List EnrolledDevice)
    → All Line ds
    → lines (terminated b'\n' (map device_line ds)) ≡ map device_line ds
unfolding lines
lines-terminated ds h =
    ap (map strip_return) (split_terminator-terminated b'\n' (map device_line ds) (lacking ds h))
    ∙ keeping ds h
  where
    lacking : (es : List EnrolledDevice) → All Line es → All (Lacks b'\n') (map device_line es)
    lacking [] k = tt
    lacking (e ∷ es) k = (k.0.no_newline, lacking es k.1)

    keeping :
        (es : List EnrolledDevice)
        → All Line es
        → map strip_return (map device_line es) ≡ map device_line es
    keeping [] k = refl
    keeping (e ∷ es) k = cc (k.0.kept, keeping es k.1)

decode_devices-lines :
    (count : ℕ) (ds : List EnrolledDevice)
    → count + length ds ≤ max_event_descriptors
    → All Line ds
    → decode_devices count (map device_line ds) ≡ ok ds
unfolding decode_devices
decode_devices-lines count [] few h = refl
decode_devices-lines count (d ∷ ds) few h =
    rw
      (
        leb-eq_false max_event_descriptors count (omega arith),
        h.0.decoded,
        decode_devices-lines (count + 1) ds (omega arith) h.1,
      )
      refl

texts : (ds : List EnrolledDevice) → All Line ds → All (λ p. is_utf8 p ≡ true) (map device_line ds)
texts [] h = tt
texts (d ∷ ds) h = (h.0.text, texts ds h.1)

is_empty-ends_with : (b : ℕ) (s : List ℕ) → ends_with b s ≡ true → is_empty s ≡ false
unfolding ends_with
is_empty-ends_with b [] h = cc
is_empty-ends_with b (c ∷ s) h = refl

decode_body-encoded :
    (bytes : List ℕ) (d : EnrolledDevice) (ds : List EnrolledDevice)
    → length (d ∷ ds) ≤ max_event_descriptors
    → All Line (d ∷ ds)
    → encode_device_set (d ∷ ds) ≡ ok bytes
    → decode_body bytes (terminated b'\n' (map device_line (d ∷ ds))) ≡ ok (d ∷ ds)
unfolding decode_body if_canonical
decode_body-encoded bytes d ds few h encoded =
    let ends = terminated-ends_with b'\n' (device_line d) (map device_line ds) in
    rw
      (
        is_empty-ends_with b'\n' (terminated b'\n' (map device_line (d ∷ ds))) ends,
        ends,
        lines-terminated (d ∷ ds) h,
        decode_devices-lines 0 (d ∷ ds) (omega arith) h,
        encoded,
        same_self bytes,
      )
      refl

-- Every record that is encoded is read back as the devices that it was made of, if these are as their
-- constructors make them, with `u32` numbers, and their paths are texts without control bytes.
pub decode_device_set-encode_device_set :
    (ds : List EnrolledDevice) (bytes : List ℕ)
    → All Printable ds
    → encode_device_set ds ≡ ok bytes
    → decode_device_set bytes ≡ ok ds
unfolding decode_device_set
decode_device_set-encode_device_set [] bytes printable encoded =
    absurd ((encode_device_set-Reviewed [] bytes encoded).0 refl)
decode_device_set-encode_device_set (d ∷ ds) bytes printable encoded =
    let (_, few, reviewed) = encode_device_set-Reviewed (d ∷ ds) bytes encoded in
    let h = All-Line (d ∷ ds) printable reviewed.checked in
    let body = terminated b'\n' (map device_line (d ∷ ds)) in
    rw
      (
        ltb-eq_false max_device_set_bytes (length bytes) reviewed.within,
        ap is_utf8 reviewed.spelled
            ∙ is_utf8-append header body (is_utf8-ascii header (ground arith))
                (terminated_utf8 b'\n' refl (map device_line (d ∷ ds)) (texts (d ∷ ds) h)),
      )
      (ap (λ o. ok_or o invalid >>= λ b. decode_body bytes b)
          (ap (strip_prefix header) reviewed.spelled ∙ strip_prefix-append header body)
        ∙ decode_body-encoded bytes d ds few h encoded)
