-- ===== src/Devices/InputSet/Canonical.antt =====
-- Manifests of crates/agent-seat-activity-broker/src/initial_input_set.rs as they are decoded.
use agent_seat_proto.Prelude.{
  ℕ, ◌+◌, ◌≡◌, refl, sym, ap, ◌∙◌, arith, ltb, leb, some, List, [], ◌∷◌, map, length, ok, >>=-eq-ok,
  >>-eq-ok, ok_or, Bool-cases, inl, inr, ok_or-eq-ok,
}
use agent_seat_proto.Prelude.Text.{same, same→eq}
use agent_seat_proto.Prelude.Utf8.{is_utf8}
use agent_seat_proto.Prelude.Split.{
  split_terminator, split_once, split_once_sound, terminated, ends_with,
  terminated-split_terminator,
}
use agent_seat_proto.Devices.InputSet.{
  InputClassMapping, header_line, line, contains, parse_event_name, new, decode_line, decode_lines,
  decode_body, encode_input_set, decode_input_set, max_input_set_bytes, max_input_class_mappings,
  validate_order, malformed, valid_sysfs_path,
}
use agent_seat_proto.Devices.InputSet.Names.{parse_event_name_sound}
use agent_seat_proto.Devices.InputSet.Order.{validate_order_iff}
use agent_seat_proto.Devices.InputSet.Encoding.{encode_input_set_iff}

new-eq-ok :
    (n : ℕ) (path : List ℕ) {m : InputClassMapping}
    → new n path ≡ ok m
    → m ≡ record { event_number = n; sysfs_path = path }
unfolding new
new-eq-ok n path h = elim (Bool-cases (valid_sysfs_path n path)) [
  | inl on ↦ cc (rw on at h)
  | inr off ↦ absurd (cc (rw off at h))
]

line_of_parts :
    (text event path : List ℕ) (number : ℕ) {m : InputClassMapping}
    → split_once b'\t' text ≡ some (event, path)
    → parse_event_name event ≡ some number
    → new number path ≡ ok m
    → text ≡ line m
unfolding line
line_of_parts text event path number once named made =
    rw (new-eq-ok number path made, ← parse_event_name_sound event named)
      (split_once_sound b'\t' text event path once)

decode_line_sound :
    (text : List ℕ) {m : InputClassMapping} → decode_line text ≡ ok m → text ≡ line m
unfolding decode_line
decode_line_sound text h =
    let (parts, once, more) = >>=-eq-ok (ok_or (split_once b'\t' text) malformed) _ h in
    elim (Bool-cases (contains b'\t' parts.1)) [
      | inl tab ↦ absurd (cc (rw tab at more))
      | inr plain ↦
          let (number, named, made) =
            >>=-eq-ok (ok_or (parse_event_name parts.0) malformed) _ (rw plain at more) in
          line_of_parts text parts.0 parts.1 number
            (ok_or-eq-ok (split_once b'\t' text) malformed once)
            (ok_or-eq-ok (parse_event_name parts.0) malformed named) made
    ]

decode_lines_sound :
    (count : ℕ) (texts : List (List ℕ)) {ms : List InputClassMapping}
    → decode_lines count texts ≡ ok ms
    → texts ≡ map line ms
unfolding decode_lines
decode_lines_sound count [] {ms} h = let same : [] ≡ ms = cc in rw (← same) refl
decode_lines_sound count (text ∷ rest) h = elim (Bool-cases (leb max_input_class_mappings count)) [
  | inl many ↦ absurd (cc (rw many at h))
  | inr room ↦
      let (m, one, more) = >>=-eq-ok (decode_line text) _ (rw room at h) in
      let (ms', others, whole) = >>=-eq-ok (decode_lines (count + 1) rest) _ more in
      cc (whole, decode_line_sound text one, decode_lines_sound (count + 1) rest others)
]

decode_body_sound :
    (texts : List (List ℕ)) {ms : List InputClassMapping}
    → decode_body texts ≡ ok ms
    → (texts ≡ header_line ∷ map line ms) × (validate_order ms ≡ ok tt)
unfolding decode_body
decode_body_sound [] h = absurd (cc)
decode_body_sound (first ∷ rest) h = elim (Bool-cases (same first header_line)) [
  | inr off ↦ absurd (cc (rw off at h))
  | inl on ↦
      let (ms', lines, ordered) = >>=-eq-ok (decode_lines 0 rest) _ (rw on at h) in
      let (valid, whole) = >>-eq-ok (validate_order ms') (ok ms') ordered in
      (cc (same→eq first header_line on, decode_lines_sound 0 rest lines, whole), cc (valid, whole))
]

-- A manifest that is read is, byte for byte, the encoding of what was read of it: every mapping with
-- its path as it is spelled there.
pub encode_input_set-decode_input_set :
    (bytes : List ℕ) (ms : List InputClassMapping)
    → decode_input_set bytes ≡ ok ms
    → encode_input_set ms ≡ ok bytes
unfolding decode_input_set
encode_input_set-decode_input_set bytes ms h =
    elim (Bool-cases (ltb max_input_set_bytes (length bytes))) [
      | inl large ↦ absurd (cc (rw large at h))
      | inr small ↦ elim (Bool-cases (ends_with b'\n' bytes)) [
        | inr open_end ↦ absurd (cc (rw (small, open_end) at h))
        | inl ends ↦ elim (Bool-cases (is_utf8 bytes)) [
          | inr off ↦ absurd (cc (rw (small, ends, off) at h))
          | inl text ↦
              let (lines, ordered) =
                decode_body_sound (split_terminator b'\n' bytes) (rw (small, ends, text) at h) in
              (encode_input_set_iff ms bytes).1 (record {
                ordered = (validate_order_iff ms).0 ordered;
                spelled =
                    sym (terminated-split_terminator b'\n' bytes ends)
                    ∙ ap (terminated b'\n') lines;
                within = ground arith;
              })
        ]
      ]
    ]
