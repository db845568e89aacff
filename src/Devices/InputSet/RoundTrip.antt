-- ===== src/Devices/InputSet/RoundTrip.antt =====
-- Manifests of crates/agent-seat-activity-broker/src/initial_input_set.rs, encoded and decoded.
use agent_seat_proto.Prelude.{
  ℕ, ◌+◌, ◌^◌, ◌<◌, ◌≤◌, ◌≡◌, refl, ap, ◌∙◌, arith, true, false, List, [], ◌∷◌, map, length, All,
  ok, ltb-eq_false, leb-eq_false,
}
use agent_seat_proto.Prelude.Text.{same_self}
use agent_seat_proto.Prelude.Utf8.{is_utf8, is_utf8-ascii}
use agent_seat_proto.Prelude.Split.{
  Lacks, split_terminator, split_once-part, ends_with, split_terminator-terminated, terminated_utf8,
  terminated-ends_with,
}
use agent_seat_proto.Devices.InputSet.{
  InputClassMapping, header_line, event_name, line, contains, new, decode_line, decode_lines,
  decode_body, encode_input_set, decode_input_set, max_input_set_bytes, max_input_class_mappings,
}
use agent_seat_proto.Devices.InputSet.Names.{event_name-Lacks_tab, parse_event_name-event_name}
use agent_seat_proto.Devices.InputSet.Order.{IsValidPath, Ordered, validate_order_iff}
use agent_seat_proto.Devices.InputSet.Encoding.{
  IsValidPath-Writable, lines_Lack, lines_utf8, encode_input_set_iff,
}

-- The number is a `u32`.
abbrev pub IsU32 : InputClassMapping → Type 0
IsU32 m = m.event_number < 2 ^ 32

contains-Lacks : (b : ℕ) (s : List ℕ) → Lacks b s → contains b s ≡ false
contains-Lacks b [] h = refl
contains-Lacks b (c ∷ s) h = ground (arith, contains-Lacks b s)

decode_line-line : (m : InputClassMapping) → IsU32 m → IsValidPath m → decode_line (line m) ≡ ok m
unfolding decode_line line new
decode_line-line m small valid =
    rw
      (
        split_once-part b'\t' (event_name m.event_number) m.sysfs_path
            (event_name-Lacks_tab m.event_number),
        contains-Lacks b'\t' m.sysfs_path (IsValidPath-Writable m valid).no_tab,
        parse_event_name-event_name m.event_number small,
        valid,
      )
      refl

decode_lines-lines :
    (count : ℕ) (ms : List InputClassMapping)
    → count + length ms ≤ max_input_class_mappings
    → All IsU32 ms
    → All IsValidPath ms
    → decode_lines count (map line ms) ≡ ok ms
unfolding decode_lines
decode_lines-lines count [] few small valid = refl
decode_lines-lines count (m ∷ ms) few small valid =
    rw
      (
        leb-eq_false max_input_class_mappings count (omega arith),
        decode_line-line m small.0 valid.0,
        decode_lines-lines (count + 1) ms (omega arith) small.1 valid.1,
      )
      refl

decode_body-lines :
    (ms : List InputClassMapping)
    → Ordered ms
    → All IsU32 ms
    → decode_body (header_line ∷ map line ms) ≡ ok ms
unfolding decode_body
decode_body-lines ms ordered small =
    rw
      (
        same_self header_line,
        decode_lines-lines 0 ms (omega (arith, ordered.few)) small ordered.paths,
        (validate_order_iff ms).1 ordered,
      )
      refl

header_plain : Lacks b'\n' header_line × (is_utf8 header_line ≡ true)
header_plain = (ground arith, is_utf8-ascii header_line (ground arith))

-- Every manifest that is encoded is read back as the mappings that it was made of, if their numbers
-- are `u32`.
pub decode_input_set-encode_input_set :
    (ms : List InputClassMapping) (bytes : List ℕ)
    → All IsU32 ms
    → encode_input_set ms ≡ ok bytes
    → decode_input_set bytes ≡ ok ms
unfolding decode_input_set
decode_input_set-encode_input_set ms bytes small encoded =
    let manifest = (encode_input_set_iff ms bytes).0 encoded in
    let paths = manifest.ordered.paths in
    let ends = terminated-ends_with b'\n' header_line (map line ms) in
    let text =
      terminated_utf8 b'\n' refl (header_line ∷ map line ms)
        (header_plain.1, lines_utf8 ms paths) in
    let parts =
      split_terminator-terminated b'\n' (header_line ∷ map line ms)
        (header_plain.0, lines_Lack ms paths) in
    rw
      (
        ltb-eq_false max_input_set_bytes (length bytes) manifest.within,
        ap (ends_with b'\n') manifest.spelled ∙ ends,
        ap is_utf8 manifest.spelled ∙ text,
        ap (split_terminator b'\n') manifest.spelled ∙ parts,
      )
      (decode_body-lines ms manifest.ordered small)
