-- ===== src/Devices/InputSet.antt =====
-- The manifest of all kernel input classes,
-- crates/agent-seat-activity-broker/src/initial_input_set.rs. A path is kept as it is spelled;
-- `same_mapping` is the source's equality. Capacities that `Vec` reserves are left out.
pub mod Names
pub mod Order
pub mod Encoding
pub mod RoundTrip
pub mod Canonical
use agent_seat_proto.Prelude.{
  ℕ, ◌+◌, ◌*◌, Bool, true, false, not, ◌&&◌, ◌||◌, ◌==◌, ltb, leb, if◌then◌else◌, Option, none,
  some, List, [], ◌∷◌, ◌++◌, length, is_empty, any, all, Result, ok, err, ◌>>=◌, ◌>>◌, ok_or,
}
use agent_seat_proto.Prelude.Text.{same, chars}
use agent_seat_proto.Prelude.Utf8.{is_utf8}
use agent_seat_proto.Prelude.Decimal.{to_string, parse_u32, is_digit}
use agent_seat_proto.Prelude.Split.{split_terminator, split_once, strip_prefix, ends_with}
use agent_seat_proto.Prelude.Paths.{components, same_components, starts_with, file_name, is_plain}

-- `HEADER`, without the end of its line.
abbrev pub header_line : List ℕ
header_line = chars "ASIS\t1"

abbrev pub header : List ℕ
header = header_line ++ b'\n' ∷ []

abbrev pub max_input_class_mappings : ℕ
max_input_class_mappings = 256

abbrev pub max_input_set_bytes : ℕ
max_input_set_bytes = 64 * 1024

pub record InputClassMapping : Type 0 where
  pub event_number : ℕ
  pub sysfs_path : List ℕ

-- `#[derive(PartialEq)]`: two paths are equal if their components are.
unfoldable pub same_mapping : InputClassMapping → InputClassMapping → Bool
same_mapping a b =
    a.event_number == b.event_number
    && same_components (components a.sysfs_path) (components b.sysfs_path)

pub data InputSetError : Type 0 where
  malformed bound_exceeded : InputSetError

-- `format!("event{number}")`
unfoldable pub event_name : ℕ → List ℕ
event_name number = chars "event" ++ to_string number

unfoldable pub is_named : Option (List ℕ) → ℕ → Bool
is_named none number = false
is_named (some name) number = same name (event_name number)

abbrev pub contains : ℕ → List ℕ → Bool
contains b = any (λ c. c == b)

unfoldable pub valid_sysfs_path : ℕ → List ℕ → Bool
valid_sysfs_path event_number path =
    if not (is_utf8 path)
    then false
    else if contains 0 path || (contains b'\n' path || contains b'\r' path || contains b'\t' path)
    then false
    else if not (starts_with (components path) (components (chars "/sys/devices")))
    then false
    else if not (is_named (file_name (components path)) event_number)
    then false
    else all is_plain (components path)

-- `InputClassMapping::new`
unfoldable pub new : ℕ → List ℕ → Result InputSetError InputClassMapping
new event_number sysfs_path =
    if not (valid_sysfs_path event_number sysfs_path)
    then err malformed
    else ok (record { event_number = event_number; sysfs_path = sysfs_path })

abbrev pub is_behind : Option ℕ → ℕ → Bool
is_behind none number = false
is_behind (some previous) number = leb number previous

-- The loop of `validate_order`.
unfoldable pub check_order : Option ℕ → List InputClassMapping → Result InputSetError (Unit {0})
check_order previous [] = ok tt
check_order previous (m ∷ ms) =
    let rest = check_order (some m.event_number) ms in
    if not (valid_sysfs_path m.event_number m.sysfs_path) || is_behind previous m.event_number
    then err malformed
    else rest

unfoldable pub validate_order : List InputClassMapping → Result InputSetError (Unit {0})
validate_order ms =
    if is_empty ms || ltb max_input_class_mappings (length ms)
    then err (if ltb max_input_class_mappings (length ms) then bound_exceeded else malformed)
    else check_order none ms

-- `format!("event{}\t{path}\n", …)`, without the end of the line.
unfoldable pub line : InputClassMapping → List ℕ
line m = event_name m.event_number ++ b'\t' ∷ m.sysfs_path

-- The loop of `encode_input_set`.
unfoldable pub push_mappings : List ℕ → List InputClassMapping → Result InputSetError (List ℕ)
push_mappings output [] = ok output
push_mappings output (m ∷ ms) =
    let next = output ++ (line m ++ b'\n' ∷ []) in
    let rest = push_mappings next ms in
    if not (is_utf8 m.sysfs_path)
    then err malformed
    else if ltb max_input_set_bytes (length next)
    then err bound_exceeded
    else rest

unfoldable pub encode_input_set : List InputClassMapping → Result InputSetError (List ℕ)
encode_input_set ms = validate_order ms >> push_mappings header ms

abbrev pub if_same : List ℕ → List ℕ → ℕ → Option ℕ
if_same a b number = if same a b then some number else none

abbrev pub canonical_number : List ℕ → Option ℕ → Option ℕ
canonical_number value none = none
canonical_number value (some number) = if_same value (event_name number) number

abbrev pub named_number : List ℕ → Option (List ℕ) → Option ℕ
named_number value none = none
named_number value (some number) =
    if is_empty number || not (all is_digit number)
    then none
    else canonical_number value (parse_u32 number)

unfoldable pub parse_event_name : List ℕ → Option ℕ
parse_event_name value = named_number value (strip_prefix (chars "event") value)

-- The body of the loop over the lines.
unfoldable pub decode_line : List ℕ → Result InputSetError InputClassMapping
decode_line text = ok_or (split_once b'\t' text) malformed >>= λ parts.
    if contains b'\t' parts.1
    then err malformed
    else ok_or (parse_event_name parts.0) malformed >>= λ number. new number parts.1

-- The loop over the lines, when `count` mappings are there.
unfoldable pub decode_lines : ℕ → List (List ℕ) → Result InputSetError (List InputClassMapping)
decode_lines count [] = ok []
decode_lines count (text ∷ rest) =
    let decoded = decode_line text >>= λ m. decode_lines (count + 1) rest >>= λ ms. ok (m ∷ ms) in
    if leb max_input_class_mappings count then err bound_exceeded else decoded

-- The lines, of which the first is the header.
unfoldable pub decode_body : List (List ℕ) → Result InputSetError (List InputClassMapping)
decode_body [] = err malformed
decode_body (first ∷ rest) =
    if not (same first header_line)
    then err malformed
    else decode_lines 0 rest >>= λ ms. validate_order ms >> ok ms

unfoldable pub decode_input_set : List ℕ → Result InputSetError (List InputClassMapping)
decode_input_set source =
    if ltb max_input_set_bytes (length source)
    then err bound_exceeded
    else if not (ends_with b'\n' source)
    then err malformed
    else if not (is_utf8 source)
    then err malformed
    else decode_body (split_terminator b'\n' source)
