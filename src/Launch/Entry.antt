-- ===== src/Launch/Entry.antt =====
-- The text of a desktop entry: `parse_desktop`, `valid_key`, `boolean`, `visible_on_desktop` and
-- `parse_list` of crates/agent-seat-x11/src/launch.rs.
-- The map of the keys is an association list, the newest key first.
pub mod Keys
use agent_seat_proto.Prelude.{
  ℕ, Bool, true, false, not, ◌&&◌, ◌||◌, ◌==◌, ltb, leb, if◌then◌else◌, choose, Option, none, some,
  List, [], ◌∷◌, ◌++◌, length, is_empty, any, all, and_then, or_else, is_some,
}
use mathlib.Core.List.{reverse}
use agent_seat_proto.Prelude.Text.{Str, same, chars}
use agent_seat_proto.Prelude.Split.{split, split_terminator, split_once, strip_prefix, ends_with}
use agent_seat_proto.Launch.Exec.{decode_string}

abbrev pub max_entry_keys : ℕ
max_entry_keys = 256

abbrev pub Values : Type 0
Values = List (Str × Str)

-- `values.get(key)`
unfoldable pub get : Str → Values → Option Str
get key [] = none
get key ((k, v) ∷ rest) = let later = get key rest in if same k key then some v else later

-- `char::is_control`
abbrev pub is_control : ℕ → Bool
is_control c = ltb c 0x20 || (leb 0x7f c && ltb c 0xa0)

-- `char::is_whitespace`
abbrev pub is_whitespace : ℕ → Bool
is_whitespace c =
    (leb 9 c && leb c 13)
    || (c == 0x20
        || (c == 0x85
            || (c == 0xa0
                || (c == 0x1680
                    || ((leb 0x2000 c && leb c 0x200a)
                        || (c == 0x2028
                            || (c == 0x2029 || (c == 0x202f || (c == 0x205f || c == 0x3000)))))))))

unfoldable pub trim_start : Str → Str
trim_start [] = []
trim_start (c ∷ rest) = let later = trim_start rest in if is_whitespace c then later else c ∷ rest

-- `str::trim`
abbrev pub trim : Str → Str
trim s = reverse (trim_start (reverse (trim_start s)))

-- `strip_suffix(c).unwrap_or(self)` of one character.
unfoldable pub strip_last : ℕ → Str → Str
strip_last b [] = []
strip_last b (c ∷ []) = if c == b then [] else c ∷ []
strip_last b (c ∷ d ∷ rest) = c ∷ strip_last b (d ∷ rest)

-- The pieces between the ends of lines as lines: a carriage return goes with the end of its line,
-- and a last piece that is empty is none.
unfoldable pub ended : List Str → List Str
ended [] = []
ended (last ∷ []) = if is_empty last then [] else last ∷ []
ended (piece ∷ next ∷ rest) = strip_last b'\r' piece ∷ ended (next ∷ rest)

-- `str::lines`
abbrev pub lines : Str → List Str
lines source = ended (split b'\n' source)

-- `str::starts_with` of one character.
abbrev pub starts_with : ℕ → Str → Bool
starts_with b [] = false
starts_with b (c ∷ rest) = c == b

abbrev pub is_alphanumeric : ℕ → Bool
is_alphanumeric c =
    (leb b'0' c && leb c b'9') || ((leb b'A' c && leb c b'Z') || (leb b'a' c && leb c b'z'))

-- `split_once('[').map_or(key, |(base, _)| base)`
abbrev pub base_of : Str → Option (Str × Str) → Str
base_of key none = key
base_of key (some (base, _)) = base

abbrev pub is_locale : Option Str → Bool
is_locale none = false
is_locale (some suffix) = starts_with b'[' suffix && ends_with b']' suffix

unfoldable pub valid_key : Str → Bool
valid_key key =
    let base = base_of key (split_once b'[' key) in
    not (is_empty base)
    && (all (λ c. is_alphanumeric c || c == b'-') base
        && (same key base || is_locale (strip_prefix base key)))

-- The variables of the loop of `parse_desktop`.
pub record Parsing : Type 0 where
  pub values : Values
  pub in_desktop_entry : Bool
  pub found_desktop_entry : Bool

-- `line[1..]` of a line that is not empty.
abbrev pub strip_first : Str → Str
strip_first [] = []
strip_first (c ∷ rest) = rest

-- The branch of a group header; the brackets around the name are the first and last character.
unfoldable pub open_group : Parsing → Str → Option Parsing
open_group p line =
    let named = same line (chars "[Desktop Entry]") in
    if not (ends_with b']' line)
      || (any (λ c. c == b'[' || c == b']') (strip_last b']' (strip_first line)))
    then none
    else if named && p.found_desktop_entry
    then none
    else some (record {
      values = p.values;
      in_desktop_entry = named;
      found_desktop_entry = named || p.found_desktop_entry;
    })

-- The end of the loop's body: a key with its value.
abbrev pub insert : Parsing → Str × Str → Option Parsing
insert p (key, value) =
    if not (valid_key (trim key))
      || (length p.values == max_entry_keys || is_some (get (trim key) p.values))
    then none
    else some (record p { values = (trim key, trim value) ∷ p.values })

-- The body of the loop, for a line without its carriage return.
unfoldable pub parse_line : Parsing → Str → Option Parsing
parse_line p line =
    if is_empty line || starts_with b'#' line
    then some p
    else if starts_with b'[' line
    then open_group p line
    else if not p.found_desktop_entry
    then none
    else if not p.in_desktop_entry
    then some p
    else and_then (split_once b'=' line) (insert p)

unfoldable pub parse_lines : Parsing → List Str → Option Parsing
parse_lines p [] = some p
parse_lines p (raw_line ∷ rest) =
    and_then (parse_line p (strip_last b'\r' raw_line)) (λ q. parse_lines q rest)

abbrev pub start : Parsing
start = record { values = []; in_desktop_entry = false; found_desktop_entry = false }

abbrev pub finish : Parsing → Option Values
finish p = if p.found_desktop_entry then some p.values else none

unfoldable pub parse_desktop : Str → Option Values
parse_desktop source =
    if any (λ c. is_control c && not (c == b'\n' || c == b'\r')) source
    then none
    else and_then (parse_lines start (lines source)) finish

unfoldable pub boolean_of : Option Str → Option Bool
boolean_of none = some false
boolean_of (some text) =
    if same text (chars "false")
    then some false
    else if same text (chars "true")
    then some true
    else none

abbrev pub boolean : Values → Str → Option Bool
boolean values key = boolean_of (get key values)

-- `map(decode_string).collect::<Option<Vec<_>>>()`
unfoldable pub decode_all : List Str → Option (List Str)
decode_all [] = some []
decode_all (s ∷ rest) =
    and_then (decode_string s) (λ d. and_then (decode_all rest) (λ ds. some (d ∷ ds)))

unfoldable pub parse_list : Str → Option (List Str)
parse_list value = decode_all (split_terminator b';' value)

-- Whether one of the current desktops is in the list.
unfoldable pub names_current : List Str → List Str → Bool
names_current current entries = any (λ desktop. any (λ e. same e desktop) entries) current

-- `OnlyShowIn`: absent, or a list with a current desktop.
abbrev pub only_shown : List Str → Option Str → Bool
only_shown current none = true
only_shown current (some value) = elim (parse_list value) [
  | none ↦ false
  | some only ↦ names_current current only
]

-- `NotShowIn`: absent, or a list without a current desktop.
abbrev pub not_hidden : List Str → Option Str → Bool
not_hidden current none = true
not_hidden current (some value) = elim (parse_list value) [
  | none ↦ false
  | some hidden ↦ not (names_current current hidden)
]

unfoldable pub visible_on_desktop : Values → List Str → Bool
visible_on_desktop values current =
    only_shown current (get (chars "OnlyShowIn") values)
    && not_hidden current (get (chars "NotShowIn") values)
