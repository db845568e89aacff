-- ===== src/Devices/DeviceSet/Bitmaps.antt =====
-- The kernel's capability bitmaps, crates/agent-seat-activity-broker/src/device_set.rs: words of 64
-- bits in hexadecimal, the highest first.
use agent_seat_proto.Prelude.{
  ℕ, zero, suc, ◌+◌, ◌*◌, ◌-◌, ◌/◌, ◌%◌, ◌^◌, Bool, ◌&&◌, ◌==◌, ltb, leb, if◌then◌else◌, Option,
  none, some, List, [], ◌∷◌, ◌++◌,
}
use mathlib.Core.List.{reverse}
use agent_seat_proto.Prelude.Text.{same}
use agent_seat_proto.Prelude.Decimal.{is_digit}
use agent_seat_proto.Prelude.Split.{split}
use agent_seat_proto.Devices.DeviceSet.{
  DeviceCapabilities, CapabilityKind, absolute, event, force_feedback, keys, leds, misc, relative,
  sound, switch, property,
}

abbrev pub usize_bits : ℕ
usize_bits = 64

abbrev pub hex_value : ℕ → Option ℕ
hex_value c =
    if is_digit c
    then some (c - b'0')
    else if leb b'a' c && leb c b'f'
    then some (c - b'a' + 10)
    else if leb b'A' c && leb c b'F'
    then some (c - b'A' + 10)
    else none

-- `usize::from_str_radix(…, 16)` after the sign.
unfoldable pub scan_hex : List ℕ → ℕ → Option ℕ
scan_hex [] n = some n
scan_hex (c ∷ s) n = elim (hex_value c) [
  | none ↦ none
  | some digit ↦
      let rest = scan_hex s (n * 16 + digit) in if leb (2 ^ 64) (n * 16 + digit) then none else rest
]

abbrev pub scan_some : List ℕ → Option ℕ
scan_some [] = none
scan_some (c ∷ s) = scan_hex (c ∷ s) 0

unfoldable pub parse_hex : List ℕ → Option ℕ
parse_hex [] = none
parse_hex (c ∷ s) = if c == b'+' then scan_some s else scan_hex (c ∷ s) 0

abbrev pub or_default : Option ℕ → ℕ
or_default none = 0
or_default (some n) = n

-- `word.trailing_zeros()` of a nonzero word that is at most the fuel.
unfoldable pub trailing_zeros : ℕ → ℕ → ℕ
trailing_zeros zero word = 0
trailing_zeros (suc fuel) word =
    let rest = suc (trailing_zeros fuel (word / 2)) in if word % 2 == 0 then rest else 0

-- `u16::try_from(base.saturating_add(bit))`, and a code that does not fit is left out.
abbrev pub push_code : ℕ → List ℕ → List ℕ
push_code code codes = if ltb code (2 ^ 16) then code ∷ codes else codes

-- `while word != 0`: the word is fuel enough, since `word &= word - 1` takes its lowest one away.
unfoldable pub word_codes : ℕ → ℕ → ℕ → List ℕ
word_codes zero base word = []
word_codes (suc fuel) base word =
    let bit = trailing_zeros word word in
    let rest = push_code (base + bit) (word_codes fuel base (word - 2 ^ bit)) in
    if word == 0 then [] else rest

-- The words from the lowest on; a base of a list that is in memory does not saturate.
unfoldable pub words_codes : ℕ → List (List ℕ) → List ℕ
words_codes base [] = []
words_codes base (text ∷ rest) =
    let word = or_default (parse_hex text) in
    word_codes word base word ++ words_codes (base + usize_bits) rest

-- `sort_unstable` of numbers.
unfoldable pub insert : ℕ → List ℕ → List ℕ
insert n [] = n ∷ []
insert n (m ∷ ms) = let rest = m ∷ insert n ms in if leb n m then n ∷ m ∷ ms else rest

unfoldable pub sort : List ℕ → List ℕ
sort [] = []
sort (n ∷ ns) = insert n (sort ns)

unfoldable pub bitmap_codes : List ℕ → List ℕ
bitmap_codes value = sort (words_codes 0 (reverse (split b' ' value)))

-- `values[index]`, by the fixed order of the kinds.
abbrev pub value_of : CapabilityKind → DeviceCapabilities → List ℕ
value_of absolute c = c.abs
value_of event c = c.ev
value_of force_feedback c = c.ff
value_of keys c = c.key
value_of leds c = c.led
value_of misc c = c.msc
value_of relative c = c.rel
value_of sound c = c.snd
value_of switch c = c.sw
value_of property c = c.properties

unfoldable pub matches : DeviceCapabilities → CapabilityKind → List ℕ → Bool
matches c kind actual = same (bitmap_codes (value_of kind c)) actual
