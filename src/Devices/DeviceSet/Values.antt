-- ===== src/Devices/DeviceSet/Values.antt =====
-- The validated values of a device record, crates/agent-seat-activity-broker/src/device_set.rs.
use agent_seat_proto.Prelude.{
  ℕ, ◌+◌, ◌≡◌, refl, arith, Bool, true, false, ◌&&◌, ◌||◌, ◌==◌, ltb, leb, Option, none, some, List,
  [], ◌∷◌, length, all, any, All, All-imp, All-append, ok, >>-eq-ok, >>=-eq-ok, ok_or, Bool-cases,
  inl, inr, ok_or-eq-ok,
}
use agent_seat_proto.Prelude.Text.{same, same_self, same→eq, chars}
use agent_seat_proto.Prelude.Utf8.{is_utf8, is_utf8-ascii}
use agent_seat_proto.Prelude.Split.{Lacks, join, split, split-join}
use agent_seat_proto.Devices.InputSet.{is_behind}
use agent_seat_proto.Devices.DeviceSet.{
  invalid, DeviceIdentity, DeviceCapabilities, validate_value, validate_some,
  validate_capability_value, new_identity, new_capabilities, validate_classes, check_classes,
  position, allowed, is_printable, is_lower_hex,
}
use agent_seat_proto.Devices.DeviceSet.Record.{optional, parse_optional}

abbrev pub is_ascii : ℕ → Bool
is_ascii c = leb 0x20 c && ltb c 0x80

-- ASCII without control bytes.
abbrev pub Plain : List ℕ → Type 0
Plain = All (λ c. is_ascii c ≡ true)

-- Without control bytes.
abbrev pub Clear : List ℕ → Type 0
Clear = All (λ c. ltb c 0x20 ≡ false)

-- A text without control bytes, so without the separators of a record.
pub record Field (s : List ℕ) : Type 0 where
  pub clear : Clear s
  pub text : is_utf8 s ≡ true

pub Plain-Field : (s : List ℕ) → Plain s → Field s
Plain-Field s plain = record {
  clear = All-imp (λ c h. ground arith) s plain;
  text = is_utf8-ascii s (All-imp (λ c h. ground arith) s plain);
}

pub Clear-Lacks : (b : ℕ) (s : List ℕ) → ltb b 0x20 ≡ true → Clear s → Lacks b s
Clear-Lacks b [] control h = tt
Clear-Lacks b (c ∷ s) control h = (ground arith, Clear-Lacks b s control h.1)

all_printable : (s : List ℕ) → all is_printable s ≡ true → Plain s
all_printable [] h = tt
all_printable (c ∷ s) h = (ground arith, all_printable s (ground arith))

all_hex : (s : List ℕ) → all (λ byte. byte == b' ' || is_lower_hex byte) s ≡ true → Plain s
all_hex [] h = tt
all_hex (c ∷ s) h = (ground arith, all_hex s (ground arith))

-- A value is plain and is not the mark of an absent one.
pub record Value (value : List ℕ) : Type 0 where
  pub plain : Plain value
  pub present : same value (chars "-") ≡ false

pub validate_value-Value : (value : List ℕ) → validate_value value ≡ ok tt → Value value
unfolding validate_value
validate_value-Value value h = record {
  plain = all_printable value (ground arith);
  present = ground arith;
}

pub validate_capability_value-Plain :
    (value : List ℕ) → validate_capability_value value ≡ ok tt → Plain value
unfolding validate_capability_value
validate_capability_value-Plain value h = all_hex value (ground arith)

optional-Plain : (o : Option (List ℕ)) → validate_some o ≡ ok tt → Plain (optional o)
unfolding optional validate_some
optional-Plain none h = ground arith
optional-Plain (some value) h = (validate_value-Value value h).plain

parse_optional-optional :
    (o : Option (List ℕ)) → validate_some o ≡ ok tt → parse_optional (optional o) ≡ ok o
unfolding parse_optional optional validate_some
parse_optional-optional none h = rw (same_self (chars "-")) refl
parse_optional-optional (some value) h = rw ((validate_value-Value value h).present, h) refl

-- An optional value that is printed and read back.
pub record Printed (o : Option (List ℕ)) : Type 0 where
  pub plain : Plain (optional o)
  pub parsed : parse_optional (optional o) ≡ ok o

Printed-validate_some : (o : Option (List ℕ)) → validate_some o ≡ ok tt → Printed o
Printed-validate_some o h = record {
  plain = optional-Plain o h;
  parsed = parse_optional-optional o h;
}

pub record Identified (d : DeviceIdentity) : Type 0 where
  pub path : Plain d.path
  pub bus : Printed d.bus
  pub vendor : Printed d.vendor
  pub model : Printed d.model
  pub revision : Printed d.revision
  pub serial_number : Printed d.serial_number

pub new_identity-Identified :
    (d : DeviceIdentity)
    → new_identity d.path d.bus d.vendor d.model d.revision d.serial_number ≡ ok d
    → Identified d
unfolding new_identity
new_identity-Identified d h =
    let (path, h1) = >>-eq-ok (validate_value d.path) _ h in
    let (bus, h2) = >>-eq-ok (validate_some d.bus) _ h1 in
    let (vendor, h3) = >>-eq-ok (validate_some d.vendor) _ h2 in
    let (model, h4) = >>-eq-ok (validate_some d.model) _ h3 in
    let (revision, h5) = >>-eq-ok (validate_some d.revision) _ h4 in
    let (serial_number, h6) = >>-eq-ok (validate_some d.serial_number) _ h5 in
    record {
      path = (validate_value-Value d.path path).plain;
      bus = Printed-validate_some d.bus bus;
      vendor = Printed-validate_some d.vendor vendor;
      model = Printed-validate_some d.model model;
      revision = Printed-validate_some d.revision revision;
      serial_number = Printed-validate_some d.serial_number serial_number;
    }

pub record PlainMaps (c : DeviceCapabilities) : Type 0 where
  pub abs : Plain c.abs
  pub ev : Plain c.ev
  pub ff : Plain c.ff
  pub key : Plain c.key
  pub led : Plain c.led
  pub msc : Plain c.msc
  pub rel : Plain c.rel
  pub snd : Plain c.snd
  pub sw : Plain c.sw
  pub properties : Plain c.properties

pub new_capabilities-PlainMaps : (c : DeviceCapabilities) → new_capabilities c ≡ ok c → PlainMaps c
unfolding new_capabilities
new_capabilities-PlainMaps c h =
    let (abs, h1) = >>-eq-ok (validate_capability_value c.abs) _ h in
    let (ev, h2) = >>-eq-ok (validate_capability_value c.ev) _ h1 in
    let (ff, h3) = >>-eq-ok (validate_capability_value c.ff) _ h2 in
    let (key, h4) = >>-eq-ok (validate_capability_value c.key) _ h3 in
    let (led, h5) = >>-eq-ok (validate_capability_value c.led) _ h4 in
    let (msc, h6) = >>-eq-ok (validate_capability_value c.msc) _ h5 in
    let (rel, h7) = >>-eq-ok (validate_capability_value c.rel) _ h6 in
    let (snd, h8) = >>-eq-ok (validate_capability_value c.snd) _ h7 in
    let (sw, h9) = >>-eq-ok (validate_capability_value c.sw) _ h8 in
    let (properties, h10) = >>-eq-ok (validate_capability_value c.properties) _ h9 in
    record {
      abs = validate_capability_value-Plain c.abs abs;
      ev = validate_capability_value-Plain c.ev ev;
      ff = validate_capability_value-Plain c.ff ff;
      key = validate_capability_value-Plain c.key key;
      led = validate_capability_value-Plain c.led led;
      msc = validate_capability_value-Plain c.msc msc;
      rel = validate_capability_value-Plain c.rel rel;
      snd = validate_capability_value-Plain c.snd snd;
      sw = validate_capability_value-Plain c.sw sw;
      properties = validate_capability_value-Plain c.properties properties;
    }

-- A class name is one of the six, so it holds no separator.
abbrev pub IsClassName : List ℕ → Type 0
IsClassName name = Plain name × Lacks b',' name

allowed-ClassNames : All IsClassName allowed
allowed-ClassNames = ground arith

position-ClassName :
    (index : ℕ) (names : List (List ℕ)) (name : List ℕ) {place : ℕ}
    → All IsClassName names
    → position index names name ≡ some place
    → IsClassName name
unfolding position
position-ClassName index [] name h found = absurd (cc)
position-ClassName index (a ∷ rest) name h found = elim (Bool-cases (same a name)) [
  | inl on ↦ rw (← same→eq a name on) h.0
  | inr off ↦ position-ClassName (index + 1) rest name h.1 (rw off at found)
]

check_classes-ClassNames :
    (previous : Option ℕ) (seen classes : List (List ℕ))
    → check_classes previous seen classes ≡ ok tt
    → All IsClassName classes
unfolding check_classes
check_classes-ClassNames previous seen [] h = tt
check_classes-ClassNames previous seen (name ∷ rest) h =
    let (place, found, more) = >>=-eq-ok (ok_or (position 0 allowed name) invalid) _ h in
    let named = ok_or-eq-ok (position 0 allowed name) invalid found in
    elim (Bool-cases (is_behind previous place || any (same name) seen)) [
      | inl bad ↦ absurd (cc (rw bad at more))
      | inr fine ↦ (
        position-ClassName 0 allowed name allowed-ClassNames named,
        check_classes-ClassNames (some place) (name ∷ seen) rest (rw fine at more),
      )
    ]

join-Plain : (b : ℕ) (ps : List (List ℕ)) → is_ascii b ≡ true → All Plain ps → Plain (join b ps)
unfolding join
join-Plain b [] sep h = tt
join-Plain b (p ∷ []) sep h = h.0
join-Plain b (p ∷ q ∷ rest) sep h =
    All-append (λ c. is_ascii c ≡ true) p (b ∷ join b (q ∷ rest)) h.0
      (sep, join-Plain b (q ∷ rest) sep h.1)

-- Class names that are joined and split again.
pub record Classified (classes : List (List ℕ)) : Type 0 where
  pub plain : Plain (join b',' classes)
  pub parsed : split b',' (join b',' classes) ≡ classes

pub validate_classes-Classified :
    (classes : List (List ℕ)) → validate_classes classes ≡ ok tt → Classified classes
unfolding validate_classes
validate_classes-Classified [] h = absurd (cc)
validate_classes-Classified (name ∷ rest) h = elim (Bool-cases (ltb 6 (length (name ∷ rest)))) [
  | inl many ↦ absurd (cc (rw many at h))
  | inr few ↦
      let names = check_classes-ClassNames none [] (name ∷ rest) (rw few at h) in
      record {
        plain = join-Plain b',' (name ∷ rest) refl (All-imp (λ n k. k.0) (name ∷ rest) names);
        parsed = split-join b',' name rest (All-imp (λ n k. k.1) (name ∷ rest) names);
      }
]
