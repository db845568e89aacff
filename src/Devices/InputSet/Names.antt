-- ===== src/Devices/InputSet/Names.antt =====
-- The names of event devices, crates/agent-seat-activity-broker/src/initial_input_set.rs.
use agent_seat_proto.Prelude.{
  ℕ, ◌^◌, ◌<◌, ◌≡◌, ◌≢◌, refl, ap, ◌∙◌, arith, true, false, not, ◌||◌, ◌==◌, ltb, leb, ◌&&◌, Option,
  none, some, List, [], ◌∷◌, is_empty, all, All, All-imp, All-append, Bool-cases, inl, inr,
}
use agent_seat_proto.Prelude.Text.{same, same_self, same→eq, chars}
use agent_seat_proto.Prelude.Decimal.{to_string, parse_u32, is_digit}
use agent_seat_proto.Prelude.Decimal.Laws.{
  AllDigits, to_string-AllDigits, to_string-ne-nil, parse_u32-to_string,
}
use agent_seat_proto.Prelude.Split.{Lacks, strip_prefix, strip_prefix-append}
use agent_seat_proto.Devices.InputSet.{event_name, parse_event_name, named_number, canonical_number}

all_digits : (s : List ℕ) → AllDigits s → all is_digit s ≡ true
all_digits [] h = refl
all_digits (c ∷ s) h = ground (arith, all_digits s h.1)

pub event_name-Lacks_tab : (n : ℕ) → Lacks b'\t' (event_name n)
unfolding event_name
event_name-Lacks_tab n =
    All-append (λ c. (c == b'\t') ≡ false) (chars "event") (to_string n) (ground arith)
      (All-imp (λ c h. ground arith) (to_string n) (to_string-AllDigits n))

pub event_name-Lacks_newline : (n : ℕ) → Lacks b'\n' (event_name n)
unfolding event_name
event_name-Lacks_newline n =
    All-append (λ c. (c == b'\n') ≡ false) (chars "event") (to_string n) (ground arith)
      (All-imp (λ c h. ground arith) (to_string n) (to_string-AllDigits n))

pub event_name-Plain : (n : ℕ) → All (λ c. (leb 0x20 c && ltb c 0x80) ≡ true) (event_name n)
unfolding event_name
event_name-Plain n =
    All-append (λ c. (leb 0x20 c && ltb c 0x80) ≡ true) (chars "event") (to_string n) (ground arith)
      (All-imp (λ c h. ground arith) (to_string n) (to_string-AllDigits n))

pub event_name_ascii : (n : ℕ) → All (λ c. ltb c 0x80 ≡ true) (event_name n)
unfolding event_name
event_name_ascii n =
    All-append (λ c. ltb c 0x80 ≡ true) (chars "event") (to_string n) (ground arith)
      (All-imp (λ c h. ground arith) (to_string n) (to_string-AllDigits n))

canonical_of_same :
    (value : List ℕ) (number : Option ℕ) {n : ℕ}
    → canonical_number value number ≡ some n
    → value ≡ event_name n
canonical_of_same value none h = absurd (cc)
canonical_of_same value (some number) {n} h = elim (Bool-cases (same value (event_name number))) [
  | inl on ↦ same→eq value (event_name number) on ∙ cc (rw on at h)
  | inr off ↦ absurd (cc (rw off at h))
]

named_of_some :
    (value : List ℕ) (digits : Option (List ℕ)) {n : ℕ}
    → named_number value digits ≡ some n
    → value ≡ event_name n
named_of_some value none h = absurd (cc)
named_of_some value (some digits) h =
    elim (Bool-cases (is_empty digits || not (all is_digit digits))) [
      | inl on ↦ absurd (cc (rw on at h))
      | inr off ↦ canonical_of_same value (parse_u32 digits) (rw off at h)
    ]

-- Only the canonical name of a number is taken for it.
pub parse_event_name_sound :
    (value : List ℕ) {n : ℕ} → parse_event_name value ≡ some n → value ≡ event_name n
unfolding parse_event_name
parse_event_name_sound value h = named_of_some value (strip_prefix (chars "event") value) h

digits_taken : (s : List ℕ) → s ≢ [] → AllDigits s → (is_empty s || not (all is_digit s)) ≡ false
digits_taken [] nonempty h = absurd (nonempty refl)
digits_taken (c ∷ s) nonempty h = rw (all_digits (c ∷ s) h) refl

pub stripped : (n : ℕ) → strip_prefix (chars "event") (event_name n) ≡ some (to_string n)
unfolding event_name
stripped n = strip_prefix-append (chars "event") (to_string n)

-- The name of a number is taken for it.
pub parse_event_name-event_name : (n : ℕ) → n < 2 ^ 32 → parse_event_name (event_name n) ≡ some n
unfolding parse_event_name
parse_event_name-event_name n h =
    ap (named_number (event_name n)) (stripped n)
    ∙ rw
        (
          digits_taken (to_string n) (to_string-ne-nil n) (to_string-AllDigits n),
          parse_u32-to_string n h,
          same_self (event_name n),
        )
        refl
