-- ===== src/Proto/Bounded.antt =====
-- crates/agent-seat-proto/src/bounded.rs. A wrapper is a record around the value, with its bound
-- as a parameter; `new` is the only way the source builds one. Serde's sequence is the list of
-- what `next_element` will return, each element with its result when skipped as `IgnoredAny`.
pub mod Laws
use agent_seat_proto.Prelude.{
  ℕ, zero, suc, ◌-◌, String, Option, none, some, List, [], ◌∷◌, ◌++◌, Bool, false, ltb,
  if◌then◌else◌, length, Result, ok, err, ◌>>=◌, map_err,
}
use agent_seat_proto.Prelude.Text.{Str, str_len}

pub record BoundError : Type 0 where
  pub limit : ℕ
  pub actual : ℕ

pub record BoundedText (max : ℕ) : Type 0 where
  pub text : Str

pub record BoundedList {ℓ} (A : Type ℓ) (max : ℕ) : Type ℓ where
  pub items : List A

unfoldable pub new_text : (max : ℕ) → Str → Result BoundError (BoundedText max)
new_text max value =
    if ltb max (str_len value)
    then err (record { limit = max; actual = str_len value })
    else ok (record { text = value })

module _ {ℓ} {A : Type ℓ} where
  unfoldable pub new_list : (max : ℕ) → List A → Result BoundError (BoundedList A max)
  new_list max values =
      if ltb max (length values)
      then err (record { limit = max; actual = length values })
      else ok (record { items = values })

-- One element as the deserializer presents it.
pub record Element {ℓ κ} (E : Type κ) (A : Type ℓ) : Type (ℓ ⊔ κ) where
  pub parsed : Result E A
  pub skipped : Result E (Unit {0})

pub record SeqAccess {ℓ κ} (E : Type κ) (A : Type ℓ) : Type (ℓ ⊔ κ) where
  pub size_hint : Option ℕ
  pub elements : List (Element E A)

-- `sequence.size_hint().is_some_and(|size| size > MAX)`
abbrev pub hint_exceeds : ℕ → Option ℕ → Bool
hint_exceeds max none = false
hint_exceeds max (some size) = ltb max size

-- `E::custom(error)` of a text visitor, where the error is displayed by `shown`.
pub visit_str {κ} :
    {E : Type κ} (custom : BoundError → E) (max : ℕ) → Str → Result E (BoundedText max)
visit_str custom max value = map_err custom (new_text max value)

module _ {ℓ κ} {E : Type κ} {A : Type ℓ} (custom : String → E) (max : ℕ) where
  -- The look-ahead after `max` values: one more element is refused.
  unfoldable pub finish_seq : List A → List (Element E A) → Result E (BoundedList A max)
  finish_seq values [] = ok (record { items = values })
  finish_seq values (e ∷ rest) = do _ ← e.skipped; err (custom "list exceeds its item bound")

  -- The loop `while values.len() < MAX`; `room` is `MAX - values.len()`.
  unfoldable pub fill_seq : (room : ℕ) → List A → List (Element E A) → Result E (BoundedList A max)
  unfolding finish_seq
  fill_seq zero values elements = finish_seq values elements
  fill_seq (suc room) values [] = ok (record { items = values })
  fill_seq (suc room) values (e ∷ rest) = elim e.parsed [
    | ok value ↦ fill_seq room (values ++ value ∷ []) rest
    | err error ↦ err error
  ]

  unfoldable pub visit_seq : SeqAccess E A → Result E (BoundedList A max)
  unfolding fill_seq
  visit_seq sequence =
      if hint_exceeds max sequence.size_hint
      then err (custom "list exceeds its item bound")
      else fill_seq max [] sequence.elements
