-- ===== src/Proto/Bounded/Laws.antt =====
-- The constructors and the sequence visitor of crates/agent-seat-proto/src/bounded.rs.
use mathlib.Core.List.{append_assoc, append-nil}
use agent_seat_proto.Prelude.{
  ℕ, zero, suc, ◌+◌, ◌≤◌, ◌≡◌, ◌↔◌, String, none, List, [], ◌∷◌, ◌++◌, map, arith, leb,
  if◌then◌else◌, length, length-append, ok, err, is_ok, true, Result-cases, Bool-cases, inl, inr,
}
use agent_seat_proto.Prelude.Text.{Str, str_len}
use agent_seat_proto.Proto.Bounded.{
  BoundedList, new_text, Element, SeqAccess, hint_exceeds, fill_seq, visit_seq,
}

-- A text is admitted exactly when its bytes, not its characters, fit the bound.
pub new_text-bound :
    (max : ℕ) (value : Str) → (is_ok (new_text max value) ≡ true) ↔ (str_len value ≤ max)
unfolding new_text
new_text-bound max value = (λ h. ground arith, λ h. ground arith)

module _ {ℓ κ} {E : Type κ} {A : Type ℓ} (custom : String → E) (max : ℕ) where
  -- Elements that parse, and that can be skipped.
  abbrev pub sound : List A → List (Element E A)
  sound = map λ value. record { parsed = ok value; skipped = ok tt }

  fill_seq-sound :
      (room : ℕ) (done values : List A)
      → fill_seq custom max room done (sound values) ≡ (
          if leb (length values) room
          then ok (record { items = done ++ values })
          else err (custom "list exceeds its item bound"))
  unfolding fill_seq
  fill_seq-sound zero done [] = rw (append-nil done)
  fill_seq-sound zero done (v ∷ vs) = ground arith
  fill_seq-sound (suc room) done [] = rw (append-nil done) (ground arith)
  fill_seq-sound (suc room) done (v ∷ vs) =
      rw (fill_seq-sound room (done ++ v ∷ []) vs, append_assoc) (ground arith)

  -- Of a sequence without a size hint whose elements parse, the list visitor keeps all in order
  -- when at most `max` arrive, and refuses all when more do.
  pub visit_seq-sound :
      (values : List A)
      → visit_seq custom max (record { size_hint = none; elements = sound values }) ≡ (
          if leb (length values) max
          then ok (record { items = values })
          else err (custom "list exceeds its item bound"))
  unfolding visit_seq
  visit_seq-sound values = fill_seq-sound max [] values

  fill_seq-bound :
      (room : ℕ) (done : List A) (elements : List (Element E A)) {l : BoundedList A max}
      → length done + room ≤ max
      → fill_seq custom max room done elements ≡ ok l
      → length l.items ≤ max
  unfolding fill_seq
  fill_seq-bound zero done [] h e = ground arith
  fill_seq-bound zero done (x ∷ rest) h e = ground arith
  fill_seq-bound (suc room) done [] h e = ground arith
  fill_seq-bound (suc room) done (x ∷ rest) h e = elim (Result-cases x.parsed) [
    | inl (v, p) ↦
        fill_seq-bound room (done ++ v ∷ []) rest (omega (arith, length-append done (v ∷ [])))
          (rw (p, fill_seq) at e)
    | inr (x', p) ↦ ground arith
  ]

  -- Whatever the deserializer presents, a list that the visitor accepts holds at most `max`
  -- items.
  pub visit_seq-bound :
      (sequence : SeqAccess E A) {l : BoundedList A max}
      → visit_seq custom max sequence ≡ ok l
      → length l.items ≤ max
  unfolding visit_seq
  visit_seq-bound sequence e = elim (Bool-cases (hint_exceeds max sequence.size_hint)) [
    | inl big ↦ absurd (cc (rw big at e))
    | inr fits ↦ fill_seq-bound max [] sequence.elements (omega arith) (rw fits at e)
  ]
