-- ===== src/Devices/InputSet/Order.antt =====
-- `validate_order` of crates/agent-seat-activity-broker/src/initial_input_set.rs.
use agent_seat_proto.Prelude.{
  ℕ, ◌<◌, ◌≤◌, ◌≡◌, ◌≢◌, ◌↔◌, refl, arith, true, false, ltb, Option, none, some, List, [], ◌∷◌,
  length, All, ok, Bool-cases, inl, inr, ltb-eq_false,
}
use mathlib.Core.List.{cons-ne-nil}
use agent_seat_proto.Devices.InputSet.{
  InputClassMapping, valid_sysfs_path, is_behind, check_order, validate_order,
  max_input_class_mappings,
}

abbrev pub IsAfter : Option ℕ → ℕ → Type 0
IsAfter none n = Unit
IsAfter (some previous) n = previous < n

-- The numbers ascend strictly, from `previous` on.
abbrev pub IsAscending : Option ℕ → List InputClassMapping → Type 0
IsAscending previous [] = Unit
IsAscending previous (m ∷ ms) =
    IsAfter previous m.event_number × IsAscending (some m.event_number) ms

abbrev pub IsValidPath : InputClassMapping → Type 0
IsValidPath m = valid_sysfs_path m.event_number m.sysfs_path ≡ true

not_behind_iff : (previous : Option ℕ) (n : ℕ) → (is_behind previous n ≡ false) ↔ IsAfter previous n
not_behind_iff none n = (λ _. tt, λ _. refl)
not_behind_iff (some previous) n = ground arith

-- The mappings of a set: between 1 and 256, with valid paths and ascending numbers.
pub record Ordered (ms : List InputClassMapping) : Type 0 where
  pub nonempty : ms ≢ []
  pub few : length ms ≤ max_input_class_mappings
  pub paths : All IsValidPath ms
  pub ascending : IsAscending none ms

check_order_iff :
    (previous : Option ℕ) (ms : List InputClassMapping)
    → (check_order previous ms ≡ ok tt) ↔ (All IsValidPath ms × IsAscending previous ms)
unfolding check_order
check_order_iff previous [] = (λ _. (tt, tt), λ _. refl)
check_order_iff previous (m ∷ ms) =
    let (forward, back) = not_behind_iff previous m.event_number in
    let (admit, admitted) = check_order_iff (some m.event_number) ms in
    (λ h. ground (arith, forward, admit), λ h. ground (arith, back, admitted))

-- `validate_order` admits the ordered sets, and no others.
pub validate_order_iff : (ms : List InputClassMapping) → (validate_order ms ≡ ok tt) ↔ Ordered ms
unfolding validate_order
validate_order_iff [] = (λ h. absurd (cc), λ ordered. absurd (ordered.nonempty refl))
validate_order_iff (m ∷ ms) =
    let (admit, admitted) = check_order_iff none (m ∷ ms) in
    (
      λ h. elim (Bool-cases (ltb max_input_class_mappings (length (m ∷ ms)))) [
        | inl many ↦ absurd (cc (rw many at h))
        | inr few ↦
            let (paths, ascending) = admit (rw few at h) in
            record {
              nonempty = cons-ne-nil m ms;
              few = ground arith;
              paths = paths;
              ascending = ascending;
            }
      ],
      λ ordered.
          rw (ltb-eq_false max_input_class_mappings (length (m ∷ ms)) ordered.few)
            (admitted (ordered.paths, ordered.ascending)),
    )
