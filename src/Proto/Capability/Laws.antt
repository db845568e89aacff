-- ===== src/Proto/Capability/Laws.antt =====
-- Equality and membership of the capabilities of crates/agent-seat-proto/src/message.rs.
use mathlib.Core.List.{Mem, mem-cons, mem-cons_self, mem-cons_of_mem, not-mem-nil}
use mathlib.Core.Bool.{Bool-set}
use mathlib.Core.Logic.Or
use agent_seat_proto.Prelude.{
  ℕ, ◌≡◌, refl, ap, ◌∙◌, sym, ◌↔◌, inl, inr, true, ==_iff, List, [], ◌∷◌, Bool-cases, zero, suc,
}
use agent_seat_proto.Proto.Capability.{Capability, capability_rank, same_capability, contains}

nth : List Capability → ℕ → Capability
nth [] n = Capability.observe_structure
nth (c ∷ rest) zero = c
nth (c ∷ rest) (suc n) = nth rest n

every : List Capability
every =
    Capability.observe_structure ∷ Capability.observe_titles ∷ Capability.observe_events
    ∷ Capability.manage_activate ∷ Capability.manage_close ∷ Capability.manage_workspace
    ∷ Capability.manage_state ∷ Capability.manage_geometry ∷ Capability.launch_list
    ∷ Capability.launch_execute ∷ Capability.input_pointer ∷ Capability.input_keyboard
    ∷ Capability.text_transfer ∷ Capability.capture_obscured ∷ []

nth-rank : (c : Capability) → nth every (capability_rank c) ≡ c
unfolding nth every capability_rank
nth-rank Capability.observe_structure = refl
nth-rank _ = refl

-- Two capabilities of one rank are one.
pub same_capability_iff : (a b : Capability) → (same_capability a b ≡ true) ↔ (a ≡ b)
unfolding same_capability
same_capability_iff a b = (
  λ h. sym (nth-rank a) ∙ (ap (nth every) ((==_iff _ _).0 h) ∙ nth-rank b),
  λ e. (==_iff _ _).1 (ap capability_rank e),
)

contains→Mem :
    (granted : List Capability) (c : Capability) → contains granted c ≡ true → Mem c granted
unfolding contains
contains→Mem [] c h = absurd cc
contains→Mem (g ∷ rest) c h = elim (Bool-cases (same_capability c g)) [
  | inl e ↦ rw ((same_capability_iff c g).0 e) mem-cons_self
  | inr e ↦ mem-cons_of_mem g (contains→Mem rest c (rw e at h))
]

contains_here : (c : Capability) (rest : List Capability) → contains (c ∷ rest) c ≡ true
unfolding contains
contains_here c rest = rw ((same_capability_iff c c).1 refl)

contains_later :
    (c g : Capability) (rest : List Capability)
    → contains rest c ≡ true
    → contains (g ∷ rest) c ≡ true
unfolding contains
contains_later c g rest h = elim (Bool-cases (same_capability c g)) [
  | inl e ↦ rw e
  | inr e ↦ rw e h
]

Mem→contains :
    (granted : List Capability) (c : Capability) → Mem c granted → contains granted c ≡ true
Mem→contains [] c m = absurd (not-mem-nil m)
Mem→contains (g ∷ rest) c m =
    Or.elim (Bool-set _ _) (mem-cons.0 m) (λ e. rw e (contains_here g rest))
      (λ later. contains_later c g rest (Mem→contains rest c later))

-- The test for a capability holds exactly when it is in the list.
pub contains_iff :
    (granted : List Capability) (c : Capability) → (contains granted c ≡ true) ↔ Mem c granted
contains_iff granted c = (contains→Mem granted c, Mem→contains granted c)
