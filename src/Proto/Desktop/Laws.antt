-- ===== src/Proto/Desktop/Laws.antt =====
-- Which snapshots of crates/agent-seat-proto/src/message.rs are admitted.
use agent_seat_proto.Prelude.{
  ℕ, ◌≡◌, refl, ◌↔◌, ◌⊎◌, inl, inr, arith, true, false, ◌==◌, ==_iff, Option, none, some, List, [],
  ◌∷◌, any, All, Bool-cases, ok, >>-eq-ok,
}
use agent_seat_proto.Proto.Order.Laws.{Distinct, unique_by_iff}
use agent_seat_proto.Proto.Hello.{Validated}
use agent_seat_proto.Proto.Order.{unique_by}
use agent_seat_proto.Proto.Identity.{ClientId}
use agent_seat_proto.Proto.Desktop.{
  validate_workspace, ClientDescriptor, validate_client, validate_each, DesktopSnapshot,
  is_dangling, validate_snapshot,
}

pub validate_each_iff {ℓ} :
    {A : Type ℓ} (validate : A → Validated) (xs : List A)
    → (validate_each validate xs ≡ ok tt) ↔ All (λ x. validate x ≡ ok tt) xs
unfolding validate_each
validate_each_iff validate [] = (λ _. tt, λ _. refl)
validate_each_iff validate (x ∷ rest) = (
  λ h.
      let parts = >>-eq-ok (validate x) (validate_each validate rest) h in
      (parts.0, (validate_each_iff validate rest).0 parts.1),
  λ h. rw h.0 ((validate_each_iff validate rest).1 h.1),
)

-- Some element of the list satisfies the predicate.
abbrev pub Some {ℓ} : {A : Type ℓ} → (A → Type 0) → List A → Type 0
Some P [] = ⊥
Some P (x ∷ rest) = P x ⊎ Some P rest

any→Some {ℓ} :
    {A : Type ℓ} (key : A → ℕ) (k : ℕ) (xs : List A)
    → any (λ x. key x == k) xs ≡ true
    → Some (λ x. key x ≡ k) xs
any→Some key k [] h = absurd cc
any→Some key k (x ∷ rest) h = elim (Bool-cases (key x == k)) [
  | inl e ↦ inl ((==_iff _ _).0 e)
  | inr e ↦ inr (any→Some key k rest (rw e at h))
]

Some→any {ℓ} :
    {A : Type ℓ} (key : A → ℕ) (k : ℕ) (xs : List A)
    → Some (λ x. key x ≡ k) xs
    → any (λ x. key x == k) xs ≡ true
Some→any key k [] h = absurd h
Some→any key k (x ∷ rest) (inl e) = rw ((==_iff _ _).1 e)
Some→any key k (x ∷ rest) (inr later) = elim (Bool-cases (key x == k)) [
  | inl e ↦ rw e
  | inr e ↦ rw e (Some→any key k rest later)
]

-- The active client, if one is named, is among the clients.
abbrev pub ActivePresent : Option ClientId → List ClientDescriptor → Type 0
ActivePresent none clients = Unit
ActivePresent (some id) clients = Some (λ client. client.id ≡ id) clients

is_dangling_iff :
    (active : Option ClientId) (clients : List ClientDescriptor)
    → (is_dangling active clients ≡ false) ↔ ActivePresent active clients
unfolding is_dangling
is_dangling_iff none clients = (λ _. tt, λ _. refl)
is_dangling_iff (some id) clients = (
  λ h. any→Some (λ client. client.id) id clients (ground arith),
  λ h. rw (Some→any (λ client. client.id) id clients h),
)

-- The snapshot names every client and workspace once, and nothing that it does not list.
pub record IsCoherent (s : DesktopSnapshot) : Type 0 where
  pub workspaces_valid : All (λ w. validate_workspace w ≡ ok tt) s.workspaces.items
  pub clients_valid : All (λ c. validate_client c ≡ ok tt) s.clients.items
  pub workspaces_distinct : Distinct (λ w. w.id) s.workspaces.items
  pub clients_distinct : Distinct (λ c. c.id) s.clients.items
  pub current_present : Some (λ w. w.id ≡ s.current_workspace) s.workspaces.items
  pub active_present : ActivePresent s.active s.clients.items

record Passed (s : DesktopSnapshot) : Type 0 where
  workspaces : validate_each validate_workspace s.workspaces.items ≡ ok tt
  clients : validate_each validate_client s.clients.items ≡ ok tt
  unique_workspaces : unique_by (λ w. w.id) s.workspaces.items ≡ true
  unique_clients : unique_by (λ c. c.id) s.clients.items ≡ true
  current : any (λ w. w.id == s.current_workspace) s.workspaces.items ≡ true
  anchored : is_dangling s.active s.clients.items ≡ false

passed : (s : DesktopSnapshot) → validate_snapshot s ≡ ok tt → Passed s
unfolding validate_snapshot
passed s h = ground arith

admitted : (s : DesktopSnapshot) → Passed s → validate_snapshot s ≡ ok tt
unfolding validate_snapshot
admitted s p = ground arith

-- A snapshot is admitted exactly when its workspaces and clients are valid, no two workspaces and
-- no two clients share an identity, the current workspace is listed, and so is the active client,
-- if any.
pub validate_snapshot_iff : (s : DesktopSnapshot) → (validate_snapshot s ≡ ok tt) ↔ IsCoherent s
validate_snapshot_iff s = (
  λ h.
      let p = passed s h in
      record {
        workspaces_valid = (validate_each_iff validate_workspace _).0 p.workspaces;
        clients_valid = (validate_each_iff validate_client _).0 p.clients;
        workspaces_distinct = (unique_by_iff _ _).0 p.unique_workspaces;
        clients_distinct = (unique_by_iff _ _).0 p.unique_clients;
        current_present = any→Some (λ w. w.id) _ _ p.current;
        active_present = (is_dangling_iff _ _).0 p.anchored;
      },
  λ c. admitted s (record {
    workspaces = (validate_each_iff validate_workspace _).1 c.workspaces_valid;
    clients = (validate_each_iff validate_client _).1 c.clients_valid;
    unique_workspaces = (unique_by_iff _ _).1 c.workspaces_distinct;
    unique_clients = (unique_by_iff _ _).1 c.clients_distinct;
    current = Some→any (λ w. w.id) _ _ c.current_present;
    anchored = (is_dangling_iff _ _).1 c.active_present;
  }),
)
