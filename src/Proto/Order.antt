-- ===== src/Proto/Order.antt =====
-- `strictly_ordered` and `unique_by` of crates/agent-seat-proto/src/message.rs, over a total order
-- given as an interface. The order that Rust derives for an enum compares the constructors' ranks.
pub mod Laws
use agent_seat_proto.Prelude.{
  ℕ, ◌<◌, ◌≡◌, refl, arith, Bool, true, false, not, ◌&&◌, ltb, ◌==◌, List, [], ◌∷◌, ◌++◌, all,
  ltb→lt, lt→ltb,
}

pub record Ord {ℓ} (A : Type ℓ) : Type ℓ where
  pub less : A → A → Bool
  pub less_irrefl : (a : A) → less a a ≡ false
  pub less_trans : (a b c : A) → less a b ≡ true → less b c ≡ true → less a c ≡ true

pub ltb_irrefl : (n : ℕ) → ltb n n ≡ false
ltb_irrefl n = ground arith

pub ltb_trans : (l m n : ℕ) → ltb l m ≡ true → ltb m n ≡ true → ltb l n ≡ true
ltb_trans l m n p q = ground arith

-- `#[derive(Ord)]` on an enum.
abbrev pub rank_ord {ℓ} : {A : Type ℓ} → (A → ℕ) → Ord A
rank_ord rank = record {
  less = λ a b. ltb (rank a) (rank b);
  less_irrefl = λ a. ltb_irrefl (rank a);
  less_trans = λ a b c. ltb_trans (rank a) (rank b) (rank c);
}

-- `values.windows(2)`
unfoldable pub windows {ℓ} : {A : Type ℓ} → List A → List (A × A)
windows [] = []
windows (x ∷ []) = []
windows (x ∷ y ∷ rest) = (x, y) ∷ windows (y ∷ rest)

unfoldable pub strictly_ordered {ℓ} : {A : Type ℓ} ⦃o : Ord A⦄ → List A → Bool
unfolding windows
strictly_ordered ⦃o⦄ values = all (λ pair. o.less pair.0 pair.1) (windows values)

-- `values[..index].iter().all(|prior| key(prior) != key(value))` at each index; `earlier` is
-- the slice before it. Keys are identities, so numbers.
unique_from {ℓ} : {A : Type ℓ} → (A → ℕ) → List A → List A → Bool
unique_from key earlier [] = true
unique_from key earlier (value ∷ rest) =
    all (λ prior. not (key prior == key value)) earlier
    && unique_from key (earlier ++ value ∷ []) rest

unfoldable pub unique_by {ℓ} : {A : Type ℓ} → (A → ℕ) → List A → Bool
unfolding unique_from
unique_by key values = unique_from key [] values
