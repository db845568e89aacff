-- ===== src/Proto/Order/Laws.antt =====
-- `strictly_ordered` and `unique_by` of crates/agent-seat-proto/src/message.rs for pairs at any
-- distance.
use agent_seat_proto.Prelude.{
  ℕ, ◌≡◌, refl, ◌↔◌, ◌≢◌, arith, true, not, ◌==◌, ==_iff, List, [], ◌∷◌, ◌++◌, all, All, all_iff,
  All-append, All-append_left, All-append_right, All-imp, &&_iff,
}
use agent_seat_proto.Proto.Order.{Ord, strictly_ordered, unique_from, unique_by}

module _ {ℓ} {A : Type ℓ} ⦃o : Ord A⦄ where
  -- Every element is below all later ones.
  abbrev pub Ascending : List A → Type 0
  Ascending [] = Unit
  Ascending (x ∷ rest) = All (λ y. o.less x y ≡ true) rest × Ascending rest

  below-All :
      (x y : A) (rest : List A)
      → o.less x y ≡ true
      → All (λ z. o.less y z ≡ true) rest
      → All (λ z. o.less x z ≡ true) rest
  below-All x y [] h a = tt
  below-All x y (z ∷ rest) h a = (o.less_trans x y z h a.0, below-All x y rest h a.1)

  strictly_ordered→Ascending : (values : List A) → strictly_ordered values ≡ true → Ascending values
  unfolding strictly_ordered
  strictly_ordered→Ascending [] h = tt
  strictly_ordered→Ascending (x ∷ []) h = (tt, tt)
  strictly_ordered→Ascending (x ∷ y ∷ rest) h =
      let parts = (&&_iff _ _).0 h in
      let later = strictly_ordered→Ascending (y ∷ rest) parts.1 in
      ((parts.0, below-All x y rest parts.0 later.0), later)

  Ascending→strictly_ordered : (values : List A) → Ascending values → strictly_ordered values ≡ true
  unfolding strictly_ordered
  Ascending→strictly_ordered [] h = refl
  Ascending→strictly_ordered (x ∷ []) h = refl
  Ascending→strictly_ordered (x ∷ y ∷ rest) h =
      (&&_iff _ _).1 (h.0.0, Ascending→strictly_ordered (y ∷ rest) h.1)

  -- For any order, the check of neighbours holds exactly when every element is below every later
  -- one.
  pub strictly_ordered_iff : (values : List A) → (strictly_ordered values ≡ true) ↔ Ascending values
  strictly_ordered_iff values =
      (strictly_ordered→Ascending values, Ascending→strictly_ordered values)

module _ {ℓ} {A : Type ℓ} (key : A → ℕ) where
  -- No two elements share a key.
  abbrev pub Distinct : List A → Type 0
  Distinct [] = Unit
  Distinct (x ∷ rest) = All (λ y. key x ≢ key y) rest × Distinct rest

  -- Nothing in the second list has a key of the first.
  abbrev Fresh : List A → List A → Type 0
  Fresh earlier = All λ y. All (λ prior. key prior ≢ key y) earlier

  differs_iff : (y prior : A) → (not (key prior == key y) ≡ true) ↔ (key prior ≢ key y)
  differs_iff y prior = (λ h e. ground (arith, ==_iff (key prior) (key y)), λ h. ground arith)

  new_iff :
      (y : A) (earlier : List A)
      → (all (λ prior. not (key prior == key y)) earlier ≡ true)
        ↔ All (λ prior. key prior ≢ key y) earlier
  new_iff y = all_iff _ _ (differs_iff y)

  unique_from→Fresh :
      (earlier values : List A)
      → unique_from key earlier values ≡ true
      → Fresh earlier values × Distinct values
  unfolding unique_from
  unique_from→Fresh earlier [] h = (tt, tt)
  unique_from→Fresh earlier (v ∷ rest) h =
      let parts = (&&_iff _ _).0 h in
      let later = unique_from→Fresh (earlier ++ v ∷ []) rest parts.1 in
      (
        (
          (new_iff v earlier).0 parts.0,
          All-imp (λ y a. All-append_left _ earlier (v ∷ []) a) rest later.0,
        ),
        (All-imp (λ y a. (All-append_right _ earlier (v ∷ []) a).0) rest later.0, later.1),
      )

  extend-Fresh :
      (v : A) (earlier rest : List A)
      → Fresh earlier rest
      → All (λ y. key v ≢ key y) rest
      → Fresh (earlier ++ v ∷ []) rest
  extend-Fresh v earlier [] f d = tt
  extend-Fresh v earlier (y ∷ rest) f d =
      (All-append _ earlier (v ∷ []) f.0 (d.0, tt), extend-Fresh v earlier rest f.1 d.1)

  Fresh→unique_from :
      (earlier values : List A)
      → Fresh earlier values
      → Distinct values
      → unique_from key earlier values ≡ true
  unfolding unique_from
  Fresh→unique_from earlier [] f d = refl
  Fresh→unique_from earlier (v ∷ rest) f d = (&&_iff _ _).1 (
    (new_iff v earlier).1 f.0,
    Fresh→unique_from (earlier ++ v ∷ []) rest (extend-Fresh v earlier rest f.1 d.0) d.1,
  )

  Fresh-nil : (values : List A) → Fresh [] values
  Fresh-nil [] = tt
  Fresh-nil (v ∷ rest) = (tt, Fresh-nil rest)

  -- The check of every element against those before it holds exactly when no two elements share a
  -- key.
  pub unique_by_iff : (values : List A) → (unique_by key values ≡ true) ↔ Distinct values
  unfolding unique_by
  unique_by_iff values =
      (λ h. (unique_from→Fresh [] values h).1, Fresh→unique_from [] values (Fresh-nil values))
