-- ===== src/Launch/Supervisor/Reaping.antt =====
-- `reap_children` of crates/agent-seat-x11/src/launch.rs: which children stay.
use agent_seat_proto.Prelude.{
  ℕ, zero, suc, ◌+◌, ◌≡◌, ◌≤◌, ◌∙◌, refl, ap, arith, Bool, true, false, not, ◌&&◌, if◌then◌else◌,
  List, [], ◌∷◌, ◌++◌, length, Bool-cases, inl, inr,
}
use agent_seat_proto.Launch.Supervisor.{
  System, onto_last, swap_last, swap_remove, reap_from, reap_children,
}

-- How many of the children satisfy a test.
pub count : (ℕ → Bool) → List ℕ → ℕ
count p [] = 0
count p (c ∷ rest) = let later = count p rest in if p c then suc later else later

count-append : (p : ℕ → Bool) (xs ys : List ℕ) → count p (xs ++ ys) ≡ count p xs + count p ys
unfolding count
count-append p [] ys = omega arith
count-append p (x ∷ xs) ys = ground (arith, count-append p xs ys)

count-onto_last : (p : ℕ → Bool) (x : ℕ) (xs : List ℕ) → count p (onto_last x xs) ≡ count p (x ∷ xs)
unfolding count
count-onto_last p x [] = refl
count-onto_last p x (y ∷ xs) = ground arith

count-swap_last : (p : ℕ → Bool) (x : ℕ) (xs : List ℕ) → count p (swap_last x xs) ≡ count p (x ∷ xs)
unfolding count swap_last
count-swap_last p x [] = refl
count-swap_last p x (c ∷ rest) =
    count-onto_last p x (swap_last c rest)
    ∙ ap (λ n. if p x then suc n else n) (count-swap_last p c rest)

count-swap_remove : (p : ℕ → Bool) (xs : List ℕ) → count p (swap_remove xs) ≡ count p xs
count-swap_remove p [] = refl
count-swap_remove p (c ∷ rest) = count-swap_last p c rest

length-count : (xs : List ℕ) → length xs ≡ count (λ _. true) xs
unfolding count
length-count [] = refl
length-count (x ∷ xs) = ap suc (length-count xs)

length-swap_remove : (xs : List ℕ) → length (swap_remove xs) ≡ length xs
length-swap_remove xs =
    omega (arith, length-count (swap_remove xs), count-swap_remove (λ _. true) xs, length-count xs)

abbrev pub runs : System → (ℕ → Bool) → ℕ → Bool
runs system p c = p c && not (system.has_exited c)

count_none : (system : System) (p : ℕ → Bool) → count (runs system p) [] ≡ 0
unfolding count
count_none system p = refl

count-exited :
    (system : System) (p : ℕ → Bool) (c : ℕ) (rest : List ℕ)
    → system.has_exited c ≡ true
    → count (runs system p) rest ≡ count (runs system p) (c ∷ rest)
unfolding count
count-exited system p c rest exited = ground arith

count-moved :
    (system : System) (p : ℕ → Bool) (kept : List ℕ) (c : ℕ) (rest : List ℕ)
    → system.has_exited c ≡ false
    → count p (kept ++ c ∷ []) + count (runs system p) rest
      ≡ count p kept + count (runs system p) (c ∷ rest)
unfolding count
count-moved system p kept c rest running = ground (arith, count-append p kept (c ∷ []))

count_before : (p : ℕ → Bool) (n : ℕ) → count p [] + n ≡ n
unfolding count
count_before p n = omega arith

count-reap_from :
    (system : System) (p : ℕ → Bool) (rounds : ℕ) (kept rest : List ℕ)
    → length rest ≤ rounds
    → count p (reap_from system rounds kept rest) ≡ count p kept + count (runs system p) rest
unfolding reap_from
count-reap_from system p zero kept [] enough =
    omega (arith, count-append p kept [], count_before p 0, count_none system p)
count-reap_from system p zero kept (c ∷ rest) enough = absurd (omega arith)
count-reap_from system p (suc rounds) kept [] enough = omega (arith, count_none system p)
count-reap_from system p (suc rounds) kept (c ∷ rest) enough =
    elim (Bool-cases (system.has_exited c)) [
      | inl exited ↦ rw exited (
          count-reap_from system p rounds kept (swap_remove rest)
            (omega (arith, length-swap_remove rest))
          ∙ ap (λ n. count p kept + n)
              (count-swap_remove (runs system p) rest ∙ count-exited system p c rest exited))
      | inr running ↦ rw running (
          count-reap_from system p rounds (kept ++ c ∷ []) rest (omega arith)
          ∙ count-moved system p kept c rest running)
    ]

-- The children that stay are those that have not exited: any test holds of as many of them as it
-- held of children that run.
pub reap_children-Running :
    (system : System) (p : ℕ → Bool) (children : List ℕ)
    → count p (reap_children system children) ≡ count (runs system p) children
unfolding reap_children
reap_children-Running system p children =
    count-reap_from system p (length children) [] children (omega arith)
    ∙ count_before p (count (runs system p) children)

count-runs :
    (system : System) (xs : List ℕ) → count (runs system (λ _. true)) xs ≤ count (λ _. true) xs
unfolding count
count-runs system [] = omega arith
count-runs system (x ∷ xs) = ground (arith, count-runs system xs)

pub length-reap_children :
    (system : System) (xs : List ℕ) → length (reap_children system xs) ≤ length xs
length-reap_children system xs = omega (
  arith,
  length-count (reap_children system xs),
  reap_children-Running system (λ _. true) xs,
  count-runs system xs,
  length-count xs,
)
