-- ===== src/Prelude/Split.antt =====
-- Splitting and joining of byte strings at one byte, as `str` does it.
use Prim.Native.Nat.{ℕ}
use mathlib.Core.Path.{◌≡◌, refl, ap, ◌∙◌}
use mathlib.Core.Logic.{◌≢◌, inl, inr}
use mathlib.Core.Bool.{Bool, true, false}
use mathlib.Core.Option.{Option, none, some}
use mathlib.Core.List.{List, [], ◌∷◌, ◌++◌, cons-ne-nil, append_assoc}
use native.Mathlib.Omega.{arith}
use agent_seat_proto.Prelude.Utf8.{is_utf8, is_utf8-append, is_utf8-ascii}
use agent_seat_proto.Prelude.Tests.{ltb, ◌==◌, if◌then◌else◌, Bool-cases, Option-cases, ==_iff}
use agent_seat_proto.Prelude.Lists.{All}

abbrev pub Lacks : ℕ → List ℕ → Type 0
Lacks b = All (λ c. (c == b) ≡ false)

abbrev pub onto_first : ℕ → List (List ℕ) → List (List ℕ)
onto_first c [] = (c ∷ []) ∷ []
onto_first c (f ∷ fs) = (c ∷ f) ∷ fs

-- `str::split`
unfoldable pub split : ℕ → List ℕ → List (List ℕ)
split sep [] = [] ∷ []
split sep (c ∷ rest) =
    let parts = split sep rest in if c == sep then [] ∷ parts else onto_first c parts

-- `str::split_terminator`: a last part that is empty is left out.
unfoldable pub split_terminator : ℕ → List ℕ → List (List ℕ)
split_terminator sep [] = []
split_terminator sep (c ∷ rest) =
    let parts = split_terminator sep rest in if c == sep then [] ∷ parts else onto_first c parts

-- `str::split_once`
abbrev pub onto_left : ℕ → Option (List ℕ × List ℕ) → Option (List ℕ × List ℕ)
onto_left c none = none
onto_left c (some (left, right)) = some (c ∷ left, right)

unfoldable pub split_once : ℕ → List ℕ → Option (List ℕ × List ℕ)
split_once sep [] = none
split_once sep (c ∷ rest) =
    let parts = split_once sep rest in if c == sep then some ([], rest) else onto_left c parts

-- `[&str]::join`
unfoldable pub join : ℕ → List (List ℕ) → List ℕ
join sep [] = []
join sep (p ∷ []) = p
join sep (p ∷ q ∷ rest) = p ++ sep ∷ join sep (q ∷ rest)

-- Every part with the separator behind it.
unfoldable pub terminated : ℕ → List (List ℕ) → List ℕ
terminated sep [] = []
terminated sep (p ∷ rest) = p ++ sep ∷ terminated sep rest

-- `str::ends_with` of one byte.
unfoldable pub ends_with : ℕ → List ℕ → Bool
ends_with b [] = false
ends_with b (c ∷ []) = c == b
ends_with b (c ∷ d ∷ rest) = ends_with b (d ∷ rest)

-- `str::strip_prefix`
unfoldable pub strip_prefix : List ℕ → List ℕ → Option (List ℕ)
strip_prefix [] s = some s
strip_prefix (p ∷ ps) [] = none
strip_prefix (p ∷ ps) (c ∷ s) = let rest = strip_prefix ps s in if p == c then rest else none

pub split-part :
    (sep : ℕ) (p rest : List ℕ) → Lacks sep p → split sep (p ++ sep ∷ rest) ≡ p ∷ split sep rest
unfolding split
split-part sep [] rest h = ground arith
split-part sep (c ∷ p) rest h = ground (arith, split-part sep p rest h.1)

pub split-last : (sep : ℕ) (p : List ℕ) → Lacks sep p → split sep p ≡ p ∷ []
unfolding split
split-last sep [] h = refl
split-last sep (c ∷ p) h = ground (arith, split-last sep p h.1)

pub split-join :
    (sep : ℕ) (p : List ℕ) (ps : List (List ℕ))
    → All (Lacks sep) (p ∷ ps)
    → split sep (join sep (p ∷ ps)) ≡ p ∷ ps
unfolding join
split-join sep p [] h = split-last sep p h.0
split-join sep p (q ∷ ps) h =
    split-part sep p (join sep (q ∷ ps)) h.0 ∙ ap (◌∷◌ p) (split-join sep q ps h.1)

split_terminator-part :
    (sep : ℕ) (p rest : List ℕ)
    → Lacks sep p
    → split_terminator sep (p ++ sep ∷ rest) ≡ p ∷ split_terminator sep rest
unfolding split_terminator
split_terminator-part sep [] rest h = ground arith
split_terminator-part sep (c ∷ p) rest h = ground (arith, split_terminator-part sep p rest h.1)

pub split_terminator-terminated :
    (sep : ℕ) (ps : List (List ℕ))
    → All (Lacks sep) ps
    → split_terminator sep (terminated sep ps) ≡ ps
unfolding terminated
split_terminator-terminated sep [] h = unfold split_terminator in refl
split_terminator-terminated sep (p ∷ ps) h =
    split_terminator-part sep p (terminated sep ps) h.0
    ∙ ap (◌∷◌ p) (split_terminator-terminated sep ps h.1)

terminated-onto_first :
    (sep c : ℕ) (fs : List (List ℕ))
    → fs ≢ []
    → terminated sep (onto_first c fs) ≡ c ∷ terminated sep fs
unfolding terminated
terminated-onto_first sep c [] h = absurd (h refl)
terminated-onto_first sep c (f ∷ fs) h = refl

onto_first-ne-nil : (c : ℕ) (fs : List (List ℕ)) → onto_first c fs ≢ []
onto_first-ne-nil c [] = cons-ne-nil (c ∷ []) []
onto_first-ne-nil c (f ∷ fs) = cons-ne-nil (c ∷ f) fs

split_terminator-ne-nil : (sep c : ℕ) (s : List ℕ) → split_terminator sep (c ∷ s) ≢ []
unfolding split_terminator
split_terminator-ne-nil sep c s =
    ground
      (arith, onto_first-ne-nil c (split_terminator sep s), cons-ne-nil [] (split_terminator sep s))

pub terminated-split_terminator :
    (sep : ℕ) (s : List ℕ) → ends_with sep s ≡ true → terminated sep (split_terminator sep s) ≡ s
unfolding ends_with split_terminator terminated
terminated-split_terminator sep [] h = cc
terminated-split_terminator sep (c ∷ []) h = ground arith
terminated-split_terminator sep (c ∷ d ∷ rest) h =
    let later = terminated-split_terminator sep (d ∷ rest) h in
    let parts = split_terminator sep (d ∷ rest) in
    ground (arith, later, terminated-onto_first sep c parts (split_terminator-ne-nil sep d rest))

pub split_once-part :
    (sep : ℕ) (p rest : List ℕ) → Lacks sep p → split_once sep (p ++ sep ∷ rest) ≡ some (p, rest)
unfolding split_once
split_once-part sep [] rest h = ground arith
split_once-part sep (c ∷ p) rest h = ground (arith, split_once-part sep p rest h.1)

pub split_once_sound :
    (sep : ℕ) (s left right : List ℕ)
    → split_once sep s ≡ some (left, right)
    → s ≡ left ++ sep ∷ right
unfolding split_once
split_once_sound sep [] left right h = absurd (cc)
split_once_sound sep (c ∷ rest) left right h = elim (Bool-cases (c == sep)) [
  | inl here ↦ cc (rw here at h, (==_iff c sep).0 here)
  | inr more ↦ elim (Option-cases (split_once sep rest)) [
    | inl missing ↦ absurd (cc (rw (more, missing) at h))
    | inr ((l, r), found) ↦ cc (rw (more, found) at h, split_once_sound sep rest l r found)
  ]
]

pub strip_prefix-append : (p s : List ℕ) → strip_prefix p (p ++ s) ≡ some s
unfolding strip_prefix
strip_prefix-append [] s = refl
strip_prefix-append (c ∷ p) s = ground (arith, strip_prefix-append p s)

pub strip_prefix_sound : (p s rest : List ℕ) → strip_prefix p s ≡ some rest → s ≡ p ++ rest
unfolding strip_prefix
strip_prefix_sound [] s rest h = cc
strip_prefix_sound (c ∷ p) [] rest h = absurd (cc)
strip_prefix_sound (c ∷ p) (d ∷ s) rest h = ground (arith, strip_prefix_sound p s rest)

-- One part after another, each with the separator behind it.
pub regroup :
    (sep : ℕ) (output text rest : List ℕ)
    → (output ++ (text ++ sep ∷ [])) ++ rest ≡ output ++ (text ++ sep ∷ rest)
regroup sep output text rest =
    append_assoc output (text ++ sep ∷ []) rest
    ∙ ap (λ t. output ++ t) (append_assoc text (sep ∷ []) rest)

append-ends_with : (b : ℕ) (s : List ℕ) → ends_with b (s ++ b ∷ []) ≡ true
unfolding ends_with
append-ends_with b [] = ground arith
append-ends_with b (c ∷ []) = ground arith
append-ends_with b (c ∷ d ∷ s) = append-ends_with b (d ∷ s)

onto-ends_with :
    (b : ℕ) (s t : List ℕ) → t ≢ [] → ends_with b t ≡ true → ends_with b (s ++ t) ≡ true
unfolding ends_with
onto-ends_with b s [] nonempty h = absurd (nonempty refl)
onto-ends_with b [] (d ∷ t) nonempty h = h
onto-ends_with b (c ∷ []) (d ∷ t) nonempty h = h
onto-ends_with b (c ∷ e ∷ s) (d ∷ t) nonempty h = onto-ends_with b (e ∷ s) (d ∷ t) nonempty h

append-cons-ne-nil : (s : List ℕ) (c : ℕ) (t : List ℕ) → s ++ c ∷ t ≢ []
append-cons-ne-nil [] c t = cons-ne-nil c t
append-cons-ne-nil (d ∷ s) c t = cons-ne-nil d (s ++ c ∷ t)

pub terminated-ends_with :
    (sep : ℕ) (p : List ℕ) (ps : List (List ℕ)) → ends_with sep (terminated sep (p ∷ ps)) ≡ true
unfolding terminated
terminated-ends_with sep p [] = append-ends_with sep p
terminated-ends_with sep p (q ∷ ps) = rw (← append_assoc p (sep ∷ []) (terminated sep (q ∷ ps))) (
    onto-ends_with sep (p ++ sep ∷ []) (terminated sep (q ∷ ps))
      (append-cons-ne-nil q sep (terminated sep ps)) (terminated-ends_with sep q ps))

pub terminated_utf8 :
    (sep : ℕ)
    → ltb sep 0x80 ≡ true
    → (ps : List (List ℕ)) → All (λ p. is_utf8 p ≡ true) ps
    → is_utf8 (terminated sep ps) ≡ true
unfolding terminated
terminated_utf8 sep ascii [] h = unfold is_utf8 in refl
terminated_utf8 sep ascii (p ∷ ps) h = is_utf8-append p (sep ∷ terminated sep ps) h.0 (
    is_utf8-append (sep ∷ []) (terminated sep ps) (is_utf8-ascii (sep ∷ []) (ascii, tt))
      (terminated_utf8 sep ascii ps h.1))
