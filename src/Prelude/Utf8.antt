-- ===== src/Prelude/Utf8.antt =====
-- `std::str::from_utf8`: which byte strings are texts.
use Prim.Native.Nat.{ℕ, zero, suc}
use mathlib.Core.Path.{◌≡◌, refl}
use mathlib.Core.Logic.{inl, inr}
use mathlib.Core.Bool.{Bool, true, false, ◌&&◌}
use mathlib.Core.Option.{Option, none, some}
use mathlib.Core.List.{List, [], ◌∷◌, ◌++◌}
use native.Mathlib.Omega.{arith}
use agent_seat_proto.Prelude.Tests.{ltb, leb, ◌==◌, if◌then◌else◌, Option-cases}
use agent_seat_proto.Prelude.Lists.{All}

-- After a first byte: how many bytes follow, and the range of the next one.
abbrev pub Lead : Type 0
Lead = ℕ × ℕ × ℕ

unfoldable pub lead : ℕ → Option Lead
lead c =
    if ltb c 0x80
    then some (0, 0x80, 0xbf)
    else if ltb c 0xc2
    then none
    else if ltb c 0xe0
    then some (1, 0x80, 0xbf)
    else if c == 0xe0
    then some (2, 0xa0, 0xbf)
    else if c == 0xed
    then some (2, 0x80, 0x9f)
    else if ltb c 0xf0
    then some (2, 0x80, 0xbf)
    else if c == 0xf0
    then some (3, 0x90, 0xbf)
    else if ltb c 0xf4
    then some (3, 0x80, 0xbf)
    else if c == 0xf4
    then some (3, 0x80, 0x8f)
    else none

unfoldable pub utf8_from : ℕ → ℕ → ℕ → List ℕ → Bool
utf8_from n low high [] = n == 0
utf8_from zero low high (c ∷ s) = elim (lead c) [
  | none ↦ false
  | some (n, low', high') ↦ utf8_from n low' high' s
]
utf8_from (suc n) low high (c ∷ s) = (leb low c && leb c high) && utf8_from n 0x80 0xbf s

unfoldable pub is_utf8 : List ℕ → Bool
unfolding utf8_from
is_utf8 s = utf8_from 0 0x80 0xbf s

utf8_from-zero : (low high : ℕ) (s : List ℕ) → utf8_from 0 low high s ≡ utf8_from 0 0x80 0xbf s
unfolding utf8_from
utf8_from-zero low high [] = refl
utf8_from-zero low high (c ∷ s) = refl

utf8_from-append :
    (n low high : ℕ) (s t : List ℕ)
    → utf8_from n low high s ≡ true
    → is_utf8 t ≡ true
    → utf8_from n low high (s ++ t) ≡ true
unfolding utf8_from is_utf8
utf8_from-append zero low high [] t h k = rw (utf8_from-zero low high t) k
utf8_from-append (suc n) low high [] t h k = ground arith
utf8_from-append zero low high (c ∷ s) t h k = elim (Option-cases (lead c)) [
  | inl bad ↦ absurd (cc (rw (utf8_from, bad) at h))
  | inr ((n, low', high'), good) ↦
      rw (utf8_from, good) (utf8_from-append n low' high' s t (rw (utf8_from, good) at h) k)
]
utf8_from-append (suc n) low high (c ∷ s) t h k = ground (arith, utf8_from-append n 0x80 0xbf s t)

pub is_utf8-append : (s t : List ℕ) → is_utf8 s ≡ true → is_utf8 t ≡ true → is_utf8 (s ++ t) ≡ true
unfolding is_utf8
is_utf8-append s t h k = utf8_from-append 0 0x80 0xbf s t h k

pub is_utf8-ascii : (s : List ℕ) → All (λ c. ltb c 0x80 ≡ true) s → is_utf8 s ≡ true
unfolding is_utf8 utf8_from lead
is_utf8-ascii [] h = refl
is_utf8-ascii (c ∷ s) h = ground (arith, is_utf8-ascii s h.1)
