-- ===== src/Prelude/Text.antt =====
-- Rust `str`: a list of Unicode scalar values, with its UTF-8 bytes and its length in bytes.
use Prim.Native.Nat.{ℕ, ◌+◌, ◌/◌, ◌%◌}
use Prim.Native.Char.{code}
use Prim.Native.String.{String}
use mathlib.Core.Path.{◌≡◌, refl}
use mathlib.Core.Logic.{◌↔◌}
use mathlib.Core.Bool.{Bool, true, false, ◌&&◌}
use mathlib.Core.List.{List, [], ◌∷◌, ◌++◌}
use native.Mathlib.Omega.{arith}
use agent_seat_proto.Prelude.Tests.{ltb, ◌==◌, if◌then◌else◌}
use agent_seat_proto.Prelude.Lists.{length, length-append}

abbrev pub Str : Type 0
Str = List ℕ

-- The scalar values of a literal.
abbrev pub chars : String → Str
chars String.[] = []
chars (String.◌∷◌ c s) = code c ∷ chars s

pub utf8_char : ℕ → List ℕ
utf8_char c =
    if ltb c 0x80
    then c ∷ []
    else if ltb c 0x800
    then (0xc0 + c / 64) ∷ (0x80 + c % 64) ∷ []
    else if ltb c 0x1_0000
    then (0xe0 + c / 4096) ∷ (0x80 + c / 64 % 64) ∷ (0x80 + c % 64) ∷ []
    else (0xf0 + c / 262144) ∷ (0x80 + c / 4096 % 64) ∷ (0x80 + c / 64 % 64) ∷ (0x80 + c % 64) ∷ []

-- `str::as_bytes`
unfoldable pub as_bytes : Str → List ℕ
unfolding utf8_char
as_bytes [] = []
as_bytes (c ∷ s) = utf8_char c ++ as_bytes s

-- `str::len`, the number of bytes.
unfoldable pub str_len : Str → ℕ
unfolding as_bytes
str_len s = length (as_bytes s)

pub str_len-append : (s t : Str) → str_len (s ++ t) ≡ str_len s + str_len t
unfolding str_len
str_len-append [] t = omega arith
str_len-append (c ∷ s) t = omega (
  arith,
  length-append (utf8_char c) (as_bytes (s ++ t)),
  length-append (utf8_char c) (as_bytes s),
  str_len-append s t,
)

-- Equality of texts or of byte strings.
unfoldable pub same : List ℕ → List ℕ → Bool
same [] [] = true
same [] (y ∷ ys) = false
same (x ∷ xs) [] = false
same (x ∷ xs) (y ∷ ys) = x == y && same xs ys

pub same_self : (xs : List ℕ) → same xs xs ≡ true
unfolding same
same_self [] = refl
same_self (x ∷ xs) = ground (arith, same_self xs)

pub same→eq : (xs ys : List ℕ) → same xs ys ≡ true → xs ≡ ys
unfolding same
same→eq [] [] h = refl
same→eq [] (y ∷ ys) h = absurd cc
same→eq (x ∷ xs) [] h = absurd cc
same→eq (x ∷ xs) (y ∷ ys) h = ground (arith, same→eq xs ys)

pub same_iff : (xs ys : List ℕ) → (same xs ys ≡ true) ↔ (xs ≡ ys)
same_iff xs ys = (same→eq xs ys, λ e. rw e (same_self ys))
