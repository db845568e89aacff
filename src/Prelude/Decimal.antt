-- ===== src/Prelude/Decimal.antt =====
-- Unsigned integers in decimal: `to_string` and `str::parse`. A text is its bytes.
pub mod Laws
use Prim.Native.Nat.{ℕ, zero, suc, ◌+◌, ◌-◌, ◌*◌, ◌/◌, ◌%◌, ◌^◌}
use mathlib.Core.Bool.{Bool, true, false, not, ◌&&◌}
use mathlib.Core.Option.{Option, none, some}
use mathlib.Core.List.{List, [], ◌∷◌}
use agent_seat_proto.Prelude.Tests.{ltb, leb, ◌==◌, if◌then◌else◌}

-- The digits of `n` before `out`; the first argument bounds `n`, so it is fuel enough.
unfoldable pub emit : ℕ → ℕ → List ℕ → List ℕ
emit zero n out = out
emit (suc fuel) n out =
    let rest = emit fuel (n / 10) ((b'0' + n % 10) ∷ out) in if n == 0 then out else rest

unfoldable pub to_string : ℕ → List ℕ
unfolding emit
to_string n = if n == 0 then b'0' ∷ [] else emit n n []

abbrev pub is_digit : ℕ → Bool
is_digit c = leb b'0' c && leb c b'9'

-- The digits of a text, for a type whose values are below `limit`.
unfoldable pub scan : ℕ → List ℕ → ℕ → Option ℕ
scan limit [] n = some n
scan limit (c ∷ s) n =
    let next = n * 10 + (c - b'0') in
    let rest = scan limit s next in
    if not (is_digit c) then none else if leb limit next then none else rest

abbrev pub scan_some : ℕ → List ℕ → Option ℕ
scan_some limit [] = none
scan_some limit (c ∷ s) = scan limit (c ∷ s) 0

-- A sign `+` is taken, the empty text and a lone sign are not.
unfoldable pub parse_below : ℕ → List ℕ → Option ℕ
unfolding scan
parse_below limit [] = none
parse_below limit (c ∷ s) = if c == b'+' then scan_some limit s else scan limit (c ∷ s) 0

unfoldable pub parse_u32 : List ℕ → Option ℕ
unfolding parse_below
parse_u32 = parse_below (2 ^ 32)

-- `usize` has 64 bits.
unfoldable pub parse_usize : List ℕ → Option ℕ
unfolding parse_below
parse_usize = parse_below (2 ^ 64)
