-- ===== src/Prelude/Decimal/Laws.antt =====
-- Decimal texts, printed and read.
use Prim.Native.Nat.{ℕ, zero, suc, ◌+◌, ◌/◌, ◌%◌, ◌^◌, ◌≤◌, ◌<◌}
use mathlib.Core.Path.{◌≡◌, refl}
use mathlib.Core.Logic.{◌≢◌}
use mathlib.Core.Bool.{true}
use mathlib.Core.Option.{some}
use mathlib.Core.List.{List, [], ◌∷◌, cons-ne-nil}
use native.Mathlib.Omega.{arith}
use agent_seat_proto.Prelude.Lists.{All}
use agent_seat_proto.Prelude.Decimal.{emit, to_string, is_digit, scan, parse_below, parse_u32}

abbrev pub AllDigits : List ℕ → Type 0
AllDigits = All (λ c. is_digit c ≡ true)

scan_last :
    (limit n : ℕ) (out : List ℕ)
    → n < limit
    → scan limit ((b'0' + n % 10) ∷ out) (n / 10) ≡ scan limit out n
unfolding scan
scan_last limit n out h = ground arith

scan-emit :
    (limit fuel n : ℕ) (out : List ℕ)
    → n ≤ fuel
    → n < limit
    → scan limit (emit fuel n out) 0 ≡ scan limit out n
unfolding emit
scan-emit limit zero n out enough bound = rw (zero_lem n enough) refl
  where
    zero_lem : (n : ℕ) → n ≤ 0 → n ≡ 0
    zero_lem n h = omega arith
scan-emit limit (suc fuel) n out enough bound =
    ground
      (arith, scan_last limit n out bound, scan-emit limit fuel (n / 10) ((b'0' + n % 10) ∷ out))

emit-AllDigits : (fuel n : ℕ) (out : List ℕ) → AllDigits out → AllDigits (emit fuel n out)
unfolding emit
emit-AllDigits zero n out h = h
emit-AllDigits (suc fuel) n out h =
    ground (arith, emit-AllDigits fuel (n / 10) ((b'0' + n % 10) ∷ out))

pub to_string-AllDigits : (n : ℕ) → AllDigits (to_string n)
unfolding to_string
to_string-AllDigits n = ground (arith, emit-AllDigits n n [])

parse-scan :
    (limit : ℕ) (s : List ℕ) {n : ℕ}
    → AllDigits s
    → scan limit s 0 ≡ some n
    → s ≢ []
    → parse_below limit s ≡ some n
unfolding parse_below
parse-scan limit [] h e nonempty = absurd (nonempty refl)
parse-scan limit (c ∷ s) h e nonempty = ground arith

emit-ne-nil : (fuel n : ℕ) (out : List ℕ) → out ≢ [] → emit fuel n out ≢ []
unfolding emit
emit-ne-nil zero n out h = h
emit-ne-nil (suc fuel) n out h = ground (arith, emit-ne-nil fuel (n / 10) ((b'0' + n % 10) ∷ out))

pub to_string-ne-nil : (n : ℕ) → to_string n ≢ []
unfolding to_string emit
to_string-ne-nil zero = cons-ne-nil b'0' []
to_string-ne-nil (suc n) = ground (
  arith,
  emit-ne-nil n (suc n / 10) ((b'0' + suc n % 10) ∷ []) (cons-ne-nil (b'0' + suc n % 10) []),
)

scan-to_string : (limit n : ℕ) → n < limit → scan limit (to_string n) 0 ≡ some n
unfolding to_string scan
scan-to_string limit n h = ground (arith, scan-emit limit n n [] (omega arith) h)

-- A number below the limit is read back from its text.
pub parse_below-to_string : (limit n : ℕ) → n < limit → parse_below limit (to_string n) ≡ some n
parse_below-to_string limit n h =
    parse-scan limit (to_string n) (to_string-AllDigits n) (scan-to_string limit n h)
      (to_string-ne-nil n)

pub parse_u32-to_string : (n : ℕ) → n < 2 ^ 32 → parse_u32 (to_string n) ≡ some n
unfolding parse_u32
parse_u32-to_string n h = parse_below-to_string (2 ^ 32) n h
