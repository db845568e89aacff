-- ===== src/Prelude/Bytes.antt =====
-- Fixed-width integers as bytes: `to_be_bytes`, `from_be_bytes`, `to_le_bytes`, `from_le_bytes`.
use Prim.Native.Nat.{ℕ, zero, suc, ◌+◌, ◌*◌, ◌/◌, ◌%◌, ◌^◌, ◌<◌}
use mathlib.Core.Path.{◌≡◌, refl, ap, ◌∙◌}
use mathlib.Core.List.{List, [], ◌∷◌, reverse, reverse-reverse}
use native.Mathlib.Nat.{pow-suc}
use native.Mathlib.Omega.{arith}
use agent_seat_proto.Prelude.Lists.{length, All, All-reverse, length-reverse}

abbrev pub IsByte : ℕ → Type 0
IsByte b = b < 256

-- The `w` bytes of `n`, the lowest first.
unfoldable pub to_le_bytes : ℕ → ℕ → List ℕ
to_le_bytes zero n = []
to_le_bytes (suc w) n = n % 256 ∷ to_le_bytes w (n / 256)

unfoldable pub from_le_bytes : List ℕ → ℕ
from_le_bytes [] = 0
from_le_bytes (b ∷ bs) = b + 256 * from_le_bytes bs

pub length-to_le_bytes : (w n : ℕ) → length (to_le_bytes w n) ≡ w
unfolding to_le_bytes
length-to_le_bytes zero n = refl
length-to_le_bytes (suc w) n = ap suc (length-to_le_bytes w (n / 256))

pub from_le_bytes-to_le_bytes : (w n : ℕ) → n < 256 ^ w → from_le_bytes (to_le_bytes w n) ≡ n
unfolding to_le_bytes from_le_bytes
from_le_bytes-to_le_bytes zero n h = omega arith
from_le_bytes-to_le_bytes (suc w) n h =
    omega (arith, from_le_bytes-to_le_bytes w (n / 256) (omega (arith, pow-suc 256 w)))

low_byte : (b n : ℕ) → b < 256 → (b + 256 * n) % 256 ≡ b
low_byte b n h = omega arith

high_bytes : (b n : ℕ) → b < 256 → (b + 256 * n) / 256 ≡ n
high_bytes b n h = omega arith

pub to_le_bytes-from_le_bytes :
    (bs : List ℕ) → All IsByte bs → to_le_bytes (length bs) (from_le_bytes bs) ≡ bs
unfolding to_le_bytes from_le_bytes
to_le_bytes-from_le_bytes [] h = refl
to_le_bytes-from_le_bytes (b ∷ bs) h =
    rw (low_byte b (from_le_bytes bs) h.0, high_bytes b (from_le_bytes bs) h.0)
      (ap (◌∷◌ b) (to_le_bytes-from_le_bytes bs h.1))

-- Big-endian: the same bytes, the highest first.
unfoldable pub to_be_bytes : ℕ → ℕ → List ℕ
to_be_bytes w n = reverse (to_le_bytes w n)

unfoldable pub from_be_bytes : List ℕ → ℕ
from_be_bytes bs = from_le_bytes (reverse bs)

pub length-to_be_bytes : (w n : ℕ) → length (to_be_bytes w n) ≡ w
unfolding to_be_bytes
length-to_be_bytes w n = length-reverse (to_le_bytes w n) ∙ length-to_le_bytes w n

pub from_be_bytes-to_be_bytes : (w n : ℕ) → n < 256 ^ w → from_be_bytes (to_be_bytes w n) ≡ n
unfolding to_be_bytes from_be_bytes
from_be_bytes-to_be_bytes w n h =
    rw (reverse-reverse (to_le_bytes w n)) (from_le_bytes-to_le_bytes w n h)

pub to_be_bytes-from_be_bytes :
    (bs : List ℕ) → All IsByte bs → to_be_bytes (length bs) (from_be_bytes bs) ≡ bs
unfolding to_be_bytes from_be_bytes
to_be_bytes-from_be_bytes bs h =
    rw (← length-reverse bs)
      (rw (to_le_bytes-from_le_bytes (reverse bs) (All-reverse IsByte bs h)) (reverse-reverse bs))

-- `bytes[i]` of an array that has `i`; past its end, which no caller reads, 0.
unfoldable pub byte_at : ℕ → List ℕ → ℕ
byte_at i [] = 0
byte_at zero (b ∷ bs) = b
byte_at (suc i) (b ∷ bs) = byte_at i bs

-- The bytes of a field as wide as the list.
pub to_be_bytes-field :
    (w : ℕ) (bs : List ℕ) → length bs ≡ w → All IsByte bs → to_be_bytes w (from_be_bytes bs) ≡ bs
to_be_bytes-field w bs len bytes = rw (← len) (to_be_bytes-from_be_bytes bs bytes)

pub from_le_bytes_bound : (bs : List ℕ) → All IsByte bs → from_le_bytes bs < 256 ^ length bs
unfolding from_le_bytes
from_le_bytes_bound [] h = omega arith
from_le_bytes_bound (b ∷ bs) h =
    let low = h.0 in omega (arith, pow-suc 256 (length bs), from_le_bytes_bound bs h.1)

-- The number in a field of `w` bytes.
pub from_be_bytes_bound :
    (w : ℕ) (bs : List ℕ) → length bs ≡ w → All IsByte bs → from_be_bytes bs < 256 ^ w
unfolding from_be_bytes
from_be_bytes_bound w bs len bytes =
    rw (← len, ← length-reverse bs) (from_le_bytes_bound (reverse bs) (All-reverse IsByte bs bytes))
