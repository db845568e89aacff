-- ===== src/Proto/Image/Tail.antt =====
-- The padding at the end of a text, which `valid_png_base64` of
-- crates/agent-seat-proto/src/message.rs reads from there, and the groups, which are read from the
-- start.
use mathlib.Core.List.{reverse, reverse-append}
use agent_seat_proto.Prelude.{
  ℕ, ◌+◌, ◌-◌, ◌%◌, ◌<◌, ◌≤◌, ◌≡◌, refl, ap, arith, Bool, true, false, not, ◌&&◌, ◌||◌, ◌==◌,
  if◌then◌else◌, List, [], ◌∷◌, ◌++◌, all, take, drop, take-length_add, drop-length_add, Bool-cases,
  inl, inr, length, length-append,
}
use agent_seat_proto.Proto.Image.{
  base64_value, is_alphabet, is_pad, count_while, last, has_zero_bits, padding_bits, valid_padding,
}
use agent_seat_proto.Proto.Image.Letters.{
  val, val-lt, base64_value-letter, is_pad-letter, mask3, mask15,
}
use agent_seat_proto.Proto.Image.Groups.{last_group, canonical}

pub record Split (text : List ℕ) : Type 0 where
  pub front : List ℕ
  pub a : ℕ
  pub b : ℕ
  pub c : ℕ
  pub d : ℕ
  pub joined : text ≡ front ++ a ∷ b ∷ c ∷ d ∷ []
  pub whole : length front % 4 ≡ 0

-- A nonempty text of whole groups has a last group.
pub Split-last : (text : List ℕ) → length text % 4 ≡ 0 → 0 < length text → Split text
Split-last [] h n = absurd (omega arith)
Split-last (a ∷ []) h n = absurd (omega arith)
Split-last (a ∷ b ∷ []) h n = absurd (omega arith)
Split-last (a ∷ b ∷ c ∷ []) h n = absurd (omega arith)
Split-last (a ∷ b ∷ c ∷ d ∷ []) h n = record {
  front = [];
  a = a;
  b = b;
  c = c;
  d = d;
  joined = refl;
  whole = refl;
}
Split-last (a ∷ b ∷ c ∷ d ∷ e ∷ rest) h n =
    let s = Split-last (e ∷ rest) (omega arith) (omega arith) in
    record {
      front = a ∷ b ∷ c ∷ d ∷ s.front;
      a = s.a;
      b = s.b;
      c = s.c;
      d = s.d;
      joined = ap (λ t. a ∷ b ∷ c ∷ d ∷ t) s.joined;
      whole = omega (arith, s.whole);
    }

canonical-append :
    (front : List ℕ) (a b c d : ℕ)
    → length front % 4 ≡ 0
    → canonical (front ++ a ∷ b ∷ c ∷ d ∷ []) ≡ (all is_alphabet front && last_group a b c d)
unfolding canonical
canonical-append [] a b c d h = refl
canonical-append (p ∷ []) a b c d h = absurd (omega arith)
canonical-append (p ∷ q ∷ []) a b c d h = absurd (omega arith)
canonical-append (p ∷ q ∷ r ∷ []) a b c d h = absurd (omega arith)
canonical-append (p ∷ q ∷ r ∷ s ∷ []) a b c d h = ground arith
canonical-append (p ∷ q ∷ r ∷ s ∷ e ∷ rest) a b c d h =
    rw (canonical-append (e ∷ rest) a b c d (omega arith)) (ground arith)

all-append : (p : ℕ → Bool) (xs ys : List ℕ) → all p (xs ++ ys) ≡ (all p xs && all p ys)
all-append p [] ys = refl
all-append p (x ∷ xs) ys = rw (all-append p xs ys) (ground arith)

last-append : (xs : List ℕ) (y : ℕ) (ys : List ℕ) → last (xs ++ y ∷ ys) ≡ last (y ∷ ys)
unfolding last
last-append [] y ys = refl
last-append (x ∷ []) y ys = refl
last-append (x ∷ x' ∷ xs) y ys = last-append (x' ∷ xs) y ys

-- The check at a padding that leaves `k` letters of the last part.
valid_padding-append :
    (front ys : List ℕ) (k padding : ℕ)
    → length ys ≡ k + padding
    → padding ≤ 2
    → valid_padding (front ++ ys) padding ≡ (
        if not (all is_alphabet front && all is_alphabet (take k ys))
          || not (all is_pad (drop k ys))
        then false
        else padding_bits padding (front ++ take k ys))
unfolding valid_padding
valid_padding-append front ys k padding h small =
    rw
      (
        room,
        take-length_add front ys k,
        drop-length_add front ys k,
        all-append is_alphabet front (take k ys),
      )
      (ground arith)
  where
    room : length (front ++ ys) - padding ≡ length front + k
    room = omega (arith, length-append front ys)

zero_bits3 : (c : ℕ) → is_alphabet c ≡ true → has_zero_bits 3 (base64_value c) ≡ (val c % 4 == 0)
zero_bits3 c h = rw (base64_value-letter c h, mask3 (val c) (val-lt c))

zero_bits15 : (c : ℕ) → is_alphabet c ≡ true → has_zero_bits 15 (base64_value c) ≡ (val c % 16 == 0)
zero_bits15 c h = rw (base64_value-letter c h, mask15 (val c) (val-lt c))

-- How many pads the reversed text begins with.
abbrev pads : ℕ → ℕ → ℕ → ℕ → List ℕ → ℕ
pads a b c d rest = count_while is_pad (d ∷ c ∷ b ∷ a ∷ rest)

module _ (front : List ℕ) (a b c d : ℕ) (more : List ℕ) where
  -- The verdict on the last group, by the number of its pads.
  check_group : List ℕ → Bool
  check_group rest = valid_padding (front ++ a ∷ b ∷ c ∷ d ∷ []) (pads a b c d rest)

  check_none : is_pad d ≡ false → check_group more ≡ (all is_alphabet front && last_group a b c d)
  unfolding check_group count_while last_group padding_bits
  check_none nd =
      rw (nd, valid_padding-append front (a ∷ b ∷ c ∷ d ∷ []) 4 0 refl (omega arith))
        (ground (arith, is_pad-letter c))

  check_one :
      is_pad d ≡ true
      → is_pad c ≡ false
      → check_group more ≡ (all is_alphabet front && last_group a b c d)
  unfolding check_group count_while last_group padding_bits last
  check_one pd nc =
      rw
        (
          pd,
          nc,
          valid_padding-append front (a ∷ b ∷ c ∷ d ∷ []) 3 1 refl (omega arith),
          last-append front a (b ∷ c ∷ []),
        )
        (ground (arith, zero_bits3 c))

  check_two :
      is_pad d ≡ true
      → is_pad c ≡ true
      → is_pad b ≡ false
      → check_group more ≡ (all is_alphabet front && last_group a b c d)
  unfolding check_group count_while last_group padding_bits last
  check_two pd pc nb =
      rw
        (
          pd,
          pc,
          nb,
          valid_padding-append front (a ∷ b ∷ c ∷ d ∷ []) 2 2 refl (omega arith),
          last-append front a (b ∷ []),
        )
        (ground (arith, zero_bits15 b))

  check_more :
      is_pad d ≡ true
      → is_pad c ≡ true
      → is_pad b ≡ true
      → check_group more ≡ (all is_alphabet front && last_group a b c d)
  unfolding check_group count_while last_group valid_padding
  check_more pd pc pb = rw (pd, pc, pb) (ground (arith, is_pad-letter b))

  check_group_lem : check_group more ≡ (all is_alphabet front && last_group a b c d)
  check_group_lem = elim (Bool-cases (is_pad d)) [
    | inr nd ↦ check_none nd
    | inl pd ↦ elim (Bool-cases (is_pad c)) [
      | inr nc ↦ check_one pd nc
      | inl pc ↦ elim (Bool-cases (is_pad b)) [
        | inr nb ↦ check_two pd pc nb
        | inl pb ↦ check_more pd pc pb
      ]
    ]
  ]

reverse-last :
    (front : List ℕ) (a b c d : ℕ)
    → reverse (front ++ a ∷ b ∷ c ∷ d ∷ []) ≡ d ∷ c ∷ b ∷ a ∷ reverse front
reverse-last front a b c d = reverse-append front (a ∷ b ∷ c ∷ d ∷ [])

-- On a nonempty text of whole groups, the check from the end is the canonical form.
pub valid_padding-canonical :
    (text : List ℕ)
    → length text % 4 ≡ 0
    → 0 < length text
    → valid_padding text (count_while is_pad (reverse text)) ≡ canonical text
valid_padding-canonical text h n =
    let s = Split-last text h n in
    rw
      (
        s.joined,
        reverse-last s.front s.a s.b s.c s.d,
        canonical-append s.front s.a s.b s.c s.d s.whole,
      )
      (unfold check_group in check_group_lem s.front s.a s.b s.c s.d (reverse s.front))
