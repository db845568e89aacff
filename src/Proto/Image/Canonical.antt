-- ===== src/Proto/Image/Canonical.antt =====
-- `valid_png_base64` of crates/agent-seat-proto/src/message.rs beside the encoding of RFC 4648.
use mathlib.Core.List.{reverse}
use agent_seat_proto.Prelude.{
  ℕ, ◌/◌, ◌%◌, ◌<◌, ◌≤◌, ◌≡◌, refl, sym, ap, ◌∙◌, arith, true, List, [], ◌∷◌, ◌++◌, take, drop,
  take-append-drop, All-append, All, &&_iff, Bool-cases, inl, inr, length,
}
use agent_seat_proto.Prelude.Bytes.{IsByte}
use agent_seat_proto.Prelude.Text.{chars, same, same→eq}
use agent_seat_proto.Proto.Image.{
  is_alphabet, is_pad, count_while, valid_padding, starts_with, valid_png_base64, base64_value,
}
use agent_seat_proto.Proto.Image.Base64.{encode, base64_char}
use agent_seat_proto.Proto.Image.Letters.{val, val-lt, is_pad-letter}
use agent_seat_proto.Proto.Image.Groups.{
  full_group, canonical, decode_group, decode, decode-IsByte, encode-decode,
}
use agent_seat_proto.Proto.Image.Encoded.{canonical-encode, length-encode}
use agent_seat_proto.Proto.Image.Tail.{valid_padding-canonical}

-- The eight bytes that begin every PNG file.
abbrev pub signature : List ℕ
signature = 137 ∷ 80 ∷ 78 ∷ 71 ∷ 13 ∷ 10 ∷ 26 ∷ 10 ∷ []

-- The next byte, if any, has two leading zero bits: the eleventh letter of the prefix holds them.
abbrev pub StartsLow : List ℕ → Type 0
StartsLow [] = Unit
StartsLow (b ∷ rest) = b < 64

abbrev pub magic : List ℕ
magic = chars "iVBORw0KGgo"

record Checked (text : List ℕ) : Type 0 where
  long : 12 ≤ length text
  groups : length text % 4 ≡ 0
  magical : starts_with text magic ≡ true
  padded : valid_padding text (count_while is_pad (reverse text)) ≡ true

valid→Checked : (text : List ℕ) → valid_png_base64 text ≡ true → Checked text
unfolding valid_png_base64
valid→Checked text h = ground arith

Checked→valid : (text : List ℕ) → Checked text → valid_png_base64 text ≡ true
unfolding valid_png_base64
Checked→valid text c = ground arith

abbrev Payload : List ℕ → List ℕ → Type 0
Payload decoded rest = All IsByte rest × StartsLow rest × (decoded ≡ 26 ∷ 10 ∷ rest)

-- The third group, `Ggo` and one more byte, with what follows.
third_group :
    (x : ℕ) (text : List ℕ)
    → canonical (b'G' ∷ b'g' ∷ b'o' ∷ x ∷ text) ≡ true
    → (rest : List ℕ) × Payload (decode (b'G' ∷ b'g' ∷ b'o' ∷ x ∷ text)) rest
unfolding decode decode_group canonical base64_value
third_group x [] h = elim (Bool-cases (is_pad x)) [
  | inl pad ↦ ([], (tt, tt, rw pad))
  | inr letter ↦ (val x ∷ [], ((omega (arith, val-lt x), tt), val-lt x, rw letter (ground arith)))
]
third_group x (e ∷ more) h =
    let full = (&&_iff _ _).0 h in
    (
      val x ∷ decode (e ∷ more),
      (
        (omega (arith, val-lt x), decode-IsByte (e ∷ more)),
        val-lt x,
        rw (is_pad-letter x (last_letter full.0)) (ground arith),
      ),
    )
  where
    last_letter : full_group b'G' b'g' b'o' x ≡ true → is_alphabet x ≡ true
    last_letter l = ground arith

abbrev pub Encodes : List ℕ → List ℕ → Type 0
Encodes text rest = All IsByte rest × StartsLow rest × (text ≡ encode (signature ++ rest))

sound_at :
    (x : ℕ) (text : List ℕ)
    → canonical (magic ++ x ∷ text) ≡ true
    → (rest : List ℕ) × Encodes (magic ++ x ∷ text) rest
unfolding decode decode_group canonical base64_value
sound_at x text h =
    let tail = (&&_iff _ _).0 ((&&_iff _ _).0 h).1 in
    let t = third_group x text tail.1 in
    (
      t.0,
      (
        t.1.0,
        t.1.1,
        sym (encode-decode (magic ++ x ∷ text) h)
            ∙ ap (λ r. encode (137 ∷ 80 ∷ 78 ∷ 71 ∷ 13 ∷ 10 ∷ r)) t.1.2,
      ),
    )

-- A text that the capture check admits is the padded base64 encoding of a byte string that begins
-- with the PNG signature, with the two highest bits of the next byte, if there is one, zero.
pub valid_png_base64-Encodes :
    (text : List ℕ) → valid_png_base64 text ≡ true → (rest : List ℕ) × Encodes text rest
unfolding starts_with
valid_png_base64-Encodes text h = go (drop 11 text) split
  where
    c : Checked text
    c = valid→Checked text h

    canon : canonical text ≡ true
    canon = sym (valid_padding-canonical text c.groups (omega (arith, c.long))) ∙ c.padded

    split : text ≡ magic ++ drop 11 text
    split =
        sym (take-append-drop 11 text)
        ∙ ap (λ t. t ++ drop 11 text) (same→eq (take 11 text) magic c.magical)

    go : (r : List ℕ) → text ≡ magic ++ r → (rest : List ℕ) × Encodes text rest
    go [] e = absurd (omega (arith, c.long, ap length e))
    go (x ∷ more) e = rw e (sound_at x more (rw e at canon))

long_text : (rest : List ℕ) → 12 ≤ length (encode (signature ++ rest))
unfolding encode
long_text [] = omega arith
long_text (b ∷ rest) = omega arith

magic_text :
    (rest : List ℕ) → StartsLow rest → starts_with (encode (signature ++ rest)) magic ≡ true
unfolding encode base64_char starts_with same
magic_text [] low = refl
magic_text (b ∷ rest) low = rw high_bits
  where
    high_bits : b / 64 ≡ 0
    high_bits = omega arith

-- The capture check admits the padded base64 encoding of the PNG signature with any bytes after
-- it, if the first of them is below 64.
pub Encodes-valid_png_base64 :
    (rest : List ℕ)
    → All IsByte rest
    → StartsLow rest
    → valid_png_base64 (encode (signature ++ rest)) ≡ true
Encodes-valid_png_base64 rest bytes low = Checked→valid text (record {
  long = long_text rest;
  groups = length-encode (signature ++ rest);
  magical = magic_text rest low;
  padded =
      valid_padding-canonical text (length-encode (signature ++ rest))
        (omega (arith, long_text rest))
      ∙ canonical-encode 137 _ (All-append IsByte signature rest (omega arith) bytes);
})
  where
    text : List ℕ
    text = encode (signature ++ rest)
