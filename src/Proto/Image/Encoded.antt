-- ===== src/Proto/Image/Encoded.antt =====
-- Encoded bytes, group by group, for `valid_png_base64` of crates/agent-seat-proto/src/message.rs.
use agent_seat_proto.Prelude.{
  ℕ, ◌*◌, ◌%◌, ◌<◌, ◌≡◌, refl, arith, true, List, [], ◌∷◌, All, &&_iff, length,
}
use agent_seat_proto.Prelude.Bytes.{IsByte}
use agent_seat_proto.Proto.Image.{is_alphabet}
use agent_seat_proto.Proto.Image.Base64.{base64_char, encode}
use agent_seat_proto.Proto.Image.Letters.{
  val, val-base64_char, is_alphabet-base64_char, is_pad-letter,
}
use agent_seat_proto.Proto.Image.Groups.{canonical, full_group, last_group, letters}

canonical-append4 :
    (p q r s : ℕ) (xs : List ℕ)
    → full_group p q r s ≡ true
    → canonical xs ≡ true
    → canonical (p ∷ q ∷ r ∷ s ∷ xs) ≡ true
unfolding canonical
canonical-append4 p q r s [] h k = absurd cc
canonical-append4 p q r s (e ∷ rest) h k = (&&_iff _ _).1 (h, k)

full_group-char :
    (p q r s : ℕ)
    → p < 64
    → q < 64
    → r < 64
    → s < 64
    → full_group (base64_char p) (base64_char q) (base64_char r) (base64_char s) ≡ true
full_group-char p q r s hp hq hr hs = rw (
  is_alphabet-base64_char p hp,
  is_alphabet-base64_char q hq,
  is_alphabet-base64_char r hr,
  is_alphabet-base64_char s hs,
)

last_full : (a b c d : ℕ) → full_group a b c d ≡ true → last_group a b c d ≡ true
unfolding last_group
last_full a b c d h =
    let (ha, hb, hc, hd) = letters a b c d h in
    rw (ha, hb, is_pad-letter c hc, hc, is_pad-letter d hd, hd)

last_two :
    (a b : ℕ)
    → is_alphabet a ≡ true
    → is_alphabet b ≡ true
    → val b % 16 ≡ 0
    → last_group a b b'=' b'=' ≡ true
unfolding last_group
last_two a b ha hb z = rw (ha, hb, z)

last_one :
    (a b c : ℕ)
    → is_alphabet a ≡ true
    → is_alphabet b ≡ true
    → is_alphabet c ≡ true
    → val c % 4 ≡ 0
    → last_group a b c b'=' ≡ true
unfolding last_group
last_one a b c ha hb hc z = rw (ha, hb, is_pad-letter c hc, hc, z)

val-char : (v : ℕ) → v < 64 → val (base64_char v) ≡ v
val-char v h = rw (val-base64_char v h, val)

-- The encoding of any bytes but none is canonical.
pub canonical-encode :
    (b : ℕ) (bytes : List ℕ) → All IsByte (b ∷ bytes) → canonical (encode (b ∷ bytes)) ≡ true
unfolding canonical encode last_group
canonical-encode b [] h =
    last_two _ _ (is_alphabet-base64_char _ (omega arith)) (is_alphabet-base64_char _ (omega arith))
      (rw (val-char (b % 4 * 16) (omega arith)) (omega arith))
canonical-encode b (c ∷ []) h =
    last_one _ _ _ (is_alphabet-base64_char _ (omega arith))
      (is_alphabet-base64_char _ (omega arith)) (is_alphabet-base64_char _ (omega arith))
      (rw (val-char (c % 16 * 4) (omega arith)) (omega arith))
canonical-encode b (c ∷ d ∷ []) h =
    last_full _ _ _ _
      (full_group-char _ _ _ _ (omega arith) (omega arith) (omega arith) (omega arith))
canonical-encode b (c ∷ d ∷ e ∷ rest) h =
    canonical-append4 _ _ _ _ (encode (e ∷ rest))
      (full_group-char _ _ _ _ (omega arith) (omega arith) (omega arith) (omega arith))
      (canonical-encode e rest h.1.1.1)

pub length-encode : (bytes : List ℕ) → length (encode bytes) % 4 ≡ 0
unfolding encode
length-encode [] = refl
length-encode (a ∷ []) = refl
length-encode (a ∷ b ∷ []) = refl
length-encode (a ∷ b ∷ c ∷ rest) = omega (arith, length-encode rest)
