-- ===== src/Proto/Image/Groups.antt =====
-- Groups of four letters, for `valid_png_base64` of crates/agent-seat-proto/src/message.rs:
-- decoding, and the canonical form.
use mathlib.Core.List.{append-nil}
use agent_seat_proto.Prelude.{
  ℕ, ◌+◌, ◌*◌, ◌/◌, ◌%◌, ◌<◌, ◌≡◌, arith, Bool, true, false, ◌&&◌, ◌==◌, if◌then◌else◌, List, [],
  ◌∷◌, ◌++◌, All, All-append, &&_iff, Bool-cases, inl, inr,
}
use agent_seat_proto.Prelude.Bytes.{IsByte}
use agent_seat_proto.Proto.Image.{is_alphabet, is_pad}
use agent_seat_proto.Proto.Image.Base64.{encode}
use agent_seat_proto.Proto.Image.Letters.{val, val-lt, base64_char-val, is_pad-letter}

unfoldable pub decode_group : ℕ → ℕ → ℕ → ℕ → List ℕ
decode_group a b c d =
    if is_pad c
    then (val a * 4 + val b / 16) ∷ []
    else if is_pad d
    then (val a * 4 + val b / 16) ∷ (val b % 16 * 16 + val c / 4) ∷ []
    else (val a * 4 + val b / 16) ∷ (val b % 16 * 16 + val c / 4) ∷ (val c % 4 * 64 + val d) ∷ []

unfoldable pub decode : List ℕ → List ℕ
decode (a ∷ b ∷ c ∷ d ∷ rest) = decode_group a b c d ++ decode rest
decode _ = []

abbrev pub full_group : ℕ → ℕ → ℕ → ℕ → Bool
full_group a b c d = is_alphabet a && (is_alphabet b && (is_alphabet c && is_alphabet d))

-- The last group may be padded, over zero bits.
unfoldable pub last_group : ℕ → ℕ → ℕ → ℕ → Bool
last_group a b c d =
    is_alphabet a
    && (is_alphabet b
        && (if is_pad c
            then is_pad d && val b % 16 == 0
            else is_alphabet c && (if is_pad d then val c % 4 == 0 else is_alphabet d)))

unfoldable pub canonical : List ℕ → Bool
canonical (a ∷ b ∷ c ∷ d ∷ []) = last_group a b c d
canonical (a ∷ b ∷ c ∷ d ∷ e ∷ rest) = full_group a b c d && canonical (e ∷ rest)
canonical _ = false

regroup :
    (p q r s : ℕ)
    → p < 64
    → q < 64
    → r < 64
    → s < 64
    → ((p * 4 + q / 16) / 4 ≡ p)
      × ((p * 4 + q / 16) % 4 * 16 + (q % 16 * 16 + r / 4) / 16 ≡ q)
      × ((q % 16 * 16 + r / 4) % 16 * 4 + (r % 4 * 64 + s) / 64 ≡ r)
      × ((r % 4 * 64 + s) % 64 ≡ s)
regroup p q r s hp hq hr hs = omega arith

pub letters :
    (a b c d : ℕ)
    → full_group a b c d ≡ true
    → (is_alphabet a ≡ true)
      × (is_alphabet b ≡ true)
      × (is_alphabet c ≡ true)
      × (is_alphabet d ≡ true)
letters a b c d h = ground arith

decode_group-full :
    (a b c d : ℕ)
    → full_group a b c d ≡ true
    → decode_group a b c d
      ≡ (val a * 4 + val b / 16) ∷ (val b % 16 * 16 + val c / 4) ∷ (val c % 4 * 64 + val d) ∷ []
unfolding decode_group
decode_group-full a b c d h =
    let (ha, hb, hc, hd) = letters a b c d h in rw (is_pad-letter c hc, is_pad-letter d hd)

-- Decoding a full group and encoding it again gives it back, whatever follows.
pub encode-full :
    (a b c d : ℕ) (more : List ℕ)
    → full_group a b c d ≡ true
    → encode (decode_group a b c d ++ more) ≡ a ∷ b ∷ c ∷ d ∷ encode more
unfolding encode
encode-full a b c d more h =
    let (ha, hb, hc, hd) = letters a b c d h in
    let (ea, eb, ec, ed) =
      regroup (val a) (val b) (val c) (val d) (val-lt a) (val-lt b) (val-lt c) (val-lt d) in
    rw (
      decode_group-full a b c d h,
      ea,
      eb,
      ec,
      ed,
      base64_char-val a ha,
      base64_char-val b hb,
      base64_char-val c hc,
      base64_char-val d hd,
    )

two_pads :
    (a b c d : ℕ)
    → is_pad c ≡ true
    → last_group a b c d ≡ true
    → (is_alphabet a ≡ true) × (is_alphabet b ≡ true) × (c ≡ b'=') × (d ≡ b'=') × (val b % 16 ≡ 0)
unfolding last_group
two_pads a b c d pc h = ground arith

one_pad :
    (a b c d : ℕ)
    → is_pad c ≡ false
    → is_pad d ≡ true
    → last_group a b c d ≡ true
    → (is_alphabet a ≡ true)
      × (is_alphabet b ≡ true)
      × (is_alphabet c ≡ true)
      × (d ≡ b'=')
      × (val c % 4 ≡ 0)
unfolding last_group
one_pad a b c d nc pd h = ground arith

no_pad :
    (a b c d : ℕ)
    → is_pad c ≡ false
    → is_pad d ≡ false
    → last_group a b c d ≡ true
    → full_group a b c d ≡ true
unfolding last_group
no_pad a b c d nc nd h = ground arith

regroup_two :
    (p q : ℕ)
    → p < 64
    → q < 64
    → q % 16 ≡ 0
    → ((p * 4 + q / 16) / 4 ≡ p) × ((p * 4 + q / 16) % 4 * 16 ≡ q)
regroup_two p q hp hq hz = omega arith

regroup_one :
    (p q r : ℕ)
    → p < 64
    → q < 64
    → r < 64
    → r % 4 ≡ 0
    → ((p * 4 + q / 16) / 4 ≡ p)
      × ((p * 4 + q / 16) % 4 * 16 + (q % 16 * 16 + r / 4) / 16 ≡ q)
      × ((q % 16 * 16 + r / 4) % 16 * 4 ≡ r)
regroup_one p q r hp hq hr hz = omega arith

-- So does a last group, padded or not.
pub encode-last :
    (a b c d : ℕ) → last_group a b c d ≡ true → encode (decode_group a b c d) ≡ a ∷ b ∷ c ∷ d ∷ []
unfolding encode decode_group
encode-last a b c d h = elim (Bool-cases (is_pad c)) [
  | inl pc ↦
      let (ha, hb, ec, ed, z) = two_pads a b c d pc h in
      let (ea, eb) = regroup_two (val a) (val b) (val-lt a) (val-lt b) z in
      rw (decode_group, pc, ea, eb, base64_char-val a ha, base64_char-val b hb, ec, ed)
  | inr nc ↦ elim (Bool-cases (is_pad d)) [
    | inl pd ↦
        let (ha, hb, hc, ed, z) = one_pad a b c d nc pd h in
        let (ea, eb, ec) = regroup_one (val a) (val b) (val c) (val-lt a) (val-lt b) (val-lt c) z in
        rw (
          decode_group,
          nc,
          pd,
          ea,
          eb,
          ec,
          base64_char-val a ha,
          base64_char-val b hb,
          base64_char-val c hc,
          ed,
        )
    | inr nd ↦ rw append-nil at (encode-full a b c d [] (no_pad a b c d nc nd h))
  ]
]

-- A canonical text is the encoding of what it decodes to.
pub encode-decode : (text : List ℕ) → canonical text ≡ true → encode (decode text) ≡ text
unfolding canonical decode
encode-decode (a ∷ b ∷ c ∷ d ∷ []) h = rw append-nil (encode-last a b c d h)
encode-decode (a ∷ b ∷ c ∷ d ∷ e ∷ rest) h =
    let (front, back) = (&&_iff _ _).0 h in
    rw (encode-full a b c d (decode (e ∷ rest)) front, encode-decode (e ∷ rest) back)
encode-decode [] h = absurd cc
encode-decode (a ∷ []) h = absurd cc
encode-decode (a ∷ b ∷ []) h = absurd cc
encode-decode (a ∷ b ∷ c ∷ []) h = absurd cc

decode_group-IsByte : (a b c d : ℕ) → All IsByte (decode_group a b c d)
unfolding decode_group
decode_group-IsByte a b c d = ground (arith, val-lt a, val-lt b, val-lt c, val-lt d)

pub decode-IsByte : (text : List ℕ) → All IsByte (decode text)
unfolding decode
decode-IsByte (a ∷ b ∷ c ∷ d ∷ rest) =
    All-append IsByte (decode_group a b c d) (decode rest) (decode_group-IsByte a b c d)
      (decode-IsByte rest)
decode-IsByte _ = tt
