-- ===== src/Proto/Advertisement/Laws.antt =====
-- The texts of the property of crates/agent-seat-proto/src/advertisement.rs.
use agent_seat_proto.Prelude.{
  ℕ, ◌+◌, ◌≤◌, ◌≡◌, refl, sym, ap, ◌∙◌, arith, Bool, false, ltb, ◌==◌, ==_iff, Bool-cases, inl, inr,
  ltb-eq_false, List, [], ◌∷◌, ◌++◌, any, ok, >>-eq-ok,
}
use agent_seat_proto.Prelude.Text.{Str, same, same_self, same→eq, str_len, str_len-append}
use agent_seat_proto.Proto.Limits.{protocol_name}
use agent_seat_proto.Proto.Advertisement.{
  Advertisement, separator, revision_text, onto_first, split, validate_socket, parse_fields, parse,
  new, encode,
}

abbrev has_separator : Str → Bool
has_separator = any λ c. c == separator

split-field :
    (s : Str) (rest : Str)
    → has_separator s ≡ false
    → split (s ++ separator ∷ rest) ≡ s ∷ split rest
unfolding split
split-field [] rest h = refl
split-field (c ∷ s) rest h = elim (Bool-cases (c == separator)) [
  | inl here ↦ absurd (ground arith)
  | inr plain ↦ rw (plain, split-field s rest (rw plain at h))
]

split-plain : (s : Str) → has_separator s ≡ false → split s ≡ s ∷ []
unfolding split
split-plain [] h = refl
split-plain (c ∷ s) h = elim (Bool-cases (c == separator)) [
  | inl here ↦ absurd (ground arith)
  | inr plain ↦ rw (plain, split-plain s (rw plain at h))
]

join : List Str → Str
join [] = []
join (f ∷ []) = f
join (f ∷ g ∷ rest) = f ++ separator ∷ join (g ∷ rest)

join-onto : (c : ℕ) (fs : List Str) → join (onto_first c fs) ≡ c ∷ join fs
unfolding join
join-onto c [] = refl
join-onto c (f ∷ []) = refl
join-onto c (f ∷ g ∷ rest) = refl

onto_first-cons : (c : ℕ) (fs : List Str) → (g : Str) × (gs : List Str) × (onto_first c fs ≡ g ∷ gs)
onto_first-cons c [] = (c ∷ [], [], refl)
onto_first-cons c (f ∷ fs) = (c ∷ f, fs, refl)

split-cons : (s : Str) → (f : Str) × (fs : List Str) × (split s ≡ f ∷ fs)
unfolding split
split-cons [] = ([], [], refl)
split-cons (c ∷ s) = elim (Bool-cases (c == separator)) [
  | inl here ↦ rw here ([], split s, refl)
  | inr plain ↦ rw plain (onto_first-cons c (split s))
]

join-nil : (s : Str) → join ([] ∷ split s) ≡ separator ∷ join (split s)
unfolding join
join-nil s = let (f, fs, e) = split-cons s in rw e

join-split : (s : Str) → join (split s) ≡ s
unfolding split
join-split [] = unfold join in refl
join-split (c ∷ s) = elim (Bool-cases (c == separator)) [
  | inl here ↦ rw here (
      join-nil s
      ∙ (ap (λ t. separator ∷ t) (join-split s)
          ∙ ap (λ d. d ∷ s) (sym ((==_iff c separator).0 here))))
  | inr plain ↦ rw plain (join-onto c (split s) ∙ ap (◌∷◌ c) (join-split s))
]

-- An admitted socket path has no NUL and at most 107 bytes.
socket_facts : (s : Str) → validate_socket s ≡ ok tt → (has_separator s ≡ false) × (str_len s ≤ 107)
unfolding validate_socket
socket_facts s h = ground arith

prefix_len : str_len (protocol_name ++ separator ∷ (revision_text ++ separator ∷ [])) ≡ 13
unfolding str_len
prefix_len = refl

str_len-encode : (s : Str) → str_len (encode (record { socket = s })) ≡ 13 + str_len s
unfolding encode
str_len-encode s =
    str_len-append (protocol_name ++ separator ∷ (revision_text ++ separator ∷ [])) s
    ∙ ap (λ n. n + str_len s) prefix_len

split-encode :
    (s : Str)
    → has_separator s ≡ false
    → split (encode (record { socket = s })) ≡ protocol_name ∷ revision_text ∷ s ∷ []
unfolding encode
split-encode s h =
    split-field protocol_name (revision_text ++ separator ∷ s) refl
    ∙ ap (◌∷◌ protocol_name)
        (split-field revision_text s refl ∙ ap (◌∷◌ revision_text) (split-plain s h))

new-socket :
    (s : Str) (a : Advertisement)
    → new s ≡ ok a
    → (validate_socket s ≡ ok tt) × (a ≡ record { socket = s })
unfolding new
new-socket s a h = let (v, rest) = >>-eq-ok (validate_socket s) _ h in (v, ground arith)

-- An advertisement that `new` builds is read back by `parse` from its encoding.
pub parse-encode : (s : Str) (a : Advertisement) → new s ≡ ok a → parse (encode a) ≡ ok a
unfolding parse parse_fields
parse-encode s a h =
    let (v, e) = new-socket s a h in
    let (plain, short) = socket_facts s v in
    rw (
      e,
      str_len-encode s,
      ltb-eq_false 256 (13 + str_len s) (omega arith),
      split-encode s plain,
      same_self protocol_name,
      same_self revision_text,
      v,
    )

three_fields :
    (f r s : Str) (a : Advertisement)
    → parse_fields (f ∷ r ∷ s ∷ []) ≡ ok a
    → (f ∷ r ∷ s ∷ [] ≡ protocol_name ∷ revision_text ∷ a.socket ∷ [])
      × (validate_socket a.socket ≡ ok tt)
unfolding parse_fields
three_fields f r s a h = elim (Bool-cases (same f protocol_name)) [
  | inr other ↦ absurd (cc (rw (other, parse_fields) at h))
  | inl name ↦ elim (Bool-cases (same r revision_text)) [
    | inr other ↦ absurd (cc (rw (name, other, parse_fields) at h))
    | inl rev ↦
        let (v, e) =
          >>-eq-ok (validate_socket s) (ok (record { socket = s }))
            (rw (name, rev, parse_fields) at h) in
        (cc (same→eq f protocol_name name, same→eq r revision_text rev, e), cc (v, e))
  ]
]

field_facts :
    (fs : List Str) (a : Advertisement)
    → parse_fields fs ≡ ok a
    → (fs ≡ protocol_name ∷ revision_text ∷ a.socket ∷ []) × (validate_socket a.socket ≡ ok tt)
unfolding parse_fields
field_facts [] a h = absurd cc
field_facts (f ∷ []) a h = absurd (ground arith)
field_facts (f ∷ r ∷ []) a h = absurd (ground arith)
field_facts (f ∷ r ∷ s ∷ []) a h = three_fields f r s a h
field_facts (f ∷ r ∷ s ∷ x ∷ more) a h = absurd (ground arith)

name_len : str_len protocol_name ≡ 10
unfolding str_len
name_len = refl

revision_len : str_len revision_text ≡ 1
unfolding str_len
revision_len = refl

new_of_valid : (a : Advertisement) → validate_socket a.socket ≡ ok tt → new a.socket ≡ ok a
unfolding new
new_of_valid a v = rw (
  v,
  name_len,
  revision_len,
  ltb-eq_false 256 (10 + 1 + 1 + 1 + str_len a.socket) (omega (arith, (socket_facts a.socket v).1)),
)

-- A text that `parse` reads as an advertisement is the encoding of it, and `new` admits its
-- socket.
pub encode-parse :
    (value : Str) (a : Advertisement)
    → parse value ≡ ok a
    → (value ≡ encode a) × (new a.socket ≡ ok a)
unfolding parse
encode-parse value a h = elim (Bool-cases (ltb 256 (str_len value))) [
  | inl long ↦ absurd (cc (rw (long, parse) at h))
  | inr short ↦
      let (e, v) = field_facts (split value) a (rw (short, parse) at h) in
      (sym (join-split value) ∙ (ap join e ∙ unfold join encode in refl), new_of_valid a v)
]
