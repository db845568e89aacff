-- ===== src/Broker/Runtime/Startup/Arguments.antt =====
-- The command line, `Arguments::parse` of crates/agent-seat-activity-broker/src/main.rs.
use agent_seat_proto.Prelude.{
  ℕ, ◌≡◌, ◌↔◌, refl, ap, ◌∙◌, arith, true, none, some, List, [], ◌∷◌, ok, >>=-eq-ok, Bool-cases,
  Option-cases, inl, inr,
}
use agent_seat_proto.Prelude.Text.{same, same→eq, chars}
use agent_seat_proto.Prelude.Utf8.{is_utf8}
use agent_seat_proto.Prelude.Decimal.{parse_u32}
use agent_seat_proto.Broker.Runtime.Startup.{parse_argument, parse_from, parse}

parse_argument_iff :
    (value : List ℕ) (uid : ℕ)
    → (parse_argument value ≡ ok uid) ↔ ((is_utf8 value ≡ true) × (parse_u32 value ≡ some uid))
unfolding parse_argument
parse_argument_iff value uid = (
  λ h. elim (Bool-cases (is_utf8 value)) [
    | inr off ↦ absurd (cc (rw off at h))
    | inl text ↦ elim (Option-cases (parse_u32 value)) [
      | inl missing ↦ absurd (cc (rw (text, missing) at h))
      | inr (found, parsed) ↦ (text, parsed ∙ cc (rw (text, parsed) at h))
    ]
  ],
  λ h. rw (h.0, h.1) refl,
)

-- Once the uid is there, nothing more is taken.
parse_from-some :
    (uid found : ℕ) (rest : List (List ℕ))
    → parse_from (some uid) rest ≡ ok found
    → (rest ≡ []) × (uid ≡ found)
unfolding parse_from
parse_from-some uid found [] h = (refl, cc)
parse_from-some uid found (argument ∷ []) h = ground arith
parse_from-some uid found (argument ∷ value ∷ rest) h = ground arith

parse_from_sound :
    (uid : ℕ) (arguments : List (List ℕ))
    → parse_from none arguments ≡ ok uid
    → (value : List ℕ) × (arguments ≡ chars "--uid" ∷ value ∷ [])
      × (is_utf8 value ≡ true)
      × (parse_u32 value ≡ some uid)
unfolding parse_from
parse_from_sound uid [] h = absurd (cc)
parse_from_sound uid (argument ∷ []) h = absurd (ground arith)
parse_from_sound uid (argument ∷ value ∷ rest) h =
    elim (Bool-cases (same argument (chars "--uid"))) [
      | inr off ↦ absurd (cc (rw off at h))
      | inl on ↦
          let (found, parsed, more) = >>=-eq-ok (parse_argument value) _ (rw on at h) in
          let (empty, equal) = parse_from-some found uid rest more in
          let (text, number) = (parse_argument_iff value found).0 parsed in
          (value, cc (same→eq argument (chars "--uid") on, empty), text, cc (number, equal))
    ]

parse_from_complete :
    (value : List ℕ) (uid : ℕ)
    → parse_argument value ≡ ok uid
    → parse_from none (chars "--uid" ∷ value ∷ []) ≡ ok uid
unfolding parse_from same
parse_from_complete value uid h = rw h refl

-- The broker takes exactly the command line `--uid` with a text that is a `u32`.
pub parse_iff :
    (arguments : List (List ℕ)) (uid : ℕ)
    → (parse arguments ≡ ok uid) ↔ (
        (value : List ℕ) × (arguments ≡ chars "--uid" ∷ value ∷ [])
        × (is_utf8 value ≡ true)
        × (parse_u32 value ≡ some uid))
unfolding parse
parse_iff arguments uid = (
  parse_from_sound uid arguments,
  λ h.
      ap (parse_from none) h.1
      ∙ parse_from_complete h.0 uid ((parse_argument_iff h.0 uid).1 (h.2, h.3)),
)
