-- ===== src/Broker/Protocol/Shape.antt =====
-- The bytes of the frames of crates/agent-seat-activity-broker/src/lib.rs, taken apart and put
-- together.
use agent_seat_proto.Prelude.{
  ℕ, ◌≤◌, ◌≡◌, refl, sym, arith, Bool, true, false, List, [], ◌∷◌, ◌++◌, take, drop, length, Result,
  ok, ◌==◌, ◌&&◌, Bool-cases, inl, inr, ltb, All, take-append-drop, ==_iff, length-take_le,
  take_all, length-drop,
}
use agent_seat_proto.Prelude.Text.{same, same_iff}
use agent_seat_proto.Prelude.Bytes.{to_be_bytes, from_be_bytes, byte_at, IsByte, to_be_bytes-field}
use agent_seat_proto.Broker.Protocol.{
  BrokerState, StopReason, EligibilityState, eligible, ineligible, arming, ready, stopped,
  unavailable, nothing, activity, event_loss, evidence_lost, internal, eligibility_changed,
  decode_state, decode_reason, encode_state, encode_reason, encode_eligibility, decode_eligibility,
  has_header, ProtocolError, read_exact,
}

-- A list of eight elements at least, seen as such.
pub data Eight : List ℕ → Type 0 where
  eight :
      (m0 m1 m2 m3 r0 r1 s r : ℕ) (rest : List ℕ)
      → Eight (m0 ∷ m1 ∷ m2 ∷ m3 ∷ r0 ∷ r1 ∷ s ∷ r ∷ rest)

pub at_least-Eight : (bs : List ℕ) → 8 ≤ length bs → Eight bs
at_least-Eight (m0 ∷ m1 ∷ m2 ∷ m3 ∷ r0 ∷ r1 ∷ s ∷ r ∷ rest) long = eight m0 m1 m2 m3 r0 r1 s r rest
at_least-Eight [] long = absurd (ground arith)
at_least-Eight (a ∷ []) long = absurd (ground arith)
at_least-Eight (a ∷ b ∷ []) long = absurd (ground arith)
at_least-Eight (a ∷ b ∷ c ∷ []) long = absurd (ground arith)
at_least-Eight (a ∷ b ∷ c ∷ d ∷ []) long = absurd (ground arith)
at_least-Eight (a ∷ b ∷ c ∷ d ∷ e ∷ []) long = absurd (ground arith)
at_least-Eight (a ∷ b ∷ c ∷ d ∷ e ∷ f ∷ []) long = absurd (ground arith)
at_least-Eight (a ∷ b ∷ c ∷ d ∷ e ∷ f ∷ g ∷ []) long = absurd (ground arith)

&&-split : (a b : Bool) → (a && b) ≡ true → (a ≡ true) × (b ≡ true)
&&-split true b h = (refl, h)
&&-split false b h = absurd cc

pub header_lem :
    (magic : List ℕ) (revision : ℕ) (m0 m1 m2 m3 r0 r1 : ℕ) (rest : List ℕ)
    → All IsByte (r0 ∷ r1 ∷ [])
    → has_header magic revision (m0 ∷ m1 ∷ m2 ∷ m3 ∷ r0 ∷ r1 ∷ rest) ≡ true
    → magic ++ to_be_bytes 2 revision ++ rest ≡ m0 ∷ m1 ∷ m2 ∷ m3 ∷ r0 ∷ r1 ∷ rest
header_lem magic revision m0 m1 m2 m3 r0 r1 rest bytes header =
    let (first, second) =
      &&-split (same (m0 ∷ m1 ∷ m2 ∷ m3 ∷ []) magic) (from_be_bytes (r0 ∷ r1 ∷ []) == revision)
        header in
    let text = (same_iff (m0 ∷ m1 ∷ m2 ∷ m3 ∷ []) magic).0 first in
    let number = (==_iff (from_be_bytes (r0 ∷ r1 ∷ [])) revision).0 second in
    rw (← text, ← number, to_be_bytes-field 2 (r0 ∷ r1 ∷ []) refl bytes) refl

pub encode_state-decode_state :
    (n : ℕ) (s : BrokerState) → decode_state n ≡ ok s → encode_state s ≡ n
unfolding decode_state encode_state
encode_state-decode_state n arming is = ground arith
encode_state-decode_state n ready is = ground arith
encode_state-decode_state n stopped is = ground arith
encode_state-decode_state n unavailable is = ground arith

pub encode_reason-decode_reason :
    (n : ℕ) (r : StopReason) → decode_reason n ≡ ok r → encode_reason r ≡ n
unfolding decode_reason encode_reason
encode_reason-decode_reason n nothing is = ground arith
encode_reason-decode_reason n activity is = ground arith
encode_reason-decode_reason n event_loss is = ground arith
encode_reason-decode_reason n evidence_lost is = ground arith
encode_reason-decode_reason n internal is = ground arith
encode_reason-decode_reason n eligibility_changed is = ground arith

pub encode_eligibility-decode_eligibility :
    (n : ℕ) (s : EligibilityState) → decode_eligibility n ≡ ok s → encode_eligibility s ≡ n
unfolding decode_eligibility encode_eligibility
encode_eligibility-decode_eligibility n eligible is = ground arith
encode_eligibility-decode_eligibility n ineligible is = ground arith

pub read_exact-eq-ok :
    (n : ℕ) (stream bytes : List ℕ)
    → read_exact n stream ≡ ok bytes
    → (bytes ≡ take n stream) × (n ≤ length stream)
read_exact-eq-ok n stream bytes h = elim (Bool-cases (ltb (length stream) n)) [
  | inl short ↦ absurd (cc (rw short at h))
  | inr long ↦ (sym (got (rw long at h)), ground arith)
]
  where
    got :
        ◌≡◌ {A = Result ProtocolError (List ℕ)} (ok (take n stream)) (ok bytes)
        → take n stream ≡ bytes
    got e = cc

parts_lem :
    (magic : List ℕ) (revision code : ℕ) (bs : List ℕ)
    → Eight bs
    → All IsByte bs
    → has_header magic revision (take 8 bs) ≡ true
    → byte_at 6 (take 8 bs) ≡ code
    → byte_at 7 (take 8 bs) ≡ 0
    → magic ++ to_be_bytes 2 revision ++ code ∷ 0 ∷ [] ≡ take 8 bs
unfolding byte_at
parts_lem magic revision code _ (eight m0 m1 m2 m3 r0 r1 s r rest) b h e6 e7 =
    rw (← e6, ← e7)
      (header_lem magic revision m0 m1 m2 m3 r0 r1 (s ∷ r ∷ []) (b.1.1.1.1.0, (b.1.1.1.1.1.0, tt))
        h)

-- A frame of eight bytes whose last is zero.
pub frame_lem :
    (magic : List ℕ) (revision code : ℕ) (stream : List ℕ)
    → 8 ≤ length stream
    → All IsByte stream
    → has_header magic revision (take 8 stream) ≡ true
    → byte_at 6 (take 8 stream) ≡ code
    → byte_at 7 (take 8 stream) ≡ 0
    → magic ++ to_be_bytes 2 revision ++ code ∷ 0 ∷ [] ≡ take 8 stream
frame_lem magic revision code stream long bytes header sixth seventh =
    parts_lem magic revision code stream (at_least-Eight stream long) bytes header sixth seventh

pub record Halves (rest : List ℕ) : Type 0 where
  pub whole : take 8 rest ++ take 8 (drop 8 rest) ≡ rest
  pub first_length : length (take 8 rest) ≡ 8
  pub second_length : length (take 8 (drop 8 rest)) ≡ 8

pub halves : (rest : List ℕ) → length rest ≡ 16 → Halves rest
halves rest len =
    let second : length (drop 8 rest) ≡ 8 = omega (arith, length-drop 8 rest, len) in
    let all_of = take_all 8 (drop 8 rest) second in
    record {
      whole = rw all_of (take-append-drop 8 rest);
      first_length = length-take_le 8 rest (omega (arith, len));
      second_length = rw all_of second;
    }
