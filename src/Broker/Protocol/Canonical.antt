-- ===== src/Broker/Protocol/Canonical.antt =====
-- The status frames of crates/agent-seat-activity-broker/src/lib.rs as they are read.
use agent_seat_proto.Prelude.{
  ℕ, ◌<◌, ◌≡◌, refl, ap, sym, ◌∙◌, arith, Bool, true, false, not, List, ◌∷◌, ◌++◌, take, drop,
  length, Result, ok, err, ◌>>◌, check, ◌==◌, ◌||◌, Bool-cases, inl, inr, All, >>=-eq-ok,
  if◌then◌else◌, ==_iff, length-take_le, All-take, All-drop,
}
use agent_seat_proto.Prelude.Text.{same}
use agent_seat_proto.Prelude.Bytes.{
  to_be_bytes, byte_at, IsByte, to_be_bytes-field, from_be_bytes_bound,
}
use agent_seat_proto.Broker.Protocol.{
  BrokerStatus, BrokerState, StopReason, EligibilityState, encode, decode, decode_state,
  decode_reason, valid_state, decode_fields, eligibility_frame, read_eligibility,
  encode_eligibility, decode_eligibility, status_request, read_status_request, has_header,
  broker_magic, broker_revision, read_status_response, malformed, ProtocolError, eligibility_magic,
  eligibility_revision, incompatible, op_status, read_exact,
}
use agent_seat_proto.Broker.Protocol.Frames.{Valid, decode_header}
use agent_seat_proto.Broker.Protocol.Shape.{
  Eight, eight, at_least-Eight, header_lem, encode_state-decode_state, encode_reason-decode_reason,
  encode_eligibility-decode_eligibility, read_exact-eq-ok, frame_lem, halves,
}

refuse_lem {ℓ} :
    {A : Type ℓ} {a : A} (x y : Bool) (r : Result ProtocolError A)
    → (if not x || not y then err incompatible else r) ≡ ok a
    → (x ≡ true) × (y ≡ true) × (r ≡ ok a)
refuse_lem true true r h = (refl, refl, h)
refuse_lem true false r h = absurd cc
refuse_lem false y r h = absurd cc

-- An assertion that is read from bytes has these bytes for its frame.
pub eligibility_frame-read_eligibility :
    (stream : List ℕ) (state : EligibilityState)
    → All IsByte stream
    → read_eligibility stream ≡ ok state
    → eligibility_frame state ≡ take 8 stream
unfolding read_eligibility eligibility_frame
eligibility_frame-read_eligibility stream state bytes read =
    let (frame, got, tested) = >>=-eq-ok (read_exact 8 stream) _ read in
    let (is, long) = read_exact-eq-ok 8 stream frame got in
    let (header, end, decoded) =
      refuse_lem (has_header eligibility_magic eligibility_revision frame) (byte_at 7 frame == 0)
        (decode_eligibility (byte_at 6 frame)) tested in
    frame_lem eligibility_magic eligibility_revision (encode_eligibility state) stream long bytes
      (ap (has_header eligibility_magic eligibility_revision) (sym is) ∙ header)
      (ap (byte_at 6) (sym is)
        ∙ sym (encode_eligibility-decode_eligibility (byte_at 6 frame) state decoded))
      (ap (byte_at 7) (sym is) ∙ (==_iff (byte_at 7 frame) 0).0 end)

check_lem :
    (a x y : Bool)
    → (check a incompatible >> check (not (not x || not y)) malformed) ≡ ok tt
    → (a ≡ true) × (x ≡ true) × (y ≡ true)
check_lem true true true h = (refl, refl, refl)
check_lem true true false h = absurd cc
check_lem true false y h = absurd cc
check_lem false x y h = absurd cc

-- A stream that is taken for a status request starts with that frame.
pub status_request-read_status_request :
    (stream : List ℕ)
    → All IsByte stream
    → read_status_request stream ≡ ok tt
    → status_request ≡ take 8 stream
unfolding read_status_request status_request
status_request-read_status_request stream bytes read =
    let (frame, got, tested) = >>=-eq-ok (read_exact 8 stream) _ read in
    let (is, long) = read_exact-eq-ok 8 stream frame got in
    let (header, op, end) =
      check_lem (has_header broker_magic broker_revision frame) (byte_at 6 frame == op_status)
        (byte_at 7 frame == 0) tested in
    frame_lem broker_magic broker_revision op_status stream long bytes
      (ap (has_header broker_magic broker_revision) (sym is) ∙ header)
      (ap (byte_at 6) (sym is) ∙ (==_iff (byte_at 6 frame) op_status).0 op)
      (ap (byte_at 7) (sym is) ∙ (==_iff (byte_at 7 frame) 0).0 end)

-- The fields that `decode` accepts.
record Fields (state : BrokerState) (reason : StopReason) (i e : ℕ) (s : BrokerStatus)
    : Type 0 where
  is : record { instance_id = i; epoch = e; state = state; reason = reason } ≡ s
  pair : valid_state state reason ≡ true
  instance_nonzero : 0 < i
  epoch_nonzero : 0 < e

decode_fields-eq-ok :
    (state : BrokerState) (reason : StopReason) (i e : ℕ) (s : BrokerStatus)
    → decode_fields state reason i e ≡ ok s
    → Fields state reason i e s
unfolding decode_fields
decode_fields-eq-ok state reason i e s h = elim (Bool-cases (valid_state state reason)) [
  | inr bad ↦ absurd (cc (rw bad at h))
  | inl good ↦ elim (Bool-cases (i == 0 || e == 0)) [
    | inl none_set ↦ absurd (cc (rw (good, none_set) at h))
    | inr set ↦ record {
      is = same_lem (rw (good, set) at h);
      pair = good;
      instance_nonzero = ground arith;
      epoch_nonzero = ground arith;
    }
  ]
]
  where
    same_lem :
        {a b : BrokerStatus} → ◌≡◌ {A = Result ProtocolError BrokerStatus} (ok a) (ok b) → a ≡ b
    same_lem same = cc

decode_parts :
    (bs : List ℕ) (s : BrokerStatus)
    → Eight bs
    → length bs ≡ 24
    → All IsByte bs
    → decode bs ≡ ok s
    → Valid s × (encode s ≡ bs)
unfolding encode byte_at decode
decode_parts _ s (eight m0 m1 m2 m3 r0 r1 st re rest) len bytes read =
    elim (Bool-cases
      (has_header broker_magic broker_revision (m0 ∷ m1 ∷ m2 ∷ m3 ∷ r0 ∷ r1 ∷ st ∷ re ∷ rest))) [
        | inr bad ↦ absurd (cc (rw (bad, decode) at read))
        | inl header ↦
            let after =
              sym (decode_header (m0 ∷ m1 ∷ m2 ∷ m3 ∷ r0 ∷ r1 ∷ st ∷ re ∷ rest) header) ∙ read in
            let (state, state_is, after1) = >>=-eq-ok (decode_state st) _ after in
            let (reason, reason_is, after2) = >>=-eq-ok (decode_reason re) _ after1 in
            let f = decode_fields-eq-ok state reason _ _ s after2 in
            let parts = halves rest (omega (arith, len)) in
            let tail_bytes = bytes.1.1.1.1.1.1.1.1 in
            let i_bytes = All-take IsByte 8 rest tail_bytes in
            let e_bytes = All-take IsByte 8 (drop 8 rest) (All-drop IsByte 8 rest tail_bytes) in
            rw (← f.is) (
              record {
                pair = f.pair;
                instance_nonzero = f.instance_nonzero;
                instance_bound = from_be_bytes_bound 8 (take 8 rest) parts.first_length i_bytes;
                epoch_nonzero = f.epoch_nonzero;
                epoch_bound =
                    from_be_bytes_bound 8 (take 8 (drop 8 rest)) parts.second_length e_bytes;
              },
              rw
                  (
                    encode_state-decode_state st state state_is,
                    encode_reason-decode_reason re reason reason_is,
                    to_be_bytes-field 8 (take 8 rest) parts.first_length i_bytes,
                    to_be_bytes-field 8 (take 8 (drop 8 rest)) parts.second_length e_bytes,
                  )
                  (ap (λ t. broker_magic ++ to_be_bytes 2 broker_revision ++ st ∷ re ∷ t)
                      parts.whole
                    ∙ header_lem broker_magic broker_revision m0 m1 m2 m3 r0 r1 (st ∷ re ∷ rest)
                        (bytes.1.1.1.1.0, (bytes.1.1.1.1.1.0, tt)) header),
            )
      ]

-- A status that is read from bytes is valid, and these bytes are its encoding.
pub encode-read_status_response :
    (stream : List ℕ) (s : BrokerStatus)
    → All IsByte stream
    → read_status_response stream ≡ ok s
    → Valid s × (encode s ≡ take 24 stream)
unfolding read_status_response
encode-read_status_response stream s bytes read =
    let (frame, got, tested) = >>=-eq-ok (read_exact 24 stream) decode read in
    let (is, long) = read_exact-eq-ok 24 stream frame got in
    let len : length frame ≡ 24 = ap length is ∙ length-take_le 24 stream long in
    rw (← is) (
      decode_parts frame s (at_least-Eight frame (omega (arith, len))) len
        (rw is (All-take IsByte 24 stream bytes)) tested)
