-- ===== src/Proto/Codec/RoundTrip.antt =====
-- What is written and what is read back of it, crates/agent-seat-proto/src/codec.rs.
use agent_seat_proto.Prelude.{
  Result-cases, ℕ, ◌^◌, ◌≤◌, ◌<◌, ◌≡◌, sym, ap, ◌∙◌, arith, String, inl, inr, List, [], ◌∷◌, ◌++◌,
  length, take, drop, length-append, take-append, drop-append, Result, ok,
}
use mathlib.Core.List.{append_assoc, append_cancel_left}
use agent_seat_proto.Prelude.Bytes.{to_be_bytes, length-to_be_bytes, from_be_bytes-to_be_bytes}
use agent_seat_proto.Proto.Codec.{
  message, Reader, read_frame, decode_payload, accept, Writer, write_all, after_payload,
  after_prefix, emit, bound_and_emit, write_frame,
}
use agent_seat_proto.Proto.Codec.Stream.{IsLive, content}
use agent_seat_proto.Proto.Codec.Spec.{parse_frame, parse_payload, whole_prefix, read_frame-Refines}

module _ {ℓ κ} {J : Type ℓ} {T : Type κ} (to_vec : T → Result J (List ℕ))
    (from_slice : List ℕ → Result J T) (validate : T → Result String (Unit {0})) where
  -- What a frame of the payload looks like on the wire.
  abbrev pub framed : List ℕ → List ℕ
  framed payload = to_be_bytes 4 (length payload) ++ payload

  -- A frame was written: the value is valid, its payload is bounded, and exactly it was appended.
  pub record Written (value : T) (limit : ℕ) (w w' : Writer) : Type (ℓ ⊔ κ) where
    pub payload : List ℕ
    pub encoded : to_vec value ≡ ok payload
    pub valid : validate value ≡ ok tt
    pub nonempty : 0 < length payload
    pub bounded : length payload ≤ limit
    pub representable : length payload < 2 ^ 32
    pub appended : w'.written ≡ w.written ++ framed payload

  emit-appends :
      (payload : List ℕ) (w w' : Writer)
      → emit to_vec validate payload w ≡ (ok tt, w')
      → w'.written ≡ w.written ++ framed payload
  unfolding emit after_prefix after_payload write_all
  emit-appends payload w w' h =
      ground (arith, append_assoc w.written (to_be_bytes 4 (length payload)) payload)

  bound_and_emit-Written :
      (value : T) (payload : List ℕ) (limit : ℕ) (w w' : Writer)
      → to_vec value ≡ ok payload
      → validate value ≡ ok tt
      → bound_and_emit to_vec validate limit payload w ≡ (ok tt, w')
      → Written value limit w w'
  unfolding bound_and_emit
  bound_and_emit-Written value [] limit w w' e v h = absurd (cc h)
  bound_and_emit-Written value (b ∷ bs) limit w w' e v h = record {
    payload = b ∷ bs;
    encoded = e;
    valid = v;
    nonempty = omega arith;
    bounded = ground arith;
    representable = ground arith;
    appended = emit-appends (b ∷ bs) w w' (ground arith);
  }

  -- A successful write found the value valid, encoded it in a payload that is nonempty, within
  -- the bound and below 2^32 bytes, and appended exactly its length in four bytes and the
  -- payload.
  pub write_frame-Written :
      (value : T) (limit : ℕ) (w w' : Writer)
      → write_frame to_vec validate value limit w ≡ (ok tt, w')
      → Written value limit w w'
  unfolding write_frame
  write_frame-Written value limit w w' h = elim (Result-cases (validate value)) [
    | inr (reason, bad) ↦ absurd (cc (rw (bad, write_frame) at h))
    | inl (u, valid) ↦ elim (Result-cases (to_vec value)) [
      | inr (error, bad) ↦ absurd (cc (rw (valid, bad, write_frame) at h))
      | inl (payload, encoded) ↦
          bound_and_emit-Written value payload limit w w' encoded valid
            (rw (valid, encoded, write_frame) at h)
    ]
  ]

  take-prefix : (n : ℕ) (bytes : List ℕ) → take 4 (to_be_bytes 4 n ++ bytes) ≡ to_be_bytes 4 n
  take-prefix n bytes =
      ap (λ k. take k (to_be_bytes 4 n ++ bytes)) (sym (length-to_be_bytes 4 n))
      ∙ take-append (to_be_bytes 4 n) bytes

  drop-prefix : (n : ℕ) (bytes : List ℕ) → drop 4 (to_be_bytes 4 n ++ bytes) ≡ bytes
  drop-prefix n bytes =
      ap (λ k. drop k (to_be_bytes 4 n ++ bytes)) (sym (length-to_be_bytes 4 n))
      ∙ drop-append (to_be_bytes 4 n) bytes

  parse_payload-append :
      (payload more : List ℕ) (limit : ℕ)
      → 0 < length payload
      → length payload ≤ limit
      → parse_payload from_slice validate limit (length payload) (payload ++ more)
        ≡ (decode_payload from_slice validate payload, more)
  unfolding parse_payload
  parse_payload-append payload more limit some fits =
      rw (take-append payload more, drop-append payload more)
        (ground (arith, length-append payload more))

  parse_frame-framed :
      (payload more : List ℕ) (limit : ℕ)
      → 0 < length payload
      → length payload ≤ limit
      → length payload < 2 ^ 32
      → parse_frame from_slice validate limit (framed payload ++ more)
        ≡ (decode_payload from_slice validate payload, more)
  parse_frame-framed payload more limit some fits small =
      rw
        (
          append_assoc (to_be_bytes 4 (length payload)) payload more,
          whole_prefix from_slice validate limit
              (to_be_bytes 4 (length payload) ++ (payload ++ more))
              (omega (
                arith,
                length-append (to_be_bytes 4 (length payload)) (payload ++ more),
                length-to_be_bytes 4 (length payload),
              )),
          take-prefix (length payload) (payload ++ more),
          drop-prefix (length payload) (payload ++ more),
          from_be_bytes-to_be_bytes 4 (length payload) (omega arith),
        )
        (parse_payload-append payload more limit some fits)

  decode-encoded :
      (value : T) (payload : List ℕ)
      → from_slice payload ≡ ok value
      → validate value ≡ ok tt
      → decode_payload from_slice validate payload ≡ ok (message value)
  unfolding decode_payload accept
  decode-encoded value payload d v = rw (d, decode_payload, v, accept)

  -- If JSON decoding undoes JSON encoding at a value, and a write of it succeeded, then a reader
  -- with the same bound, from a live stream that continues the written bytes with anything, reads
  -- the value back, however the bytes are cut, and leaves exactly what follows the frame.
  pub read_frame-write_frame :
      (value : T) (limit : ℕ) (w w' : Writer) (events : Reader) (more : List ℕ)
      → ((payload : List ℕ) → to_vec value ≡ ok payload → from_slice payload ≡ ok value)
      → write_frame to_vec validate value limit w ≡ (ok tt, w')
      → IsLive events
      → w.written ++ content events ≡ w'.written ++ more
      → ((read_frame from_slice validate limit events).0 ≡ ok (message value))
        × (content (read_frame from_slice validate limit events).1 ≡ more)
  read_frame-write_frame value limit w w' events more round h live same =
      let frame = write_frame-Written value limit w w' h in
      let r = read_frame-Refines from_slice validate limit events live in
      let bytes : content events ≡ framed frame.payload ++ more = append_cancel_left w.written _ _ (
        same
        ∙ (ap (λ t. t ++ more) frame.appended
            ∙ append_assoc w.written (framed frame.payload) more)) in
      let parsed =
        ap (parse_frame from_slice validate limit) bytes
        ∙ parse_frame-framed frame.payload more limit frame.nonempty frame.bounded
            frame.representable in
      (
        r.same_result
            ∙ (ap (λ t. t.0) parsed
                ∙ decode-encoded value frame.payload (round frame.payload frame.encoded)
                    frame.valid),
        r.same_rest ∙ ap (λ t. t.1) parsed,
      )
