-- ===== src/Proto/Codec/Spec.antt =====
-- The frame format of crates/agent-seat-proto/src/codec.rs as a function of the bytes alone, beside
-- the reader.
use native.Mathlib.Decide.{dec_le}
use agent_seat_proto.Prelude.{
  ℕ, ◌≤◌, ◌<◌, ◌≡◌, refl, inl, inr, arith, String, ltb, ◌==◌, if◌then◌else◌, Bool-cases, List, [],
  ◌∷◌, length, take, drop, is_empty, Result, ok, err, ltb→lt, lt→ltb, ltb-eq_false,
}
use agent_seat_proto.Prelude.Bytes.{from_be_bytes}
use agent_seat_proto.Proto.Codec.{
  CodecError, ReadFrame, clean_eof, Reader, ended, finish_prefix, finish_payload, read_payload,
  read_frame, decode_payload,
}
use agent_seat_proto.Proto.Codec.{truncated_prefix, truncated_payload, empty, too_large}
use agent_seat_proto.Proto.Codec.Stream.{IsLive, content, fill-Fills, fill-ended}

module _ {ℓ κ} {J : Type ℓ} {T : Type κ} (from_slice : List ℕ → Result J T)
    (validate : T → Result String (Unit {0})) where
  -- The result, and the bytes left.
  abbrev pub Parsed : Type (ℓ ⊔ κ)
  Parsed = Result (CodecError J) (ReadFrame T) × List ℕ

  unfoldable pub parse_payload : ℕ → ℕ → List ℕ → Parsed
  parse_payload limit size bytes =
      if size == 0
      then (err empty, bytes)
      else if ltb limit size
      then (err (too_large size limit), bytes)
      else if ltb (length bytes) size
      then (err truncated_payload, [])
      else (decode_payload from_slice validate (take size bytes), drop size bytes)

  unfoldable pub parse_frame : ℕ → List ℕ → Parsed
  parse_frame limit bytes =
      if is_empty bytes
      then (ok clean_eof, [])
      else if ltb (length bytes) 4
      then (err truncated_prefix, [])
      else parse_payload limit (from_be_bytes (take 4 bytes)) (drop 4 bytes)

  -- A reading agrees with a parse, and leaves a stream of the same rest.
  pub record Refines (reading : Result (CodecError J) (ReadFrame T) × Reader) (parsed : Parsed)
      : Type (ℓ ⊔ κ) where
    pub same_result : reading.0 ≡ parsed.0
    pub same_rest : content reading.1 ≡ parsed.1
    pub rest_live : IsLive reading.1

  read_payload-Refines :
      (limit size : ℕ) (events : Reader)
      → IsLive events
      → Refines
          (read_payload from_slice validate limit size events)
          (parse_payload limit size (content events))
  unfolding read_payload parse_payload
  read_payload-Refines limit size events live = elim (Bool-cases (size == 0)) [
    | inl none ↦ rw none (record { same_result = refl; same_rest = refl; rest_live = live })
    | inr some ↦ elim (Bool-cases (ltb limit size)) [
      | inl big ↦ rw (some, big) (record { same_result = refl; same_rest = refl; rest_live = live })
      | inr fits ↦ elim (Bool-cases (ltb (length (content events)) size)) [
        | inl short ↦
            rw (some, fits, short, fill-ended size [] events live (ltb→lt _ _ short))
              (unfold finish_payload content in
                record { same_result = refl; same_rest = refl; rest_live = tt })
        | inr long ↦
            let (rest, e, c, l) = fill-Fills size [] events live (ground arith) in
            rw (some, fits, long, e)
              (unfold finish_payload in record { same_result = refl; same_rest = c; rest_live = l })
      ]
    ]
  ]

  short_prefix :
      (limit : ℕ) (bytes : List ℕ)
      → length bytes < 4
      → Refines (finish_prefix from_slice validate limit (ended bytes [])) (parse_frame limit bytes)
  unfolding finish_prefix parse_frame content
  short_prefix limit [] h = record { same_result = refl; same_rest = refl; rest_live = tt }
  short_prefix limit (b ∷ bs) h =
      rw (lt→ltb (length (b ∷ bs)) 4 h)
        (record { same_result = refl; same_rest = refl; rest_live = tt })

  pub whole_prefix :
      (limit : ℕ) (bytes : List ℕ)
      → 4 ≤ length bytes
      → parse_frame limit bytes ≡ parse_payload limit (from_be_bytes (take 4 bytes)) (drop 4 bytes)
  unfolding parse_frame
  whole_prefix limit [] h = absurd (omega arith)
  whole_prefix limit (b ∷ bs) h = rw (ltb-eq_false (length (b ∷ bs)) 4 h)

  -- However the bytes of a live stream arrive, in any chunks and with any interruptions, reading
  -- a frame gives the result of parsing the bytes, and leaves a live stream of the bytes that the
  -- parse leaves.
  pub read_frame-Refines :
      (limit : ℕ) (events : Reader)
      → IsLive events
      → Refines (read_frame from_slice validate limit events) (parse_frame limit (content events))
  unfolding read_frame
  read_frame-Refines limit events live = elim (dec_le 4 (length (content events))) [
    | yes long ↦
        let (rest, e, c, l) = fill-Fills 4 [] events live long in
        rw (e, whole_prefix limit (content events) long, ← c)
          (unfold finish_prefix in
            read_payload-Refines limit (from_be_bytes (take 4 (content events))) rest l)
    | no short ↦
        rw (fill-ended 4 [] events live (omega arith))
          (short_prefix limit (content events) (omega arith))
  ]
