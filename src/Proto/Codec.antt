-- ===== src/Proto/Codec.antt =====
-- crates/agent-seat-proto/src/codec.rs: frames of a four-byte big-endian length and a JSON payload.
-- A stream is the list of what its `read` calls will meet; at its end a read returns no bytes.
-- JSON is a parameter: `to_vec` and `from_slice` of serde_json. A `usize` has 64 bits.
pub mod Stream
pub mod Spec
pub mod RoundTrip
use agent_seat_proto.Prelude.{
  ℕ, zero, suc, ◌+◌, ◌-◌, ◌^◌, String, Bool, ◌||◌, ltb, leb, ◌==◌, if◌then◌else◌, List, [], ◌∷◌,
  ◌++◌, length, take, drop, is_empty, Result, ok, err,
}
use agent_seat_proto.Prelude.Bytes.{to_be_bytes, from_be_bytes}

-- The kinds that the code tells apart, next to `Interrupted`.
pub data IoError : Type 0 where
  unexpected_eof : IoError
  other : ℕ → IoError

-- `chunk` is what a read finds ready; an empty chunk is a read that returns 0.
pub data ReadEvent : Type 0 where
  chunk : List ℕ → ReadEvent
  interrupted : ReadEvent
  failed : IoError → ReadEvent

abbrev pub Reader : Type 0
Reader = List ReadEvent

pub data ReadFrame {ℓ} (T : Type ℓ) : Type ℓ where
  message : T → ReadFrame T
  clean_eof : ReadFrame T

pub data CodecError {ℓ} (J : Type ℓ) : Type ℓ where
  io : IoError → CodecError J
  truncated_prefix truncated_payload empty : CodecError J
  too_large : ℕ → ℕ → CodecError J
  json : J → CodecError J
  invalid : String → CodecError J

-- What a loop over `read` ends with, and the stream left.
pub data Fill : Type 0 where
  filled : List ℕ → Reader → Fill
  ended : List ℕ → Reader → Fill
  broken : IoError → Reader → Fill

-- What a read leaves of a chunk stays ready.
unfoldable pub push_back : List ℕ → Reader → Reader
push_back [] events = events
push_back (b ∷ bs) events = chunk (b ∷ bs) ∷ events

-- `while read < buffer.len()`: read into the rest of the buffer, retry when interrupted. It is the
-- prefix loop, and `read_exact` for the payload; `room` bytes are missing.
unfoldable pub fill : (room : ℕ) → List ℕ → Reader → Fill
unfolding push_back
fill zero got events = filled got events
fill (suc room) got [] = ended got []
fill (suc room) got (interrupted ∷ events) = fill (suc room) got events
fill (suc room) got (failed error ∷ events) = broken error events
fill (suc room) got (chunk bytes ∷ events) =
    if is_empty bytes
    then ended got events
    else if leb (suc room) (length bytes)
    then filled (got ++ take (suc room) bytes) (push_back (drop (suc room) bytes) events)
    else fill (suc room - length bytes) (got ++ bytes) events

module _ {ℓ κ} {J : Type ℓ} {T : Type κ} (from_slice : List ℕ → Result J T)
    (validate : T → Result String (Unit {0})) where
  abbrev Reading : Type (ℓ ⊔ κ)
  Reading = Result (CodecError J) (ReadFrame T) × Reader

  unfoldable pub accept : T → Result (CodecError J) (ReadFrame T)
  accept value = elim (validate value) [
    | ok _ ↦ ok (message value)
    | err reason ↦ err (invalid reason)
  ]

  unfoldable pub decode_payload : List ℕ → Result (CodecError J) (ReadFrame T)
  decode_payload payload = elim (from_slice payload) [
    | ok value ↦ accept value
    | err error ↦ err (json error)
  ]

  -- After `read_exact` on the payload buffer.
  unfoldable pub finish_payload : Fill → Reading
  finish_payload (filled payload events) = (decode_payload payload, events)
  finish_payload (ended got events) = (err truncated_payload, events)
  finish_payload (broken unexpected_eof events) = (err truncated_payload, events)
  finish_payload (broken (other code) events) = (err (io (other code)), events)

  unfoldable pub read_payload : ℕ → ℕ → Reader → Reading
  read_payload limit size events =
      if size == 0
      then (err empty, events)
      else if ltb limit size
      then (err (too_large size limit), events)
      else finish_payload (fill size [] events)

  -- After the prefix loop.
  unfoldable pub finish_prefix : ℕ → Fill → Reading
  finish_prefix limit (filled prefix events) = read_payload limit (from_be_bytes prefix) events
  finish_prefix limit (ended [] events) = (ok clean_eof, events)
  finish_prefix limit (ended (b ∷ bs) events) = (err truncated_prefix, events)
  finish_prefix limit (broken error events) = (err (io error), events)

  unfoldable pub read_frame : ℕ → Reader → Reading
  read_frame limit events = finish_prefix limit (fill 4 [] events)

-- What a `write_all` call meets: it takes everything, or fails after some bytes.
pub data WriteEvent : Type 0 where
  accepts : WriteEvent
  fails : ℕ → IoError → WriteEvent

pub record Writer : Type 0 where
  pub written : List ℕ
  pub upcoming : List WriteEvent

unfoldable pub write_all : List ℕ → Writer → Result IoError (Unit {0}) × Writer
write_all bytes w = elim w.upcoming [
  | [] ↦ (ok tt, record w { written = w.written ++ bytes })
  | accepts ∷ later ↦ (ok tt, record { written = w.written ++ bytes; upcoming = later })
  | fails count error ∷ later ↦
      (err error, record { written = w.written ++ take count bytes; upcoming = later })
]

module _ {ℓ κ} {J : Type ℓ} {T : Type κ} (to_vec : T → Result J (List ℕ))
    (validate : T → Result String (Unit {0})) where
  abbrev Writing : Type ℓ
  Writing = Result (CodecError J) (Unit {0}) × Writer

  -- `.and_then(|()| writer.write_all(&payload)).map_err(CodecError::Io)`
  unfoldable pub after_payload : Result IoError (Unit {0}) × Writer → Writing
  after_payload (ok _, w) = (ok tt, w)
  after_payload (err error, w) = (err (io error), w)

  unfoldable pub after_prefix : List ℕ → Result IoError (Unit {0}) × Writer → Writing
  after_prefix payload (ok _, w) = after_payload (write_all payload w)
  after_prefix payload (err error, w) = (err (io error), w)

  unfoldable pub emit : List ℕ → Writer → Writing
  emit payload w = after_prefix payload (write_all (to_be_bytes 4 (length payload)) w)

  unfoldable pub bound_and_emit : ℕ → List ℕ → Writer → Writing
  bound_and_emit limit payload w =
      if is_empty payload
      then (err empty, w)
      else if ltb limit (length payload) || ltb (2 ^ 32 - 1) (length payload)
      then (err (too_large (length payload) limit), w)
      else emit payload w

  unfoldable pub write_frame : T → ℕ → Writer → Writing
  write_frame value limit w = elim (validate value) [
    | err reason ↦ (err (invalid reason), w)
    | ok _ ↦ elim (to_vec value) [
      | err error ↦ (err (json error), w)
      | ok payload ↦ bound_and_emit limit payload w
    ]
  ]
