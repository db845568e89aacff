-- ===== src/Tests/Wire.antt =====
-- The codec with a one-byte encoding of numbers in the place of JSON.
use agent_seat_proto.Prelude.{ℕ, ◌≡◌, refl, ap, sym, String, ok, err, Result, List, [], ◌∷◌, ◌++◌}
use agent_seat_proto.Prelude.Bytes.{to_be_bytes, to_le_bytes}
use agent_seat_proto.Proto.Codec.{
  chunk, interrupted, Reader, Writer, message, read_frame, write_frame, emit, bound_and_emit,
  after_prefix, after_payload, write_all,
}
use agent_seat_proto.Proto.Codec.Stream.{content}
use agent_seat_proto.Proto.Codec.Spec.{Refines, parse_frame, read_frame-Refines}
use agent_seat_proto.Proto.Codec.RoundTrip.{read_frame-write_frame}

abbrev to_vec : ℕ → Result String (List ℕ)
to_vec n = ok (n ∷ [])

abbrev from_slice : List ℕ → Result String ℕ
from_slice [] = err "end of input"
from_slice (b ∷ []) = ok b
from_slice (b ∷ c ∷ bs) = err "trailing characters"

abbrev validate : ℕ → Result String (Unit {0})
validate n = ok tt

abbrev blank : Writer
blank = record { written = []; upcoming = [] }

abbrev after : Writer
after = record { written = 0 ∷ 0 ∷ 0 ∷ 1 ∷ 65 ∷ []; upcoming = [] }

-- The frame in two pieces, with an interruption and one byte of the next frame.
abbrev pieces : Reader
pieces = chunk (0 ∷ 0 ∷ []) ∷ interrupted ∷ chunk (0 ∷ 1 ∷ 65 ∷ 7 ∷ []) ∷ []

write_lem : write_frame to_vec validate 65 16 blank ≡ (ok tt, after)
unfolding write_frame bound_and_emit emit after_prefix after_payload write_all to_be_bytes
    to_le_bytes
write_lem = refl

json_lem :
    (payload : List ℕ)
    → ◌≡◌ {A = Result String (List ℕ)} (to_vec 65) (ok payload)
    → from_slice payload ≡ ok 65
json_lem payload same = let is : 65 ∷ [] ≡ payload = cc in ap from_slice (sym is)

content_lem : content pieces ≡ after.written ++ 7 ∷ []
unfolding content
content_lem = refl

read_frame-write_frame_example :
    ((read_frame from_slice validate 16 pieces).0 ≡ ok (message 65))
    × (content (read_frame from_slice validate 16 pieces).1 ≡ 7 ∷ [])
read_frame-write_frame_example =
    read_frame-write_frame to_vec from_slice validate 65 16 blank after pieces (7 ∷ []) json_lem
      write_lem tt content_lem

read_frame-Refines_example :
    Refines from_slice validate
      (read_frame from_slice validate 16 pieces)
      (parse_frame from_slice validate 16 (content pieces))
read_frame-Refines_example = read_frame-Refines from_slice validate 16 pieces tt
