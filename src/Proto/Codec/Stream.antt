-- ===== src/Proto/Codec/Stream.antt =====
-- The read loop of crates/agent-seat-proto/src/codec.rs over the bytes of a stream.
use mathlib.Core.List.{append_assoc, append-nil}
use native.Mathlib.Decide.{dec_le}
use agent_seat_proto.Prelude.{
  leb_of_le, leb-eq_false, take-append_ge, drop-append_ge, take-append_le, drop-append_le, ℕ, zero,
  suc, ◌-◌, ◌≤◌, ◌<◌, ◌≡◌, refl, sym, ap, ◌∙◌, arith, List, [], ◌∷◌, ◌++◌, length, take, drop,
  length-append,
}
use agent_seat_proto.Proto.Codec.{
  chunk, interrupted, failed, Reader, Fill, filled, ended, push_back, fill,
}

-- No read fails, and no read returns 0 before the end. Interruptions and any chunking are allowed.
abbrev pub IsLive : Reader → Type 0
IsLive [] = Unit
IsLive (chunk [] ∷ events) = ⊥
IsLive (chunk (b ∷ bs) ∷ events) = IsLive events
IsLive (interrupted ∷ events) = IsLive events
IsLive (failed error ∷ events) = ⊥

-- All bytes of the stream.
unfoldable pub content : Reader → List ℕ
content [] = []
content (chunk bytes ∷ events) = bytes ++ content events
content (interrupted ∷ events) = content events
content (failed error ∷ events) = content events

push_back-IsLive :
    (bytes : List ℕ) (events : Reader) → IsLive events → IsLive (push_back bytes events)
unfolding push_back
push_back-IsLive [] events h = h
push_back-IsLive (b ∷ bs) events h = h

content-push_back :
    (bytes : List ℕ) (events : Reader) → content (push_back bytes events) ≡ bytes ++ content events
unfolding push_back content
content-push_back [] events = refl
content-push_back (b ∷ bs) events = refl

-- With enough bytes the buffer is filled by the next ones, and the stream goes on after them.
abbrev pub Fills : ℕ → List ℕ → Reader → Fill → Type 0
Fills room got events result =
    (rest : Reader) × (result ≡ filled (got ++ take room (content events)) rest)
    × (content rest ≡ drop room (content events))
    × IsLive rest

-- A chunk that completes the buffer.
fill-enough :
    (room : ℕ) (got : List ℕ) (b : ℕ) (bs : List ℕ) (events : Reader)
    → IsLive events
    → suc room ≤ length (b ∷ bs)
    → Fills (suc room) got (chunk (b ∷ bs) ∷ events) (fill (suc room) got (chunk (b ∷ bs) ∷ events))
unfolding fill content
fill-enough room got b bs events live h = (
  push_back (drop (suc room) (b ∷ bs)) events,
  rw (
    leb_of_le (suc room) (length (b ∷ bs)) h,
    take-append_le (suc room) (b ∷ bs) (content events) h,
  ),
  content-push_back (drop (suc room) (b ∷ bs)) events
      ∙ sym (drop-append_le (suc room) (b ∷ bs) (content events) h),
  push_back-IsLive (drop (suc room) (b ∷ bs)) events live,
)

-- A chunk that does not: the rest is filled from what follows.
fill-short :
    (room : ℕ) (got : List ℕ) (b : ℕ) (bs : List ℕ) (events : Reader)
    → length (b ∷ bs) < suc room
    → fill (suc room) got (chunk (b ∷ bs) ∷ events)
      ≡ fill (suc room - length (b ∷ bs)) (got ++ b ∷ bs) events
unfolding fill
fill-short room got b bs events h = rw (leb-eq_false (suc room) (length (b ∷ bs)) h)

-- The read loop on a live stream with enough bytes fills the buffer with the next ones and leaves
-- a live stream of the others.
pub fill-Fills :
    (room : ℕ) (got : List ℕ) (events : Reader)
    → IsLive events
    → room ≤ length (content events)
    → Fills room got events (fill room got events)
unfolding fill content
fill-Fills zero got events live h = (events, rw append-nil, refl, live)
fill-Fills (suc room) got [] live h = absurd (omega arith)
fill-Fills (suc room) got (interrupted ∷ events) live h = fill-Fills (suc room) got events live h
fill-Fills (suc room) got (failed error ∷ events) live h = absurd live
fill-Fills (suc room) got (chunk [] ∷ events) live h = absurd live
fill-Fills (suc room) got (chunk (b ∷ bs) ∷ events) live h =
    elim (dec_le (suc room) (length (b ∷ bs))) [
      | yes enough ↦ fill-enough room got b bs events live enough
      | no more ↦
          let left : ℕ = suc room - length (b ∷ bs) in
          let (rest, e, c, l) =
            fill-Fills left (got ++ b ∷ bs) events live
              (omega (arith, length-append (b ∷ bs) (content events))) in
          (
            rest,
            fill-short room got b bs events (omega arith)
                ∙ (e
                    ∙ (ap (λ t. filled t rest) (append_assoc got (b ∷ bs) _)
                        ∙ ap (λ t. filled (got ++ t) rest)
                            (sym (
                              take-append_ge (suc room) (b ∷ bs) (content events) (omega arith))))),
            c ∙ sym (drop-append_ge (suc room) (b ∷ bs) (content events) (omega arith)),
            l,
          )
    ]

-- The read loop on a live stream with too few bytes ends with all of them, at the end of the
-- stream.
pub fill-ended :
    (room : ℕ) (got : List ℕ) (events : Reader)
    → IsLive events
    → length (content events) < room
    → fill room got events ≡ ended (got ++ content events) []
unfolding fill content
fill-ended zero got events live h = absurd (omega arith)
fill-ended (suc room) got [] live h = rw append-nil
fill-ended (suc room) got (interrupted ∷ events) live h = fill-ended (suc room) got events live h
fill-ended (suc room) got (failed error ∷ events) live h = absurd live
fill-ended (suc room) got (chunk [] ∷ events) live h = absurd live
fill-ended (suc room) got (chunk (b ∷ bs) ∷ events) live h =
    fill-short room got b bs events (omega (arith, length-append (b ∷ bs) (content events)))
    ∙ (fill-ended (suc room - length (b ∷ bs)) (got ++ b ∷ bs) events live
          (omega (arith, length-append (b ∷ bs) (content events)))
        ∙ ap (λ t. ended t []) (append_assoc got (b ∷ bs) (content events)))
