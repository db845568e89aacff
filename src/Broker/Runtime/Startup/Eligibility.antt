-- ===== src/Broker/Runtime/Startup/Eligibility.antt =====
-- The first eligibility frame, `read_initial_eligibility` of
-- crates/agent-seat-activity-broker/src/main.rs.
use agent_seat_proto.Prelude.{
  ℕ, ◌-◌, ◌≤◌, ◌≡◌, refl, sym, ap, ◌∙◌, arith, true, false, ltb, List, [], ◌∷◌, ◌++◌, length,
  is_empty, take, Result, ok, err, >>=-eq-ok, >>-eq-ok, map_err, Bool-cases, inl, inr,
  length-append, All, ltb-eq_false, take_all, take_short, length-take_bound, length-take_le,
  take-append_le, take-append_ge, All-append, All-append_left, All-append_right, All-take,
}
use mathlib.Core.List.{append-nil, append_assoc}
use agent_seat_proto.Prelude.Bytes.{IsByte}
use agent_seat_proto.Broker.Protocol.Canonical.{eligibility_frame-read_eligibility}
use agent_seat_proto.Broker.Protocol.{
  EligibilityState, ProtocolError, read_eligibility, eligibility_frame, eligibility_frame_bytes,
}
use agent_seat_proto.Broker.Protocol.Frames.{
  read_eligibility-eligibility_frame, length-eligibility_frame,
}
use agent_seat_proto.Broker.Runtime.{Revents}
use agent_seat_proto.Broker.Runtime.Startup.{
  failed, Attempt, closed, chunk, interrupted, would_block, broken, after_poll, decoded_frame,
  await_frame, read_initial_eligibility,
}

-- The bytes that the attempts bring.
abbrev pub delivered : List Attempt → List ℕ
delivered [] = []
delivered (chunk bytes ∷ rest) = bytes ++ delivered rest
delivered (closed ∷ rest) = delivered rest
delivered (interrupted ∷ rest) = delivered rest
delivered (would_block elapsed poll ∷ rest) = delivered rest
delivered (broken error ∷ rest) = delivered rest

-- An attempt that brings something or that lets the wait go on.
abbrev pub Goes : Attempt → Type 0
Goes closed = ⊥
Goes (chunk bytes) = is_empty bytes ≡ false
Goes interrupted = Unit
Goes (would_block elapsed poll) =
    (elapsed ≡ false) × ((events : Revents) × (poll ≡ ok events) × (after_poll events ≡ ok tt))
Goes (broken error) = ⊥

await_whole :
    (frame : List ℕ) (attempts : List Attempt)
    → eligibility_frame_bytes ≤ length frame
    → await_frame frame attempts ≡ decoded_frame (read_eligibility frame)
unfolding await_frame
await_whole frame [] h = rw (ltb-eq_false (length frame) eligibility_frame_bytes h) refl
await_whole frame (attempt ∷ rest) h =
    rw (ltb-eq_false (length frame) eligibility_frame_bytes h) refl

append_nothing : (s t : List ℕ) → length t ≡ 0 → s ++ t ≡ s
append_nothing s [] h = append-nil s
append_nothing s (c ∷ t) h = absurd (omega arith)

-- What one attempt makes of a frame that is not whole, if the rest of the wait is known.
await_short :
    (frame : List ℕ) (attempt : Attempt) (rest : List Attempt)
    → ltb (length frame) eligibility_frame_bytes ≡ true
    → Goes attempt
    → length (frame ++ delivered (attempt ∷ rest)) ≡ eligibility_frame_bytes
    → ((next : List ℕ)
        → length (next ++ delivered rest) ≡ eligibility_frame_bytes
        → await_frame next rest ≡ decoded_frame (read_eligibility (next ++ delivered rest)))
    → await_frame frame (attempt ∷ rest)
      ≡ decoded_frame (read_eligibility (frame ++ delivered (attempt ∷ rest)))
unfolding await_frame
await_short frame closed rest short goes whole later = absurd goes
await_short frame (broken error) rest short goes whole later = absurd goes
await_short frame interrupted rest short goes whole later = rw short (later frame whole)
await_short frame (would_block elapsed poll) rest short (early, (events, polled, calm)) whole
      later =
    rw (short, early, polled, calm) (later frame whole)
await_short frame (chunk bytes) rest short goes whole later =
    let room : length bytes ≤ eligibility_frame_bytes - length frame = omega (
      arith,
      length-append frame (bytes ++ delivered rest),
      length-append bytes (delivered rest),
    ) in
    let split = append_assoc frame bytes (delivered rest) in
    rw (short, goes, take_short (eligibility_frame_bytes - length frame) bytes room, ← split)
      (later (frame ++ bytes) (rw split whole))

-- Attempts that go on and bring eight bytes in all, in whatever pieces.
await_frame-delivered :
    (frame : List ℕ) (attempts : List Attempt)
    → All Goes attempts
    → length (frame ++ delivered attempts) ≡ eligibility_frame_bytes
    → await_frame frame attempts ≡ decoded_frame (read_eligibility (frame ++ delivered attempts))
await_frame-delivered frame [] goes whole =
    rw append-nil (await_whole frame [] (omega (arith, length-append {0} frame [], whole)))
await_frame-delivered frame (attempt ∷ rest) goes whole =
    elim (Bool-cases (ltb (length frame) eligibility_frame_bytes)) [
      | inl short ↦
          await_short frame attempt rest short goes.0 whole
            (λ next whole'. await_frame-delivered next rest goes.1 whole')
      | inr full ↦
          let enough : eligibility_frame_bytes ≤ length frame = ground arith in
          await_whole frame (attempt ∷ rest) enough
          ∙ ap (λ s. decoded_frame (read_eligibility s))
              (sym (
                append_nothing frame (delivered (attempt ∷ rest))
                  (omega (arith, length-append frame (delivered (attempt ∷ rest))))))
    ]

-- A frame that comes in any number of pieces, with interrupted reads and waits between them that do
-- not run out, is the state that the broker begins with.
pub read_initial_eligibility-delivered :
    (attempts : List Attempt) (state : EligibilityState)
    → All Goes attempts
    → delivered attempts ≡ eligibility_frame state
    → read_initial_eligibility attempts ≡ ok state
unfolding read_initial_eligibility
read_initial_eligibility-delivered attempts state goes same =
    await_frame-delivered [] attempts goes (ap length same ∙ length-eligibility_frame state)
    ∙ ap (λ s. decoded_frame (read_eligibility s))
        (same ∙ sym (append-nil (eligibility_frame state)))
    ∙ ap decoded_frame (read_eligibility-eligibility_frame state [])

-- Cutting a piece to the room that is left does not change the first eight bytes.
take_piece :
    (frame bytes more : List ℕ)
    → length frame ≤ 8
    → take 8 ((frame ++ take (8 - length frame) bytes) ++ more) ≡ take 8 (frame ++ (bytes ++ more))
take_piece frame bytes more fits = elim (Bool-cases (ltb (8 - length frame) (length bytes))) [
  | inr small ↦
      rw (take_short (8 - length frame) bytes (ground arith))
        (ap (take 8) (append_assoc frame bytes more))
  | inl large ↦
      let n = 8 - length frame in
      let cut : n ≤ length bytes = ground arith in
      let next = frame ++ take n bytes in
      let eight : length next ≡ 8 =
        omega (arith, length-append frame (take n bytes), length-take_le n bytes cut) in
      take-append_le 8 next more (omega arith)
      ∙ take_all 8 next eight
      ∙ sym (
          take-append_ge 8 frame (bytes ++ more) fits
          ∙ ap (λ t. frame ++ t) (take-append_le n bytes more cut))
]

decoded_frame-eq-ok :
    (read : Result ProtocolError EligibilityState) (state : EligibilityState)
    → decoded_frame read ≡ ok state
    → read ≡ ok state
decoded_frame-eq-ok (ok found) state h = cc
decoded_frame-eq-ok (err e) state h = absurd (cc)

-- A whole frame that is read.
read_whole :
    (frame more : List ℕ) (state : EligibilityState)
    → length frame ≡ 8
    → All IsByte frame
    → decoded_frame (read_eligibility frame) ≡ ok state
    → take 8 (frame ++ more) ≡ eligibility_frame state
read_whole frame more state whole bytes h =
    take-append_le 8 frame more (omega arith)
    ∙ sym (
        eligibility_frame-read_eligibility frame state bytes
          (decoded_frame-eq-ok (read_eligibility frame) state h))

-- What one attempt leads to.
sound_short :
    (frame : List ℕ) (attempt : Attempt) (rest : List Attempt) (state : EligibilityState)
    → ltb (length frame) eligibility_frame_bytes ≡ true
    → All IsByte (frame ++ delivered (attempt ∷ rest))
    → await_frame frame (attempt ∷ rest) ≡ ok state
    → ((next : List ℕ)
        → length next ≤ 8
        → All IsByte (next ++ delivered rest)
        → await_frame next rest ≡ ok state
        → take 8 (next ++ delivered rest) ≡ eligibility_frame state)
    → take 8 (frame ++ delivered (attempt ∷ rest)) ≡ eligibility_frame state
unfolding await_frame
sound_short frame closed rest state short bytes h later = absurd (cc (rw short at h))
sound_short frame (broken error) rest state short bytes h later = absurd (cc (rw short at h))
sound_short frame interrupted rest state short bytes h later =
    later frame (ground arith) bytes (rw short at h)
sound_short frame (would_block elapsed poll) rest state short bytes h later =
    elim (Bool-cases elapsed) [
      | inl late ↦ absurd (cc (rw (short, late) at h))
      | inr early ↦
          let (events, polled, more) = >>=-eq-ok (map_err failed poll) _ (rw (short, early) at h) in
          later frame (ground arith) bytes (>>-eq-ok (after_poll events) _ more).1
    ]
sound_short frame (chunk sent) rest state short bytes h later =
    let room = eligibility_frame_bytes - length frame in
    let next = frame ++ take room sent in
    let fits : length frame ≤ 8 = ground arith in
    let sent_bytes = All-append_right IsByte frame (sent ++ delivered rest) bytes in
    elim (Bool-cases (is_empty sent)) [
      | inl none_sent ↦ absurd (cc (rw (short, none_sent) at h))
      | inr some_sent ↦
          sym (take_piece frame sent (delivered rest) fits)
          ∙ later next
              (omega (arith, length-append frame (take room sent), length-take_bound room sent))
              (All-append IsByte next (delivered rest)
                (All-append IsByte frame (take room sent)
                  (All-append_left IsByte frame (sent ++ delivered rest) bytes)
                  (All-take IsByte room sent
                    (All-append_left IsByte sent (delivered rest) sent_bytes)))
                (All-append_right IsByte sent (delivered rest) sent_bytes))
              (rw (short, some_sent) at h)
    ]

await_frame_sound :
    (frame : List ℕ) (attempts : List Attempt) (state : EligibilityState)
    → length frame ≤ 8
    → All IsByte (frame ++ delivered attempts)
    → await_frame frame attempts ≡ ok state
    → take 8 (frame ++ delivered attempts) ≡ eligibility_frame state
unfolding await_frame
await_frame_sound frame [] state fits bytes h =
    elim (Bool-cases (ltb (length frame) eligibility_frame_bytes)) [
      | inl short ↦ absurd (cc (rw short at h))
      | inr full ↦
          read_whole frame [] state (ground arith) (All-append_left IsByte frame [] bytes)
            (rw full at h)
    ]
await_frame_sound frame (attempt ∷ rest) state fits bytes h =
    elim (Bool-cases (ltb (length frame) eligibility_frame_bytes)) [
      | inl short ↦
          sound_short frame attempt rest state short bytes h
            (λ next fits' bytes' h'. await_frame_sound next rest state fits' bytes' h')
      | inr full ↦
          read_whole frame (delivered (attempt ∷ rest)) state (ground arith)
            (All-append_left IsByte frame (delivered (attempt ∷ rest)) bytes) (rw full at h)
    ]

-- Whatever state the broker begins with, the first eight bytes that it was sent are the frame of it,
-- in whatever pieces they came.
pub read_initial_eligibility_sound :
    (attempts : List Attempt) (state : EligibilityState)
    → All IsByte (delivered attempts)
    → read_initial_eligibility attempts ≡ ok state
    → take 8 (delivered attempts) ≡ eligibility_frame state
unfolding read_initial_eligibility
read_initial_eligibility_sound attempts state bytes h =
    await_frame_sound [] attempts state (omega arith) bytes h
