-- ===== src/Session/Requests/Laws.antt =====
-- The calls of the provider that a session of crates/agent-seat-x11/src/session.rs makes.
use agent_seat_proto.Prelude.{
  ℕ, zero, suc, ◌≤◌, ◌≡◌, refl, arith, Bool, true, false, Bool-cases, inl, inr, String, List, [],
  ◌∷◌, All, length, length-append, All-append, Result, ok, err,
}
use agent_seat_proto.Proto.Capability.{Capability}
use agent_seat_proto.Proto.Call.{Call, Request}
use agent_seat_proto.Proto.Replies.{Outcome}
use agent_seat_proto.Proto.Codec.{ReadFrame, message, clean_eof}
use agent_seat_proto.Proto.Messages.{ClientMessage, hello, request}
use agent_seat_proto.Seat.Gate.{accepts}
use agent_seat_proto.Session.Grants.{authorized}
use agent_seat_proto.Session.Handshake.{Delivery}
use agent_seat_proto.Session.Requests.{
  Arrival, Served, Handling, stop, prepend, handle, outcome_of, called, reply_to, answer, revoke,
  round, await, serve,
}

-- The calls of a session, within its grant and a bound.
pub record Within {S : Type 0} (allowed : List Capability) (bound : ℕ) (s : Served S) : Type 0 where
  pub granted_calls : All (λ call. authorized call allowed ≡ true) s.calls
  pub few : length s.calls ≤ bound

no_calls :
    {S : Type 0} (allowed : List Capability) (bound : ℕ) (s : Served S)
    → s.calls ≡ []
    → Within allowed bound s
no_calls allowed bound s is = record { granted_calls = rw is tt; few = rw is (omega arith) }

-- The calls made for one request.
record OneOf {S : Type 0} (allowed : List Capability) (h : Handling S) : Type 0 where
  held : All (λ call. authorized call allowed ≡ true) h.calls
  one : length h.calls ≤ 1

reply_to-Within :
    {S : Type 0} (allowed : List Capability) (bound : ℕ) (h : Handling S)
    (write : Result String (Unit {0})) (rest : S → Served S)
    → OneOf allowed h
    → ((s : S) → Within allowed bound (rest s))
    → Within allowed (suc bound) (reply_to h write rest)
unfolding reply_to prepend
reply_to-Within allowed bound h (ok tt) rest made within =
    let w = within h.state in
    let one = made.one in
    let few = w.few in
    record {
      granted_calls = All-append _ h.calls (rest h.state).calls made.held w.granted_calls;
      few = omega (arith, length-append h.calls (rest h.state).calls);
    }
reply_to-Within allowed bound h (err e) rest made within =
    let one = made.one in record { granted_calls = made.held; few = omega arith }

module _ {S : Type 0} (provider_call : Call → S → Outcome × S) (allowed : List Capability) where
  handle-OneOf : (r : Request) (state : S) → OneOf allowed (handle provider_call allowed r state)
  unfolding handle outcome_of called
  handle-OneOf r state = elim (Bool-cases (authorized r.call allowed)) [
    | inl on ↦ rw on (record { held = (on, tt); one = omega arith })
    | inr off ↦ rw off (record { held = tt; one = omega arith })
  ]

  round-Within :
      (permit_word bound : ℕ) (a : Arrival) (frame : Result String (ReadFrame ClientMessage))
      (state : S) (rest : S → Served S)
      → ((s : S) → Within allowed bound (rest s))
      → Within allowed (suc bound) (round provider_call allowed permit_word a frame state rest)
  unfolding round stop revoke answer
  round-Within permit_word bound a (err e) state rest h = no_calls allowed (suc bound) _ refl
  round-Within permit_word bound a (ok clean_eof) state rest h = no_calls allowed (suc bound) _ refl
  round-Within permit_word bound a (ok (message (ClientMessage.goodbye g))) state rest h =
      no_calls allowed (suc bound) _ refl
  round-Within permit_word bound a (ok (message (hello g))) state rest h =
      no_calls allowed (suc bound) _ refl
  round-Within permit_word bound a (ok (message (request r))) state rest h =
      elim (Bool-cases (accepts a.gate permit_word)) [
        | inl on ↦ rw on (
            reply_to-Within allowed bound (handle provider_call allowed r state) _ rest
              (handle-OneOf r state) h)
        | inr off ↦ rw off (no_calls allowed (suc bound) _ refl)
      ]

  await-Within :
      (permit_word : ℕ) (active : Bool) (bound : ℕ) (a : Arrival) (wait : Result String Bool)
      (state : S) (rest : S → Served S)
      → ((s : S) → Within allowed bound (rest s))
      → Within allowed
          (suc bound)
          (await provider_call allowed permit_word active a wait state rest)
  unfolding await stop
  await-Within permit_word true bound a (err e) state rest h = no_calls allowed (suc bound) _ refl
  await-Within permit_word false bound a (err e) state rest h =
      round-Within permit_word bound a a.frame state rest h
  await-Within permit_word true bound a (ok true) state rest h = no_calls allowed (suc bound) _ refl
  await-Within permit_word true bound a (ok false) state rest h =
      round-Within permit_word bound a a.frame state rest h
  await-Within permit_word false bound a (ok stopping) state rest h =
      round-Within permit_word bound a a.frame state rest h

  -- Whatever a peer sends, a session makes no call of the provider that is not authorized by the
  -- grant, and no more calls than its bound on requests.
  pub serve-Within :
      (permit_word : ℕ) (active : Bool) (bound : ℕ) (last : Delivery) (arrivals : List Arrival)
      (state : S)
      → Within allowed bound
          (serve provider_call allowed permit_word active bound last arrivals state)
  unfolding serve stop
  serve-Within permit_word active zero last arrivals state = no_calls allowed 0 _ refl
  serve-Within permit_word active (suc bound) last [] state = no_calls allowed (suc bound) _ refl
  serve-Within permit_word active (suc bound) last (a ∷ later) state =
      await-Within permit_word active bound a a.wait state _
        (λ s. serve-Within permit_word active bound last later s)
