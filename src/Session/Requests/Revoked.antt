-- ===== src/Session/Requests/Revoked.antt =====
-- Sessions of crates/agent-seat-x11/src/session.rs whose permit the gate has revoked.
use agent_seat_proto.Prelude.{
  ℕ, zero, suc, ◌≡◌, refl, ap, Bool, true, false, Bool-cases, inl, inr, String, List, [], ◌∷◌, ◌++◌,
  Result, ok, err,
}
use agent_seat_proto.Proto.Capability.{Capability}
use agent_seat_proto.Proto.Call.{Call}
use agent_seat_proto.Proto.Replies.{Outcome}
use agent_seat_proto.Proto.Codec.{ReadFrame, message, clean_eof}
use agent_seat_proto.Proto.Messages.{ClientMessage, hello, request}
use agent_seat_proto.Seat.Gate.{accepts}
use agent_seat_proto.Session.Handshake.{Delivery}
use agent_seat_proto.Session.Requests.{
  Arrival, Served, Handling, stop, prepend, handle, reply_to, answer, revoke, round, await, serve,
}

-- Two sessions that did the same to the provider.
pub record Alike {S : Type 0} (s t : Served S) : Type 0 where
  pub same_state : s.state ≡ t.state
  pub same_calls : s.calls ≡ t.calls

reply_to-Alike :
    {S : Type 0} (h : Handling S) (write : Result String (Unit {0})) (rest rest' : S → Served S)
    → ((s : S) → Alike (rest s) (rest' s))
    → Alike (reply_to h write rest) (reply_to h write rest')
unfolding reply_to prepend
reply_to-Alike h (ok tt) rest rest' alike = record {
  same_state = (alike h.state).same_state;
  same_calls = ap (λ c. h.calls ++ c) (alike h.state).same_calls;
}
reply_to-Alike h (err e) rest rest' alike = record { same_state = refl; same_calls = refl }

module _ {S : Type 0} (provider_call : Call → S → Outcome × S) (allowed : List Capability) where
  round-Alike :
      (permit_word : ℕ) (a : Arrival) (frame : Result String (ReadFrame ClientMessage)) (state : S)
      (rest rest' : S → Served S)
      → ((s : S) → Alike (rest s) (rest' s))
      → Alike
          (round provider_call allowed permit_word a frame state rest)
          (round provider_call allowed permit_word a frame state rest')
  unfolding round stop revoke answer
  round-Alike permit_word a (err e) state rest rest' h = record {
    same_state = refl;
    same_calls = refl;
  }
  round-Alike permit_word a (ok clean_eof) state rest rest' h = record {
    same_state = refl;
    same_calls = refl;
  }
  round-Alike permit_word a (ok (message (ClientMessage.goodbye g))) state rest rest' h = record {
    same_state = refl;
    same_calls = refl;
  }
  round-Alike permit_word a (ok (message (hello g))) state rest rest' h = record {
    same_state = refl;
    same_calls = refl;
  }
  round-Alike permit_word a (ok (message (request r))) state rest rest' h =
      elim (Bool-cases (accepts a.gate permit_word)) [
        | inl on ↦ rw on (reply_to-Alike (handle provider_call allowed r state) _ rest rest' h)
        | inr off ↦ rw off (record { same_state = refl; same_calls = refl })
      ]

  await-Alike :
      (permit_word : ℕ) (active : Bool) (a : Arrival) (wait : Result String Bool) (state : S)
      (rest rest' : S → Served S)
      → ((s : S) → Alike (rest s) (rest' s))
      → Alike
          (await provider_call allowed permit_word active a wait state rest)
          (await provider_call allowed permit_word active a wait state rest')
  unfolding await stop
  await-Alike permit_word true a (err e) state rest rest' h = record {
    same_state = refl;
    same_calls = refl;
  }
  await-Alike permit_word false a (err e) state rest rest' h =
      round-Alike permit_word a a.frame state rest rest' h
  await-Alike permit_word true a (ok true) state rest rest' h = record {
    same_state = refl;
    same_calls = refl;
  }
  await-Alike permit_word true a (ok false) state rest rest' h =
      round-Alike permit_word a a.frame state rest rest' h
  await-Alike permit_word false a (ok stopping) state rest rest' h =
      round-Alike permit_word a a.frame state rest rest' h

  -- A round whose check is refused leaves the provider alone, and so the session ends.
  round-refused :
      (permit_word : ℕ) (a : Arrival) (frame : Result String (ReadFrame ClientMessage)) (state : S)
      (rest : S → Served S)
      → accepts a.gate permit_word ≡ false
      → Alike (round provider_call allowed permit_word a frame state rest) (stop state (ok tt) [])
  unfolding round stop revoke
  round-refused permit_word a (err e) state rest off = record {
    same_state = refl;
    same_calls = refl;
  }
  round-refused permit_word a (ok clean_eof) state rest off = record {
    same_state = refl;
    same_calls = refl;
  }
  round-refused permit_word a (ok (message (ClientMessage.goodbye g))) state rest off = record {
    same_state = refl;
    same_calls = refl;
  }
  round-refused permit_word a (ok (message (hello g))) state rest off = record {
    same_state = refl;
    same_calls = refl;
  }
  round-refused permit_word a (ok (message (request r))) state rest off =
      rw off (record { same_state = refl; same_calls = refl })

  await-refused :
      (permit_word : ℕ) (active : Bool) (a : Arrival) (wait : Result String Bool) (state : S)
      (rest : S → Served S)
      → accepts a.gate permit_word ≡ false
      → Alike
          (await provider_call allowed permit_word active a wait state rest)
          (stop state (ok tt) [])
  unfolding await stop
  await-refused permit_word true a (err e) state rest off = record {
    same_state = refl;
    same_calls = refl;
  }
  await-refused permit_word false a (err e) state rest off =
      round-refused permit_word a a.frame state rest off
  await-refused permit_word true a (ok true) state rest off = record {
    same_state = refl;
    same_calls = refl;
  }
  await-refused permit_word true a (ok false) state rest off =
      round-refused permit_word a a.frame state rest off
  await-refused permit_word false a (ok stopping) state rest off =
      round-refused permit_word a a.frame state rest off

  -- Once the gate does not accept a session's permit, whatever the peer still sends does to the
  -- provider what closing the connection there would have done: the same calls, the same state.
  pub serve-revoked :
      (permit_word : ℕ) (active : Bool) (bound : ℕ) (last : Delivery) (before : List Arrival)
      (a : Arrival) (later : List Arrival) (state : S)
      → accepts a.gate permit_word ≡ false
      → Alike
          (serve provider_call allowed permit_word active bound last (before ++ a ∷ later) state)
          (serve provider_call allowed permit_word active bound last before state)
  unfolding serve
  serve-revoked permit_word active zero last before a later state off = record {
    same_state = refl;
    same_calls = refl;
  }
  serve-revoked permit_word active (suc bound) last [] a later state off =
      await-refused permit_word active a a.wait state _ off
  serve-revoked permit_word active (suc bound) last (b ∷ before) a later state off =
      await-Alike permit_word active b b.wait state _ _
        (λ s. serve-revoked permit_word active bound last before a later s off)
