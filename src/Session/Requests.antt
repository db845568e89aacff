-- ===== src/Session/Requests.antt =====
-- The second half of `run` in crates/agent-seat-x11/src/session.rs: the request loop under the seat
-- permit, and `handle`. What `provider_call` does to the observer and the catalog, whose state is
-- `S`, is a parameter.
pub mod Laws
pub mod Revoked
use agent_seat_proto.Prelude.{
  ℕ, zero, suc, Bool, true, false, not, ◌&&◌, if◌then◌else◌, String, Option, none, some, List, [],
  ◌∷◌, ◌++◌, Result, ok, err, map_err,
}
use agent_seat_proto.Prelude.Text.{chars}
use agent_seat_proto.Proto.Capability.{Capability}
use agent_seat_proto.Proto.Hello.{ErrorCode, malformed, refused, revoked, session_closed}
use agent_seat_proto.Proto.Failure.{ProtocolError, Retry, never, reconnect}
use agent_seat_proto.Proto.Call.{Call, Request}
use agent_seat_proto.Proto.Replies.{Outcome, failure, Response}
use agent_seat_proto.Proto.Codec.{ReadFrame, message, clean_eof}
use agent_seat_proto.Proto.Messages.{ClientMessage, ServerMessage, hello, request, response}
use agent_seat_proto.Seat.Gate.{accepts}
use agent_seat_proto.Session.Grants.{authorized}
use agent_seat_proto.Session.Handshake.{
  SessionError, cannot_read_request, cannot_write_revoked, cannot_write_response, cannot_wait,
  cannot_write_terminal, Delivery, send, sent_of, Exit, close,
}

-- What one round of the loop meets: the wait of the persistent session (whether the provider is
-- stopping when it ends), the frame read, the word of the gate when it is checked, and the write.
pub record Arrival : Type 0 where
  pub wait : Result String Bool
  pub frame : Result String (ReadFrame ClientMessage)
  pub gate : ℕ
  pub write : Delivery

-- The result, the messages sent, the provider's state, and the calls made of it.
pub record Served (S : Type 0) : Type 0 where
  pub result : Result SessionError (Unit {0})
  pub sent : List ServerMessage
  pub state : S
  pub calls : List Call

unfoldable pub protocol_error : ErrorCode → Retry → String → Outcome
protocol_error code retry reason = failure (record {
  code = code;
  retry = retry;
  field = none;
  message = some (record { text = chars reason });
  current_generation = none;
  current_sequence = none;
})

abbrev pub revoked_outcome : Outcome
revoked_outcome = protocol_error revoked reconnect "operator seat generation was revoked"

module _ {S : Type 0} where
  -- A return of `run` in the loop.
  unfoldable pub stop : S → Result SessionError (Unit {0}) → List ServerMessage → Served S
  stop state result sent = record { result = result; sent = sent; state = state; calls = [] }

  abbrev pub stop_closed : S → Delivery → ErrorCode → String → Served S
  stop_closed state write code reason =
      stop state (close write code reason).result (close write code reason).sent

  -- A round that goes on: its message and its calls, before those of the rest.
  unfoldable pub prepend : ServerMessage → List Call → Served S → Served S
  prepend m calls rest = record rest { sent = m ∷ rest.sent; calls = calls ++ rest.calls }

  unfoldable pub revoke : Arrival → Request → S → Served S
  revoke a r state =
      let reply = response (record { id = r.id; outcome = revoked_outcome }) in
      stop state (map_err cannot_write_revoked (send reply a.write))
        (sent_of reply (send reply a.write))

-- What `handle` returns, with the state it leaves and the calls it has made of the provider.
pub record Handling (S : Type 0) : Type 0 where
  pub reply : Response
  pub state : S
  pub calls : List Call

-- An outcome with what led to it.
pub record Done (S : Type 0) : Type 0 where
  pub outcome : Outcome
  pub state : S
  pub calls : List Call

module _ {S : Type 0} where
  -- What a handled request leads to once its reply is written or not; `rest` is the session after it.
  unfoldable pub reply_to : Handling S → Result String (Unit {0}) → (S → Served S) → Served S
  reply_to h (ok _) rest = prepend (response h.reply) h.calls (rest h.state)
  reply_to h (err e) rest = record {
    result = err (cannot_write_response e);
    sent = [];
    state = h.state;
    calls = h.calls;
  }

module _ {S : Type 0} (provider_call : Call → S → Outcome × S) (allowed : List Capability) where
  -- A call of the provider, which is the only thing that is recorded.
  unfoldable pub called : Call → S → Done S
  called call state = record {
    outcome = (provider_call call state).0;
    state = (provider_call call state).1;
    calls = call ∷ [];
  }

  unfoldable pub outcome_of : Call → S → Done S
  outcome_of call state =
      if not (authorized call allowed)
      then record {
        outcome = protocol_error refused never "capability was not granted";
        state = state;
        calls = [];
      }
      else called call state

  unfoldable pub handle : Request → S → Handling S
  handle r state =
      let done = outcome_of r.call state in
      record {
        reply = record { id = r.id; outcome = done.outcome };
        state = done.state;
        calls = done.calls;
      }

  unfoldable pub answer : Arrival → Request → S → (S → Served S) → Served S
  answer a r state rest =
      let h = handle r state in reply_to h (send (response h.reply) a.write) rest

  unfoldable pub round :
      ℕ → Arrival → Result String (ReadFrame ClientMessage) → S → (S → Served S) → Served S
  round permit_word a (err e) state rest = stop state (err (cannot_read_request e)) []
  round permit_word a (ok clean_eof) state rest = stop state (ok tt) []
  round permit_word a (ok (message (request r))) state rest =
      if accepts a.gate permit_word then answer a r state rest else revoke a r state
  round permit_word a (ok (message (ClientMessage.goodbye g))) state rest = stop state (ok tt) []
  round permit_word a (ok (message (hello h))) state rest =
      stop_closed state a.write malformed "hello cannot be repeated"

  -- The wait before a read, in a persistent session.
  unfoldable pub await : ℕ → Bool → Arrival → Result String Bool → S → (S → Served S) → Served S
  await permit_word active a (err e) state rest =
      if active then stop state (err (cannot_wait e)) [] else round permit_word a a.frame state rest
  await permit_word active a (ok stopping) state rest =
      if active && stopping then stop state (ok tt) [] else round permit_word a a.frame state rest

  -- `for _ in 0..max_requests`; a stream that ends is a clean end.
  unfoldable pub serve : ℕ → Bool → ℕ → Delivery → List Arrival → S → Served S
  serve permit_word active zero last arrivals state =
      stop_closed state last session_closed "session request bound reached"
  serve permit_word active (suc bound) last [] state = stop state (ok tt) []
  serve permit_word active (suc bound) last (a ∷ later) state =
      await permit_word active a a.wait state
        (λ after. serve permit_word active bound last later after)
