-- ===== src/Broker/Runtime/Answers.antt =====
-- The answers of the loop of crates/agent-seat-activity-broker/src/main.rs to the provider.
use agent_seat_proto.Prelude.{
  ℕ, ◌≡◌, refl, sym, ◌∙◌, arith, true, Option, none, some, List, ◌++◌, ok, Result, inl, inr,
  Bool-cases, All, is_ok,
}
use agent_seat_proto.Broker.Protocol.{
  BrokerStatus, ProtocolError, ready, encode, read_status_request, read_status_response,
}
use agent_seat_proto.Broker.Protocol.Frames.{Valid, read_status_response-encode}
use agent_seat_proto.Broker.Runtime.{
  Round, Broker, Turn, Served, Stream, is_live, observe, respond, answer, round, run_rounds,
}
use agent_seat_proto.Broker.Runtime.Invariant.{Inv, round-Inv, run_rounds-Inv, round-eq-ok}
use agent_seat_proto.Broker.Runtime.Quiet.{
  Quiet, round-status, observe-stopped, run_rounds-live_iff, observe-live_iff,
}

-- No frame, or the encoding of the status.
abbrev Encodes : BrokerStatus → Option (List ℕ) → Type 0
Encodes status none = Unit
Encodes status (some frame) = frame ≡ encode status

respond-Encodes :
    (status : BrokerStatus) (stream : Stream) (r : Round)
    → Encodes status (respond status stream r).frame
unfolding respond
respond-Encodes status stream r = elim (Bool-cases (is_ok (read_status_request r.request))) [
  | inr bad ↦ rw bad tt
  | inl good ↦ elim (Bool-cases r.written) [
    | inr unwritten ↦ rw (good, unwritten) tt
    | inl written ↦ elim (Bool-cases r.flushed) [
      | inr unflushed ↦ rw (good, written, unflushed) refl
      | inl flushed ↦ rw (good, written, flushed) refl
    ]
  ]
]

answer-Encodes :
    (status : BrokerStatus) (polled current : Option Stream) (r : Round)
    → Encodes status (answer status polled current r).frame
unfolding answer
answer-Encodes status none current r = tt
answer-Encodes status (some polled) none r = tt
answer-Encodes status (some polled) (some stream) r =
    ground (arith, respond-Encodes status stream r)

-- A frame that a round sends carries the status that the broker has after it.
round-Encodes :
    (uid : ℕ) (b : Broker) (r : Round) (t : Turn)
    → round uid b r ≡ ok t
    → Encodes t.broker.status t.frame
round-Encodes uid b r t done =
    let (p, same, (current, framed)) = round-eq-ok uid b r t done in
    rw (same, framed) (answer-Encodes (observe b r).status b.provider current r)

module _ (i : ℕ) (enrolled : List ℕ) where
  -- Whatever happened, what the provider reads of an answer is the broker's status after the round
  -- that sent it: a valid one, of this instance.
  pub answered-status :
      (uid : ℕ) (b : Broker) (r : Round) (t : Turn) (frame rest : List ℕ)
      → Inv i enrolled b
      → round uid b r ≡ ok t
      → t.frame ≡ some frame
      → (read_status_response (frame ++ rest) ≡ ok t.broker.status)
        × Valid t.broker.status
        × (t.broker.status.instance_id ≡ i)
  answered-status uid b r t frame rest inv done sent =
      let after = round-Inv i enrolled uid b r t done inv in
      let is : frame ≡ encode t.broker.status = rw sent at (round-Encodes uid b r t done) in
      (
        rw is (read_status_response-encode t.broker.status rest after.valid),
        after.valid,
        after.same_instance,
      )

  -- If the provider reads in an answer that the broker is ready, then the broker had its evidence when
  -- the rounds began, and every round up to the one that sent the answer was quiet.
  pub ready_answer-Quiet :
      (uid : ℕ) (b : Broker) (before : List Round) (s : Served) (r : Round) (t : Turn)
      (frame rest : List ℕ) (status : BrokerStatus)
      → Inv i enrolled b
      → run_rounds uid b before ≡ ok s
      → round uid s.broker r ≡ ok t
      → t.frame ≡ some frame
      → read_status_response (frame ++ rest) ≡ ok status
      → status.state ≡ ready
      → (is_live b.status.state ≡ true) × All (Quiet enrolled) before × Quiet enrolled r
  ready_answer-Quiet uid b before s r t frame rest status inv ran done sent read is =
      elim (Bool-cases (is_live s.broker.status.state)) [
        | inl on ↦
            let (first, quiet) = (run_rounds-live_iff i enrolled uid b before s inv ran).0 on in
            (first, quiet, (observe-live_iff i enrolled s.broker r reached on).0 (rw (← now) live))
        | inr off ↦ absurd (cc (observe-stopped i enrolled s.broker r reached off, now, live, off))
      ]
    where
      reached : Inv i enrolled s.broker
      reached = run_rounds-Inv i enrolled uid b before s ran inv

      same_status : ◌≡◌ {A = Result ProtocolError BrokerStatus} (ok status) (ok t.broker.status)
      same_status = sym read ∙ (answered-status uid s.broker r t frame rest reached done sent).0

      now : t.broker.status ≡ (observe s.broker r).status
      now = round-status i enrolled uid s.broker r t done

      live : is_live t.broker.status.state ≡ true
      live = cc (same_status, is)
