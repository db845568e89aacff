-- ===== src/Broker/Runtime/Total.antt =====
-- The rounds of the broker's loop that end it, crates/agent-seat-activity-broker/src/main.rs.
use agent_seat_proto.Prelude.{
  ℕ, ◌≡◌, refl, false, ◌==◌, Option, none, some, List, [], ◌∷◌, All, ok, err, Bool-cases, inl, inr,
}
use agent_seat_proto.Broker.Runtime.{
  Accepted, would_block, accept_failed, unauthenticated, connected, Stream, Round, Broker, Turn,
  Served, is_lost, accept_provider, accept, answer, observe, attend, round, run_rounds,
}

-- The accept of a round, if there is one, does not fail.
abbrev pub Accepts : Accepted → Type 0
Accepts would_block = Unit
Accepts (accept_failed error) = ⊥
Accepts (unauthenticated error) = ⊥
Accepts (connected stream prepared) = prepared ≡ ok tt

-- The poll succeeds, the listener is there, and what it accepts can be used.
pub record Healthy (r : Round) : Type 0 where
  pub polls : r.polled ≡ ok tt
  pub listening : is_lost r.listener_events ≡ false
  pub accepts : Accepts r.accepted

accept_provider-total :
    (accepted : Accepted) (uid : ℕ)
    → Accepts accepted
    → (current : Option Stream) × (accept_provider accepted uid ≡ ok current)
unfolding accept_provider
accept_provider-total would_block uid h = (none, refl)
accept_provider-total (accept_failed error) uid h = absurd h
accept_provider-total (unauthenticated error) uid h = absurd h
accept_provider-total (connected stream (err e)) uid h = absurd (cc)
accept_provider-total (connected stream (ok _)) uid h = elim (Bool-cases (stream.peer_uid == uid)) [
  | inl own ↦ (some stream, rw own refl)
  | inr other ↦ (none, rw other refl)
]

accept-total :
    (uid : ℕ) (polled : Option Stream) (r : Round)
    → Healthy r
    → (current : Option Stream) × (accept uid polled r.listener_events r.accepted ≡ ok current)
unfolding accept
accept-total uid (some stream) r h = (some stream, refl)
accept-total uid none r h = elim (Bool-cases r.listener_events.readable) [
  | inl on ↦
      let (current, accepted) = accept_provider-total r.accepted uid h.accepts in
      (current, rw (h.listening, on) accepted)
  | inr off ↦ (none, rw (h.listening, off) refl)
]

round-total : (uid : ℕ) (b : Broker) (r : Round) → Healthy r → (t : Turn) × (round uid b r ≡ ok t)
unfolding round attend
round-total uid b r h =
    let (current, accepted) = accept-total uid b.provider r h in
    let sent = answer (observe b r).status b.provider current r in
    (
      record { broker = record (observe b r) { provider = sent.provider }; frame = sent.frame },
      rw (h.polls, accepted) refl,
    )

-- Whatever the devices, the eligibility channel and the provider do, the loop goes on through every
-- round whose poll succeeds and in which the listener is not lost and an accept, with the peer's
-- credentials and the socket's mode, does not fail.
pub run_rounds-total :
    (uid : ℕ) (b : Broker) (rs : List Round)
    → All Healthy rs
    → (s : Served) × (run_rounds uid b rs ≡ ok s)
unfolding run_rounds
run_rounds-total uid b [] h = (record { broker = b; frames = [] }, refl)
run_rounds-total uid b (r ∷ rs) h =
    let (t, turned) = round-total uid b r h.0 in
    let (rest, ran) = run_rounds-total uid t.broker rs h.1 in
    (record { broker = rest.broker; frames = t.frame ∷ rest.frames }, rw (turned, ran) refl)
