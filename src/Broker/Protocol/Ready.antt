-- ===== src/Broker/Protocol/Ready.antt =====
-- The provider's test of two status frames, crates/agent-seat-activity-broker/src/lib.rs.
use agent_seat_proto.Prelude.{◌≡◌, refl, sym, ap, ◌∙◌, arith, true, ◌↔◌, ==_self}
use agent_seat_proto.Broker.Protocol.{
  BrokerStatus, BrokerState, StopReason, arming, ready, stopped, unavailable, nothing, activity,
  event_loss, evidence_lost, internal, eligibility_changed, is_same_ready, is_ready, valid_state,
}
use agent_seat_proto.Broker.Protocol.Frames.{Valid}

ready_reason : (r : StopReason) → valid_state ready r ≡ true → r ≡ nothing
unfolding valid_state
ready_reason nothing h = refl
ready_reason activity h = absurd cc
ready_reason event_loss h = absurd cc
ready_reason evidence_lost h = absurd cc
ready_reason internal h = absurd cc
ready_reason eligibility_changed h = absurd cc

ready_state : (s : BrokerState) → is_ready s ≡ true → s ≡ ready
ready_state arming h = absurd cc
ready_state ready h = refl
ready_state stopped h = absurd cc
ready_state unavailable h = absurd cc

record Same (a b : BrokerStatus) : Type 0 where
  first : is_ready a.state ≡ true
  second : is_ready b.state ≡ true
  instance_same : a.instance_id ≡ b.instance_id
  epoch_same : a.epoch ≡ b.epoch

is_same_ready-Same : (a b : BrokerStatus) → is_same_ready a b ≡ true → Same a b
unfolding is_same_ready
is_same_ready-Same a b h = record {
  first = ground arith;
  second = ground arith;
  instance_same = ground arith;
  epoch_same = ground arith;
}

is_same_ready_self : (a : BrokerStatus) → a.state ≡ ready → is_same_ready a a ≡ true
unfolding is_same_ready
is_same_ready_self a on = rw (on, ==_self a.instance_id, ==_self a.epoch) refl

-- Two valid statuses pass the provider's test exactly when they are the same status, and ready.
pub is_same_ready_iff :
    (a b : BrokerStatus)
    → Valid a
    → Valid b
    → (is_same_ready a b ≡ true) ↔ ((a ≡ b) × (a.state ≡ ready))
is_same_ready_iff a b valid_a valid_b = (forward, back)
  where
    forward : is_same_ready a b ≡ true → (a ≡ b) × (a.state ≡ ready)
    forward h =
        let same = is_same_ready-Same a b h in
        let state_a = ready_state a.state same.first in
        let state_b = ready_state b.state same.second in
        let reason_a =
          ready_reason a.reason (ap (λ s. valid_state s a.reason) (sym state_a) ∙ valid_a.pair) in
        let reason_b =
          ready_reason b.reason (ap (λ s. valid_state s b.reason) (sym state_b) ∙ valid_b.pair) in
        (
          (λ i. record {
            instance_id = same.instance_same i;
            epoch = same.epoch_same i;
            state = (state_a ∙ sym state_b) i;
            reason = (reason_a ∙ sym reason_b) i;
          }),
          state_a,
        )

    back : (a ≡ b) × (a.state ≡ ready) → is_same_ready a b ≡ true
    back (same, on) = rw (← same) (is_same_ready_self a on)
