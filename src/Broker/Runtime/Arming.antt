-- ===== src/Broker/Runtime/Arming.antt =====
-- The quiet interval and the deadline in the loop of crates/agent-seat-activity-broker/src/main.rs.
use agent_seat_proto.Prelude.{
  ℕ, ◌≡◌, ◌↔◌, refl, sym, ◌∙◌, arith, true, false, leb, Option, none, some, List, [], ◌∷◌, ok, inl,
  inr, Bool-cases, All, any, if◌then◌else◌,
}
use agent_seat_proto.Broker.Protocol.{BrokerState, ready}
use agent_seat_proto.Broker.Runtime.{
  Round, Broker, Turn, Served, is_live, is_arming, is_due, apply_update, become_ready, observe,
  round, run_rounds,
}
use agent_seat_proto.Broker.Runtime.Invariant.{
  Inv, round-Inv, run_rounds-Inv, run_rounds_done, run_rounds_step, round-eq-ok,
}
use agent_seat_proto.Broker.Runtime.Quiet.{
  Quiet, terminal_update-none_iff, observe-live_iff, round-status, run_rounds-live_iff,
}

-- What is left of a deadline after rounds.
abbrev remaining : Option ℕ → List Round → Option ℕ
remaining deadline rs = if any (λ r. is_due deadline r.now) rs then none else deadline

remaining-none : (rs : List Round) → remaining none rs ≡ none
remaining-none [] = refl
remaining-none (r ∷ rs) = remaining-none rs

ready_of_live :
    (state : BrokerState) → is_live state ≡ true → is_arming state ≡ false → state ≡ ready
ready_of_live state live off = ground arith

live_of_arming : (state : BrokerState) → is_arming state ≡ true → is_live state ≡ true
live_of_arming state h = ground arith

module _ (i : ℕ) (enrolled : List ℕ) where
  observe-deadline :
      (b : Broker) (r : Round)
      → Inv i enrolled b
      → is_live b.status.state ≡ true
      → Quiet enrolled r
      → (observe b r).arm_deadline ≡ (if is_due b.arm_deadline r.now then none else b.arm_deadline)
  unfolding observe apply_update become_ready
  observe-deadline b r inv live quiet =
      rw ((terminal_update-none_iff i enrolled b r inv live).1 quiet)
        (elim (Bool-cases (is_due b.arm_deadline r.now)) [
          | inl due ↦ rw due refl
          | inr early ↦ rw early refl
        ])

  round-deadline :
      (uid : ℕ) (b : Broker) (r : Round) (t : Turn)
      → Inv i enrolled b
      → is_live b.status.state ≡ true
      → Quiet enrolled r
      → round uid b r ≡ ok t
      → t.broker.arm_deadline ≡ (if is_due b.arm_deadline r.now then none else b.arm_deadline)
  round-deadline uid b r t inv live quiet done =
      let (p, same, _) = round-eq-ok uid b r t done in rw same (observe-deadline b r inv live quiet)

  run_rounds-deadline :
      (uid : ℕ) (b : Broker) (rs : List Round) (s : Served)
      → Inv i enrolled b
      → run_rounds uid b rs ≡ ok s
      → is_live b.status.state ≡ true
      → All (Quiet enrolled) rs
      → s.broker.arm_deadline ≡ remaining b.arm_deadline rs
  run_rounds-deadline uid b [] s inv done live quiet = rw (run_rounds_done uid b s done) refl
  run_rounds-deadline uid b (r ∷ rs) s inv done live (calm, quiet) =
      let (t, rest, turned, ran, same, _) = run_rounds_step uid b r rs s done in
      let on = (observe-live_iff i enrolled b r inv live).1 calm in
      let later =
        run_rounds-deadline uid t.broker rs rest (round-Inv i enrolled uid b r t turned inv) ran
          (rw (round-status i enrolled uid b r t turned) on) quiet in
      let left = round-deadline uid b r t inv live calm turned in
      elim (Bool-cases (is_due b.arm_deadline r.now)) [
        | inl due ↦ rw (same, due) (later ∙ rw (left, due) (remaining-none rs))
        | inr early ↦ rw (same, early) (later ∙ rw (left, early) refl)
      ]

  -- An arming broker is ready after rounds exactly if every one of them was quiet and one of them came
  -- at the end of the quiet interval or later.
  pub run_rounds-ready_iff :
      (uid : ℕ) (b : Broker) (deadline : ℕ) (rs : List Round) (s : Served)
      → Inv i enrolled b
      → b.arm_deadline ≡ some deadline
      → run_rounds uid b rs ≡ ok s
      → (s.broker.status.state ≡ ready)
        ↔ (All (Quiet enrolled) rs × (any (λ r. leb deadline r.now) rs ≡ true))
  run_rounds-ready_iff uid b deadline rs s inv set done = (
    λ is. let quiet = (stays.0 (rw is refl)).1 in (quiet, overdue is quiet),
    λ h.
        ready_of_live s.broker.status.state (stays.1 (live, h.0))
          (sym after.armed ∙ rw (run_rounds-deadline uid b rs s inv done live h.0, set, h.1) refl),
  )
    where
      after : Inv i enrolled s.broker
      after = run_rounds-Inv i enrolled uid b rs s done inv

      live : is_live b.status.state ≡ true
      live = live_of_arming b.status.state (sym inv.armed ∙ rw set refl)

      stays :
          (is_live s.broker.status.state ≡ true)
          ↔ ((is_live b.status.state ≡ true) × All (Quiet enrolled) rs)
      stays = run_rounds-live_iff i enrolled uid b rs s inv done

      overdue :
          s.broker.status.state ≡ ready
          → All (Quiet enrolled) rs
          → any (λ (r : Round). leb deadline r.now) rs ≡ true
      overdue is quiet = elim (Bool-cases (any (λ (r : Round). leb deadline r.now) rs)) [
        | inl on ↦ on
        | inr off ↦ absurd (
            cc (
              rw (is, run_rounds-deadline uid b rs s inv done live quiet, set, off) at after.armed))
      ]
