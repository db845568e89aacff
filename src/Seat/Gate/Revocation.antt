-- ===== src/Seat/Gate/Revocation.antt =====
-- Revocation by the gate of crates/agent-seat-x11/src/seat.rs under steps of any callers.
use agent_seat_proto.Prelude.{
  ℕ, ◌+◌, ◌≤◌, ◌<◌, ◌≡◌, arith, String, Bool, true, false, ◌==◌, Bool-cases, inl, inr, some, Result,
  ok, ==_iff, ◌⊎◌, sym, ◌∙◌, ap,
}
use agent_seat_proto.Seat.Gate.{
  u64_max, is_enabled, SeatStatus, from_raw, permit, accepts, Caller, returned, looping, exchange,
  advance, turn, World, Reach, load, round, update, nobody, called,
}
use agent_seat_proto.Seat.Gate.Alone.{enabled_bound, checked_succ_below, odd_next}
use agent_seat_proto.Seat.Gate.Forward.{
  Since, Step-Sound, Reach-Sound, nobody-Sound, Reach-Since, Reach-mono, update_self,
}

-- A permit is the word it was issued at, enabled.
permit_word : (gate p : ℕ) → permit gate ≡ some p → (gate ≡ p) × (is_enabled p ≡ true)
unfolding permit
permit_word gate p issued = ground arith

accepts_past : (gate p : ℕ) → p < gate → accepts gate p ≡ false
unfolding accepts
accepts_past gate p past = ground arith

refused_past : (gate p : ℕ) → is_enabled p ≡ true → p ≤ gate → accepts gate p ≡ false → p < gate
unfolding accepts
refused_past gate p on known refused = ground arith

-- In any world the gate can come to, whatever calls overlap: a permit that was issued and that the
-- gate does not accept any longer is accepted in no later world.
pub permit-revoked :
    {x w v : World} (p : ℕ)
    → Reach nobody x
    → permit x.gate ≡ some p
    → Reach x w
    → accepts w.gate p ≡ false
    → Reach w v
    → accepts v.gate p ≡ false
permit-revoked {x} {w} {v} p start issued between refused after =
    let sound = Reach-Sound start nobody-Sound in
    let (word, on) = permit_word x.gate p issued in
    let known = Reach-mono between sound in
    let past = refused_past w.gate p on (omega arith) refused in
    let later = Reach-mono after (Reach-Sound between sound) in accepts_past v.gate p (omega arith)

turn_off :
    (current gate : ℕ)
    → current ≤ u64_max
    → is_enabled current ≡ true
    → turn false current gate ≡ exchange false current (current + 1) gate
unfolding turn advance
turn_off current gate bounded on =
    let (below, odd) = enabled_bound current bounded on in
    rw (on, checked_succ_below current below, odd_next current below odd)

turn_already :
    (current gate : ℕ)
    → is_enabled current ≡ false
    → turn false current gate ≡ (returned (ok (from_raw current)), gate)
unfolding turn
turn_already current gate off = rw off

-- A round of a call to disable returns a status, with the word past what the call had seen if that
-- was enabled, or it goes on with a later word.
pub data Disabled (current gate : ℕ) (r : Caller × ℕ) : Type 0 where
  already :
      is_enabled current ≡ false
      → r ≡ (returned (ok (from_raw current)), gate)
      → Disabled current gate r
  moved :
      is_enabled current ≡ true
      → gate ≡ current
      → r ≡ (returned (ok (from_raw (current + 1))), current + 1)
      → Disabled current gate r
  again : current < gate → r ≡ (looping false gate, gate) → Disabled current gate r

disable_cases :
    (current gate : ℕ)
    → gate ≤ u64_max
    → current ≤ gate
    → Disabled current gate (turn false current gate)
disable_cases current gate bounded seen = elim (Bool-cases (is_enabled current)) [
  | inr off ↦ already off (turn_already current gate off)
  | inl on ↦ exchanged (Bool-cases (gate == current)) on
]
  where
    exchanged :
        ((gate == current) ≡ true) ⊎ ((gate == current) ≡ false)
        → is_enabled current ≡ true
        → Disabled current gate (turn false current gate)
    exchanged (inl met) on =
        moved on ((==_iff gate current).0 met)
          (turn_off current gate (omega arith) on ∙ (unfold exchange in rw met))
    exchanged (inr not_met) on =
        again (ground arith)
          (turn_off current gate (omega arith) on ∙ (unfold exchange in rw not_met))

earlier_word :
    (p current : ℕ) → is_enabled p ≡ true → is_enabled current ≡ false → p ≤ current → p < current
unfolding is_enabled
earlier_word p current on off known = ground arith

disable_past :
    {current gate : ℕ} {r : Caller × ℕ} {s : SeatStatus} (p : ℕ)
    → Disabled current gate r
    → current ≤ gate
    → is_enabled p ≡ true
    → p ≤ current
    → r.0 ≡ returned (ok s)
    → p < r.1
disable_past {current} p (already off is) seen on known done =
    let below = earlier_word p current on off known in rw is (omega arith)
disable_past p (moved now met is) seen on known done = rw is (omega arith)
disable_past p (again later is) seen on known done =
    absurd (going_on (sym (ap (λ q. q.0) is) ∙ done))
  where
    going_on : {e : Bool} {n : ℕ} {a : Result String SeatStatus} → looping e n ≡ returned a → ⊥
    going_on same = ground arith

loaded_Since :
    (w : World) (i : ℕ)
    → Since w.gate i (record { gate = w.gate; callers = update w.callers i (looping false w.gate) })
loaded_Since w i = record {
  floor = ground arith;
  mine = λ e n is.
      let same = sym (update_self w.callers i (looping false w.gate)) ∙ is in ground arith;
}

-- In any world the gate can come to, a round of a call to disable returns a status, never an error:
-- the old one if the word that it saw was disabled, the next word's if it was enabled and is still
-- there. Otherwise the call goes on, with a strictly later word.
pub disable-Disabled :
    {w : World} (i current : ℕ)
    → Reach nobody w
    → w.callers i ≡ looping false current
    → Disabled current w.gate (turn false current w.gate)
disable-Disabled {w} i current start is =
    let sound = Reach-Sound start nobody-Sound in
    disable_cases current w.gate sound.bounded (sound.seen i false current is)

-- A permit is issued, a call to disable loads the word later, and a round of that caller's returns
-- a status, with any steps of any callers between: no later world accepts the permit.
pub disable-revokes :
    {x w v u : World} (i p current : ℕ) (s : SeatStatus)
    → Reach nobody x
    → permit x.gate ≡ some p
    → Reach x w
    → (w.callers i ≡ called false)
    → Reach (record { gate = w.gate; callers = update w.callers i (looping false w.gate) }) v
    → v.callers i ≡ looping false current
    → (turn false current v.gate).0 ≡ returned (ok s)
    → Reach
        (record {
          gate = (turn false current v.gate).1;
          callers = update v.callers i (turn false current v.gate).0;
        })
        u
    → accepts u.gate p ≡ false
disable-revokes {x} {w} {v} {u} i p current s start issued before is during at done after =
    let sound = Reach-Sound start nobody-Sound in
    let (word, on) = permit_word x.gate p issued in
    let known = Reach-mono before sound in
    let loaded = Step-Sound (load i false is) (Reach-Sound before sound) in
    let called_sound = Reach-Sound during loaded in
    let since = Reach-Since during loaded (loaded_Since w i) in
    let seen = since.mine false current at in
    let rest = called_sound.seen i false current at in
    let past =
      disable_past p (disable_cases current v.gate called_sound.bounded rest) rest on (omega arith)
        done in
    let later = Reach-mono after (Step-Sound (round i false current at) called_sound) in
    accepts_past u.gate p (omega arith)
