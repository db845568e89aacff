-- ===== src/Tests/Gate.antt =====
-- The gate: a permit is issued to one session and revoked by another caller.
use agent_seat_proto.Prelude.{◌≡◌, refl, arith, true, false, some, ok}
use agent_seat_proto.Seat.Gate.{
  World, called, looping, returned, Reach, here, further, begin, load, round, nobody, update, turn,
  set_enabled, from_raw, permit, accepts, is_settled, is_enabled, checked_succ, advance, exchange,
}
use agent_seat_proto.Seat.Gate.Alone.{Settled, set_enabled-Settled}
use agent_seat_proto.Seat.Gate.Revocation.{
  Disabled, disable-Disabled, disable-revokes, permit-revoked,
}

-- Caller 0 enables an unused gate.
abbrev began : World
began = record nobody { callers = update nobody.callers 0 (called true) }

abbrev loaded : World
loaded = record began { callers = update began.callers 0 (looping true began.gate) }

abbrev enabled_world : World
enabled_world = record {
  gate = (turn true 0 loaded.gate).1;
  callers = update loaded.callers 0 (turn true 0 loaded.gate).0;
}

-- Caller 1 disables it.
abbrev asked : World
asked = record enabled_world { callers = update enabled_world.callers 1 (called false) }

abbrev seen : World
seen = record { gate = asked.gate; callers = update asked.callers 1 (looping false asked.gate) }

abbrev disabled_world : World
disabled_world = record {
  gate = (turn false 1 seen.gate).1;
  callers = update seen.callers 1 (turn false 1 seen.gate).0;
}

to_enabled : Reach nobody enabled_world
unfolding update is_settled
to_enabled =
    further (further (further here (begin 0 true refl)) (load 0 true refl)) (round 0 true 0 refl)

to_asked : Reach enabled_world asked
unfolding update is_settled
to_asked = further here (begin 1 false refl)

seen_callers : seen.callers 1 ≡ looping false 1
unfolding update turn is_enabled checked_succ advance exchange
seen_callers = refl

issued : permit enabled_world.gate ≡ some 1
unfolding permit turn is_enabled checked_succ advance exchange
issued = refl

done_lem : (turn false 1 seen.gate).0 ≡ returned (ok (from_raw 2))
unfolding turn is_enabled checked_succ advance exchange
done_lem = refl

asked_callers : asked.callers 1 ≡ called false
unfolding update
asked_callers = refl

revoked : accepts disabled_world.gate 1 ≡ false
unfolding accepts turn is_enabled checked_succ advance exchange
revoked = refl

to_disabled : Reach enabled_world disabled_world
unfolding update turn is_enabled checked_succ advance exchange
to_disabled = further (further to_asked (load 1 false refl)) (round 1 false 1 refl)

disable-revokes_example : accepts disabled_world.gate 1 ≡ false
disable-revokes_example =
    disable-revokes 1 1 1 (from_raw 2) to_enabled issued to_asked asked_callers here seen_callers
      done_lem here

permit-revoked_example : accepts disabled_world.gate 1 ≡ false
permit-revoked_example = permit-revoked 1 to_enabled issued to_disabled revoked here

to_seen : Reach nobody seen
unfolding update turn is_enabled checked_succ advance exchange is_settled
to_seen =
    further
      (further
        (further (further (further here (begin 0 true refl)) (load 0 true refl))
          (round 0 true 0 refl))
        (begin 1 false refl))
      (load 1 false refl)

disable-Disabled_example : Disabled 1 seen.gate (turn false 1 seen.gate)
disable-Disabled_example = disable-Disabled 1 1 to_seen seen_callers

set_enabled-Settled_example : Settled true 6 (set_enabled true 6)
set_enabled-Settled_example = set_enabled-Settled true 6 (omega arith)
