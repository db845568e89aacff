-- ===== src/Seat/Gate/Alone.antt =====
-- The gate of crates/agent-seat-x11/src/seat.rs without contention.
use agent_seat_proto.Prelude.{
  ℕ, ◌+◌, ◌≤◌, ◌<◌, ◌≡◌, refl, arith, String, Bool, true, false, ◌==◌, ltb, Bool-cases, inl, inr,
  ==_self, Option, none, some, Result, ok, err, ◌⊎◌, ◌%◌,
}
use agent_seat_proto.Seat.Gate.{
  u64_max, is_enabled, SeatStatus, from_raw, same_bool, checked_succ, returned, exchange, advance,
  turn, advance_alone, set_enabled, disabled_terminal, exhausted,
}

advance_alone_lem :
    (enabled : Bool) (gate : ℕ) (n : Option ℕ)
    → advance enabled gate n gate
      ≡ (returned (advance_alone enabled n).0, (advance_alone enabled n).1)
unfolding advance advance_alone exchange
advance_alone_lem enabled gate none = refl
advance_alone_lem enabled gate (some n) = elim (Bool-cases (n == disabled_terminal)) [
  | inl end ↦ rw end
  | inr more ↦ rw (more, ==_self gate)
]

-- A round of a call whose word is still there is the whole method without contention: it returns
-- at once.
pub turn-set_enabled :
    (enabled : Bool) (gate : ℕ)
    → turn enabled gate gate ≡ (returned (set_enabled enabled gate).0, (set_enabled enabled gate).1)
unfolding turn set_enabled
turn-set_enabled enabled gate = elim (Bool-cases (same_bool (is_enabled gate) enabled)) [
  | inl done ↦ rw done
  | inr other ↦ rw (other, advance_alone_lem enabled gate (checked_succ gate))
]

-- An enabled word is odd and is not the last one.
pub enabled_bound :
    (gate : ℕ) → gate ≤ u64_max → is_enabled gate ≡ true → (gate < u64_max) × (gate % 2 ≡ 1)
unfolding is_enabled
enabled_bound gate bound on = ground arith

pub even-is_enabled : (gate : ℕ) → gate % 2 ≡ 0 → is_enabled gate ≡ false
unfolding is_enabled
even-is_enabled gate even = ground arith

pub checked_succ_below : (n : ℕ) → n < u64_max → checked_succ n ≡ some (n + 1)
unfolding checked_succ
checked_succ_below n below = ground arith

pub odd_next : (gate : ℕ) → gate < u64_max → gate % 2 ≡ 1 → (gate + 1 == disabled_terminal) ≡ false
odd_next gate below odd = ground arith

-- `set_enabled false` on an enabled word moves to the next word, which is disabled.
pub set_enabled_off :
    (gate : ℕ)
    → gate ≤ u64_max
    → is_enabled gate ≡ true
    → set_enabled false gate ≡ (ok (from_raw (gate + 1)), gate + 1)
unfolding set_enabled advance_alone
set_enabled_off gate bound on =
    let (below, odd) = enabled_bound gate bound on in
    rw (on, checked_succ_below gate below, odd_next gate below odd)

-- What a call without contention returns: the status of the word it leaves, enabled as asked; or,
-- for a call to enable in the last two words, the error, with the last word.
pub data Settled (enabled : Bool) (gate : ℕ) (r : Result String SeatStatus × ℕ) : Type 0 where
  done :
      r.0 ≡ ok (from_raw r.1)
      → is_enabled r.1 ≡ enabled
      → r.1 ≤ u64_max
      → gate ≤ r.1
      → r.1 ≤ gate + 1
      → Settled enabled gate r
  spent :
      enabled ≡ true
      → u64_max ≤ gate + 1
      → r ≡ (err exhausted, disabled_terminal)
      → Settled enabled gate r

even_next :
    (gate : ℕ)
    → gate < u64_max
    → is_enabled gate ≡ false
    → gate + 1 < u64_max
    → is_enabled (gate + 1) ≡ true
unfolding is_enabled
even_next gate below off bound = ground arith

checked_succ_end : (n : ℕ) → n ≡ u64_max → checked_succ n ≡ none
unfolding checked_succ
checked_succ_end n last = ground arith

advance_on :
    (gate : ℕ)
    → gate ≤ u64_max
    → is_enabled gate ≡ false
    → Settled true gate (advance_alone true (checked_succ gate))
unfolding advance_alone
advance_on gate bound off = elim (Bool-cases (ltb gate u64_max)) [
  | inr last ↦ rw (checked_succ_end gate (ground arith)) (spent refl (ground arith) refl)
  | inl below ↦
      rw (checked_succ_below gate (ground arith))
        (stepped (ground arith) (Bool-cases (gate + 1 == disabled_terminal)))
]
  where
    stepped :
        gate < u64_max
        → ((gate + 1 == disabled_terminal) ≡ true) ⊎ ((gate + 1 == disabled_terminal) ≡ false)
        → Settled true gate (advance_alone true (some (gate + 1)))
    stepped below (inl end) = rw end (spent refl (ground arith) refl)
    stepped below (inr more) = rw more (
        done refl (even_next gate (ground arith) off (ground arith)) (ground arith) (omega arith)
          (omega arith))

-- Without contention, a call on a word in range returns the status of the word that it leaves,
-- enabled as asked and at most one later; only a call to enable, in one of the last two words,
-- fails, and it leaves the last word.
pub set_enabled-Settled :
    (enabled : Bool) (gate : ℕ) → gate ≤ u64_max → Settled enabled gate (set_enabled enabled gate)
unfolding set_enabled
set_enabled-Settled false gate bound = elim (Bool-cases (is_enabled gate)) [
  | inl on ↦
      let (below, odd) = enabled_bound gate bound on in
      rw (set_enabled_off gate bound on) (
        done refl (even-is_enabled (gate + 1) (omega arith)) (omega arith) (omega arith)
          (omega arith))
  | inr off ↦ rw off (done refl off bound (omega arith) (omega arith))
]
set_enabled-Settled true gate bound = elim (Bool-cases (is_enabled gate)) [
  | inl on ↦ rw on (done refl on bound (omega arith) (omega arith))
  | inr off ↦ rw off (advance_on gate bound off)
]
