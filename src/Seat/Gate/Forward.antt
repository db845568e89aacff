-- ===== src/Seat/Gate/Forward.antt =====
-- The word of the gate of crates/agent-seat-x11/src/seat.rs over steps of any callers.
use agent_seat_proto.Prelude.{
  ℕ, ◌+◌, ◌≤◌, ◌<◌, ◌≡◌, refl, arith, String, Bool, ◌==◌, if◌then◌else◌, Bool-cases, inl, inr,
  ==_self, Option, none, some, Result, ok, err, ==_iff, ◌⊎◌, sym, ◌∙◌,
}
use agent_seat_proto.Seat.Gate.{
  u64_max, is_enabled, SeatStatus, from_raw, same_bool, checked_succ, Caller, returned, looping,
  exchange, advance, turn, disabled_terminal, exhausted, World, Step, Reach, begin, load, round,
  here, further, update, nobody, called, exhausted,
}

-- A round leaves the word where it is or moves it up, and a caller that goes on has seen it.
record Forward (gate : ℕ) (r : Caller × ℕ) : Type 0 where
  up : gate ≤ r.1
  bounded : r.1 ≤ u64_max
  seen : (enabled : Bool) (n : ℕ) → r.0 ≡ looping enabled n → (gate ≤ n) × (n ≤ r.1)

stop-Forward :
    (gate g : ℕ) (a : Result String SeatStatus)
    → gate ≤ g
    → g ≤ u64_max
    → Forward gate (returned a, g)
stop-Forward gate g a up bounded = record {
  up = up;
  bounded = bounded;
  seen = λ e n same. ground arith;
}

checked_succ-below : (n next : ℕ) → checked_succ n ≡ some next → (next ≡ n + 1) × (n < u64_max)
unfolding checked_succ
checked_succ-below n next found = ground arith

exchange-Forward :
    (enabled : Bool) (current gate : ℕ)
    → gate ≤ u64_max
    → current < u64_max
    → current ≤ gate
    → Forward gate (exchange enabled current (current + 1) gate)
unfolding exchange
exchange-Forward enabled current gate bounded below seen = elim (Bool-cases (gate == current)) [
  | inl same ↦
      let met = (==_iff gate current).0 same in
      rw same (
        stop-Forward gate (current + 1) (ok (from_raw (current + 1))) (ground arith) (ground arith))
  | inr moved ↦
      rw moved (record { up = ground arith; bounded = bounded; seen = λ e n same. ground arith })
]

advance-Forward :
    (enabled : Bool) (current gate : ℕ) (n : Option ℕ)
    → checked_succ current ≡ n
    → gate ≤ u64_max
    → current ≤ gate
    → Forward gate (advance enabled current n gate)
unfolding advance
advance-Forward enabled current gate none is bounded seen =
    stop-Forward gate disabled_terminal
      (if enabled then err exhausted else ok (from_raw disabled_terminal)) bounded (ground arith)
advance-Forward enabled current gate (some n) is bounded seen =
    let (succ, below) = checked_succ-below current n is in
    elim (Bool-cases (n == disabled_terminal)) [
      | inl end ↦
          rw end (stop-Forward gate disabled_terminal (err exhausted) bounded (ground arith))
      | inr more ↦ rw (more, succ) (exchange-Forward enabled current gate bounded below seen)
    ]

turn-Forward :
    (enabled : Bool) (current gate : ℕ)
    → gate ≤ u64_max
    → current ≤ gate
    → Forward gate (turn enabled current gate)
unfolding turn
turn-Forward enabled current gate bounded seen =
    elim (Bool-cases (same_bool (is_enabled current) enabled)) [
      | inl done ↦ rw done (stop-Forward gate gate (ok (from_raw current)) (ground arith) bounded)
      | inr other ↦
          rw other (advance-Forward enabled current gate (checked_succ current) refl bounded seen)
    ]

update-cases :
    (callers : ℕ → Caller) (i : ℕ) (c : Caller) (j : ℕ)
    → (update callers i c j ≡ callers j) ⊎ (update callers i c j ≡ c) × (j ≡ i)
unfolding update
update-cases callers i c j = elim (Bool-cases (j == i)) [
  | inl same ↦ inr (rw same refl, (==_iff j i).0 same)
  | inr other ↦ inl (rw other refl)
]

pub update_self : (callers : ℕ → Caller) (i : ℕ) (c : Caller) → update callers i c i ≡ c
unfolding update
update_self callers i c = rw (==_self i)

-- What holds in every world: the word is in range and nobody has seen a later one.
pub record Sound (w : World) : Type 0 where
  pub bounded : w.gate ≤ u64_max
  pub seen : (i : ℕ) (enabled : Bool) (n : ℕ) → w.callers i ≡ looping enabled n → n ≤ w.gate

pub nobody-Sound : Sound nobody
nobody-Sound = record { bounded = ground arith; seen = λ i e n is. ground arith }

-- One caller changes, and what it has seen is no later than the word, which does not go back.
seen_update :
    (w : World) (i : ℕ) (c : Caller) (g : ℕ)
    → Sound w
    → w.gate ≤ g
    → g ≤ u64_max
    → ((e : Bool) (n : ℕ) → c ≡ looping e n → n ≤ g)
    → Sound (record { gate = g; callers = update w.callers i c })
seen_update w i c g sound up bounded mine = record {
  bounded = bounded;
  seen = λ j e n is. elim (update-cases w.callers i c j) [
    | inl other ↦ let before = sound.seen j e n (sym other ∙ is) in omega arith
    | inr (same, _) ↦ mine e n (sym same ∙ is)
  ];
}

pub Step-Sound : {w v : World} → Step w v → Sound w → Sound v
Step-Sound {w} (begin i e settled) sound =
    seen_update w i (called e) w.gate sound (ground arith) sound.bounded (λ e' n is. ground arith)
Step-Sound {w} (load i e is) sound =
    seen_update w i (looping e w.gate) w.gate sound (ground arith) sound.bounded
      (λ e' n is. ground arith)
Step-Sound {w} (round i e c is) sound =
    let f = turn-Forward e c w.gate sound.bounded (sound.seen i e c is) in
    seen_update w i (turn e c w.gate).0 (turn e c w.gate).1 sound f.up f.bounded
      (λ e' n is. (f.seen e' n is).1)

pub Reach-Sound : {w v : World} → Reach w v → Sound w → Sound v
Reach-Sound here sound = sound
Reach-Sound (further r s) sound = Step-Sound s (Reach-Sound r sound)

-- What holds since the word was `g`: it is not below `g`, and caller `i` has seen it at `g` or later.
pub record Since (g i : ℕ) (w : World) : Type 0 where
  pub floor : g ≤ w.gate
  pub mine : (enabled : Bool) (n : ℕ) → w.callers i ≡ looping enabled n → g ≤ n

Since-update :
    {g i : ℕ} (w : World) (k : ℕ) (c : Caller) (gate : ℕ)
    → Since g i w
    → w.gate ≤ gate
    → ((e : Bool) (n : ℕ) → c ≡ looping e n → w.gate ≤ n)
    → Since g i (record { gate = gate; callers = update w.callers k c })
Since-update {g} {i} w k c gate since up later = record {
  floor = let before = since.floor in omega arith;
  mine = λ e n is. elim (update-cases w.callers k c i) [
    | inl other ↦ since.mine e n (sym other ∙ is)
    | inr (same, _) ↦
        let before = since.floor in let after = later e n (sym same ∙ is) in omega arith
  ];
}

Step-Since : {g i : ℕ} {w v : World} → Step w v → Sound w → Since g i w → Since g i v
Step-Since {w = w} (begin k e settled) sound since =
    Since-update w k (called e) w.gate since (ground arith) (λ e' n is. ground arith)
Step-Since {w = w} (load k e is) sound since =
    Since-update w k (looping e w.gate) w.gate since (ground arith) (λ e' n is. ground arith)
Step-Since {w = w} (round k e c is) sound since =
    let f = turn-Forward e c w.gate sound.bounded (sound.seen k e c is) in
    Since-update w k (turn e c w.gate).0 (turn e c w.gate).1 since f.up
      (λ e' n is. (f.seen e' n is).0)

pub Reach-Since : {g i : ℕ} {w v : World} → Reach w v → Sound w → Since g i w → Since g i v
Reach-Since here sound since = since
Reach-Since (further r s) sound since =
    Step-Since s (Reach-Sound r sound) (Reach-Since r sound since)

Step-mono : {w v : World} → Step w v → Sound w → w.gate ≤ v.gate
Step-mono (begin i e settled) sound = ground arith
Step-mono (load i e is) sound = ground arith
Step-mono {w} (round i e c is) sound =
    (turn-Forward e c w.gate sound.bounded (sound.seen i e c is)).up

pub Reach-mono : {w v : World} → Reach w v → Sound w → w.gate ≤ v.gate
Reach-mono here sound = ground arith
Reach-mono (further r s) sound =
    let first = Reach-mono r sound in let last = Step-mono s (Reach-Sound r sound) in omega arith
