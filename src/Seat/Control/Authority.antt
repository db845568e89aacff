-- ===== src/Seat/Control/Authority.antt =====
-- Who moves the gate over the control plane of crates/agent-seat-x11/src/seat.rs.
use agent_seat_proto.Prelude.{
  ℕ, ◌≡◌, refl, ap, ◌∙◌, arith, String, Bool, true, false, List, [], ◌∷◌, ◌++◌, take, length,
  Result, ok, err, Bool-cases, inl, inr, ◌==◌, ltb, ◌⊎◌, ==_iff, if◌then◌else◌,
}
use agent_seat_proto.Prelude.Text.{same, same_iff}
use agent_seat_proto.Prelude.Bytes.{byte_at}
use agent_seat_proto.Seat.Gate.{SeatStatus, from_raw, set_enabled}
use agent_seat_proto.Seat.Control.{
  control_magic, request_bytes, ControlCommand, enable, disable, Connection, Pending, accepted,
  would_block, accept_error, handle_pending, authenticate, serve, command, acknowledge,
  request_frame, command_code, enable_code, disable_code, status_code,
}

-- The word after a handled connection is one that a request may lead to: it is unchanged, or the
-- peer runs as `euid` and its first five bytes ask for the change.
pub record Commanded (euid : ℕ) (c : Connection) (gate after : ℕ) : Type 0 where
  enabled : Bool
  owner : c.peer_uid ≡ ok euid
  asked : take request_bytes c.sent ≡ request_frame (if enabled then enable else disable)
  moved : after ≡ (set_enabled enabled gate).1

acknowledge-gate :
    (c : Connection) (r : Result String SeatStatus × ℕ) → (acknowledge c r).gate ≡ r.1
unfolding acknowledge
acknowledge-gate c (ok s, gate) = refl
acknowledge-gate c (err e, gate) = refl

frame_lem :
    (bs : List ℕ) (cmd : ControlCommand)
    → (ltb (length bs) request_bytes) ≡ false
    → same (take 4 (take request_bytes bs)) control_magic ≡ true
    → byte_at 4 (take request_bytes bs) ≡ command_code cmd
    → take request_bytes bs ≡ request_frame cmd
unfolding request_frame byte_at
frame_lem (m0 ∷ m1 ∷ m2 ∷ m3 ∷ b ∷ rest) cmd long magic code =
    rw (← code) (ap (λ t. t ++ b ∷ []) ((same_iff (m0 ∷ m1 ∷ m2 ∷ m3 ∷ []) control_magic).0 magic))
frame_lem [] cmd long magic code = absurd (ground arith)
frame_lem (m0 ∷ []) cmd long magic code = absurd (ground arith)
frame_lem (m0 ∷ m1 ∷ []) cmd long magic code = absurd (ground arith)
frame_lem (m0 ∷ m1 ∷ m2 ∷ []) cmd long magic code = absurd (ground arith)
frame_lem (m0 ∷ m1 ∷ m2 ∷ m3 ∷ []) cmd long magic code = absurd (ground arith)

command-gate :
    (c : Connection) (code gate : ℕ)
    → ((command c code gate).gate ≡ gate)
      ⊎ (b : Bool) × (code ≡ command_code (if b then enable else disable))
        × ((command c code gate).gate ≡ (set_enabled b gate).1)
unfolding command command_code
command-gate c code gate = elim (Bool-cases (code == status_code)) [
  | inl is ↦ inl (rw is (acknowledge-gate c (ok (from_raw gate), gate)))
  | inr not0 ↦ elim (Bool-cases (code == enable_code)) [
    | inl is ↦ inr (
      true,
      (==_iff code enable_code).0 is,
      rw (not0, is) (acknowledge-gate c (set_enabled true gate)),
    )
    | inr no1 ↦ elim (Bool-cases (code == disable_code)) [
      | inl is ↦ inr (
        false,
        (==_iff code disable_code).0 is,
        rw (not0, no1, is) (acknowledge-gate c (set_enabled false gate)),
      )
      | inr no2 ↦ inl (rw (not0, no1, no2) refl)
    ]
  ]
]

serve-gate :
    (euid : ℕ) (c : Connection) (gate : ℕ)
    → c.peer_uid ≡ ok euid
    → ((serve c gate).gate ≡ gate) ⊎ Commanded euid c gate (serve c gate).gate
unfolding serve
serve-gate euid c gate owner = elim (Bool-cases (ltb (length c.sent) request_bytes)) [
  | inl short ↦ inl (rw short refl)
  | inr long ↦ elim (Bool-cases (same (take 4 (take request_bytes c.sent)) control_magic)) [
    | inr other ↦ inl (rw (long, other) refl)
    | inl magic ↦ elim (command-gate c (byte_at 4 (take request_bytes c.sent)) gate) [
      | inl kept ↦ inl (rw (long, magic) kept)
      | inr (b, code, moved) ↦ inr (record {
        enabled = b;
        owner = owner;
        asked = frame_lem c.sent (if b then enable else disable) long magic code;
        moved = rw (long, magic) moved;
      })
    ]
  ]
]

authenticate-gate :
    (euid : ℕ) (c : Connection) (uid : Result String ℕ) (t : Result String (Unit {0})) (gate : ℕ)
    → c.peer_uid ≡ uid
    → ((authenticate euid c uid t gate).gate ≡ gate)
      ⊎ Commanded euid c gate (authenticate euid c uid t gate).gate
unfolding authenticate
authenticate-gate euid c (err e) t gate is = inl refl
authenticate-gate euid c (ok uid) (err e) gate is = elim (Bool-cases (uid == euid)) [
  | inl own ↦ inl (rw own refl)
  | inr other ↦ inl (rw other refl)
]
authenticate-gate euid c (ok uid) (ok tt) gate is = elim (Bool-cases (uid == euid)) [
  | inl own ↦ rw own (serve-gate euid c gate (is ∙ ap ok ((==_iff uid euid).0 own)))
  | inr other ↦ inl (rw other refl)
]

-- One call of the control handler leaves the word as it is, unless an accepted peer runs as the
-- provider's own effective uid and its first five bytes are the request to enable or to disable:
-- then the word is what that transition makes of it.
pub handle_pending-Commanded :
    (euid : ℕ) (p : Pending) (gate : ℕ)
    → ((handle_pending euid p gate).gate ≡ gate)
      ⊎ (c : Connection) × (p ≡ accepted c)
        × Commanded euid c gate (handle_pending euid p gate).gate
unfolding handle_pending
handle_pending-Commanded euid would_block gate = inl refl
handle_pending-Commanded euid (accept_error e) gate = inl refl
handle_pending-Commanded euid (accepted c) gate =
    elim (authenticate-gate euid c c.peer_uid c.timeouts gate refl) [
      | inl kept ↦ inl kept
      | inr commanded ↦ inr (c, refl, commanded)
    ]
