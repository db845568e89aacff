-- ===== src/Seat/Control/Frames.antt =====
-- The frames of the control plane of crates/agent-seat-x11/src/seat.rs, written and read.
use agent_seat_proto.Prelude.{
  ℕ, ◌<◌, ◌^◌, ◌≡◌, refl, ap, sym, ◌∙◌, arith, Bool, true, false, List, [], ◌∷◌, ◌++◌, length, ok,
  ◌>>=◌, Bool-cases, inl, inr, All, >>=-eq-ok,
}
use agent_seat_proto.Prelude.Text.{same, same_iff}
use agent_seat_proto.Prelude.Bytes.{
  to_le_bytes, from_le_bytes, byte_at, from_le_bytes-to_le_bytes, to_le_bytes-from_le_bytes, IsByte,
}
use agent_seat_proto.Seat.Gate.{SeatStatus}
use agent_seat_proto.Seat.Control.{
  control_magic, encode_status, decode_status, decode_enabled, bool_byte,
}

decode_enabled-bool_byte : (b : Bool) → decode_enabled (bool_byte b) ≡ ok b
unfolding decode_enabled
decode_enabled-bool_byte true = refl
decode_enabled-bool_byte false = refl

bool_byte-decode_enabled : (n : ℕ) (b : Bool) → decode_enabled n ≡ ok b → bool_byte b ≡ n
unfolding decode_enabled
bool_byte-decode_enabled n b read = ground arith

-- A status whose generation fits in 64 bits is decoded from its encoding.
pub decode_status-encode_status :
    (s : SeatStatus) → s.generation < 2 ^ 64 → decode_status (encode_status s) ≡ ok s
unfolding decode_status encode_status byte_at same
decode_status-encode_status s bounded =
    rw (decode_enabled-bool_byte s.enabled, from_le_bytes-to_le_bytes 8 s.generation (omega arith))
      refl

tail_status :
    (b : ℕ) (rest : List ℕ) (s : SeatStatus)
    → length rest ≡ 8
    → All IsByte rest
    → (decode_enabled b >>= λ enabled.
        ok (record { enabled = enabled; generation = from_le_bytes rest }))
      ≡ ok s
    → bool_byte s.enabled ∷ to_le_bytes 8 s.generation ≡ b ∷ rest
tail_status b rest s len bytes read =
    let (enabled, is, made) =
      >>=-eq-ok (decode_enabled b)
        (λ e. ok (record { enabled = e; generation = from_le_bytes rest })) read in
    let fields : record { enabled = enabled; generation = from_le_bytes rest } ≡ s = cc in
    rw
      (← fields, bool_byte-decode_enabled b enabled is, ← len, to_le_bytes-from_le_bytes rest bytes)
      refl

-- A thirteen-byte answer that decodes is the encoding of the status it decodes to.
pub encode_status-decode_status :
    (response : List ℕ) (s : SeatStatus)
    → length response ≡ 13
    → All IsByte response
    → decode_status response ≡ ok s
    → encode_status s ≡ response
unfolding decode_status encode_status byte_at
encode_status-decode_status (m0 ∷ m1 ∷ m2 ∷ m3 ∷ b ∷ rest) s len bytes read =
    elim (Bool-cases (same (m0 ∷ m1 ∷ m2 ∷ m3 ∷ []) control_magic)) [
      | inl magic ↦
          ap (λ t. t ++ bool_byte s.enabled ∷ to_le_bytes 8 s.generation)
            (sym ((same_iff _ control_magic).0 magic))
          ∙ ap (λ t. m0 ∷ m1 ∷ m2 ∷ m3 ∷ t)
              (tail_status b rest s (omega arith) bytes.1.1.1.1.1 (rw magic at read))
      | inr other ↦ absurd (cc (rw other at read))
    ]
encode_status-decode_status [] s len bytes read = absurd (ground arith)
encode_status-decode_status (m0 ∷ []) s len bytes read = absurd (ground arith)
encode_status-decode_status (m0 ∷ m1 ∷ []) s len bytes read = absurd (ground arith)
encode_status-decode_status (m0 ∷ m1 ∷ m2 ∷ []) s len bytes read = absurd (ground arith)
encode_status-decode_status (m0 ∷ m1 ∷ m2 ∷ m3 ∷ []) s len bytes read = absurd (ground arith)
