-- ===== src/Proto/Identity.antt =====
-- crates/agent-seat-proto/src/ids.rs: the identities, which the wire carries as numbers. The
-- identities made by `nonzero_id!` are 64-bit and nonzero; `IsNonzero` states that.
use agent_seat_proto.Prelude.{ℕ, ◌<◌, ◌^◌}

-- The range of a `NonZeroU64`.
abbrev pub IsNonzero : ℕ → Type 0
IsNonzero n = (0 < n) × (n < 2 ^ 64)

abbrev pub RequestId : Type 0
RequestId = ℕ

abbrev pub SessionId : Type 0
SessionId = ℕ

abbrev pub ClientId : Type 0
ClientId = ℕ

abbrev pub LaunchToken : Type 0
LaunchToken = ℕ

abbrev pub Sequence : Type 0
Sequence = ℕ

abbrev pub Generation : Type 0
Generation = ℕ

abbrev pub WorkspaceId : Type 0
WorkspaceId = ℕ
