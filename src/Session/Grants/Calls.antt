-- ===== src/Session/Grants/Calls.antt =====
-- The capabilities that a call needs, `authorized` of crates/agent-seat-x11/src/session.rs.
use mathlib.Core.List.{Mem}
use agent_seat_proto.Prelude.{◌≡◌, refl, Bool, true, false, not, ◌&&◌, ◌||◌, ◌↔◌, List, &&_iff}
use agent_seat_proto.Proto.Capability.{Capability, contains, capability_ord, feature_ord}
use agent_seat_proto.Proto.Capability.Laws.{contains_iff}
use agent_seat_proto.Proto.Call.{Call, required_capability}
use agent_seat_proto.Session.Grants.{needs_structure, is_launch, authorized}

implies : (a b : Bool) → (not a || b) ≡ true → a ≡ true → b ≡ true
implies true b h on = h
implies false b h on = absurd cc

implied : (a b : Bool) → (a ≡ true → b ≡ true) → (not a || b) ≡ true
implied true b h = h refl
implied false b h = refl

-- A call is authorized exactly when its own capability is granted, observation of structure too if
-- it names a client or switches the workspace, and the listing of applications too if it launches.
pub authorized_iff :
    (call : Call) (allowed : List Capability)
    → (authorized call allowed ≡ true) ↔ (
        Mem (required_capability call) allowed
        × (needs_structure call ≡ true → Mem Capability.observe_structure allowed)
        × (is_launch call ≡ true → Mem Capability.launch_list allowed))
unfolding authorized
authorized_iff call allowed = (forward, back)
  where
    own : Bool
    own = contains allowed (required_capability call)

    forward :
        (own
            && (not (needs_structure call) || contains allowed Capability.observe_structure)
            && (not (is_launch call) || contains allowed Capability.launch_list))
          ≡ true
        → Mem (required_capability call) allowed
          × (needs_structure call ≡ true → Mem Capability.observe_structure allowed)
          × (is_launch call ≡ true → Mem Capability.launch_list allowed)
    forward h =
        let (first, third) =
          (&&_iff _ (not (is_launch call) || contains allowed Capability.launch_list)).0 h in
        let (mine, second) =
          (&&_iff own
              (not (needs_structure call) || contains allowed Capability.observe_structure)).0
            first in
        (
          (contains_iff allowed (required_capability call)).0 mine,
          λ needs.
              (contains_iff allowed Capability.observe_structure).0
                (implies (needs_structure call) _ second needs),
          λ launch.
              (contains_iff allowed Capability.launch_list).0
                (implies (is_launch call) _ third launch),
        )

    back :
        Mem (required_capability call) allowed
          × (needs_structure call ≡ true → Mem Capability.observe_structure allowed)
          × (is_launch call ≡ true → Mem Capability.launch_list allowed)
        → authorized call allowed ≡ true
    back (mine, second, third) =
        (&&_iff _ (not (is_launch call) || contains allowed Capability.launch_list)).1 (
          (&&_iff own
                (not (needs_structure call) || contains allowed Capability.observe_structure)).1
              (
                (contains_iff allowed (required_capability call)).1 mine,
                implied (needs_structure call) _
                    (λ needs. (contains_iff allowed Capability.observe_structure).1 (second needs)),
              ),
          implied (is_launch call) _
              (λ launch. (contains_iff allowed Capability.launch_list).1 (third launch)),
        )
