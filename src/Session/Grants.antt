-- ===== src/Session/Grants.antt =====
-- What a session may do: `Config::granted` of crates/agent-seat-x11/src/config.rs, `authorized` and
-- the feature list of crates/agent-seat-x11/src/session.rs.
pub mod Laws
pub mod Calls
use agent_seat_proto.Prelude.{
  ℕ, Bool, true, false, not, ◌&&◌, ◌||◌, ◌==◌, if◌then◌else◌, Option, none, some, List, [], ◌∷◌,
  ◌++◌, any,
}
use agent_seat_proto.Proto.Capability.{Capability, Feature, contains, same_capability}
use agent_seat_proto.Proto.Call.{
  Call, required_capability, client_activate, client_close, workspace_switch, client_workspace,
  client_state, client_geometry, application_launch, pointer_move, pointer_click, keyboard_type,
  keyboard_write, keyboard_key, text_insert, capture_region,
}

pub record Grant : Type 0 where
  pub uid : ℕ
  pub capabilities : List Capability

-- `requested.copied().filter(..).collect()`
unfoldable pub keep : List Capability → List Capability → List Capability
keep capabilities [] = []
keep capabilities (c ∷ rest) =
    let kept = keep capabilities rest in if contains capabilities c then c ∷ kept else kept

unfoldable pub granted : Option Grant → ℕ → List Capability → Option (List Capability)
granted none uid requested = none
granted (some grant) uid requested =
    if grant.uid == uid then some (keep grant.capabilities requested) else none

-- The first `matches!` of `authorized`.
unfoldable pub needs_structure : Call → Bool
needs_structure (client_activate r) = true
needs_structure (client_close r) = true
needs_structure (workspace_switch r) = true
needs_structure (client_workspace r) = true
needs_structure (client_state r) = true
needs_structure (client_geometry r) = true
needs_structure (pointer_move r) = true
needs_structure (pointer_click r) = true
needs_structure (keyboard_type r) = true
needs_structure (keyboard_write r) = true
needs_structure (keyboard_key r) = true
needs_structure (text_insert r) = true
needs_structure (Call.capture_obscured r) = true
needs_structure (capture_region r) = true
needs_structure _ = false

unfoldable pub is_launch : Call → Bool
is_launch (application_launch r) = true
is_launch _ = false

unfoldable pub authorized : Call → List Capability → Bool
authorized call allowed =
    contains allowed (required_capability call)
    && (not (needs_structure call) || contains allowed Capability.observe_structure)
    && (not (is_launch call) || contains allowed Capability.launch_list)

abbrev pub injects : Capability → Bool
injects Capability.input_pointer = true
injects Capability.input_keyboard = true
injects Capability.text_transfer = true
injects _ = false

-- The feature list of the welcome, pushed in the source's order.
unfoldable pub offered_features : List Capability → List Feature
offered_features allowed =
    Feature.ewmh_observation
    ∷ Feature.ewmh_management
    ∷ Feature.desktop_launch
    ∷ ((if contains allowed Capability.capture_obscured then Feature.obscured_capture ∷ [] else [])
        ++ ((if any injects allowed then Feature.input_injection ∷ [] else [])
            ++ (if contains allowed Capability.text_transfer
                then Feature.text_transfer ∷ []
                else [])))
