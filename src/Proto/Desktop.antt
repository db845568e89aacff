-- ===== src/Proto/Desktop.antt =====
-- Observations in crates/agent-seat-proto/src/message.rs: descriptors, the snapshot, events and
-- their batches, with validation.
pub mod Laws
use agent_seat_proto.Prelude.{
  ℕ, Bool, true, false, not, ◌||◌, ltb, leb, ◌==◌, if◌then◌else◌, Option, none, some, List, [], ◌∷◌,
  any, is_empty, ok, err, ◌>>◌,
}
use agent_seat_proto.Proto.Limits.{
  max_title_bytes, max_workspace_name_bytes, max_workspaces, max_clients, max_events,
}
use agent_seat_proto.Proto.Bounded.{BoundedText, BoundedList}
use agent_seat_proto.Proto.Order.{Ord, rank_ord, strictly_ordered, unique_by}
use agent_seat_proto.Proto.Identity.{ClientId, Generation, Sequence, WorkspaceId}
use agent_seat_proto.Proto.Hello.{Validated, is_some_empty}
use agent_seat_proto.Proto.Requests.{ClientState, client_state_ord, Rect, validate_rect}

pub data ClientAction : Type 0 where
  activate close change_workspace change_state change_geometry : ClientAction

unfoldable pub client_action_rank : ClientAction → ℕ
client_action_rank activate = 0
client_action_rank close = 1
client_action_rank change_workspace = 2
client_action_rank change_state = 3
client_action_rank change_geometry = 4

instance abbrev pub client_action_ord : Ord ClientAction
client_action_ord = rank_ord client_action_rank

-- `if let Some(rect) = value { rect.validate()?; }`
unfoldable pub validate_some_rect : Option Rect → Validated
validate_some_rect none = ok tt
validate_some_rect (some r) = validate_rect r

pub record WorkspaceDescriptor : Type 0 where
  pub id : WorkspaceId
  pub name : Option (BoundedText max_workspace_name_bytes)
  pub work_area : Option Rect

unfoldable pub validate_workspace : WorkspaceDescriptor → Validated
validate_workspace w =
    if is_some_empty w.name then err "workspace name is empty" else validate_some_rect w.work_area

pub record ClientDescriptor : Type 0 where
  pub id : ClientId
  pub generation : Generation
  pub title : Option (BoundedText max_title_bytes)
  pub workspace : Option WorkspaceId
  pub frame : Option Rect
  pub states : BoundedList ClientState 16
  pub actions : BoundedList ClientAction 8

unfoldable pub validate_client : ClientDescriptor → Validated
validate_client c =
    if is_some_empty c.title
    then err "client title is empty"
    else validate_some_rect c.frame
      >> (if not (strictly_ordered c.states.items) || not (strictly_ordered c.actions.items)
          then err "client states and actions must be canonically ordered"
          else ok tt)

-- `for value in values { value.validate()?; }`
unfoldable pub validate_each {ℓ} : {A : Type ℓ} → (A → Validated) → List A → Validated
validate_each validate [] = ok tt
validate_each validate (x ∷ rest) = validate x >> validate_each validate rest

pub record DesktopSnapshot : Type 0 where
  pub sequence : Sequence
  pub current_workspace : WorkspaceId
  pub workspaces : BoundedList WorkspaceDescriptor max_workspaces
  pub clients : BoundedList ClientDescriptor max_clients
  pub active : Option ClientId

-- `active.is_some_and(|active| !clients.iter().any(|client| client.id == active))`
unfoldable pub is_dangling : Option ClientId → List ClientDescriptor → Bool
is_dangling none clients = false
is_dangling (some id) clients = not (any (λ client. client.id == id) clients)

unfoldable pub validate_snapshot : DesktopSnapshot → Validated
validate_snapshot s =
    validate_each validate_workspace s.workspaces.items
    >> (validate_each validate_client s.clients.items
        >> (if not (unique_by (λ workspace. workspace.id) s.workspaces.items)
              || not (unique_by (λ client. client.id) s.clients.items)
            then err "snapshot identities are duplicated"
            else if not (any (λ workspace. workspace.id == s.current_workspace) s.workspaces.items)
            then err "current workspace is absent from snapshot"
            else if is_dangling s.active s.clients.items
            then err "active client is absent from snapshot"
            else ok tt))

pub data Event : Type 0 where
  client_added client_changed : ClientDescriptor → Event
  client_removed : ClientId → Event
  active_changed : Option ClientId → Event
  workspace_changed : WorkspaceId → Event
  applications_changed : Event

unfoldable pub validate_event : Event → Validated
validate_event (client_added client) = validate_client client
validate_event (client_changed client) = validate_client client
validate_event (client_removed id) = ok tt
validate_event (active_changed id) = ok tt
validate_event (workspace_changed id) = ok tt
validate_event applications_changed = ok tt

pub record EventEnvelope : Type 0 where
  pub sequence : Sequence
  pub event : Event

pub record EventBatch : Type 0 where
  pub events : BoundedList EventEnvelope max_events
  pub cursor : Sequence

-- `prior.is_some_and(|prior| event.sequence <= prior)`
unfoldable pub not_after : Sequence → Option Sequence → Bool
not_after sequence none = false
not_after sequence (some prior) = leb sequence prior

-- The loop over the events, with `prior` the sequence of the event before.
unfoldable pub validate_events : Sequence → Option Sequence → List EventEnvelope → Validated
validate_events cursor prior [] = ok tt
validate_events cursor prior (e ∷ rest) =
    validate_event e.event
    >> (if not_after e.sequence prior || ltb cursor e.sequence
        then err "event sequences are not strictly increasing within the cursor"
        else validate_events cursor (some e.sequence) rest)

unfoldable pub validate_batch : EventBatch → Validated
validate_batch b = validate_events b.cursor none b.events.items
