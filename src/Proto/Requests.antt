-- ===== src/Proto/Requests.antt =====
-- The arguments of the calls in crates/agent-seat-proto/src/message.rs, and their validation.
-- A field that serde flattens is a field of record type.
use agent_seat_proto.Prelude.{
  ℕ, Bool, not, ◌||◌, ltb, ◌==◌, if◌then◌else◌, [], ◌∷◌, any, is_empty, ok, err, ◌>>◌, check,
}
use agent_seat_proto.Prelude.Int.{ℤ}
use agent_seat_proto.Prelude.Text.{Str, chars, same}
use agent_seat_proto.Proto.Limits.{
  max_application_id_bytes, max_applications, max_events, max_poll_wait_ms,
}
use agent_seat_proto.Proto.Bounded.{BoundedText, BoundedList}
use agent_seat_proto.Proto.Order.{Ord, rank_ord, strictly_ordered}
use agent_seat_proto.Proto.Identity.{ClientId, Generation, Sequence, WorkspaceId}
use agent_seat_proto.Proto.Keyboard.{modifier_ord}
use agent_seat_proto.Proto.Hello.{Validated}

pub record TargetRequest : Type 0 where
  pub client : ClientId
  pub generation : Generation

unfoldable pub validate_target : TargetRequest → Validated
validate_target t = ok tt

pub data EventKind : Type 0 where
  client_added client_changed client_removed : EventKind
  active_changed workspace_changed applications_changed : EventKind

unfoldable pub event_kind_rank : EventKind → ℕ
event_kind_rank client_added = 0
event_kind_rank client_changed = 1
event_kind_rank client_removed = 2
event_kind_rank active_changed = 3
event_kind_rank workspace_changed = 4
event_kind_rank applications_changed = 5

instance abbrev pub event_kind_ord : Ord EventKind
event_kind_ord = rank_ord event_kind_rank

pub record SubscribeRequest : Type 0 where
  pub kinds : BoundedList EventKind 8

unfoldable pub validate_subscribe : SubscribeRequest → Validated
validate_subscribe r =
    check (strictly_ordered r.kinds.items) "event kinds must be unique and canonically ordered"

pub record PollRequest : Type 0 where
  pub after : Sequence
  pub limit : ℕ
  pub wait_ms : ℕ

unfoldable pub validate_poll : PollRequest → Validated
validate_poll r =
    if r.limit == 0 || ltb max_events r.limit || ltb max_poll_wait_ms r.wait_ms
    then err "event poll limit or wait is outside revision bounds"
    else ok tt

pub record WorkspaceRequest : Type 0 where
  pub workspace : WorkspaceId
  pub sequence : Sequence

unfoldable pub validate_workspace_request : WorkspaceRequest → Validated
validate_workspace_request r = ok tt

pub record ClientWorkspaceRequest : Type 0 where
  pub target : TargetRequest
  pub workspace : WorkspaceId

unfoldable pub validate_client_workspace : ClientWorkspaceRequest → Validated
validate_client_workspace r = validate_target r.target

pub data ClientState : Type 0 where
  above below fullscreen hidden maximized_horizontal maximized_vertical : ClientState
  demands_attention sticky shaded : ClientState

unfoldable pub client_state_rank : ClientState → ℕ
client_state_rank above = 0
client_state_rank below = 1
client_state_rank fullscreen = 2
client_state_rank hidden = 3
client_state_rank maximized_horizontal = 4
client_state_rank maximized_vertical = 5
client_state_rank demands_attention = 6
client_state_rank sticky = 7
client_state_rank shaded = 8

instance abbrev pub client_state_ord : Ord ClientState
client_state_ord = rank_ord client_state_rank

pub data StateAction : Type 0 where
  add remove toggle : StateAction

pub record ClientStateRequest : Type 0 where
  pub target : TargetRequest
  pub state : ClientState
  pub action : StateAction

unfoldable pub validate_client_state : ClientStateRequest → Validated
validate_client_state r = validate_target r.target

pub record Rect : Type 0 where
  pub x : ℤ
  pub y : ℤ
  pub width : ℕ
  pub height : ℕ

unfoldable pub validate_rect : Rect → Validated
validate_rect r =
    if r.width == 0 || r.height == 0 then err "rectangle extent must be nonzero" else ok tt

pub record ClientGeometryRequest : Type 0 where
  pub target : TargetRequest
  pub frame : Rect

unfoldable pub validate_client_geometry : ClientGeometryRequest → Validated
validate_client_geometry r = validate_target r.target >> validate_rect r.frame

pub record ApplicationListRequest : Type 0 where
  pub cursor : ℕ
  pub limit : ℕ

unfoldable pub validate_application_list : ApplicationListRequest → Validated
validate_application_list r =
    if r.limit == 0 || ltb max_applications r.limit
    then err "application page limit is outside revision bounds"
    else ok tt

abbrev pub ApplicationId : Type 0
ApplicationId = BoundedText max_application_id_bytes

-- `str::ends_with`
unfoldable pub ends_with : Str → Str → Bool
ends_with [] suffix = same [] suffix
ends_with (c ∷ rest) suffix = same (c ∷ rest) suffix || ends_with rest suffix

pub record ApplicationLaunchRequest : Type 0 where
  pub application : ApplicationId

unfoldable pub validate_application_launch : ApplicationLaunchRequest → Validated
validate_application_launch r =
    if is_empty r.application.text
      || not (ends_with r.application.text (chars ".desktop"))
      || any (λ c. c == b'/' || c == 0) r.application.text
    then err "application ID is not canonical"
    else ok tt
