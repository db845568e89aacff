-- ===== src/Proto/Call.antt =====
-- `Call` of crates/agent-seat-proto/src/message.rs, the typed operations; the capability that each
-- needs, and their validation. `Empty` is the unit type.
use agent_seat_proto.Prelude.{ok}
use agent_seat_proto.Proto.Identity.{RequestId}
use agent_seat_proto.Proto.Capability.{Capability}
use agent_seat_proto.Proto.Hello.{Validated}
use agent_seat_proto.Proto.Requests.{
  TargetRequest, validate_target, SubscribeRequest, validate_subscribe, PollRequest, validate_poll,
  WorkspaceRequest, validate_workspace_request, ClientWorkspaceRequest, validate_client_workspace,
  ClientStateRequest, validate_client_state, ClientGeometryRequest, validate_client_geometry,
  ApplicationListRequest, validate_application_list, ApplicationLaunchRequest,
  validate_application_launch,
}
use agent_seat_proto.Proto.Input.{
  PointerMoveRequest, validate_pointer_move, PointerClickRequest, validate_pointer_click,
  KeyboardTypeRequest, validate_keyboard_type, KeyboardWriteRequest, validate_keyboard_write,
  KeyboardKeyRequest, validate_keyboard_key, TextInsertRequest, validate_text_insert,
}
use agent_seat_proto.Proto.Region.{CaptureRegionRequest, validate_capture_region_request}

pub data Call : Type 0 where
  seat_status desktop_snapshot : Call
  events_subscribe : SubscribeRequest → Call
  events_poll : PollRequest → Call
  client_activate client_close : TargetRequest → Call
  workspace_switch : WorkspaceRequest → Call
  client_workspace : ClientWorkspaceRequest → Call
  client_state : ClientStateRequest → Call
  client_geometry : ClientGeometryRequest → Call
  applications_list : ApplicationListRequest → Call
  application_launch : ApplicationLaunchRequest → Call
  pointer_move : PointerMoveRequest → Call
  pointer_click : PointerClickRequest → Call
  keyboard_type : KeyboardTypeRequest → Call
  keyboard_write : KeyboardWriteRequest → Call
  keyboard_key : KeyboardKeyRequest → Call
  text_insert : TextInsertRequest → Call
  capture_obscured : TargetRequest → Call
  capture_region : CaptureRegionRequest → Call

unfoldable pub required_capability : Call → Capability
required_capability seat_status = Capability.observe_structure
required_capability desktop_snapshot = Capability.observe_structure
required_capability (events_subscribe r) = Capability.observe_events
required_capability (events_poll r) = Capability.observe_events
required_capability (client_activate r) = Capability.manage_activate
required_capability (client_close r) = Capability.manage_close
required_capability (workspace_switch r) = Capability.manage_workspace
required_capability (client_workspace r) = Capability.manage_workspace
required_capability (client_state r) = Capability.manage_state
required_capability (client_geometry r) = Capability.manage_geometry
required_capability (applications_list r) = Capability.launch_list
required_capability (application_launch r) = Capability.launch_execute
required_capability (pointer_move r) = Capability.input_pointer
required_capability (pointer_click r) = Capability.input_pointer
required_capability (keyboard_type r) = Capability.input_keyboard
required_capability (keyboard_write r) = Capability.input_keyboard
required_capability (keyboard_key r) = Capability.input_keyboard
required_capability (text_insert r) = Capability.text_transfer
required_capability (capture_obscured r) = Capability.capture_obscured
required_capability (capture_region r) = Capability.capture_obscured

unfoldable pub validate_call : Call → Validated
validate_call seat_status = ok tt
validate_call desktop_snapshot = ok tt
validate_call (events_subscribe r) = validate_subscribe r
validate_call (events_poll r) = validate_poll r
validate_call (client_activate r) = validate_target r
validate_call (client_close r) = validate_target r
validate_call (workspace_switch r) = validate_workspace_request r
validate_call (client_workspace r) = validate_client_workspace r
validate_call (client_state r) = validate_client_state r
validate_call (client_geometry r) = validate_client_geometry r
validate_call (applications_list r) = validate_application_list r
validate_call (application_launch r) = validate_application_launch r
validate_call (pointer_move r) = validate_pointer_move r
validate_call (pointer_click r) = validate_pointer_click r
validate_call (keyboard_type r) = validate_keyboard_type r
validate_call (keyboard_write r) = validate_keyboard_write r
validate_call (keyboard_key r) = validate_keyboard_key r
validate_call (text_insert r) = validate_text_insert r
validate_call (capture_obscured r) = validate_target r
validate_call (capture_region r) = validate_capture_region_request r

pub record Request : Type 0 where
  pub id : RequestId
  pub call : Call

unfoldable pub validate_request : Request → Validated
validate_request r = validate_call r.call
