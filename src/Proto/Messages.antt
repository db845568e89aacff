-- ===== src/Proto/Messages.antt =====
-- `ClientMessage` and `ServerMessage` of crates/agent-seat-proto/src/message.rs.
use agent_seat_proto.Proto.Hello.{
  Validated, Hello, validate_hello, Welcome, validate_welcome, Goodbye, validate_goodbye,
}
use agent_seat_proto.Proto.Call.{Request, validate_request}
use agent_seat_proto.Proto.Replies.{Response, validate_response}

pub data ClientMessage : Type 0 where
  hello : Hello → ClientMessage
  request : Request → ClientMessage
  goodbye : Goodbye → ClientMessage

unfoldable pub validate_client_message : ClientMessage → Validated
validate_client_message (hello h) = validate_hello h
validate_client_message (request r) = validate_request r
validate_client_message (ClientMessage.goodbye g) = validate_goodbye g

pub data ServerMessage : Type 0 where
  welcome : Welcome → ServerMessage
  response : Response → ServerMessage
  goodbye : Goodbye → ServerMessage

unfoldable pub validate_server_message : ServerMessage → Validated
validate_server_message (welcome w) = validate_welcome w
validate_server_message (response r) = validate_response r
validate_server_message (ServerMessage.goodbye g) = validate_goodbye g
