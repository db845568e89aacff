-- ===== src/Session/Handshake.antt =====
-- The first half of `run` in crates/agent-seat-x11/src/session.rs: from the accepted connection to
-- the welcome. An early return is an `Exit` in the place of an error; a `Ready` is what the request
-- loop starts from. What the operating system and the other sessions do is an `Opening`.
pub mod Laws
pub mod Opens
use agent_seat_proto.Prelude.{
  ℕ, Bool, true, false, not, ◌&&◌, ◌||◌, String, Option, none, some, List, [], ◌∷◌, Result, ok, err,
  ◌>>=◌, ◌>>◌, ltb, if◌then◌else◌, length, is_empty, ◌^◌, ◌-◌, map_err, ok_or, check,
}
use agent_seat_proto.Prelude.Text.{Str, chars}
use agent_seat_proto.Proto.Limits.{
  protocol_name, protocol_revision, max_request_frame_bytes, max_response_frame_bytes, max_events,
  max_poll_wait_ms, max_capabilities, max_features, max_name_bytes, max_version_bytes,
}
use agent_seat_proto.Proto.Bounded.{BoundError, BoundedText, BoundedList, new_text, new_list}
use agent_seat_proto.Proto.Hello.{
  Hello, is_compatible, Welcome, Goodbye, ErrorCode, malformed, incompatible_revision, refused,
  revoked, tier0, x11_ewmh,
}
use agent_seat_proto.Proto.Capability.{Capability}
use agent_seat_proto.Proto.Codec.{ReadFrame, message, clean_eof}
use agent_seat_proto.Proto.Messages.{
  ClientMessage, ServerMessage, hello, request, welcome, validate_server_message,
}
use agent_seat_proto.Seat.Gate.{permit, accepts}
use agent_seat_proto.Session.Grants.{Grant, granted, offered_features}

pub record Config : Type 0 where
  pub grant : Option Grant
  pub max_requests : ℕ
  pub provider_private_devices : Bool

-- What `serde_json::to_vec` makes of a message, and what the stream does with its frame.
pub record Delivery : Type 0 where
  pub json : ServerMessage → Result String (List ℕ)
  pub stream : Result String (Unit {0})

pub record Opening : Type 0 where
  pub timeouts : Result String (Unit {0})
  pub peer_uid : Result String ℕ
  pub first : Result String (ReadFrame ClientMessage)
  pub gate_at_permit : ℕ
  pub gate_at_check : ℕ
  pub slot : Bool
  pub write : Delivery

pub data SessionError : Type 0 where
  cannot_bound cannot_authenticate cannot_read_hello cannot_write_welcome : String → SessionError
  cannot_read_request cannot_write_revoked cannot_write_response : String → SessionError
  cannot_wait cannot_write_terminal : String → SessionError
  grant_exceeded features_exceeded text_exceeded : BoundError → SessionError

-- What `run` returns, and what it has sent by then.
pub record Exit : Type 0 where
  pub result : Result SessionError (Unit {0})
  pub sent : List ServerMessage

pub record Ready : Type 0 where
  pub greeting : Welcome
  pub permit_word : ℕ
  pub active : Bool
  pub slot_after : Bool

-- The bounds of a frame to a peer, then the stream; the text of an error is without its numbers.
unfoldable pub send_payload : List ℕ → Result String (Unit {0}) → Result String (Unit {0})
send_payload payload stream =
    if is_empty payload
    then err "frame payload is empty"
    else if ltb max_response_frame_bytes (length payload) || ltb (2 ^ 32 - 1) (length payload)
    then err "frame exceeds its maximum"
    else stream

-- `write_frame` of a message, under the bound of a response.
unfoldable pub send : ServerMessage → Delivery → Result String (Unit {0})
send m d = validate_server_message m >> (d.json m >>= λ payload. send_payload payload d.stream)

abbrev pub sent_of : ServerMessage → Result String (Unit {0}) → List ServerMessage
sent_of m (ok _) = m ∷ []
sent_of m (err e) = []

abbrev pub quit : SessionError → Exit
quit e = record { result = err e; sent = [] }

abbrev pub farewell : ErrorCode → String → ServerMessage
farewell code reason =
    ServerMessage.goodbye (record { code = code; message = some (record { text = chars reason }) })

unfoldable pub close : Delivery → ErrorCode → String → Exit
close write code reason = record {
  result = map_err cannot_write_terminal (send (farewell code reason) write);
  sent = sent_of (farewell code reason) (send (farewell code reason) write);
}

unfoldable pub first_hello : Delivery → Result String (ReadFrame ClientMessage) → Result Exit Hello
first_hello write (err e) = err (quit (cannot_read_hello e))
first_hello write (ok clean_eof) = err (record { result = ok tt; sent = [] })
first_hello write (ok (message (hello h))) = ok h
first_hello write (ok (message (request r))) = err (close write malformed "hello must be first")
first_hello write (ok (message (ClientMessage.goodbye g))) =
    err (close write malformed "hello must be first")

-- `PersistentSessionGuard::claim`: whether the slot was taken.
unfoldable pub claim : Bool → Bool → Bool
claim enabled slot = enabled && not slot

abbrev pub bounded_text : (max : ℕ) → Str → Result Exit (BoundedText max)
bounded_text max value = map_err (λ e. quit (text_exceeded e)) (new_text max value)

-- The welcome of session `session`, by a provider of package version `version`.
unfoldable pub greet : Str → ℕ → List Capability → Result Exit Welcome
greet version session allowed = do
  list ← map_err (λ e. quit (grant_exceeded e)) (new_list max_capabilities allowed)
  protocol ← bounded_text max_name_bytes protocol_name
  name ← bounded_text max_name_bytes (chars "agent-seat-x11")
  release ← bounded_text max_version_bytes version
  features ←
      map_err (λ e. quit (features_exceeded e)) (new_list max_features (offered_features allowed))
  ok (record {
    protocol = protocol;
    revision = protocol_revision;
    session = session;
    provider = record { name = name; version = release };
    backend = x11_ewmh;
    assurance = tier0;
    features = features;
    granted = list;
    limits = record {
      request_frame_bytes = max_request_frame_bytes;
      response_frame_bytes = max_response_frame_bytes;
      events_per_poll = max_events;
      poll_wait_ms = max_poll_wait_ms;
    };
  })

unfoldable pub handshake : Str → ℕ → Config → Opening → Result Exit Ready
handshake version session config o = do
  _ ← map_err (λ e. quit (cannot_bound e)) o.timeouts
  uid ← map_err (λ e. quit (cannot_authenticate e)) o.peer_uid
  h ← first_hello o.write o.first
  _ ←
      check (is_compatible h)
        (close o.write incompatible_revision "exact Agent Seat revision 9 is required")
  word ← ok_or (permit o.gate_at_permit) (close o.write refused "operator seat is disabled")
  allowed ←
      ok_or (granted config.grant uid h.requested.items)
        (close o.write refused "verified peer UID has no configured grant")
  _ ←
      check (accepts o.gate_at_check word)
        (close o.write revoked "operator seat generation was revoked")
  w ← greet version session allowed
  _ ← map_err (λ e. quit (cannot_write_welcome e)) (send (welcome w) o.write)
  ok (record {
    greeting = w;
    permit_word = word;
    active = claim config.provider_private_devices o.slot;
    slot_after = o.slot || claim config.provider_private_devices o.slot;
  })
