-- ===== src/Session/Handshake/Opens.antt =====
-- Openings of the handshake of crates/agent-seat-x11/src/session.rs that lead to a welcome.
use agent_seat_proto.Prelude.{
  ℕ, ◌^◌, ◌-◌, ◌≤◌, ◌≡◌, refl, arith, true, false, some, List, length, ok, is_ok, is_empty, ltb,
}
use agent_seat_proto.Prelude.Text.{Str, chars, str_len, same, as_bytes}
use agent_seat_proto.Proto.Limits.{
  max_capabilities, max_features, max_name_bytes, max_version_bytes, protocol_name,
  protocol_revision, max_request_frame_bytes, max_response_frame_bytes, max_events,
  max_poll_wait_ms,
}
use agent_seat_proto.Proto.Order.{strictly_ordered}
use agent_seat_proto.Proto.Capability.{Capability, capability_ord, feature_ord}
use agent_seat_proto.Proto.Bounded.{new_list, new_text}
use agent_seat_proto.Proto.Hello.{
  Hello, Welcome, is_compatible, validate_welcome, validate_provider, validate_limits, x11_ewmh,
  tier0,
}
use agent_seat_proto.Proto.Codec.{message}
use agent_seat_proto.Proto.Messages.{hello, welcome, validate_server_message}
use agent_seat_proto.Seat.Gate.{permit, accepts}
use agent_seat_proto.Session.Grants.{granted, offered_features}
use agent_seat_proto.Session.Grants.Laws.{
  offered_features-strictly_ordered, features_length, granted-Granted,
}
use agent_seat_proto.Session.Handshake.{
  Config, Opening, Delivery, handshake, greet, send, send_payload, first_hello,
}

-- The welcome that is offered for a grant.
abbrev pub greeting_of : Str → ℕ → List Capability → Welcome
greeting_of version session allowed = record {
  protocol = record { text = protocol_name };
  revision = protocol_revision;
  session = session;
  provider = record {
    name = record { text = chars "agent-seat-x11" };
    version = record { text = version };
  };
  backend = x11_ewmh;
  assurance = tier0;
  features = record { items = offered_features allowed };
  granted = record { items = allowed };
  limits = record {
    request_frame_bytes = max_request_frame_bytes;
    response_frame_bytes = max_response_frame_bytes;
    events_per_poll = max_events;
    poll_wait_ms = max_poll_wait_ms;
  };
}

-- A peer and an environment with which the session should open.
pub record IsProper (version : Str) (session : ℕ) (config : Config) (o : Opening) : Type 0 where
  pub greeted_hello : Hello
  pub uid : ℕ
  pub word : ℕ
  pub allowed : List Capability
  pub bounded : o.timeouts ≡ ok tt
  pub peer : o.peer_uid ≡ ok uid
  pub read : o.first ≡ ok (message (hello greeted_hello))
  pub compatible : is_compatible greeted_hello ≡ true
  pub ordered : strictly_ordered greeted_hello.requested.items ≡ true
  pub short : length greeted_hello.requested.items ≤ max_capabilities
  pub permitted : permit o.gate_at_permit ≡ some word
  pub rechecked : accepts o.gate_at_check word ≡ true
  pub grant : granted config.grant uid greeted_hello.requested.items ≡ some allowed
  pub version_nonempty : is_empty version ≡ false
  pub version_short : str_len version ≤ max_version_bytes
  pub payload : List ℕ
  pub encoded : o.write.json (welcome (greeting_of version session allowed)) ≡ ok payload
  pub some_payload : is_empty payload ≡ false
  pub payload_short : length payload ≤ max_response_frame_bytes
  pub writable : o.write.stream ≡ ok tt

new_list-short :
    {A : Type 0} (max : ℕ) (values : List A)
    → length values ≤ max
    → new_list max values ≡ ok (record { items = values })
unfolding new_list
new_list-short max values short = rw (ltb_lem (length values) short) refl
  where
    ltb_lem : (n : ℕ) → n ≤ max → ltb max n ≡ false
    ltb_lem n le = ground arith

new_text-short :
    (max : ℕ) (value : Str)
    → str_len value ≤ max
    → new_text max value ≡ ok (record { text = value })
unfolding new_text
new_text-short max value short = rw (ltb_lem (str_len value) short) refl
  where
    ltb_lem : (n : ℕ) → n ≤ max → ltb max n ≡ false
    ltb_lem n le = ground arith

name_short : str_len protocol_name ≤ max_name_bytes
unfolding str_len as_bytes
name_short = omega arith

provider_short : str_len (chars "agent-seat-x11") ≤ max_name_bytes
unfolding str_len as_bytes
provider_short = omega arith

greet-short :
    (version : Str) (session : ℕ) (allowed : List Capability)
    → str_len version ≤ max_version_bytes
    → length allowed ≤ max_capabilities
    → greet version session allowed ≡ ok (greeting_of version session allowed)
unfolding greet
greet-short version session allowed short few =
    let features = features_length allowed in
    rw
      (
        new_list-short max_capabilities allowed few,
        new_text-short max_name_bytes protocol_name name_short,
        new_text-short max_name_bytes (chars "agent-seat-x11") provider_short,
        new_text-short max_version_bytes version short,
        new_list-short max_features (offered_features allowed) (omega arith),
      )
      refl

limits_valid :
    validate_limits (record {
      request_frame_bytes = max_request_frame_bytes;
      response_frame_bytes = max_response_frame_bytes;
      events_per_poll = max_events;
      poll_wait_ms = max_poll_wait_ms;
    })
    ≡ ok tt
unfolding validate_limits
limits_valid = refl

greeting_valid :
    (version : Str) (session : ℕ) (allowed : List Capability)
    → is_empty version ≡ false
    → strictly_ordered allowed ≡ true
    → validate_welcome (greeting_of version session allowed) ≡ ok tt
unfolding validate_welcome validate_provider same
greeting_valid version session allowed nonempty ordered =
    rw (nonempty, limits_valid, offered_features-strictly_ordered allowed, ordered) refl

send_valid :
    (w : Welcome) (d : Delivery) (payload : List ℕ)
    → validate_welcome w ≡ ok tt
    → d.json (welcome w) ≡ ok payload
    → is_empty payload ≡ false
    → length payload ≤ max_response_frame_bytes
    → d.stream ≡ ok tt
    → send (welcome w) d ≡ ok tt
unfolding send validate_server_message send_payload
send_valid w d payload valid encoded nonempty short writable =
    let fits : ltb max_response_frame_bytes (length payload) ≡ false = ground arith in
    let representable : ltb (2 ^ 32 - 1) (length payload) ≡ false = ground arith in
    rw (valid, encoded, nonempty, fits, representable) writable

-- The handshake succeeds with a peer that authenticates, sends a compatible hello of capabilities in
-- order and within their bound, and has a configured grant; with a gate that issues a permit and still
-- accepts it; with timeouts that can be set, a version of the provider that is not empty and fits its
-- bound, a welcome that JSON encodes in a payload which is not empty and fits a response frame, and a
-- stream that takes the frame. So the bounds on the grant, the names and the features, and the
-- validation of the welcome, refuse nothing here.
pub handshake-opens :
    (version : Str) (session : ℕ) (config : Config) (o : Opening)
    → IsProper version session config o
    → is_ok (handshake version session config o) ≡ true
unfolding handshake first_hello
handshake-opens version session config o p =
    let g =
      granted-Granted config.grant p.uid p.greeted_hello.requested.items p.allowed p.ordered
        p.grant in
    let few = g.short in
    let requested = p.short in
    rw
      (
        p.bounded,
        p.peer,
        p.read,
        p.compatible,
        p.permitted,
        p.grant,
        p.rechecked,
        greet-short version session p.allowed p.version_short (omega arith),
        send_valid (greeting_of version session p.allowed) o.write p.payload
            (greeting_valid version session p.allowed p.version_nonempty g.ordered) p.encoded
            p.some_payload p.payload_short p.writable,
      )
      refl
