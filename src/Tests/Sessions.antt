-- ===== src/Tests/Sessions.antt =====
-- One session: an observer that asks for more than it is granted.
use agent_seat_proto.Prelude.{
  ℕ, ◌+◌, ◌≡◌, ◌≤◌, refl, arith, true, false, some, ok, List, [], ◌∷◌, ◌++◌, is_ok,
}
use agent_seat_proto.Prelude.Text.{chars, str_len, as_bytes, same}
use agent_seat_proto.Proto.Order.{strictly_ordered, windows}
use agent_seat_proto.Proto.Capability.{
  Capability, capability_rank, contains, observe_structure, input_keyboard, manage_close,
  capability_ord, same_capability,
}
use agent_seat_proto.Proto.Call.{Call, client_close}
use agent_seat_proto.Proto.Hello.{Hello, is_compatible, refused}
use agent_seat_proto.Proto.Limits.{protocol_name, protocol_revision}
use agent_seat_proto.Proto.Codec.{message}
use agent_seat_proto.Proto.Failure.{never}
use agent_seat_proto.Proto.Replies.{Outcome}
use agent_seat_proto.Proto.Messages.{hello, request}
use agent_seat_proto.Seat.Gate.{permit, accepts, is_enabled}
use agent_seat_proto.Session.Grants.{Grant, keep, granted}
use agent_seat_proto.Session.Grants.Laws.{Granted, granted-Granted}
use agent_seat_proto.Session.Handshake.{Delivery, Config, Opening, handshake}
use agent_seat_proto.Session.Handshake.Opens.{IsProper, handshake-opens}
use agent_seat_proto.Session.Requests.{Arrival, serve, protocol_error}
use agent_seat_proto.Session.Requests.Revoked.{Alike, serve-revoked}

abbrev asked : List Capability
asked = observe_structure ∷ manage_close ∷ input_keyboard ∷ []

abbrev configured : Grant
configured = record { uid = 1000; capabilities = observe_structure ∷ manage_close ∷ [] }

abbrev allowed : List Capability
allowed = observe_structure ∷ manage_close ∷ []

abbrev greeting : Hello
greeting = record {
  protocol = record { text = protocol_name };
  revision = protocol_revision;
  peer = record {
    name = record { text = chars "agent" };
    version = record { text = chars "1" };
    purpose = record { text = chars "test" };
  };
  requested = record { items = asked };
}

abbrev config : Config
config = record { grant = some configured; max_requests = 3; provider_private_devices = false }

-- One byte in the place of the JSON of any message, on a stream that takes it.
abbrev taken : Delivery
taken = record { json = λ m. ok (1 ∷ []); stream = ok tt }

-- The word is 7 throughout.
abbrev opening : Opening
opening = record {
  timeouts = ok tt;
  peer_uid = ok 1000;
  first = ok (message (hello greeting));
  gate_at_permit = 7;
  gate_at_check = 7;
  slot = false;
  write = taken;
}

asked_lem : strictly_ordered asked ≡ true
unfolding strictly_ordered windows capability_rank
asked_lem = refl

granted_lem : granted (some configured) 1000 asked ≡ some allowed
unfolding granted keep contains same_capability
granted_lem = refl

granted-Granted_example : Granted (some configured) 1000 asked allowed
granted-Granted_example = granted-Granted (some configured) 1000 asked allowed asked_lem granted_lem

abbrev close_call : Call
close_call = client_close (record { client = 5; generation = 2 })

compatible_lem : is_compatible greeting ≡ true
unfolding is_compatible same
compatible_lem = refl

permitted_lem : permit 7 ≡ some 7
unfolding permit is_enabled
permitted_lem = refl

rechecked_lem : accepts 7 7 ≡ true
unfolding accepts is_enabled
rechecked_lem = refl

version_lem : str_len (chars "0.1.0") ≤ 64
unfolding str_len as_bytes
version_lem = omega arith

opening-IsProper : IsProper (chars "0.1.0") 1 config opening
opening-IsProper = record {
  greeted_hello = greeting;
  uid = 1000;
  word = 7;
  allowed = allowed;
  bounded = refl;
  peer = refl;
  read = refl;
  compatible = compatible_lem;
  ordered = asked_lem;
  short = omega arith;
  permitted = permitted_lem;
  rechecked = rechecked_lem;
  grant = granted_lem;
  version_nonempty = refl;
  version_short = version_lem;
  payload = 1 ∷ [];
  encoded = refl;
  some_payload = refl;
  payload_short = omega arith;
  writable = refl;
}

handshake-opens_example : is_ok (handshake (chars "0.1.0") 1 config opening) ≡ true
handshake-opens_example = handshake-opens (chars "0.1.0") 1 config opening opening-IsProper

abbrev provider_call : Call → ℕ → Outcome × ℕ
provider_call call n = (protocol_error refused never "test", n + 1)

abbrev arrival : ℕ → Arrival
arrival word = record {
  wait = ok false;
  frame = ok (message (request (record { id = 9; call = close_call })));
  gate = word;
  write = taken;
}

refused_lem : accepts 8 7 ≡ false
unfolding accepts is_enabled
refused_lem = refl

serve-revoked_example :
    Alike
      (serve provider_call allowed 7 false 3 taken
        ((arrival 7 ∷ []) ++ arrival 8 ∷ arrival 7 ∷ [])
        0)
      (serve provider_call allowed 7 false 3 taken (arrival 7 ∷ []) 0)
serve-revoked_example =
    serve-revoked provider_call allowed 7 false 3 taken (arrival 7 ∷ []) (arrival 8)
      (arrival 7 ∷ []) 0 refused_lem
