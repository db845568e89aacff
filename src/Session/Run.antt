-- ===== src/Session/Run.antt =====
-- A whole session, `run` in crates/agent-seat-x11/src/session.rs.
use mathlib.Core.List.{Mem}
use agent_seat_proto.Prelude.{ℕ, ◌≡◌, true, some, List, ◌∷◌, Result, ok, err}
use agent_seat_proto.Prelude.Text.{Str}
use agent_seat_proto.Proto.Call.{Call, required_capability}
use agent_seat_proto.Proto.Hello.{Hello}
use agent_seat_proto.Proto.Codec.{message}
use agent_seat_proto.Proto.Replies.{Outcome}
use agent_seat_proto.Proto.Messages.{hello, welcome}
use agent_seat_proto.Session.Grants.{Grant, needs_structure, is_launch}
use agent_seat_proto.Proto.Capability.{Capability}
use agent_seat_proto.Session.Handshake.{Config, Opening, Delivery, Exit, Ready, handshake}
use agent_seat_proto.Session.Requests.{Arrival, Served, stop, serve}

module _ {S : Type 0} (provider_call : Call → S → Outcome × S) where
  unfoldable pub enter : Config → Delivery → List Arrival → S → Result Exit Ready → Served S
  enter config last arrivals state (err e) = stop state e.result e.sent
  enter config last arrivals state (ok r) =
      let rest =
        serve provider_call r.greeting.granted.items r.permit_word r.active config.max_requests last
          arrivals state in
      record rest { sent = welcome r.greeting ∷ rest.sent }

  unfoldable pub run : Str → ℕ → Config → Opening → Delivery → List Arrival → S → Served S
  run version session config o last arrivals state =
      enter config last arrivals state (handshake version session config o)

-- The grant has a capability, and the peer asked for it.
abbrev pub Both : Grant → Hello → Capability → Type 0
Both entry asker capability =
    Mem capability entry.capabilities × Mem capability asker.requested.items

-- The configuration grants what a call needs to the peer's uid, and the peer asked for it.
pub record Configured (config : Config) (o : Opening) (call : Call) : Type 0 where
  pub entry : Grant
  pub asker : Hello
  pub configured : config.grant ≡ some entry
  pub owner : o.peer_uid ≡ ok entry.uid
  pub read : o.first ≡ ok (message (hello asker))
  pub own : Both entry asker (required_capability call)
  pub structure : needs_structure call ≡ true → Both entry asker Capability.observe_structure
  pub listing : is_launch call ≡ true → Both entry asker Capability.launch_list
