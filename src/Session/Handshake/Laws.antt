-- ===== src/Session/Handshake/Laws.antt =====
-- The steps of the handshake of crates/agent-seat-x11/src/session.rs, one after another.
use agent_seat_proto.Prelude.{
  ℕ, ◌≡◌, refl, sym, ap, ◌∙◌, Bool, true, false, String, some, List, length, Result, ok, err,
  map_err, ok_or, check, >>=-eq-ok, >>-eq-ok, ok_or-eq-ok, map_err-eq-ok, Bool-cases, inl, inr, ltb,
}
use agent_seat_proto.Prelude.Text.{Str, chars}
use agent_seat_proto.Proto.Limits.{
  max_capabilities, max_features, max_name_bytes, max_version_bytes, protocol_name,
}
use agent_seat_proto.Proto.Capability.{Capability}
use agent_seat_proto.Proto.Bounded.{BoundError, BoundedList, new_list}
use agent_seat_proto.Proto.Hello.{
  Hello, Welcome, incompatible_revision, refused, revoked, is_compatible, validate_welcome,
}
use agent_seat_proto.Proto.Codec.{ReadFrame, message, clean_eof}
use agent_seat_proto.Proto.Messages.{
  ClientMessage, hello, request, welcome, validate_server_message,
}
use agent_seat_proto.Seat.Gate.{permit, accepts}
use agent_seat_proto.Session.Grants.{granted, offered_features}
use agent_seat_proto.Session.Handshake.{
  Config, Opening, Delivery, Exit, Ready, handshake, greet, send, first_hello, close, quit,
  bounded_text, cannot_bound, cannot_authenticate, cannot_write_welcome, grant_exceeded,
  features_exceeded,
}

-- The session's steps as they went.
pub record Welcomed (config : Config) (o : Opening) (r : Ready) : Type 0 where
  pub greeted_hello : Hello
  pub uid : ℕ
  pub read : o.first ≡ ok (message (hello greeted_hello))
  pub peer : o.peer_uid ≡ ok uid
  pub compatible : is_compatible greeted_hello ≡ true
  pub permitted : permit o.gate_at_permit ≡ some r.permit_word
  pub rechecked : accepts o.gate_at_check r.permit_word ≡ true
  pub grant : granted config.grant uid greeted_hello.requested.items ≡ some r.greeting.granted.items
  pub valid : validate_welcome r.greeting ≡ ok tt

check-eq-ok {κ} : {E : Type κ} (b : Bool) (e : E) {u : Unit {0}} → check b e ≡ ok u → b ≡ true
check-eq-ok true e h = refl
check-eq-ok false e h = absurd cc

first_hello-eq-ok :
    (write : Delivery) (first : Result String (ReadFrame ClientMessage)) {h : Hello}
    → first_hello write first ≡ ok h
    → first ≡ ok (message (hello h))
unfolding first_hello
first_hello-eq-ok write (ok (message (hello g))) is = cc
first_hello-eq-ok write (ok (message (request g))) is = absurd cc
first_hello-eq-ok write (ok (message (ClientMessage.goodbye g))) is = absurd cc
first_hello-eq-ok write (ok clean_eof) is = absurd cc
first_hello-eq-ok write (err e) is = absurd cc

send-valid :
    (w : Welcome) (write : Delivery) → send (welcome w) write ≡ ok tt → validate_welcome w ≡ ok tt
unfolding send validate_server_message
send-valid w write h = (>>-eq-ok (validate_welcome w) _ h).0

new_list-items :
    (max : ℕ) (values : List Capability) (l : BoundedList Capability max)
    → new_list max values ≡ ok l
    → values ≡ l.items
unfolding new_list
new_list-items max values l h = elim (Bool-cases (ltb max (length values))) [
  | inl long ↦ absurd (cc (rw long at h))
  | inr short ↦ ap items_of (rw short at h)
]
  where
    items_of : Result BoundError (BoundedList Capability max) → List Capability
    items_of (ok kept) = kept.items
    items_of (err e) = values

greet-granted :
    (version : Str) (session : ℕ) (allowed : List Capability) (w : Welcome)
    → greet version session allowed ≡ ok w
    → allowed ≡ w.granted.items
unfolding greet
greet-granted version session allowed w h =
    let (list, list_is, h1) =
      >>=-eq-ok (map_err (λ e. quit (grant_exceeded e)) (new_list max_capabilities allowed)) _ h in
    let (protocol, protocol_is, h2) = >>=-eq-ok (bounded_text max_name_bytes protocol_name) _ h1 in
    let (name, name_is, h3) =
      >>=-eq-ok (bounded_text max_name_bytes (chars "agent-seat-x11")) _ h2 in
    let (release, release_is, h4) = >>=-eq-ok (bounded_text max_version_bytes version) _ h3 in
    let (features, features_is, h5) =
      >>=-eq-ok
        (map_err (λ e. quit (features_exceeded e))
          (new_list max_features (offered_features allowed)))
        _ h4 in
    new_list-items max_capabilities allowed list
      (map_err-eq-ok _ (new_list max_capabilities allowed) list_is)
    ∙ ap granted_of h5
  where
    granted_of : Result Exit Welcome → List Capability
    granted_of (ok v) = v.granted.items
    granted_of (err e) = w.granted.items

-- A session that is welcomed read a compatible hello of an authenticated peer, has a permit that the
-- gate still accepted at the second look, was granted what the configuration grants for that uid and
-- hello, and its welcome is a valid message.
pub handshake-Welcomed :
    (version : Str) (session : ℕ) (config : Config) (o : Opening) (r : Ready)
    → handshake version session config o ≡ ok r
    → Welcomed config o r
unfolding handshake
handshake-Welcomed version session config o r h =
    let (u0, timeouts_is, h0) = >>=-eq-ok (map_err (λ e. quit (cannot_bound e)) o.timeouts) _ h in
    let (uid, uid_is, h1) =
      >>=-eq-ok (map_err (λ e. quit (cannot_authenticate e)) o.peer_uid) _ h0 in
    let (g, g_is, h2) = >>=-eq-ok (first_hello o.write o.first) _ h1 in
    let (u2, compatible_is, h3) =
      >>=-eq-ok
        (check (is_compatible g)
          (close o.write incompatible_revision "exact Agent Seat revision 9 is required"))
        _ h2 in
    let (word, word_is, h4) =
      >>=-eq-ok
        (ok_or (permit o.gate_at_permit) (close o.write refused "operator seat is disabled")) _
        h3 in
    let (allowed, allowed_is, h5) =
      >>=-eq-ok
        (ok_or (granted config.grant uid g.requested.items)
          (close o.write refused "verified peer UID has no configured grant"))
        _ h4 in
    let (u3, accepted_is, h6) =
      >>=-eq-ok
        (check (accepts o.gate_at_check word)
          (close o.write revoked "operator seat generation was revoked"))
        _ h5 in
    let (w, w_is, h7) = >>=-eq-ok (greet version session allowed) _ h6 in
    let (u4, sent_is, h8) =
      >>=-eq-ok (map_err (λ e. quit (cannot_write_welcome e)) (send (welcome w) o.write)) _ h7 in
    let allowed_same = greet-granted version session allowed w w_is in
    record {
      greeted_hello = g;
      uid = uid;
      read = first_hello-eq-ok o.write o.first g_is;
      peer = map_err-eq-ok _ o.peer_uid uid_is;
      compatible = check-eq-ok (is_compatible g) _ compatible_is;
      permitted =
          ok_or-eq-ok (permit o.gate_at_permit) _ word_is ∙ ap (λ n. some n) (ap word_of h8);
      rechecked =
          ap (accepts o.gate_at_check) (sym (ap word_of h8))
          ∙ check-eq-ok (accepts o.gate_at_check word) _ accepted_is;
      grant =
          ok_or-eq-ok (granted config.grant uid g.requested.items) _ allowed_is
          ∙ ap (λ l. some l) (allowed_same ∙ ap (λ v. v.granted.items) (ap greeting_of h8));
      valid =
          ap validate_welcome (sym (ap greeting_of h8))
          ∙ send-valid w o.write (map_err-eq-ok _ (send (welcome w) o.write) sent_is);
    }
  where
    word_of : Result Exit Ready → ℕ
    word_of (ok v) = v.permit_word
    word_of (err e) = r.permit_word

    greeting_of : Result Exit Ready → Welcome
    greeting_of (ok v) = v.greeting
    greeting_of (err e) = r.greeting
