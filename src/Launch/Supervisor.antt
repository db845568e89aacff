-- ===== src/Launch/Supervisor.antt =====
-- The start of applications, `LaunchSupervisor`, `direct_command`, `delegated_command` and
-- `reap_children` of crates/agent-seat-x11/src/launch.rs. Whether a child has exited, whether a
-- command can be spawned and what the environment holds are what the operating system answers; the
-- three streams of a command, which are always null, are left out.
pub mod Reaping
pub mod Tokens
use agent_seat_proto.Prelude.{
  ℕ, zero, suc, ◌+◌, ◌^◌, Bool, true, false, not, ltb, ◌==◌, if◌then◌else◌, choose, Option, none,
  some, List, [], ◌∷◌, ◌++◌, map, length, Result, ok, err, ◌>>=◌, ok_or,
}
use agent_seat_proto.Prelude.Text.{Str, same, chars, as_bytes}
use agent_seat_proto.Prelude.Decimal.{to_string}
use agent_seat_proto.Proto.Hello.{unavailable, refused, too_large, internal}
use agent_seat_proto.Proto.Identity.{LaunchToken}
use agent_seat_proto.Proto.Requests.{ApplicationId}
use agent_seat_proto.Launch.Catalog.{Failure, failure, LaunchPolicy, CatalogEntry, discover}

abbrev pub max_active_children : ℕ
max_active_children = 64

abbrev pub max_delegated_environment_bytes : ℕ
max_delegated_environment_bytes = 4096

abbrev pub systemd_run : List ℕ
systemd_run = chars "/usr/bin/systemd-run"

pub record Command : Type 0 where
  pub program : List ℕ
  pub arguments : List (List ℕ)
  pub environment : List (List ℕ × List ℕ)
  pub current_dir : Option (List ℕ)

-- What the operating system answers during one launch. A child is its process identifier;
-- `has_exited` is `Ok(Some(_))` of `try_wait`, `spawn` has no value where it fails.
pub record System : Type 0 where
  pub process_id : ℕ
  pub has_exited : ℕ → Bool
  pub spawn : Command → Option ℕ
  pub variable : List ℕ → Option (List ℕ)
  pub is_executable : List ℕ → Bool

pub record Supervisor : Type 0 where
  pub next_token : ℕ
  pub children : List ℕ
  pub delegate_via_systemd : Bool
  pub delegated_unit_stem : List ℕ

-- `swap_remove`, on what stands behind the removed element: the last comes to its place.
abbrev pub onto_last : ℕ → List ℕ → List ℕ
onto_last first [] = first ∷ []
onto_last first (last ∷ others) = last ∷ first ∷ others

unfoldable pub swap_last : ℕ → List ℕ → List ℕ
swap_last first [] = first ∷ []
swap_last first (c ∷ rest) = onto_last first (swap_last c rest)

abbrev pub swap_remove : List ℕ → List ℕ
swap_remove [] = []
swap_remove (c ∷ rest) = swap_last c rest

-- The loop of `reap_children`: the children before the index, and those from it on. A round drops
-- a child or moves the index, so there are as many rounds as children.
unfoldable pub reap_from : (System) → (rounds : ℕ) → List ℕ → List ℕ → List ℕ
reap_from system zero kept rest = kept ++ rest
reap_from system (suc rounds) kept [] = kept
reap_from system (suc rounds) kept (c ∷ rest) =
    choose (system.has_exited c) (λ _. reap_from system rounds kept (swap_remove rest))
      (λ _. reap_from system rounds (kept ++ c ∷ []) rest)

unfoldable pub reap_children : System → List ℕ → List ℕ
reap_children system children = reap_from system (length children) [] children

unfoldable pub direct_command : CatalogEntry → List ℕ → Command
direct_command entry startup_id = record {
  program = entry.program;
  arguments = map as_bytes entry.arguments;
  environment = (chars "DESKTOP_STARTUP_ID", startup_id) ∷ [];
  current_dir = entry.working_directory;
}

-- The names of the variables that are handed on.
abbrev pub delegated_variables : List (List ℕ)
delegated_variables =
    chars "DISPLAY"
    ∷ chars "XAUTHORITY"
    ∷ chars "WAYLAND_DISPLAY"
    ∷ chars "XDG_RUNTIME_DIR"
    ∷ chars "XDG_CURRENT_DESKTOP"
    ∷ chars "XDG_SESSION_DESKTOP"
    ∷ chars "DBUS_SESSION_BUS_ADDRESS"
    ∷ chars "HOME"
    ∷ chars "USER"
    ∷ chars "LOGNAME"
    ∷ chars "LANG"
    ∷ chars "LC_ALL"
    ∷ chars "LC_MESSAGES"
    ∷ []

abbrev pub assignment : List ℕ → List ℕ → List ℕ
assignment name value = chars "--setenv=" ++ (name ++ b'=' ∷ value)

-- The loop over the variables, with the bytes so far. The source also refuses a sum that does not
-- fit `usize`, with the same failure.
unfoldable pub delegate : System → ℕ → List (List ℕ) → Result Failure (List (List ℕ))
delegate system bytes [] = ok []
delegate system bytes (name ∷ names) = elim (system.variable name) [
  | none ↦ delegate system bytes names
  | some value ↦
      let sum = bytes + length name + length value in
      if ltb max_delegated_environment_bytes sum
      then err (failure too_large "delegated application environment exceeds its bound")
      else (delegate system sum names >>= (λ rest. ok (assignment name value ∷ rest)))
]

abbrev pub directory_argument : Option (List ℕ) → List (List ℕ)
directory_argument none = []
directory_argument (some directory) = (chars "--working-directory=" ++ directory) ∷ []

unfoldable pub delegated_command :
    System → CatalogEntry → List ℕ → List ℕ → ℕ → Result Failure Command
delegated_command system entry startup_id unit_stem numeric =
    if not (system.is_executable systemd_run)
    then err (failure unavailable "systemd launch delegation is unavailable")
    else (delegate system (length startup_id) delegated_variables >>= (λ assignments. ok (record {
      program = systemd_run;
      arguments =
          (chars "--user"
            ∷ chars "--wait"
            ∷ chars "--collect"
            ∷ chars "--quiet"
            ∷ chars "--service-type=exec"
            ∷ (chars "--unit=" ++ (unit_stem ++ (b'-' ∷ (to_string numeric ++ chars ".service"))))
            ∷ (chars "--setenv=DESKTOP_STARTUP_ID=" ++ startup_id)
            ∷ assignments)
          ++ (directory_argument entry.working_directory
              ++ (chars "--" ∷ entry.program ∷ map as_bytes entry.arguments));
      environment = [];
      current_dir = none;
    })))

pub record Started : Type 0 where
  pub token : LaunchToken
  pub startup_id : List ℕ

-- `find` by the identifier.
unfoldable pub find_entry : ApplicationId → List CatalogEntry → Option CatalogEntry
find_entry application [] = none
find_entry application (e ∷ entries) =
    let later = find_entry application entries in
    if same e.descriptor.id.text application.text then some e else later

-- `fetch_update` with `checked_add`: the number before, where the one after it fits.
abbrev pub take_token : ℕ → Result Failure ℕ
take_token current =
    if ltb (current + 1) (2 ^ 64)
    then if current == 0
      then err (failure internal "launch token space is exhausted")
      else ok current
    else err (failure internal "launch token space is exhausted")

-- The token counter after `fetch_update`.
abbrev pub after_token : ℕ → ℕ
after_token current = if ltb (current + 1) (2 ^ 64) then current + 1 else current

abbrev pub startup_id_text : ℕ → ℕ → List ℕ
startup_id_text process_id numeric =
    chars "agent-seat-x11-" ++ (to_string process_id ++ b'-' ∷ to_string numeric)

abbrev pub command_for : System → Supervisor → CatalogEntry → ℕ → Result Failure Command
command_for system s entry numeric =
    let startup_id = startup_id_text system.process_id numeric in
    if s.delegate_via_systemd
    then delegated_command system entry startup_id s.delegated_unit_stem numeric
    else ok (direct_command entry startup_id)

-- What is done with the children, which are locked: the new child, or the failure.
abbrev pub spawned : System → Supervisor → CatalogEntry → ℕ → List ℕ → Result Failure ℕ
spawned system s entry numeric running =
    if length running == max_active_children
    then err (failure unavailable "active application launch bound is reached")
    else (command_for system s entry numeric >>= (λ command.
        ok_or (system.spawn command)
          (failure unavailable "desktop application could not be started")))

-- The end of `launch`: a child that was started is kept.
abbrev pub started :
    System → Supervisor → ℕ → List ℕ → Result Failure ℕ → Result Failure Started × Supervisor
started system s numeric running (err error) = (err error, record s { children = running })
started system s numeric running (ok child) = (
  ok (record { token = numeric; startup_id = startup_id_text system.process_id numeric }),
  record s { children = running ++ child ∷ [] },
)

-- The part of `launch` behind the token, which the supervisor no longer holds.
abbrev pub start_entry :
    System → Supervisor → CatalogEntry → Result Failure ℕ → Result Failure Started × Supervisor
start_entry system s entry (err error) = (err error, s)
start_entry system s entry (ok numeric) =
    let running = reap_children system s.children in
    started system s numeric running (spawned system s entry numeric running)

abbrev pub launch_entry :
    System → Supervisor → Result Failure CatalogEntry → Result Failure Started × Supervisor
launch_entry system s (err error) = (err error, s)
launch_entry system s (ok entry) =
    start_entry system (record s { next_token = after_token s.next_token }) entry
      (take_token s.next_token)

-- `LaunchSupervisor::launch`
unfoldable pub launch :
    System
    → Supervisor
    → ApplicationId
    → LaunchPolicy
    → Result Failure (List CatalogEntry)
    → Result Failure Started × Supervisor
launch system s application policy installed = launch_entry system s (
    discover policy installed >>= (λ entries.
      ok_or (find_entry application entries)
        (failure refused "application is not allowed by current policy")))

-- `LaunchSupervisor::reap`
unfoldable pub reap : System → Supervisor → Supervisor
reap system s = record s { children = reap_children system s.children }
