-- ===== src/Devices/Inherited.antt =====
-- The adoption of the service manager's descriptors, crates/agent-seat-activity-broker/src/
-- inherited_files.rs. The environment and what sd_listen_fds gives are arguments.
pub mod Exact
use agent_seat_proto.Prelude.{
  ℕ, ◌+◌, ◌^◌, Bool, true, false, not, ◌&&◌, ◌||◌, ◌==◌, ltb, if◌then◌else◌, Option, none, some,
  List, [], ◌∷◌, length, is_empty, any, drop, Result, ok, err, ◌>>=◌, ok_or,
}
use agent_seat_proto.Prelude.Decimal.{parse_usize}
use agent_seat_proto.Prelude.Split.{split}

pub record InheritedFile : Type 0 where
  pub name : List ℕ
  pub descriptor : ℕ

pub data InheritedFileError : Type 0 where
  missing malformed cannot_confine : InheritedFileError

-- What the process finds: two variables, the descriptors, and whether close-on-exec can be set.
pub record Activation : Type 0 where
  pub listen_fds : Option (List ℕ)
  pub listen_fdnames : Option (List ℕ)
  pub received : Option (List ℕ)
  pub confine : ℕ → Bool

-- `u8::is_ascii_control`
abbrev pub is_ascii_control : ℕ → Bool
is_ascii_control byte = ltb byte 0x20 || byte == 0x7f

abbrev pub bad_name : List ℕ → Bool
bad_name name = is_empty name || (ltb 255 (length name) || any is_ascii_control name)

unfoldable pub validate_names : List ℕ → ℕ → Result InheritedFileError (List (List ℕ))
validate_names source count =
    if count == 0
    then err missing
    else if not (length (split b':' source) == count) || any bad_name (split b':' source)
    then err malformed
    else ok (split b':' source)

-- `usize::checked_add`
unfoldable pub checked_add : ℕ → ℕ → Option ℕ
checked_add a b = if ltb (a + b) (2 ^ 64) then some (a + b) else none

-- The descriptors with the names that are left for them.
unfoldable pub adopt :
    (ℕ → Bool) → List ℕ → List (List ℕ) → Result InheritedFileError (List InheritedFile)
adopt confine [] names = ok []
adopt confine (descriptor ∷ descriptors) [] = ok []
adopt confine (descriptor ∷ descriptors) (name ∷ names) =
    let rest = adopt confine descriptors names >>= λ files.
    ok (record { name = name; descriptor = descriptor } ∷ files) in
    if not (confine descriptor) then err cannot_confine else rest

unfoldable pub receive_named : ℕ → Activation → ℕ → Result InheritedFileError (List InheritedFile)
receive_named consumed a announced = ok_or a.listen_fdnames malformed >>= λ names.
    ok_or (checked_add announced consumed) malformed >>= λ total.
    validate_names names total >>= λ valid. ok_or a.received malformed >>= λ received.
    if not (length received == announced)
    then err missing
    else adopt a.confine received (drop consumed valid)

-- The first bound is `maximum_count`, the second `consumed_name_count`.
unfoldable pub receive_inherited_files :
    ℕ → ℕ → Activation → Result InheritedFileError (List InheritedFile)
receive_inherited_files maximum consumed a = ok_or a.listen_fds missing >>= λ text.
    ok_or (parse_usize text) malformed >>= λ announced.
    if announced == 0 || ltb maximum announced
    then err malformed
    else receive_named consumed a announced
