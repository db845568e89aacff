-- ===== src/Marker.antt =====
-- The active-policy marker of crates/agent-seat-x11/src/active.rs: the bytes that a provider leaves
-- in the runtime directory, and their reader. The text of an error stands without its path; a
-- `usize` has 64 bits.
pub mod Laws
use agent_seat_proto.Prelude.{
  ℕ, ◌+◌, ◌-◌, ◌*◌, ◌^◌, String, Bool, not, ◌||◌, ltb, ◌==◌, if◌then◌else◌, List, ◌++◌, length,
  take, drop, Result, ok, err, Option, none, some, ◌>>=◌, ok_or,
}
use agent_seat_proto.Prelude.Text.{chars, same}
use agent_seat_proto.Prelude.Bytes.{to_le_bytes, from_le_bytes}

abbrev pub marker_magic : List ℕ
marker_magic = chars "agent-seat-act1\n"

abbrev pub header_bytes : ℕ
header_bytes = length marker_magic + 12

abbrev pub max_policy_path_bytes : ℕ
max_policy_path_bytes = 4096

abbrev pub max_config_bytes : ℕ
max_config_bytes = 64 * 1024

abbrev pub max_marker_bytes : ℕ
max_marker_bytes = header_bytes + max_policy_path_bytes + max_config_bytes

pub record Marker : Type 0 where
  pub pid : ℕ
  pub path : List ℕ
  pub source : List ℕ

-- The body that the process `pid` writes for a policy at `path` with the text `source`.
unfoldable pub marker_body : ℕ → List ℕ → List ℕ → Result String (List ℕ)
marker_body pid path source =
    if ltb max_policy_path_bytes (length path)
    then err "policy path exceeds the active-state bound"
    else if ltb (2 ^ 32 - 1) (length path)
    then err "policy path length cannot be represented"
    else if ltb (2 ^ 32 - 1) (length source)
    then err "policy source length cannot be represented"
    else ok (
        marker_magic
        ++ (to_le_bytes 4 pid
            ++ (to_le_bytes 4 (length path)
                ++ (to_le_bytes 4 (length source) ++ (path ++ source)))))

unfoldable pub read_u32 : List ℕ → ℕ → Result String ℕ
read_u32 bytes offset =
    if ltb (length bytes) (offset + 4)
    then err "active-policy marker header is truncated"
    else ok (from_le_bytes (take 4 (drop offset bytes)))

-- `usize::checked_add`
unfoldable pub checked_add : ℕ → ℕ → Option ℕ
checked_add a b = if ltb (a + b) (2 ^ 64) then some (a + b) else none

abbrev pub and_then_add : Option ℕ → ℕ → Option ℕ
and_then_add none b = none
and_then_add (some a) b = checked_add a b

-- The lengths, and the fields behind the header.
unfoldable pub read_fields : List ℕ → ℕ → ℕ → ℕ → Result String Marker
read_fields bytes pid path_len source_len = do
  expected ←
      ok_or (and_then_add (checked_add header_bytes path_len) source_len)
        "active-policy marker has invalid lengths"
  if ltb max_policy_path_bytes path_len
        || ltb max_config_bytes source_len
        || not (expected == length bytes)
      then err "active-policy marker has invalid lengths"
      else ok (record {
        pid = pid;
        path = take path_len (drop header_bytes bytes);
        source = drop path_len (drop header_bytes bytes);
      })

unfoldable pub read_bytes : List ℕ → Result String Marker
read_bytes bytes =
    if ltb max_marker_bytes (length bytes)
      || ltb (length bytes) header_bytes
      || not (same (take (length marker_magic) bytes) marker_magic)
    then err "active-policy marker is malformed"
    else do
      pid ← read_u32 bytes (length marker_magic)
      path_len ← read_u32 bytes (length marker_magic + 4)
      source_len ← read_u32 bytes (length marker_magic + 8)
      read_fields bytes pid path_len source_len

-- `file.take(MAX_MARKER_BYTES + 1).read_to_end(..)` of a file with these contents, and the rest.
unfoldable pub read_marker : List ℕ → Result String Marker
read_marker file = read_bytes (take (max_marker_bytes + 1) file)
