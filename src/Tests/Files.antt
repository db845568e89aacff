-- ===== src/Tests/Files.antt =====
-- The marker of one policy.
use agent_seat_proto.Prelude.{ℕ, ◌≡◌, refl, arith, ok, List, ◌++◌}
use agent_seat_proto.Prelude.Text.{chars}
use agent_seat_proto.Prelude.Bytes.{to_le_bytes}
use agent_seat_proto.Marker.{marker_body, read_marker, marker_magic}
use agent_seat_proto.Marker.Laws.{read_marker-marker_body}

abbrev policy_path : List ℕ
policy_path = chars "/etc/seat.toml"

abbrev policy_text : List ℕ
policy_text = chars "version = 1"

abbrev marker_file : List ℕ
marker_file =
    marker_magic
    ++ (to_le_bytes 4 4711
        ++ (to_le_bytes 4 14 ++ (to_le_bytes 4 11 ++ (policy_path ++ policy_text))))

marker_lem : marker_body 4711 policy_path policy_text ≡ ok marker_file
unfolding marker_body
marker_lem = refl

read_marker-marker_body_example :
    read_marker marker_file ≡ ok (record { pid = 4711; path = policy_path; source = policy_text })
read_marker-marker_body_example =
    read_marker-marker_body 4711 policy_path policy_text marker_file (omega arith) (omega arith)
      marker_lem
