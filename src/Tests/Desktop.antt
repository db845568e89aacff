-- ===== src/Tests/Desktop.antt =====
-- Observations at small inputs.
use agent_seat_proto.Prelude.{◌≡◌, ◌↔◌, ok, none, [], ◌∷◌}
use agent_seat_proto.Proto.Desktop.{DesktopSnapshot, validate_snapshot}
use agent_seat_proto.Proto.Desktop.Laws.{IsCoherent, validate_snapshot_iff}

abbrev desktop : DesktopSnapshot
desktop = record {
  sequence = 4;
  current_workspace = 0;
  workspaces = record { items = record { id = 0; name = none; work_area = none } ∷ [] };
  clients = record { items = [] };
  active = none;
}

validate_snapshot_iff_example : (validate_snapshot desktop ≡ ok tt) ↔ IsCoherent desktop
validate_snapshot_iff_example = validate_snapshot_iff desktop
