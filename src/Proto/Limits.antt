-- ===== src/Proto/Limits.antt =====
-- The published constants of crates/agent-seat-proto/src/lib.rs and message.rs.
use agent_seat_proto.Prelude.{ℕ, ◌*◌, ◌/◌, ◌+◌}
use agent_seat_proto.Prelude.Text.{Str, chars}

abbrev pub protocol_name : Str
protocol_name = chars "agent-seat"

abbrev pub protocol_revision : ℕ
protocol_revision = 9

abbrev pub max_advertisement_bytes : ℕ
max_advertisement_bytes = 256

abbrev pub max_request_frame_bytes : ℕ
max_request_frame_bytes = 64 * 1024

abbrev pub max_response_frame_bytes : ℕ
max_response_frame_bytes = 12 * 1024 * 1024

abbrev pub max_name_bytes : ℕ
max_name_bytes = 128

abbrev pub max_version_bytes : ℕ
max_version_bytes = 64

abbrev pub max_purpose_bytes : ℕ
max_purpose_bytes = 256

abbrev pub max_diagnostic_bytes : ℕ
max_diagnostic_bytes = 512

abbrev pub max_title_bytes : ℕ
max_title_bytes = 1024

abbrev pub max_application_id_bytes : ℕ
max_application_id_bytes = 256

abbrev pub max_workspace_name_bytes : ℕ
max_workspace_name_bytes = 256

abbrev pub max_capabilities : ℕ
max_capabilities = 32

abbrev pub max_features : ℕ
max_features = 16

abbrev pub max_workspaces : ℕ
max_workspaces = 128

abbrev pub max_clients : ℕ
max_clients = 1024

abbrev pub max_events : ℕ
max_events = 1024

abbrev pub max_applications : ℕ
max_applications = 256

abbrev pub max_input_text_bytes : ℕ
max_input_text_bytes = 1024

abbrev pub max_input_actions : ℕ
max_input_actions = 256

abbrev pub max_long_input_text_bytes : ℕ
max_long_input_text_bytes = 16 * 1024

abbrev pub max_long_input_actions : ℕ
max_long_input_actions = 4096

abbrev pub max_text_transfer_bytes : ℕ
max_text_transfer_bytes = 32 * 1024

abbrev pub max_text_transfer_scalars : ℕ
max_text_transfer_scalars = 16 * 1024

abbrev pub max_keyboard_modifiers : ℕ
max_keyboard_modifiers = 4

abbrev pub max_capture_width : ℕ
max_capture_width = 2048

abbrev pub max_capture_height : ℕ
max_capture_height = 2048

abbrev pub max_capture_pixels : ℕ
max_capture_pixels = 1920 * 1080

abbrev pub max_capture_region_width : ℕ
max_capture_region_width = 1024

abbrev pub max_capture_region_height : ℕ
max_capture_region_height = 1024

abbrev pub max_capture_region_pixels : ℕ
max_capture_region_pixels = 512 * 512

abbrev pub max_capture_png_bytes : ℕ
max_capture_png_bytes = 7 * 1024 * 1024

-- `MAX_CAPTURE_PNG_BYTES.div_ceil(3) * 4`
abbrev pub max_capture_data_bytes : ℕ
max_capture_data_bytes = (max_capture_png_bytes + 2) / 3 * 4

abbrev pub max_poll_wait_ms : ℕ
max_poll_wait_ms = 30_000
