-- ===== src/Proto/Capability.antt =====
-- `Capability` and `Feature` of crates/agent-seat-proto/src/message.rs, with the orders and the
-- equality that Rust derives.
pub mod Laws
use agent_seat_proto.Prelude.{ℕ, Bool, ◌==◌, List, any}
use agent_seat_proto.Proto.Order.{Ord, rank_ord}

pub data Capability : Type 0 where
  observe_structure observe_titles observe_events : Capability
  manage_activate manage_close manage_workspace manage_state manage_geometry : Capability
  launch_list launch_execute : Capability
  input_pointer input_keyboard text_transfer capture_obscured : Capability

pub data Feature : Type 0 where
  ewmh_observation ewmh_management desktop_launch : Feature
  client_visible_capture obscured_capture output_capture : Feature
  input_injection text_transfer human_activity accessibility : Feature

unfoldable pub capability_rank : Capability → ℕ
capability_rank observe_structure = 0
capability_rank observe_titles = 1
capability_rank observe_events = 2
capability_rank manage_activate = 3
capability_rank manage_close = 4
capability_rank manage_workspace = 5
capability_rank manage_state = 6
capability_rank manage_geometry = 7
capability_rank launch_list = 8
capability_rank launch_execute = 9
capability_rank input_pointer = 10
capability_rank input_keyboard = 11
capability_rank Capability.text_transfer = 12
capability_rank capture_obscured = 13

unfoldable pub feature_rank : Feature → ℕ
feature_rank ewmh_observation = 0
feature_rank ewmh_management = 1
feature_rank desktop_launch = 2
feature_rank client_visible_capture = 3
feature_rank obscured_capture = 4
feature_rank output_capture = 5
feature_rank input_injection = 6
feature_rank Feature.text_transfer = 7
feature_rank human_activity = 8
feature_rank accessibility = 9

instance abbrev pub capability_ord : Ord Capability
capability_ord = rank_ord capability_rank

instance abbrev pub feature_ord : Ord Feature
feature_ord = rank_ord feature_rank

-- `PartialEq` and `slice::contains`.
unfoldable pub same_capability : Capability → Capability → Bool
unfolding capability_rank
same_capability a b = capability_rank a == capability_rank b

unfoldable pub contains : List Capability → Capability → Bool
unfolding same_capability
contains granted c = any (same_capability c) granted
