-- ===== src/Proto/Keyboard.antt =====
-- `KeyboardKey`, `KeyboardModifier` and `PointerButton` of
-- crates/agent-seat-proto/src/message.rs. Letters and digits carry a prefix, since a bare letter
-- would be taken for a variable.
use agent_seat_proto.Prelude.{ℕ}
use agent_seat_proto.Proto.Order.{Ord, rank_ord}

pub data KeyboardKey : Type 0 where
  backspace delete enter escape tab space insert home end_key : KeyboardKey
  page_up page_down arrow_left arrow_right arrow_up arrow_down : KeyboardKey
  key_a key_b key_c key_d key_e key_f key_g key_h key_i key_j key_k key_l key_m : KeyboardKey
  key_n key_o key_p key_q key_r key_s key_t key_u key_v key_w key_x key_y key_z : KeyboardKey
  digit0 digit1 digit2 digit3 digit4 digit5 digit6 digit7 digit8 digit9 : KeyboardKey
  f1 f2 f3 f4 f5 f6 f7 f8 f9 f10 f11 f12 : KeyboardKey

pub data KeyboardModifier : Type 0 where
  control alt shift super : KeyboardModifier

unfoldable pub modifier_rank : KeyboardModifier → ℕ
modifier_rank control = 0
modifier_rank alt = 1
modifier_rank shift = 2
modifier_rank super = 3

instance abbrev pub modifier_ord : Ord KeyboardModifier
modifier_ord = rank_ord modifier_rank

pub data PointerButton : Type 0 where
  primary middle secondary : PointerButton
