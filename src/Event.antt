-- ===== src/Event.antt =====
-- include/zr/zr_event.h and the `zr_event_t` of src/core/zr_event_queue.h: normalized events.
-- The union of `zr_event_t` is read by the code only as its `type` says, so type and union are one
-- data type. A signed coordinate is kept as its 32-bit pattern.
use zireael.Prelude.{ℕ, Bool, true, false, ◌||◌, ◌==◌}

-- zr_ev_key_t
pub record EvKey : Type 0 where
  pub key : ℕ
  pub mods : ℕ
  pub action : ℕ
  pub reserved0 : ℕ

-- zr_ev_text_t
pub record EvText : Type 0 where
  pub codepoint : ℕ
  pub reserved0 : ℕ

-- zr_ev_mouse_t
pub record EvMouse : Type 0 where
  pub x : ℕ
  pub y : ℕ
  pub kind : ℕ
  pub mods : ℕ
  pub buttons : ℕ
  pub wheel_x : ℕ
  pub wheel_y : ℕ
  pub reserved0 : ℕ

-- zr_ev_resize_t
pub record EvResize : Type 0 where
  pub cols : ℕ
  pub rows : ℕ
  pub reserved0 : ℕ
  pub reserved1 : ℕ

-- zr_ev_tick_t
pub record EvTick : Type 0 where
  pub dt_ms : ℕ
  pub reserved0 : ℕ
  pub reserved1 : ℕ
  pub reserved2 : ℕ

-- The `paste` member: its `hdr` fields, then `payload_off` and the outer `reserved0`.
pub record EvPaste : Type 0 where
  pub byte_len : ℕ
  pub hdr_reserved0 : ℕ
  pub payload_off : ℕ
  pub reserved0 : ℕ

-- The `user` member: its `hdr` fields, then `payload_off` and the outer `reserved0`.
pub record EvUser : Type 0 where
  pub tag : ℕ
  pub byte_len : ℕ
  pub hdr_reserved0 : ℕ
  pub hdr_reserved1 : ℕ
  pub payload_off : ℕ
  pub reserved0 : ℕ

-- zr_event_type_t together with the union member that it selects.
pub data EventBody : Type 0 where
  invalid : EventBody
  key : EvKey → EventBody
  text : EvText → EventBody
  paste : EvPaste → EventBody
  mouse : EvMouse → EventBody
  resize : EvResize → EventBody
  tick : EvTick → EventBody
  user : EvUser → EventBody

-- zr_event_t
pub record Event : Type 0 where
  pub body : EventBody
  pub time_ms : ℕ
  pub flags : ℕ

-- Zeroed memory read as an event: `ZR_EV_INVALID` is 0.
abbrev pub zero_event : Event
zero_event = record { body = invalid; time_ms = 0; flags = 0 }

abbrev pub mouse_move : ℕ
mouse_move = 1

abbrev pub mouse_drag : ℕ
mouse_drag = 2

-- zr_evq_is_resize
abbrev pub is_resize_body : EventBody → Bool
is_resize_body (resize r) = true
is_resize_body _ = false

-- zr_evq_is_mouse_coalescible
abbrev pub is_mouse_coalescible_body : EventBody → Bool
is_mouse_coalescible_body (mouse m) = (m.kind == mouse_move) || (m.kind == mouse_drag)
is_mouse_coalescible_body _ = false
