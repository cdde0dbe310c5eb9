-- ===== src/InputParser/Mouse.antt =====
-- SGR mouse packets of src/core/zr_input_parser.c.
use zireael.Prelude.{
  ℕ, ◌-◌, ◌%◌, ◌^◌, true, false, not, ◌&&◌, ◌||◌, List, get_or, bit_and, ltb, leb, ◌==◌, ◌!=◌,
  if◌then◌else◌, is_nil,
}
use zireael.Event.{Event, mouse_move, mouse_drag}
use zireael.InputParser.{
  add_size, mod_shift, mod_ctrl, mod_alt, with_mod, has_csi_prefix, mouse_event,
}
use zireael.InputParser.Numbers.{DecResult, parse_u32_dec}
use zireael.InputParser.Csi.{consumed_to}
use zireael.InputParser.Extended.{Emitted}

-- ZR_MOUSE_DOWN, ZR_MOUSE_UP, ZR_MOUSE_WHEEL
abbrev pub mouse_down : ℕ
mouse_down = 3

abbrev pub mouse_up : ℕ
mouse_up = 4

abbrev pub mouse_wheel : ℕ
mouse_wheel = 5

-- -1 as a 32-bit pattern
abbrev pub minus_one : ℕ
minus_one = 2 ^ 32 - 1

-- zr__mods_from_xterm_btn
unfoldable pub mods_from_xterm_btn : ℕ → ℕ
mods_from_xterm_btn b = with_mod b 16 mod_ctrl (with_mod b 8 mod_alt (with_mod b 4 mod_shift 0))

-- zr__buttons_mask_from_base
abbrev pub buttons_mask_from_base : ℕ → ℕ
buttons_mask_from_base base = if ltb 2 base then 0 else 2 ^ base % 2 ^ 32

-- zr__term_coord_to_i32
abbrev pub term_coord_to_i32 : ℕ → ℕ
term_coord_to_i32 coord = if (coord == 0) || ltb (2 ^ 31 - 1) coord then 0 else coord - 1

-- zr__decode_sgr_mouse_event: the four values that it writes
pub record MouseKind : Type 0 where
  pub kind : ℕ
  pub buttons : ℕ
  pub wheel_x : ℕ
  pub wheel_y : ℕ

unfoldable pub decode_sgr_mouse_event : ℕ → ℕ → MouseKind
decode_sgr_mouse_event button_code terminator =
    let base = bit_and button_code 3 in
    let is_motion = bit_and button_code 32 != 0 in
    let is_wheel = bit_and button_code 64 != 0 in
    let held = if base != 3 then buttons_mask_from_base base else 0 in
    if is_wheel
    then (if base == 0
        then record { kind = mouse_wheel; buttons = 0; wheel_x = 0; wheel_y = minus_one }
        else if base == 1
        then record { kind = mouse_wheel; buttons = 0; wheel_x = 0; wheel_y = 1 }
        else if base == 2
        then record { kind = mouse_wheel; buttons = 0; wheel_x = 1; wheel_y = 0 }
        else record { kind = mouse_wheel; buttons = 0; wheel_x = minus_one; wheel_y = 0 })
    else if is_motion
    then record {
      kind = if held != 0 then mouse_drag else mouse_move;
      buttons = held;
      wheel_x = 0;
      wheel_y = 0;
    }
    else if terminator == 109
    then record { kind = mouse_up; buttons = buttons_mask_from_base base; wheel_x = 0; wheel_y = 0 }
    else if base == 3
    then record { kind = mouse_move; buttons = 0; wheel_x = 0; wheel_y = 0 }
    else record {
      kind = mouse_down;
      buttons = buttons_mask_from_base base;
      wheel_x = 0;
      wheel_y = 0;
    }

module _ {Q : Type 0} (push : Q → Event → Q) where
  -- zr__parse_sgr_mouse
  unfoldable pub parse_sgr_mouse : List ℕ → ℕ → ℕ → ℕ → Q → Emitted Q
  parse_sgr_mouse bytes len i time_ms q =
      let b = parse_u32_dec bytes len (add_size i 3) in
      let jb = DecResult.i b in
      let x = parse_u32_dec bytes len (add_size jb 1) in
      let jx = DecResult.i x in
      let y = parse_u32_dec bytes len (add_size jx 1) in
      let jy = DecResult.i y in
      let term = get_or bytes jy 0 in
      let m = decode_sgr_mouse_event (DecResult.value b) term in
      let failed : Emitted Q = record { ok = false; queue = q; consumed = 0 } in
      if is_nil bytes || leb len (add_size i 3)
      then failed
      else if not (has_csi_prefix bytes len i) || (get_or bytes (add_size i 2) 0 != 60)
      then failed
      else if not (DecResult.ok b)
      then failed
      else if leb len jb || (get_or bytes jb 0 != 59)
      then failed
      else if not (DecResult.ok x)
      then failed
      else if leb len jx || (get_or bytes jx 0 != 59)
      then failed
      else if not (DecResult.ok y)
      then failed
      else if leb len jy
      then failed
      else if (term != 77) && (term != 109)
      then failed
      else record {
        ok = true;
        queue = push q (
            mouse_event time_ms (record {
              x = term_coord_to_i32 (DecResult.value x);
              y = term_coord_to_i32 (DecResult.value y);
              kind = MouseKind.kind m;
              mods = mods_from_xterm_btn (DecResult.value b);
              buttons = MouseKind.buttons m;
              wheel_x = MouseKind.wheel_x m;
              wheel_y = MouseKind.wheel_y m;
              reserved0 = 0;
            }));
        consumed = consumed_to jy i;
      }
