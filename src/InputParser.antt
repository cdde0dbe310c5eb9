-- ===== src/InputParser.antt =====
-- src/core/zr_input_parser.c: terminal input bytes to events. This file has the key codes of
-- include/zr/zr_event.h, the events that are pushed, and the tests on single bytes. A boolean result
-- with out-parameters is a record whose `ok` is the result. A signed coordinate is its 32-bit pattern.
pub mod Numbers
pub mod Csi
pub mod Extended
pub mod Mouse
pub mod Parse
pub mod Progress
pub mod Loop
pub mod Fuel
pub mod Queue
pub mod Decimal
pub mod Text
pub mod Incomplete
pub mod Cut
pub mod Keys
pub mod KeyReports
pub mod OpenEscape
mod Tests
use zireael.Prelude.{
  ℕ, ◌+◌, ◌-◌, ◌%◌, ◌^◌, Bool, true, false, ◌&&◌, ◌||◌, List, get_or, bit_and, bit_or, ltb, leb,
  ◌==◌, ◌!=◌, if◌then◌else◌, is_nil,
}
use zireael.Event.{Event, EvKey, EvText, EvMouse, key, text, mouse}

-- `size_t` addition wraps.
abbrev pub add_size : ℕ → ℕ → ℕ
add_size a b = (a + b) % 2 ^ 64

-- ZR_ASCII_ESC
abbrev pub ascii_esc : ℕ
ascii_esc = 0x1B

-- ZR_MOD_SHIFT, ZR_MOD_CTRL, ZR_MOD_ALT, ZR_MOD_META
abbrev pub mod_shift : ℕ
mod_shift = 1

abbrev pub mod_ctrl : ℕ
mod_ctrl = 2

abbrev pub mod_alt : ℕ
mod_alt = 4

abbrev pub mod_meta : ℕ
mod_meta = 8

-- zr_key_t; the enumeration is sparse, and any number can stand in a key event.
abbrev pub key_unknown : ℕ
key_unknown = 0

abbrev pub key_escape : ℕ
key_escape = 1

abbrev pub key_enter : ℕ
key_enter = 2

abbrev pub key_tab : ℕ
key_tab = 3

abbrev pub key_backspace : ℕ
key_backspace = 4

-- ZR_KEY_ACTION_DOWN
abbrev pub key_action_down : ℕ
key_action_down = 1

-- `if ((bits & bit) != 0) mods |= mod`
abbrev pub with_mod : ℕ → ℕ → ℕ → ℕ → ℕ
with_mod bits bit added mods = if bit_and bits bit != 0 then bit_or mods added else mods

-- zr__mods_from_csi_param
unfoldable pub mods_from_csi_param : ℕ → ℕ
mods_from_csi_param mod_param =
    let bits = mod_param - 1 in
    if leb mod_param 1
    then 0
    else with_mod bits 8 mod_meta
        (with_mod bits 4 mod_ctrl (with_mod bits 2 mod_alt (with_mod bits 1 mod_shift 0)))

-- zr__is_digit
abbrev pub is_digit : ℕ → Bool
is_digit b = leb 48 b && leb b 57

-- zr__has_csi_prefix
abbrev pub has_csi_prefix : List ℕ → ℕ → ℕ → Bool
has_csi_prefix bytes len i =
    if is_nil bytes || leb len (add_size i 1)
    then false
    else (get_or bytes i 0 == ascii_esc) && (get_or bytes (add_size i 1) 0 == 91)

-- zr__has_ss3_prefix
abbrev pub has_ss3_prefix : List ℕ → ℕ → ℕ → Bool
has_ss3_prefix bytes len i =
    if is_nil bytes || leb len (add_size i 1)
    then false
    else (get_or bytes i 0 == ascii_esc) && (get_or bytes (add_size i 1) 0 == 79)

-- The events of zr__push_key, zr__push_text_scalar and zr__push_mouse.
abbrev pub key_event : ℕ → ℕ → ℕ → Event
key_event time_ms key_code mods = record {
  body = key (record { key = key_code; mods = mods; action = key_action_down; reserved0 = 0 });
  time_ms = time_ms;
  flags = 0;
}

abbrev pub text_event : ℕ → ℕ → Event
text_event time_ms scalar = record {
  body = text (record { codepoint = scalar; reserved0 = 0 });
  time_ms = time_ms;
  flags = 0;
}

abbrev pub mouse_event : ℕ → EvMouse → Event
mouse_event time_ms m = record { body = mouse m; time_ms = time_ms; flags = 0 }
