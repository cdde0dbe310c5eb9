-- ===== src/InputParser/Extended.antt =====
-- The extended key protocols of src/core/zr_input_parser.c: CSI u and modifyOtherKeys. The event
-- queue is any state with a push, whose result the parser ignores.
use zireael.Prelude.{
  ℕ, ◌+◌, ◌-◌, Bool, true, false, not, ◌&&◌, ◌||◌, List, get_or, bit_and, ltb, leb, ◌==◌, ◌!=◌,
  if◌then◌else◌, is_nil,
}
use zireael.Event.{Event}
use zireael.InputParser.{
  add_size, ascii_esc, mod_shift, mod_ctrl, mod_alt, mod_meta, key_unknown, key_escape, key_enter,
  key_tab, key_backspace, mods_from_csi_param, has_csi_prefix, key_event, text_event,
}
use zireael.InputParser.Numbers.{Params, read_params, Keys, read_keys}
use zireael.InputParser.Csi.{consumed_to}

-- zr__is_valid_unicode_scalar
abbrev pub is_valid_unicode_scalar : ℕ → Bool
is_valid_unicode_scalar scalar =
    if ltb 0x10FFFF scalar then false else ltb scalar 0xD800 || ltb 0xDFFF scalar

-- zr__extended_key_from_codepoint, with 0 where it returns false
unfoldable pub extended_key_from_codepoint : ℕ → ℕ
extended_key_from_codepoint codepoint =
    if (codepoint == 0x08) || (codepoint == 0x7F)
    then key_backspace
    else if codepoint == 0x09
    then key_tab
    else if codepoint == 0x0D
    then key_enter
    else if codepoint == ascii_esc
    then key_escape
    else 0

-- zr__ascii_letter_key_from_codepoint, with 0 where it returns false
unfoldable pub ascii_letter_key_from_codepoint : ℕ → ℕ
ascii_letter_key_from_codepoint codepoint =
    if leb 97 codepoint && leb codepoint 122
    then codepoint - 32
    else if leb 65 codepoint && leb codepoint 90
    then codepoint
    else 0

-- The queue after a parser, and the bytes that it took.
pub record Emitted (Q : Type 0) : Type 0 where
  pub ok : Bool
  pub queue : Q
  pub consumed : ℕ

module _ {Q : Type 0} (push : Q → Event → Q) where
  -- zr__emit_extended_codepoint: the result and the queue
  unfoldable pub emit_extended_codepoint : Q → ℕ → ℕ → ℕ → Bool × Q
  emit_extended_codepoint q time_ms codepoint mods =
      let key = extended_key_from_codepoint codepoint in
      let letter = ascii_letter_key_from_codepoint codepoint in
      let text_mods = bit_and mods (mod_alt + mod_meta) in
      let is_letter = (text_mods == 0) && (letter != 0) in
      if key != 0
      then (true, push q (key_event time_ms key mods))
      else if is_letter && (bit_and mods mod_ctrl != 0)
      then (true, push q (key_event time_ms letter mods))
      else if is_letter && (mods == mod_shift)
      then (true, push (push q (key_event time_ms letter mods)) (text_event time_ms codepoint))
      else if is_valid_unicode_scalar codepoint
      then (
        true,
        push (if text_mods != 0 then push q (key_event time_ms key_escape 0) else q)
            (text_event time_ms codepoint),
      )
      else if mods != 0
      then (true, push q (key_event time_ms key_unknown mods))
      else (false, q)

  -- zr__parse_csi_u_key
  unfoldable pub parse_csi_u_key : List ℕ → ℕ → ℕ → ℕ → Q → Emitted Q
  parse_csi_u_key bytes len i time_ms q =
      let params = read_params bytes len (add_size i 2) in
      let j = Params.j params in
      let mods =
        if leb 2 (Params.param_index params)
        then mods_from_csi_param (Params.mod_param params)
        else 0 in
      let emitted = emit_extended_codepoint q time_ms (Params.codepoint params) mods in
      let failed : Emitted Q = record { ok = false; queue = q; consumed = 0 } in
      if is_nil bytes || leb len (add_size i 3) || not (has_csi_prefix bytes len i)
      then failed
      else if not (Params.ok params)
      then failed
      else if (Params.param_index params == 0) || leb len j || (get_or bytes j 0 != 117)
      then failed
      else if not (emitted.0)
      then failed
      else record { ok = true; queue = emitted.1; consumed = consumed_to j i }

  -- zr__parse_modify_other_keys_tilde
  unfoldable pub parse_modify_other_keys_tilde : List ℕ → ℕ → ℕ → ℕ → Q → Emitted Q
  parse_modify_other_keys_tilde bytes len i time_ms q =
      let keys = read_keys bytes len (add_size i 2) in
      let j = Keys.j keys in
      let mods = mods_from_csi_param (Keys.second keys) in
      let emitted = emit_extended_codepoint q time_ms (Keys.third keys) mods in
      let failed : Emitted Q = record { ok = false; queue = q; consumed = 0 } in
      if is_nil bytes || leb len (add_size i 5) || not (has_csi_prefix bytes len i)
      then failed
      else if not (Keys.ok keys)
      then failed
      else if leb len j || (get_or bytes j 0 != 126)
      then failed
      else if (Keys.first keys != 27) || ltb (Keys.param_count keys) 3
      then failed
      else if not (emitted.0)
      then failed
      else record { ok = true; queue = emitted.1; consumed = consumed_to j i }
