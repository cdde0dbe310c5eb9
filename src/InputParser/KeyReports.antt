-- ===== src/InputParser/KeyReports.antt =====
-- The input parser on the sequences of InputParser/Keys.
use zireael.Prelude.{ℕ, ◌≡◌, refl, true, false, List, length}
use zireael.Event.{Event}
use zireael.InputParser.{mods_from_csi_param, key_event}
use zireael.InputParser.Numbers.{
  dec_loop, parse_u32_dec, extra_loop, parse_csi_extra_mod_param_until, params_loop, keys_loop,
}
use zireael.InputParser.Csi.{
  csi_tilde_key_from_first, csi_simple_key_from_final, parse_csi_tilde_key, parse_csi_simple_key,
  parse_csi_focus_key, ss3_key_from_final, parse_ss3_key,
}
use zireael.InputParser.Extended.{parse_csi_u_key, parse_modify_other_keys_tilde}
use zireael.InputParser.Mouse.{parse_sgr_mouse}
use zireael.InputParser.Parse.{
  no_mouse_end, only_params, esc_is_incomplete_supported, consume_escape, parse_one, parse_loop,
}
use zireael.InputParser.Keys.{
  SpecialKey, Held, held, mod_bits, key_sequence, code_of, up_key, down_key, right_key, left_key,
  home_key, end_key, insert_key, delete_key, page_up_key, page_down_key, f5_key, f6_key, f7_key,
  f8_key, f9_key, f10_key, f11_key, f12_key,
}

-- The sixteen sets of modifiers, one by one.
all_held :
    (P : Held → Type 0)
    → P (held false false false false)
    → P (held false false false true)
    → P (held false false true false)
    → P (held false false true true)
    → P (held false true false false)
    → P (held false true false true)
    → P (held false true true false)
    → P (held false true true true)
    → P (held true false false false)
    → P (held true false false true)
    → P (held true false true false)
    → P (held true false true true)
    → P (held true true false false)
    → P (held true true false true)
    → P (held true true true false)
    → P (held true true true true)
    → (m : Held) → P m
all_held P a _ _ _ _ _ _ _ _ _ _ _ _ _ _ _ (held false false false false) = a
all_held P _ b _ _ _ _ _ _ _ _ _ _ _ _ _ _ (held false false false true) = b
all_held P _ _ c _ _ _ _ _ _ _ _ _ _ _ _ _ (held false false true false) = c
all_held P _ _ _ d _ _ _ _ _ _ _ _ _ _ _ _ (held false false true true) = d
all_held P _ _ _ _ e _ _ _ _ _ _ _ _ _ _ _ (held false true false false) = e
all_held P _ _ _ _ _ f _ _ _ _ _ _ _ _ _ _ (held false true false true) = f
all_held P _ _ _ _ _ _ g _ _ _ _ _ _ _ _ _ (held false true true false) = g
all_held P _ _ _ _ _ _ _ h _ _ _ _ _ _ _ _ (held false true true true) = h
all_held P _ _ _ _ _ _ _ _ i _ _ _ _ _ _ _ (held true false false false) = i
all_held P _ _ _ _ _ _ _ _ _ j _ _ _ _ _ _ (held true false false true) = j
all_held P _ _ _ _ _ _ _ _ _ _ k _ _ _ _ _ (held true false true false) = k
all_held P _ _ _ _ _ _ _ _ _ _ _ l _ _ _ _ (held true false true true) = l
all_held P _ _ _ _ _ _ _ _ _ _ _ _ n _ _ _ (held true true false false) = n
all_held P _ _ _ _ _ _ _ _ _ _ _ _ _ o _ _ (held true true false true) = o
all_held P _ _ _ _ _ _ _ _ _ _ _ _ _ _ p _ (held true true true false) = p
all_held P _ _ _ _ _ _ _ _ _ _ _ _ _ _ _ q (held true true true true) = q

module _ {Q : Type 0} (push : Q → Event → Q) (time_ms : ℕ) (q : Q) where
  -- What the parser does with some bytes when it parses them all, and when it keeps incomplete input
  -- back.
  abbrev pub in_both_modes : List ℕ → (Q × ℕ) × (Q × ℕ)
  in_both_modes s = (
    parse_loop push (length s) false s (length s) time_ms q 0,
    parse_loop push (length s) true s (length s) time_ms q 0,
  )

  -- In both modes, one key event is pushed and all the bytes are consumed.
  abbrev pub IsOneKey : List ℕ → ℕ → ℕ → Type 0
  IsOneKey s key_code mods =
      let done : Q × ℕ = (push q (key_event time_ms key_code mods), length s) in
      in_both_modes s ≡ (done, done)

  abbrev Reports : SpecialKey → Held → Type 0
  Reports k m = IsOneKey (key_sequence k m) (code_of k) (mod_bits m)

  unfolds : Unit {0}
  unfolding mods_from_csi_param dec_loop parse_u32_dec extra_loop parse_csi_extra_mod_param_until
      params_loop keys_loop csi_tilde_key_from_first csi_simple_key_from_final parse_csi_tilde_key
      parse_csi_simple_key parse_csi_focus_key ss3_key_from_final parse_ss3_key parse_csi_u_key
      parse_modify_other_keys_tilde parse_sgr_mouse no_mouse_end only_params
      esc_is_incomplete_supported consume_escape parse_one parse_loop
  unfolds = tt

  -- The sequence by which xterm reports a cursor key, Home, End, Insert, Delete, a Page key or one
  -- of F5 to F12, with any set of Shift, Alt, Control and Meta held, is parsed to one key event
  -- with the code of that key and the bits of those modifiers: all bytes are consumed and none kept
  -- back, also where the parser keeps incomplete input back.
  pub parse_loop-key :
      (k : SpecialKey) (m : Held) → IsOneKey (key_sequence k m) (code_of k) (mod_bits m)
  unfolding unfolds
  parse_loop-key up_key =
      all_held (Reports up_key) refl refl refl refl refl refl refl refl refl refl refl refl refl
        refl refl refl
  parse_loop-key down_key =
      all_held (Reports down_key) refl refl refl refl refl refl refl refl refl refl refl refl refl
        refl refl refl
  parse_loop-key right_key =
      all_held (Reports right_key) refl refl refl refl refl refl refl refl refl refl refl refl refl
        refl refl refl
  parse_loop-key left_key =
      all_held (Reports left_key) refl refl refl refl refl refl refl refl refl refl refl refl refl
        refl refl refl
  parse_loop-key home_key =
      all_held (Reports home_key) refl refl refl refl refl refl refl refl refl refl refl refl refl
        refl refl refl
  parse_loop-key end_key =
      all_held (Reports end_key) refl refl refl refl refl refl refl refl refl refl refl refl refl
        refl refl refl
  parse_loop-key insert_key =
      all_held (Reports insert_key) refl refl refl refl refl refl refl refl refl refl refl refl refl
        refl refl refl
  parse_loop-key delete_key =
      all_held (Reports delete_key) refl refl refl refl refl refl refl refl refl refl refl refl refl
        refl refl refl
  parse_loop-key page_up_key =
      all_held (Reports page_up_key) refl refl refl refl refl refl refl refl refl refl refl refl
        refl refl refl refl
  parse_loop-key page_down_key =
      all_held (Reports page_down_key) refl refl refl refl refl refl refl refl refl refl refl refl
        refl refl refl refl
  parse_loop-key f5_key =
      all_held (Reports f5_key) refl refl refl refl refl refl refl refl refl refl refl refl refl
        refl refl refl
  parse_loop-key f6_key =
      all_held (Reports f6_key) refl refl refl refl refl refl refl refl refl refl refl refl refl
        refl refl refl
  parse_loop-key f7_key =
      all_held (Reports f7_key) refl refl refl refl refl refl refl refl refl refl refl refl refl
        refl refl refl
  parse_loop-key f8_key =
      all_held (Reports f8_key) refl refl refl refl refl refl refl refl refl refl refl refl refl
        refl refl refl
  parse_loop-key f9_key =
      all_held (Reports f9_key) refl refl refl refl refl refl refl refl refl refl refl refl refl
        refl refl refl
  parse_loop-key f10_key =
      all_held (Reports f10_key) refl refl refl refl refl refl refl refl refl refl refl refl refl
        refl refl refl
  parse_loop-key f11_key =
      all_held (Reports f11_key) refl refl refl refl refl refl refl refl refl refl refl refl refl
        refl refl refl
  parse_loop-key f12_key =
      all_held (Reports f12_key) refl refl refl refl refl refl refl refl refl refl refl refl refl
        refl refl refl
