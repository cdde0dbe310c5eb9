-- ===== src/InputParser/Tests.antt =====
-- Runs of the input parser, and its theorems at concrete bytes.
use zireael.Prelude.{
  ℕ, ◌≡◌, ◌⊎◌, inl, refl, true, false, List, drop, length, [], ◌∷◌, ◌++◌, arith, ◌≤◌,
}
use zireael.Event.{Event, mouse_drag}
use zireael.Utf8.{
  utf8_decode_one, utf8_decode_two_bytes, utf8_decode_three_bytes, utf8_decode_four_bytes,
  utf8_is_cont, utf8_join_payloads_2, utf8_join_payloads_3, utf8_join_payloads_4,
}
use zireael.InputParser.{mods_from_csi_param, key_event, text_event, mouse_event, mod_ctrl}
use zireael.InputParser.Numbers.{
  dec_loop, parse_u32_dec, extra_loop, parse_csi_extra_mod_param_until, params_loop, keys_loop,
}
use zireael.InputParser.Csi.{
  csi_tilde_key_from_first, csi_simple_key_from_final, parse_csi_tilde_key, parse_csi_simple_key,
  parse_csi_focus_key, ss3_key_from_final, parse_ss3_key,
}
use zireael.InputParser.Extended.{
  extended_key_from_codepoint, ascii_letter_key_from_codepoint, emit_extended_codepoint,
  parse_csi_u_key, parse_modify_other_keys_tilde,
}
use zireael.InputParser.Mouse.{mods_from_xterm_btn, decode_sgr_mouse_event, parse_sgr_mouse}
use zireael.InputParser.Parse.{
  all_cont, is_incomplete_utf8_prefix, no_mouse_end, only_params, esc_is_incomplete_supported,
  consume_escape, parse_one, parse_loop,
}
use zireael.InputParser.Decimal.{parse_u32_dec-numeral}
use zireael.InputParser.Loop.{IsIncomplete, parse_loop_ends}
use zireael.InputParser.Text.{IsText, none_left, and_text, parse_loop-text}
use zireael.InputParser.Cut.{parse_loop-cut}
use zireael.InputParser.Keys.{held, up_key}
use zireael.InputParser.KeyReports.{IsOneKey, parse_loop-key}
use zireael.InputParser.OpenEscape.{esc_is_incomplete_supported-open}

runs : Unit {0}
unfolding utf8_decode_one utf8_decode_two_bytes utf8_decode_three_bytes utf8_decode_four_bytes
    utf8_is_cont utf8_join_payloads_2 utf8_join_payloads_3 utf8_join_payloads_4 mods_from_csi_param
    dec_loop parse_u32_dec extra_loop parse_csi_extra_mod_param_until params_loop keys_loop
    csi_tilde_key_from_first csi_simple_key_from_final parse_csi_tilde_key parse_csi_simple_key
    parse_csi_focus_key ss3_key_from_final parse_ss3_key extended_key_from_codepoint
    ascii_letter_key_from_codepoint emit_extended_codepoint parse_csi_u_key
    parse_modify_other_keys_tilde mods_from_xterm_btn decode_sgr_mouse_event parse_sgr_mouse
    all_cont is_incomplete_utf8_prefix no_mouse_end only_params esc_is_incomplete_supported
    consume_escape parse_one parse_loop
runs = tt

-- The events as a list.
abbrev log : List Event → Event → List Event
log events ev = events ++ (ev ∷ [])

-- ESC [ 1 ; 5 A: up with control; then an a.
abbrev ctrl_up : List ℕ
ctrl_up = 0x1B ∷ 91 ∷ 49 ∷ 59 ∷ 53 ∷ 65 ∷ 97 ∷ []

ctrl_up_parsed :
    parse_loop log 7 false ctrl_up 7 100 [] 0
    ≡ (key_event 100 20 mod_ctrl ∷ text_event 100 97 ∷ [], 7)
unfolding runs
ctrl_up_parsed = refl

-- ESC [ < 32 ; 10 ; 5 M: a drag with the left button.
drag_parsed :
    parse_loop log 12 false (0x1B ∷ 91 ∷ 60 ∷ 51 ∷ 50 ∷ 59 ∷ 49 ∷ 48 ∷ 59 ∷ 53 ∷ 77 ∷ []) 11 7 [] 0
    ≡ (
      mouse_event 7 (record {
        x = 9;
        y = 4;
        kind = mouse_drag;
        mods = 0;
        buttons = 1;
        wheel_x = 0;
        wheel_y = 0;
        reserved0 = 0;
      })
          ∷ [],
      11,
    )
unfolding runs
drag_parsed = refl

-- The arrow key is cut after its parameter, and is kept back.
abbrev cut : List ℕ
cut = 97 ∷ 0x1B ∷ 91 ∷ 49 ∷ []

cut_kept : parse_loop log 4 true cut 4 0 [] 0 ≡ (text_event 0 97 ∷ [], 1)
unfolding runs
cut_kept = refl

parse_loop_ends_example :
    ((parse_loop log 4 false cut 4 0 [] 0).1 ≡ 4)
    × ((parse_loop log 4 true cut 4 0 [] 0).1 ≤ 4)
    × (((parse_loop log 4 true cut 4 0 [] 0).1 ≡ 4)
        ⊎ IsIncomplete cut 4 (parse_loop log 4 true cut 4 0 [] 0).1)
parse_loop_ends_example = parse_loop_ends log cut 4 0 (omega arith) (omega arith) []

-- 4294967296 is one too large.
abbrev too_large : List ℕ
too_large = 52 ∷ 50 ∷ 57 ∷ 52 ∷ 57 ∷ 54 ∷ 55 ∷ 50 ∷ 57 ∷ 54 ∷ []

parse_u32_dec-numeral_example :
    parse_u32_dec too_large 10 0 ≡ record { ok = false; i = 0; value = 0 }
parse_u32_dec-numeral_example = parse_u32_dec-numeral too_large 10 (omega arith) 0 (omega arith)

letter_a-IsText : IsText 97
letter_a-IsText = record {
  scalar = inl (omega arith);
  no_esc = omega arith;
  no_cr = omega arith;
  no_lf = omega arith;
  no_tab = omega arith;
  no_del = omega arith;
}

letter_b-IsText : IsText 98
letter_b-IsText = record {
  scalar = inl (omega arith);
  no_esc = omega arith;
  no_cr = omega arith;
  no_lf = omega arith;
  no_tab = omega arith;
  no_del = omega arith;
}

euro-IsText : IsText 0x20AC
euro-IsText = record {
  scalar = inl (omega arith);
  no_esc = omega arith;
  no_cr = omega arith;
  no_lf = omega arith;
  no_tab = omega arith;
  no_del = omega arith;
}

-- "a€"
parse_loop-text_example :
    parse_loop log 4 false (97 ∷ 0xE2 ∷ 0x82 ∷ 0xAC ∷ []) 4 9 [] 0
    ≡ (text_event 9 97 ∷ text_event 9 0x20AC ∷ [], 4)
parse_loop-text_example =
    parse_loop-text log 9 [] (97 ∷ 0x20AC ∷ [])
      (and_text 97 (0x20AC ∷ []) letter_a-IsText (and_text 0x20AC [] euro-IsText none_left))
      (omega arith)

-- "a€b", cut behind the second byte of the euro sign.
parse_loop-cut_example :
    let r = parse_loop log 3 true (97 ∷ 0xE2 ∷ 0x82 ∷ []) 3 9 [] 0 in
    let again : List ℕ = drop r.1 (97 ∷ 0xE2 ∷ 0x82 ∷ []) ++ (0xAC ∷ []) ++ (98 ∷ []) in
    (r ≡ (text_event 9 97 ∷ [], 1))
    × (parse_loop log (length again) false again (length again) 10 r.0 0
        ≡ (text_event 9 97 ∷ text_event 10 0x20AC ∷ text_event 10 98 ∷ [], length again))
parse_loop-cut_example =
    parse_loop-cut log 9 10 [] (97 ∷ []) 0x20AC 2 (98 ∷ [])
      (and_text 97 [] letter_a-IsText none_left) euro-IsText
      (and_text 98 [] letter_b-IsText none_left) (omega arith) (omega arith) (omega arith)

-- Up with control held.
parse_loop-key_example : IsOneKey log 100 [] (0x1B ∷ 91 ∷ 49 ∷ 59 ∷ 53 ∷ 65 ∷ []) 20 mod_ctrl
parse_loop-key_example = parse_loop-key log 100 [] up_key (held false false true false)

esc_is_incomplete_supported-open_example : esc_is_incomplete_supported cut 4 1 ≡ true
esc_is_incomplete_supported-open_example =
    esc_is_incomplete_supported-open cut 1 (omega arith) (omega arith)
