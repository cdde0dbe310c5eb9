-- ===== src/Wrap/Tests.antt =====
-- Runs of measuring and wrapping, and the theorems at concrete texts.
use zireael.Prelude.{ℕ, ◌≡◌, refl, true, false, some, List, [], ◌∷◌, arith}
use zireael.Result.{zr_ok}
use zireael.Utf8.{
  utf8_decode_one, utf8_decode_two_bytes, utf8_decode_three_bytes, utf8_decode_four_bytes,
  utf8_is_cont, utf8_join_payloads_2, utf8_join_payloads_3, utf8_join_payloads_4,
}
use zireael.Unicode.{
  in_ranges, in_ranges_loop, ranges8_lookup, ranges8_lookup_loop, unicode_gcb_class,
  unicode_is_extended_pictographic, unicode_is_emoji_presentation, unicode_is_eaw_wide,
}
use zireael.Unicode.Rows.{few_rows}
use zireael.Grapheme.{
  GraphemeIter, should_break, state_init, state_advance, grapheme_decode_cp, cluster_loop,
  grapheme_next_given,
}
use zireael.Width.{
  emoji_wide, width_codepoint, scan_one, width_loop, width_of_scan, width_grapheme_utf8,
}
use zireael.Wrap.{
  WrapOut, WrapState, measure_one, measure_loop, measure_utf8, wrap_one, wrap_loop, wrap_start,
  wrap_greedy_utf8,
}
use zireael.Wrap.Ends.{wrap_loop_ends}
use zireael.Wrap.Offsets.{IsRecorded, wrap_greedy_utf8-IsRecorded}

runs : Unit {0}
unfolding utf8_decode_one utf8_decode_two_bytes utf8_decode_three_bytes utf8_decode_four_bytes
    utf8_is_cont utf8_join_payloads_2 utf8_join_payloads_3 utf8_join_payloads_4 in_ranges
    in_ranges_loop ranges8_lookup ranges8_lookup_loop unicode_gcb_class
    unicode_is_extended_pictographic unicode_is_emoji_presentation unicode_is_eaw_wide should_break
    state_init state_advance grapheme_decode_cp cluster_loop grapheme_next_given width_codepoint
    scan_one width_loop width_of_scan width_grapheme_utf8 measure_one measure_loop measure_utf8
    wrap_one wrap_loop wrap_greedy_utf8
runs = tt

-- "ab cd"
abbrev words : List ℕ
words = 0x61 ∷ 0x62 ∷ 0x20 ∷ 0x63 ∷ 0x64 ∷ []

abbrev no_lines : WrapOut
no_lines = record { offsets = 0 ∷ 0 ∷ 0 ∷ []; cap = 3; count = 0; truncated = false }

wrap_loop_ends_example :
    GraphemeIter.off
      (WrapState.it (wrap_loop few_rows emoji_wide 4 36 4 (wrap_start words 5 no_lines)))
    ≡ 5
wrap_loop_ends_example =
    wrap_loop_ends few_rows emoji_wide 4 4 words 5 no_lines (omega arith) (omega arith)

-- The d does not fit, and the line goes back to the space.
wrap_greedy_utf8-IsRecorded_example :
    (out : WrapOut) × (wrap_greedy_utf8 few_rows emoji_wide 4 words 5 4 (0 ∷ 0 ∷ 0 ∷ []) 3 true true
      ≡ (zr_ok, some out))
    × IsRecorded 5 out
wrap_greedy_utf8-IsRecorded_example =
    wrap_greedy_utf8-IsRecorded few_rows emoji_wide 4 4 words 5 (0 ∷ 0 ∷ 0 ∷ []) 3 (omega arith)
      (omega arith) (omega arith) (omega arith) (omega arith)

words_wrapped :
    wrap_greedy_utf8 few_rows emoji_wide 4 words 5 4 (0 ∷ 0 ∷ 0 ∷ []) 3 true true
    ≡ (zr_ok, some (record { offsets = 0 ∷ 3 ∷ 0 ∷ []; cap = 3; count = 2; truncated = false }))
unfolding runs
words_wrapped = refl

words_measured :
    measure_utf8 few_rows emoji_wide 4 words 5 true
    ≡ (zr_ok, some (record { lines = 1; max_cols = 5 }))
unfolding runs
words_measured = refl
