-- ===== src/Width/Tests.antt =====
-- Runs of the width policy, and its theorem at a concrete cluster.
use zireael.Prelude.{ℕ, ◌≡◌, refl, List, [], ◌∷◌, arith}
use zireael.Utf8.{
  utf8_decode_one, utf8_decode_two_bytes, utf8_decode_three_bytes, utf8_decode_four_bytes,
  utf8_is_cont, utf8_join_payloads_2, utf8_join_payloads_3, utf8_join_payloads_4,
}
use zireael.Unicode.{
  in_ranges, in_ranges_loop, ranges8_lookup, ranges8_lookup_loop, unicode_gcb_class,
  unicode_is_extended_pictographic, unicode_is_emoji_presentation, unicode_is_eaw_wide,
}
use zireael.Unicode.Rows.{few_rows}
use zireael.Width.{
  emoji_narrow, emoji_wide, scan_start, width_codepoint, scan_one, width_loop, width_of_scan,
  width_grapheme_utf8,
}
use zireael.Width.Cluster.{scalars}
use zireael.Width.Policy.{columns, width_grapheme_utf8-columns}

runs : Unit {0}
unfolding utf8_decode_one utf8_decode_two_bytes utf8_decode_three_bytes utf8_decode_four_bytes
    utf8_is_cont utf8_join_payloads_2 utf8_join_payloads_3 utf8_join_payloads_4 in_ranges
    in_ranges_loop ranges8_lookup ranges8_lookup_loop unicode_gcb_class
    unicode_is_extended_pictographic unicode_is_emoji_presentation unicode_is_eaw_wide
    width_codepoint scan_one width_loop width_of_scan width_grapheme_utf8
runs = tt

-- 1, variation selector 16, keycap
abbrev keycap_1 : List ℕ
keycap_1 = 0x31 ∷ 0xEF ∷ 0xB8 ∷ 0x8F ∷ 0xE2 ∷ 0x83 ∷ 0xA3 ∷ []

width_grapheme_utf8-columns_example :
    ((width_loop few_rows 7 keycap_1 7 scan_start).off ≡ 7)
    × (width_grapheme_utf8 few_rows keycap_1 7 emoji_wide
        ≡ columns few_rows emoji_wide (scalars 7 keycap_1 7 0))
width_grapheme_utf8-columns_example =
    width_grapheme_utf8-columns few_rows keycap_1 7 (omega arith) (omega arith) emoji_wide

keycap_widths :
    (width_grapheme_utf8 few_rows keycap_1 7 emoji_wide ≡ 2)
    × (width_grapheme_utf8 few_rows keycap_1 7 emoji_narrow ≡ 1)
unfolding runs
keycap_widths = (refl, refl)
