-- ===== src/Framebuffer/Tests.antt =====
-- Runs of the painter, and the theorem about wide glyphs at a concrete framebuffer.
use zireael.Prelude.{ℕ, ◌≤◌, ◌<◌, ◌≢◌, zero, suc, ◌≡◌, refl, none, some, ◌&&◌, List, [], ◌∷◌, arith}
use zireael.Result.{zr_ok}
use zireael.Utf8.{
  utf8_decode_one, utf8_decode_two_bytes, utf8_decode_three_bytes, utf8_decode_four_bytes,
  utf8_is_cont, utf8_join_payloads_2, utf8_join_payloads_3, utf8_join_payloads_4,
}
use zireael.Framebuffer.{
  Fb, Rect, style_zero, space_cell, continuation_cell, grapheme_cell, bounds_rect, rect_empty,
  rect_intersect, rect_contains, fb_cell, cell_at,
}
use zireael.Checked.{checked_add_size, checked_mul_size}
use zireael.Framebuffer.Paint.{
  FbPainter, painter_begin, clip_push, clip_pop, can_touch, clear_continuation, clear_lead,
  clear_next, write_cell, write_width1, write_width2,
}
use zireael.Framebuffer.Glyphs.{
  safe_loop, bytes_safe_for_terminal, canonical_glyph, put_glyph, put_grapheme,
}
use zireael.Framebuffer.Cells.{IsBacked, index, width_at}
use zireael.Framebuffer.Pairs.{IsPaired}
use zireael.Framebuffer.ClipStack.{clip_push-touch}
use zireael.Framebuffer.Fill.{clear_loop, fb_clear, fill_one, fill_row, fill_rows, fill_rect}
use zireael.Framebuffer.FillPairs.{fill_rect-IsOrderly}
use zireael.Framebuffer.Clear.{fb_clear-spaces}
use zireael.Framebuffer.Repair.{
  repair_continuation, repair_lead, repair_one, repair_loop, repair_row,
}
use zireael.Framebuffer.RepairPairs.{IsWholeRow, repair_row-IsWholeRow}
use zireael.Framebuffer.Text.{
  fitted_cell, draw_cell, text_one, text_loop, draw_text_bytes, count_loop, count_cells_utf8,
}
use zireael.Framebuffer.Layout.{layout_loop, draw_text_bytes-Drawn}
use zireael.Grapheme.{
  grapheme_iter_init, should_break, state_init, state_advance, grapheme_decode_cp, cluster_loop,
  grapheme_next_given,
}
use zireael.Unicode.{
  in_ranges, in_ranges_loop, ranges8_lookup, ranges8_lookup_loop, unicode_gcb_class,
  unicode_is_extended_pictographic, unicode_is_emoji_presentation, unicode_is_eaw_wide,
}
use zireael.Unicode.Rows.{few_rows}
use zireael.Width.{
  emoji_wide, width_codepoint, scan_one, width_loop, width_of_scan, width_grapheme_utf8,
}
use zireael.Framebuffer.Put.{IsOrderly, SameFrame, put_grapheme-IsOrderly}

runs : Unit {0}
unfolding utf8_decode_one utf8_decode_two_bytes utf8_decode_three_bytes utf8_decode_four_bytes
    utf8_is_cont utf8_join_payloads_2 utf8_join_payloads_3 utf8_join_payloads_4 rect_intersect
    rect_contains fb_cell checked_mul_size checked_add_size painter_begin can_touch
    clear_continuation clear_lead clear_next write_cell write_width1 write_width2 safe_loop
    bytes_safe_for_terminal canonical_glyph put_glyph put_grapheme clip_push clip_pop clear_loop
    fb_clear fill_one fill_row fill_rows fill_rect repair_continuation repair_lead repair_one
    repair_loop repair_row in_ranges in_ranges_loop ranges8_lookup ranges8_lookup_loop
    unicode_gcb_class unicode_is_extended_pictographic unicode_is_emoji_presentation
    unicode_is_eaw_wide should_break state_init state_advance grapheme_decode_cp cluster_loop
    grapheme_next_given width_codepoint scan_one width_loop width_of_scan width_grapheme_utf8
    fitted_cell draw_cell text_one text_loop draw_text_bytes count_loop count_cells_utf8 layout_loop
runs = tt

-- A row of three cells: a wide glyph, U+4E2D, and a space.
abbrev one_row : Fb
one_row = record {
  cols = 3;
  rows = 1;
  cells =
      record (grapheme_cell (0xE4 ∷ 0xB8 ∷ 0xAD ∷ []) 3 style_zero) { width = 2 }
      ∷ continuation_cell style_zero
      ∷ space_cell style_zero
      ∷ [];
  links = [];
  links_len = 0;
  links_cap = 0;
  link_bytes = [];
  link_bytes_len = 0;
  link_bytes_cap = 0;
}

abbrev on_row : FbPainter
on_row = record { fb = one_row; clip_stack = bounds_rect one_row ∷ []; clip_cap = 1; clip_len = 1 }

row-IsPaired : IsPaired 3 1 (width_at one_row)
row-IsPaired zero zero h k = ground arith
row-IsPaired (suc zero) zero h k = ground arith
row-IsPaired (suc (suc zero)) zero h k = ground arith
row-IsPaired (suc (suc (suc x))) y h k = ground (arith, h)
row-IsPaired x (suc y) h k = ground (arith, k)

on_row-IsOrderly : IsOrderly on_row
on_row-IsOrderly = record {
  backed = record {
    cols = omega arith;
    rows = omega arith;
    small = omega arith;
    low = omega arith;
    size = omega arith;
    held = omega arith;
  };
  paired = row-IsPaired;
}

-- The wide glyph over the continuation cell clears the old lead.
put_grapheme-IsOrderly_example :
    IsOrderly (put_grapheme on_row 1 0 (0xE4 ∷ 0xB8 ∷ 0xAD ∷ []) 3 2 (some style_zero)).1
    × SameFrame on_row (put_grapheme on_row 1 0 (0xE4 ∷ 0xB8 ∷ 0xAD ∷ []) 3 2 (some style_zero)).1
put_grapheme-IsOrderly_example =
    put_grapheme-IsOrderly on_row 1 0 (0xE4 ∷ 0xB8 ∷ 0xAD ∷ []) 3 2 (some style_zero)
      on_row-IsOrderly

old_lead_cleared :
    width_at
      (FbPainter.fb (put_grapheme on_row 1 0 (0xE4 ∷ 0xB8 ∷ 0xAD ∷ []) 3 2 (some style_zero)).1)
      0
      0
    ≡ 1
unfolding runs
old_lead_cleared = refl

new_lead :
    width_at
      (FbPainter.fb (put_grapheme on_row 1 0 (0xE4 ∷ 0xB8 ∷ 0xAD ∷ []) 3 2 (some style_zero)).1)
      1
      0
    ≡ 2
unfolding runs
new_lead = refl

-- The middle column.
abbrev middle : Rect
middle = record { x = 1; y = 0; w = 1; h = 1 }

fill_rect-IsOrderly_example :
    IsOrderly (fill_rect on_row middle (some style_zero)).1
    × SameFrame on_row (fill_rect on_row middle (some style_zero)).1
fill_rect-IsOrderly_example = fill_rect-IsOrderly on_row middle (some style_zero) on_row-IsOrderly

lead_filled : width_at (FbPainter.fb (fill_rect on_row middle (some style_zero)).1) 0 0 ≡ 1
unfolding runs
lead_filled = refl

fb_clear-spaces_example :
    let r = (fb_clear one_row none).1 in
    ((fb_clear one_row none).0 ≡ zr_ok)
    × (r.cols ≡ 3)
    × (r.rows ≡ 1)
    × (r.links_len ≡ 0)
    × (r.link_bytes_len ≡ 0)
    × (cell_at r (index r 1 0) ≡ space_cell style_zero)
fb_clear-spaces_example =
    fb_clear-spaces one_row none 1 0 (IsOrderly.backed on_row-IsOrderly) (omega arith) (omega arith)

-- A stack of two rectangles.
abbrev clipped : FbPainter
clipped = record {
  fb = one_row;
  clip_stack = bounds_rect one_row ∷ rect_empty ∷ [];
  clip_cap = 2;
  clip_len = 1;
}

clip_push-touch_example :
    ((clip_push clipped middle).0 ≡ zr_ok)
    × (can_touch (clip_push clipped middle).1 2 0
        ≡ (can_touch clipped 2 0 && rect_contains middle 2 0))
    × ((clip_pop (clip_push clipped middle).1).0 ≡ zr_ok)
    × (can_touch (clip_pop (clip_push clipped middle).1).1 2 0 ≡ can_touch clipped 2 0)
clip_push-touch_example =
    clip_push-touch clipped middle 2 0 (omega arith) (omega arith)
      (record {
        begun = omega arith;
        room = omega arith;
        cap_word = omega arith;
        held = omega arith;
      })
      (record {
        x_word = omega arith;
        y_word = omega arith;
        w_word = omega arith;
        h_word = omega arith;
      })

-- A lead that lost its continuation, as after a narrower copy.
abbrev torn : Fb
torn = record one_row {
  cells =
      record (space_cell style_zero) { width = 2 }
      ∷ space_cell style_zero
      ∷ continuation_cell style_zero
      ∷ [];
}

torn_widths : (x : ℕ) → x < 3 → width_at torn x 0 ≤ 2
torn_widths zero h = omega arith
torn_widths (suc zero) h = omega arith
torn_widths (suc (suc zero)) h = omega arith
torn_widths (suc (suc (suc x))) h = absurd (omega (arith, h))

torn-IsBacked : IsBacked torn
torn-IsBacked = record {
  cols = omega arith;
  rows = omega arith;
  small = omega arith;
  low = omega arith;
  size = omega arith;
  held = omega arith;
}

repair_row-IsWholeRow_example :
    let r = repair_row torn 0 in
    IsBacked r
    × (r.cols ≡ 3)
    × (r.rows ≡ 1)
    × IsWholeRow 3 0 (width_at r)
    × ((x' y' : ℕ) → x' < 3 → y' < 1 → y' ≢ 0 → width_at r x' y' ≡ width_at torn x' y')
    × (repair_row r 0 ≡ r)
repair_row-IsWholeRow_example = repair_row-IsWholeRow torn 0 torn-IsBacked (omega arith) torn_widths

torn_lead : width_at (repair_row torn 0) 0 0 ≡ 1
unfolding runs
torn_lead = refl

-- "a", U+1F600, "b"
abbrev short_text : List ℕ
short_text = 0x61 ∷ 0xF0 ∷ 0x9F ∷ 0x98 ∷ 0x80 ∷ 0x62 ∷ []

draw_text_bytes-Drawn_example :
    IsOrderly (draw_text_bytes few_rows emoji_wide on_row 1 0 short_text 6 (some style_zero)).1
    × SameFrame on_row
        (draw_text_bytes few_rows emoji_wide on_row 1 0 short_text 6 (some style_zero)).1
    × ((draw_text_bytes few_rows emoji_wide on_row 1 0 short_text 6 (some style_zero)).0
        ≡ layout_loop few_rows emoji_wide 7 (grapheme_iter_init short_text 6) 2147483649)
draw_text_bytes-Drawn_example =
    draw_text_bytes-Drawn few_rows emoji_wide on_row 1 0 short_text 6 style_zero on_row-IsOrderly
      (omega arith) refl (omega arith)

-- The emoji does not fit behind the a, and is replaced.
emoji_replaced :
    width_at
      (FbPainter.fb
        (draw_text_bytes few_rows emoji_wide on_row 1 0 short_text 6 (some style_zero)).1)
      2
      0
    ≡ 1
unfolding runs
emoji_replaced = refl

four_columns : count_cells_utf8 few_rows emoji_wide short_text 6 ≡ 4
unfolding runs
four_columns = refl
