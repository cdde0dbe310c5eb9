-- ===== src/Framebuffer/Fill.antt =====
-- src/core/zr_framebuffer.c: zr_fb_clear and zr_fb_fill_rect.
use zireael.Prelude.{ℕ, zero, suc, ◌+◌, ◌%◌, ◌^◌, not, ◌||◌, Option, none, some, ltb, if◌then◌else◌}
use zireael.Checked.{checked_mul_size}
use zireael.Result.{ZrResult, zr_ok, zr_err_invalid_argument, zr_err_limit}
use zireael.Framebuffer.{
  Rect, Style, Fb, biased, not_positive, style_zero, bounds_rect, rect_intersect, fb_has_backing,
  space_cell, put_cell,
}
use zireael.Framebuffer.Paint.{FbPainter, painter_clip_cur, write_width1, one_space}

-- zr_fb_links_reset, on a given framebuffer
abbrev pub links_reset : Fb → Fb
links_reset fb = record fb { links_len = 0; link_bytes_len = 0 }

-- The loop of zr_fb_clear, from cell i on.
unfoldable pub clear_loop : ℕ → Fb → ℕ → Style → Fb
clear_loop zero fb i s = fb
clear_loop (suc n) fb i s = clear_loop n (put_cell fb i (space_cell s)) ((i + 1) % 2 ^ 64) s

-- `style ? *style : zr_style_default()`
abbrev pub style_or_default : Option Style → Style
style_or_default none = style_zero
style_or_default (some s) = s

-- zr_fb_clear, on a given framebuffer
unfoldable pub fb_clear : Fb → Option Style → ZrResult × Fb
fb_clear fb style =
    let reset = links_reset fb in
    if not (fb_has_backing fb)
    then (zr_ok, reset)
    else (elim (checked_mul_size (Fb.cols fb) (Fb.rows fb)) [
      | none ↦ (zr_err_limit, reset)
      | some total ↦ (zr_ok, clear_loop total reset 0 (style_or_default style))
    ])

-- The body of the loops of zr_fb_fill_rect, at coordinates moved up by 2^31.
unfoldable pub fill_one : FbPainter → ℕ → ℕ → Style → FbPainter
fill_one p xx yy s =
    if ltb xx (2 ^ 31) || ltb yy (2 ^ 31)
    then p
    else if not (ltb xx (2 ^ 32)) || not (ltb yy (2 ^ 32))
    then p
    else (write_width1 p (biased xx) (biased yy) one_space 1 s).1

unfoldable pub fill_row : ℕ → FbPainter → ℕ → ℕ → Style → FbPainter
fill_row zero p xx yy s = p
fill_row (suc n) p xx yy s = fill_row n (fill_one p xx yy s) (xx + 1) yy s

unfoldable pub fill_rows : ℕ → ℕ → FbPainter → ℕ → ℕ → Style → FbPainter
fill_rows zero w p xx yy s = p
fill_rows (suc n) w p xx yy s = fill_rows n w (fill_row w p xx yy s) xx (yy + 1) s

-- zr_fb_fill_rect, on a given painter
unfoldable pub fill_rect : FbPainter → Rect → Option Style → ZrResult × FbPainter
fill_rect p r none = (zr_err_invalid_argument, p)
fill_rect p r (some s) =
    let bounds = bounds_rect (FbPainter.fb p) in
    let clip = rect_intersect bounds (painter_clip_cur p) in
    let rr = rect_intersect (rect_intersect r bounds) clip in
    if not_positive (Rect.w r) || not_positive (Rect.h r)
    then (zr_ok, p)
    else if not (fb_has_backing (FbPainter.fb p))
    then (zr_ok, p)
    else if not_positive (Rect.w rr) || not_positive (Rect.h rr)
    then (zr_ok, p)
    else (zr_ok, fill_rows (Rect.h rr) (Rect.w rr) p (biased (Rect.x rr)) (biased (Rect.y rr)) s)
