-- ===== src/Framebuffer/Text.antt =====
-- src/core/zr_framebuffer.c: zr_fb_draw_text_bytes and zr_fb_count_cells_utf8. A column is moved up by
-- 2^31. Each loop has a round for every byte, and one to end.
use zireael.Prelude.{
  ℕ, zero, suc, ◌+◌, ◌-◌, ◌%◌, ◌^◌, Bool, false, not, ◌&&◌, ◌||◌, List, Option, none, some, drop,
  ltb, leb, ◌==◌, ◌!=◌, if◌then◌else◌, is_nil,
}
use zireael.Result.{ZrResult, zr_ok, zr_err_invalid_argument, zr_err_limit}
use zireael.Unicode.{UnicodeTables}
use zireael.Grapheme.{Grapheme, GraphemeIter, grapheme_iter_init, grapheme_next_given}
use zireael.Width.{WidthPolicy, width_grapheme_utf8}
use zireael.Framebuffer.{Fb, Style, biased, is_negative, fb_has_backing, cell_glyph_max}
use zireael.Framebuffer.Paint.{FbPainter, can_touch, next_x}
use zireael.Framebuffer.Glyphs.{utf8_replacement_bytes, put_grapheme}

-- zr_i64_fits_i32, of a column that is not below the least int32_t
abbrev pub fits_i32 : ℕ → Bool
fits_i32 cx = ltb cx (2 ^ 32)

-- `out_bytes`, `out_len`, `out_w` and `out_adv` of zr_fb_draw_text_bytes
pub record TextCell : Type 0 where
  pub bytes : List ℕ
  pub len : ℕ
  pub width : ℕ
  pub adv : ℕ

-- Its replacement of an oversized grapheme.
abbrev pub sized_cell : List ℕ → ℕ → ℕ → TextCell
sized_cell gb gl w =
    if ltb cell_glyph_max gl
    then record { bytes = utf8_replacement_bytes; len = 3; width = 1; adv = 1 }
    else record { bytes = gb; len = gl; width = w; adv = w }

-- Its choice for a wide glyph that does not fit.
unfoldable pub fitted_cell : FbPainter → ℕ → ℕ → TextCell → TextCell
fitted_cell p cx y c =
    if TextCell.width c != 2
    then c
    else if not (fits_i32 cx && fits_i32 (cx + 1))
    then record c { width = 0; adv = 2 }
    else if not (can_touch p (biased cx) y)
    then record c { width = 0; adv = 2 }
    else if not (can_touch p (next_x (biased cx)) y)
    then record { bytes = utf8_replacement_bytes; len = 3; width = 1; adv = 2 }
    else record c { adv = 2 }

-- Its write of a cell.
unfoldable pub draw_cell : FbPainter → ℕ → ℕ → TextCell → Style → FbPainter
draw_cell p cx y c s =
    if (TextCell.width c != 0) && fits_i32 cx
    then (put_grapheme p (biased cx) y (TextCell.bytes c) (TextCell.len c) (TextCell.width c)
        (some s)).1
    else p

-- A round of its loop: whether the column has run out, the painter, and the next column.
unfoldable pub text_one : FbPainter → ℕ → ℕ → List ℕ → ℕ → ℕ → Style → Bool × FbPainter × ℕ
text_one p cx y gb gl w s =
    let c = fitted_cell p cx y (sized_cell gb gl w) in
    if w == 0
    then (false, p, cx)
    else (ltb (2 ^ 32 - 1 - TextCell.adv c) cx, draw_cell p cx y c s, cx + TextCell.adv c)

module _ (tables : UnicodeTables) (policy : WidthPolicy) where
  -- zr_width_grapheme_utf8 of a grapheme; `policy` is zr_width_policy_default
  abbrev pub width_of : GraphemeIter → Grapheme → ℕ
  width_of it g =
      width_grapheme_utf8 tables (drop (Grapheme.offset g) (GraphemeIter.bytes it))
        (Grapheme.size g) policy

  -- Its loop.
  unfoldable pub text_loop : ℕ → GraphemeIter → FbPainter → ℕ → ℕ → Style → ZrResult × FbPainter
  text_loop zero it p cx y s = (zr_ok, p)
  text_loop (suc fuel) it p cx y s =
      let r = grapheme_next_given tables it in
      elim r.0 [
        | none ↦ (zr_ok, p)
        | some g ↦
            let d =
              text_one p cx y (drop (Grapheme.offset g) (GraphemeIter.bytes it)) (Grapheme.size g)
                (width_of it g) s in
            let rest = text_loop fuel r.1 d.1 d.2 y s in if d.0 then (zr_err_limit, d.1) else rest
      ]

  -- zr_fb_draw_text_bytes, on a given painter
  unfoldable pub draw_text_bytes :
      FbPainter → ℕ → ℕ → List ℕ → ℕ → Option Style → ZrResult × FbPainter
  draw_text_bytes p x y bytes len none = (zr_err_invalid_argument, p)
  draw_text_bytes p x y bytes len (some s) =
      if is_nil bytes
      then (zr_err_invalid_argument, p)
      else if not (fb_has_backing (FbPainter.fb p)) || (len == 0)
      then (zr_ok, p)
      else if is_negative y
      then (zr_ok, p)
      else if leb (Fb.rows (FbPainter.fb p)) y
      then (zr_ok, p)
      else text_loop (suc len) (grapheme_iter_init bytes len) p (biased x) y s

  -- The loop of zr_fb_count_cells_utf8.
  unfoldable pub count_loop : ℕ → GraphemeIter → ℕ → ℕ
  count_loop zero it total = total
  count_loop (suc fuel) it total =
      let r = grapheme_next_given tables it in
      elim r.0 [ none ↦ total | some g ↦ count_loop fuel r.1 ((total + width_of it g) % 2 ^ 64) ]

  -- zr_fb_count_cells_utf8
  unfoldable pub count_cells_utf8 : List ℕ → ℕ → ℕ
  count_cells_utf8 bytes len =
      if is_nil bytes || (len == 0)
      then 0
      else count_loop (suc len) (grapheme_iter_init bytes len) 0
