-- ===== src/Framebuffer/Layout.antt =====
-- zr_fb_draw_text_bytes of src/core/zr_framebuffer.c: wide glyphs, and a layout that clipping does not
-- change.
use zireael.Prelude.{
  ℕ, zero, suc, ◌+◌, ◌-◌, ◌^◌, ◌*◌, ◌<◌, ◌≡◌, ◌⊎◌, inl, inr, refl, sym, subst, Bool, true, false,
  not, ◌&&◌, List, Option, none, some, drop, ltb, ◌==◌, if◌then◌else◌, is_nil, arith, Bool-cases,
  is_nil_lem,
}
use zireael.Result.{ZrResult, zr_ok, zr_err_limit}
use zireael.Unicode.{UnicodeTables}
use zireael.Grapheme.{Grapheme, GraphemeIter, grapheme_iter_init, grapheme_next_given}
use zireael.Width.{WidthPolicy}
use zireael.Framebuffer.{Style, biased, cell_glyph_max}
use zireael.Framebuffer.Paint.{FbPainter}
use zireael.Framebuffer.Glyphs.{put_grapheme}
use zireael.Framebuffer.Put.{IsOrderly, SameFrame, put_grapheme-IsOrderly}
use zireael.Framebuffer.FillPairs.{Kept, Kept-refl, Kept-trans}
use zireael.Framebuffer.Text.{
  TextCell, sized_cell, fitted_cell, draw_cell, text_one, width_of, text_loop, draw_text_bytes,
}

-- The columns that a grapheme takes, whether it is drawn, replaced or clipped.
abbrev pub advance : ℕ → ℕ → ℕ
advance gl w = if w == 0 then 0 else if ltb cell_glyph_max gl then 1 else w

draw_cell_ways :
    (p : FbPainter) (cx y : ℕ) (c : TextCell) (s : Style)
    → (draw_cell p cx y c s ≡ p)
      ⊎ (draw_cell p cx y c s ≡ (put_grapheme p (biased cx) y c.bytes c.len c.width (some s)).1)
unfolding draw_cell
draw_cell_ways p cx y c s = ground arith

draw_cell-Kept :
    (p : FbPainter) (cx y : ℕ) (c : TextCell) (s : Style)
    → IsOrderly p
    → Kept p (draw_cell p cx y c s)
draw_cell-Kept p cx y c s o = elim (draw_cell_ways p cx y c s) [
  | inl e ↦ subst (Kept p) (sym e) (Kept-refl p o)
  | inr e ↦
      subst (Kept p) (sym e)
        (put_grapheme-IsOrderly p (biased cx) y c.bytes c.len c.width (some s) o)
]

text_one-Kept :
    (p : FbPainter) (cx y : ℕ) (gb : List ℕ) (gl w : ℕ) (s : Style)
    → IsOrderly p
    → Kept p (text_one p cx y gb gl w s).1
unfolding text_one
text_one-Kept p cx y gb gl w s o = elim (Bool-cases (w == 0)) [
  | inl e ↦ subst (Kept p) (ground (arith, e)) (Kept-refl p o)
  | inr e ↦
      subst (Kept p) (ground (arith, e))
        (draw_cell-Kept p cx y (fitted_cell p cx y (sized_cell gb gl w)) s o)
]

-- The column after a grapheme does not depend on the painter.
text_one_lem :
    (p : FbPainter) (cx y : ℕ) (gb : List ℕ) (gl w : ℕ) (s : Style)
    → ((text_one p cx y gb gl w s).0 ≡ (not (w == 0) && ltb (2 ^ 32 - 1 - advance gl w) cx))
      × ((text_one p cx y gb gl w s).2 ≡ cx + advance gl w)
unfolding text_one fitted_cell
text_one_lem p cx y gb gl w s = ground arith

module _ (tables : UnicodeTables) (policy : WidthPolicy) where
  -- The result of drawing a text from a column on, by the advances of its graphemes alone.
  unfoldable pub layout_loop : ℕ → GraphemeIter → ℕ → ZrResult
  layout_loop zero it cx = zr_ok
  layout_loop (suc fuel) it cx =
      let r = grapheme_next_given tables it in
      elim r.0 [
        | none ↦ zr_ok
        | some g ↦
            let w = width_of tables policy it g in
            let adv = advance (Grapheme.size g) w in
            let rest = layout_loop fuel r.1 (cx + adv) in
            if not (w == 0) && ltb (2 ^ 32 - 1 - adv) cx then zr_err_limit else rest
      ]

  abbrev Drawn : FbPainter → ZrResult → ZrResult × FbPainter → Type 0
  Drawn p result r = Kept p r.1 × (r.0 ≡ result)

  round :
      (p q : FbPainter) (stop stop' : Bool) (result : ZrResult) (rest : ZrResult × FbPainter)
      → Kept p q
      → stop ≡ stop'
      → Drawn q result rest
      → Drawn p (if stop' then zr_err_limit else result) (if stop then (zr_err_limit, q) else rest)
  round p q true true result rest k e d = (k, refl)
  round p q false false result rest k e d = (Kept-trans p q rest.1 k d.0, d.1)
  round p q true false result rest k e d = ground (arith, e)
  round p q false true result rest k e d = ground (arith, e)

  -- A round, when the iterator has returned r and the rounds behind it are as they should be.
  text_round :
      (fuel : ℕ) (it : GraphemeIter) (r : Option Grapheme × GraphemeIter) (p : FbPainter) (cx y : ℕ)
      (s : Style)
      → IsOrderly p
      → ((q : FbPainter) (c : ℕ)
          → IsOrderly q
          → Drawn q (layout_loop fuel r.1 c) (text_loop tables policy fuel r.1 q c y s))
      → Drawn p
          (elim r.0 [
            | none ↦ zr_ok
            | some g ↦
                let w = width_of tables policy it g in
                let adv = advance (Grapheme.size g) w in
                let rest = layout_loop fuel r.1 (cx + adv) in
                if not (w == 0) && ltb (2 ^ 32 - 1 - adv) cx then zr_err_limit else rest
          ])
          (elim r.0 [
            | none ↦ (zr_ok, p)
            | some g ↦
                let d =
                  text_one p cx y
                    (drop (Grapheme.offset g) (GraphemeIter.bytes it))
                    (Grapheme.size g)
                    (width_of tables policy it g)
                    s in
                let rest = text_loop tables policy fuel r.1 d.1 d.2 y s in
                if d.0 then (zr_err_limit, d.1) else rest
          ])
  text_round fuel it (none, it') p cx y s o rest = (Kept-refl p o, refl)
  text_round fuel it (some g, it') p cx y s o rest =
      let w = width_of tables policy it g in
      let gb = drop (Grapheme.offset g) (GraphemeIter.bytes it) in
      let d = text_one p cx y gb (Grapheme.size g) w s in
      let kept = text_one-Kept p cx y gb (Grapheme.size g) w s o in
      let lem = text_one_lem p cx y gb (Grapheme.size g) w s in
      round p d.1 d.0 (not (w == 0) && ltb (2 ^ 32 - 1 - advance (Grapheme.size g) w) cx)
        (layout_loop fuel it' (cx + advance (Grapheme.size g) w))
        (text_loop tables policy fuel it' d.1 d.2 y s) kept lem.0
        (subst
          (λ c. Drawn d.1 (layout_loop fuel it' c) (text_loop tables policy fuel it' d.1 d.2 y s))
          lem.1 (rest d.1 d.2 kept.0))

  text_loop-Drawn :
      (fuel : ℕ) (it : GraphemeIter) (p : FbPainter) (cx y : ℕ) (s : Style)
      → IsOrderly p
      → Drawn p (layout_loop fuel it cx) (text_loop tables policy fuel it p cx y s)
  unfolding text_loop layout_loop
  text_loop-Drawn zero it p cx y s o = (Kept-refl p o, refl)
  text_loop-Drawn (suc fuel) it p cx y s o =
      let r = grapheme_next_given tables it in
      text_round fuel it r p cx y s o (λ q c k. text_loop-Drawn fuel r.1 q c y s k)

  text_started :
      (p : FbPainter) (x y : ℕ) (bytes : List ℕ) (len : ℕ) (s : Style)
      → IsOrderly p
      → y < p.fb.rows
      → is_nil bytes ≡ false
      → 0 < len
      → draw_text_bytes tables policy p x y bytes len (some s)
        ≡ text_loop tables policy (suc len) (grapheme_iter_init bytes len) p (biased x) y s
  unfolding draw_text_bytes
  text_started p x y bytes len s o h k l =
      let cells : 0 < p.fb.rows * p.fb.cols = grind (arith, o.backed.cols, o.backed.rows) in
      ground
        (arith, h, k, l, cells, o.backed.cols, o.backed.low, o.backed.held, is_nil_lem p.fb.cells)

  -- On a framebuffer in order, zr_fb_draw_text_bytes of a text that is not empty, in a row of the
  -- framebuffer and from any column, leaves it in order, and the size and the clip stack as they
  -- were. Its result follows from the column and the advances of the graphemes alone, so it is
  -- the same whatever the clip and the size of the framebuffer are.
  pub draw_text_bytes-Drawn :
      (p : FbPainter) (x y : ℕ) (bytes : List ℕ) (len : ℕ) (s : Style)
      → IsOrderly p
      → y < p.fb.rows
      → is_nil bytes ≡ false
      → 0 < len
      → IsOrderly (draw_text_bytes tables policy p x y bytes len (some s)).1
        × SameFrame p (draw_text_bytes tables policy p x y bytes len (some s)).1
        × ((draw_text_bytes tables policy p x y bytes len (some s)).0
            ≡ layout_loop (suc len) (grapheme_iter_init bytes len) (biased x))
  draw_text_bytes-Drawn p x y bytes len s o h k l =
      let drawn = text_loop-Drawn (suc len) (grapheme_iter_init bytes len) p (biased x) y s o in
      subst
        (λ r.
          IsOrderly r.1
          × SameFrame p r.1
          × (r.0 ≡ layout_loop (suc len) (grapheme_iter_init bytes len) (biased x)))
        (sym (text_started p x y bytes len s o h k l)) (drawn.0.0, drawn.0.1, drawn.1)
