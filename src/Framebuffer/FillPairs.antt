-- ===== src/Framebuffer/FillPairs.antt =====
-- zr_fb_clear and zr_fb_fill_rect of src/core/zr_framebuffer.c, and wide glyphs.
use zireael.Prelude.{
  ℕ, zero, suc, ◌+◌, ◌≡◌, ◌⊎◌, inl, inr, refl, sym, subst, ◌∙◌, Option, none, some, arith,
}
use zireael.Framebuffer.{Style, Rect, bounds_rect, rect_intersect, biased}
use zireael.Framebuffer.Paint.{FbPainter, painter_clip_cur, write_width1, one_space}
use zireael.Framebuffer.Fill.{fill_one, fill_row, fill_rows, fill_rect}
use zireael.Framebuffer.Put.{IsOrderly, SameFrame, write_width1-IsOrderly}

-- In order, and the size and the clip stack as they were.
abbrev pub Kept : FbPainter → FbPainter → Type 0
Kept p q = IsOrderly q × SameFrame p q

pub Kept-trans : (p q r : FbPainter) → Kept p q → Kept q r → Kept p r
Kept-trans p q r (o, s) (o', s') = (
  o',
  record {
    same_cols = s'.same_cols ∙ s.same_cols;
    same_rows = s'.same_rows ∙ s.same_rows;
    same_stack = s'.same_stack ∙ s.same_stack;
    same_cap = s'.same_cap ∙ s.same_cap;
    same_len = s'.same_len ∙ s.same_len;
  },
)

pub Kept-refl : (p : FbPainter) → IsOrderly p → Kept p p
Kept-refl p o = (
  o,
  record {
    same_cols = refl;
    same_rows = refl;
    same_stack = refl;
    same_cap = refl;
    same_len = refl;
  },
)

fill_one_ways :
    (p : FbPainter) (xx yy : ℕ) (s : Style)
    → (fill_one p xx yy s ≡ p)
      ⊎ (fill_one p xx yy s ≡ (write_width1 p (biased xx) (biased yy) one_space 1 s).1)
unfolding fill_one
fill_one_ways p xx yy s = ground arith

fill_one-Kept : (p : FbPainter) (xx yy : ℕ) (s : Style) → IsOrderly p → Kept p (fill_one p xx yy s)
fill_one-Kept p xx yy s o = elim (fill_one_ways p xx yy s) [
  | inl e ↦ subst (Kept p) (sym e) (Kept-refl p o)
  | inr e ↦
      subst (Kept p) (sym e) (write_width1-IsOrderly p (biased xx) (biased yy) one_space 1 s o)
]

fill_row-Kept :
    (n : ℕ) (p : FbPainter) (xx yy : ℕ) (s : Style) → IsOrderly p → Kept p (fill_row n p xx yy s)
unfolding fill_row
fill_row-Kept zero p xx yy s o = Kept-refl p o
fill_row-Kept (suc n) p xx yy s o =
    let one = fill_one-Kept p xx yy s o in
    Kept-trans p (fill_one p xx yy s) (fill_row (suc n) p xx yy s) one
      (fill_row-Kept n (fill_one p xx yy s) (xx + 1) yy s one.0)

fill_rows-Kept :
    (n w : ℕ) (p : FbPainter) (xx yy : ℕ) (s : Style)
    → IsOrderly p
    → Kept p (fill_rows n w p xx yy s)
unfolding fill_rows
fill_rows-Kept zero w p xx yy s o = Kept-refl p o
fill_rows-Kept (suc n) w p xx yy s o =
    let row = fill_row-Kept w p xx yy s o in
    Kept-trans p (fill_row w p xx yy s) (fill_rows (suc n) w p xx yy s) row
      (fill_rows-Kept n w (fill_row w p xx yy s) xx (yy + 1) s row.0)

fill_ways :
    (p : FbPainter) (r : Rect) (s : Style)
    → let bounds = bounds_rect p.fb in
      let rr =
        rect_intersect (rect_intersect r bounds) (rect_intersect bounds (painter_clip_cur p)) in
      ((fill_rect p r (some s)).1 ≡ p)
      ⊎ ((fill_rect p r (some s)).1 ≡ fill_rows rr.h rr.w p (biased rr.x) (biased rr.y) s)
unfolding fill_rect
fill_ways p r s = ground arith

-- On a framebuffer in order, zr_fb_fill_rect of any rectangle, with any clip, leaves it in order, and
-- the size and the clip stack as they were.
pub fill_rect-IsOrderly :
    (p : FbPainter) (r : Rect) (style : Option Style)
    → IsOrderly p
    → IsOrderly (fill_rect p r style).1 × SameFrame p (fill_rect p r style).1
unfolding fill_rect
fill_rect-IsOrderly p r none o = Kept-refl p o
fill_rect-IsOrderly p r (some s) o =
    let bounds = bounds_rect p.fb in
    let rr =
      rect_intersect (rect_intersect r bounds) (rect_intersect bounds (painter_clip_cur p)) in
    elim (fill_ways p r s) [
      | inl e ↦ subst (Kept p) (sym e) (Kept-refl p o)
      | inr e ↦ subst (Kept p) (sym e) (fill_rows-Kept rr.h rr.w p (biased rr.x) (biased rr.y) s o)
    ]
