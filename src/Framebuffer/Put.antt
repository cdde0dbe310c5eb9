-- ===== src/Framebuffer/Put.antt =====
-- zr_fb_put_grapheme of src/core/zr_framebuffer.c keeps wide glyphs whole.
use zireael.Prelude.{
  ℕ, ◌+◌, ◌-◌, ◌^◌, ◌<◌, ◌≡◌, ◌⊎◌, inl, inr, refl, sym, subst, true, false, List, Option, none,
  some, arith, Bool-cases,
}
use zireael.Framebuffer.{Fb, Style}
use zireael.Framebuffer.Cells.{IsBacked, width_at}
use zireael.Framebuffer.Pairs.{Widths, IsPaired, HasWidths, after_write}
use zireael.Framebuffer.Paint.{FbPainter, can_touch, can_write_width2, write_width1, write_width2}
use zireael.Framebuffer.Glyphs.{
  Glyph, canonical_glyph, put_glyph, put_grapheme, utf8_replacement_bytes,
}
use zireael.Framebuffer.Write.{
  IsWhole, untouched, write_width1-IsWhole, no_room, after_wide, write_width2-IsWhole,
}

module _ (cols rows : ℕ) (small : cols < 2 ^ 31) (style : Style) where
  -- What zr_fb_put_grapheme leaves: whole glyphs of some widths.
  abbrev Left : FbPainter → FbPainter → Type 0
  Left p q = (w : Widths) × IsWhole cols rows w p q

  write_width1-Left :
      (w : Widths) (p : FbPainter) (x y : ℕ) (bytes : List ℕ) (len : ℕ)
      → IsWhole cols rows w p p
      → Left p (write_width1 p x y bytes len style).1
  write_width1-Left w p x y bytes len s = elim (Bool-cases (can_touch p x y)) [
    | inl e ↦
        (after_write x y w, (write_width1-IsWhole cols rows small style w p p x y bytes len s e).3)
    | inr e ↦
        (w, subst (λ r. IsWhole cols rows w p r.1) (sym (untouched p x y bytes len style e)) s)
  ]

  put_wide :
      (p : FbPainter) (x y : ℕ) (g : Glyph)
      → g.wide ≡ true
      → (write_width2 p x y g.bytes g.len style).0 ≡ true
      → put_glyph p x y g style ≡ (write_width2 p x y g.bytes g.len style).1
  unfolding put_glyph
  put_wide p x y g e f = ground (arith, e, f)

  put_replaced :
      (p : FbPainter) (x y : ℕ) (g : Glyph)
      → g.wide ≡ true
      → write_width2 p x y g.bytes g.len style ≡ (false, p)
      → put_glyph p x y g style ≡ (write_width1 p x y utf8_replacement_bytes 3 style).1
  unfolding put_glyph
  put_replaced p x y g e f = ground (arith, e, f)

  put_narrow :
      (p : FbPainter) (x y : ℕ) (g : Glyph)
      → g.wide ≡ false
      → put_glyph p x y g style ≡ (write_width1 p x y g.bytes g.len style).1
  unfolding put_glyph
  put_narrow p x y g e = ground (arith, e)

  put_glyph-Left :
      (w : Widths) (p : FbPainter) (x y : ℕ) (g : Glyph)
      → IsWhole cols rows w p p
      → Left p (put_glyph p x y g style)
  put_glyph-Left w p x y g s = elim (Bool-cases g.wide) [
    | inr e ↦
        subst (Left p) (sym (put_narrow p x y g e)) (write_width1-Left w p x y g.bytes g.len s)
    | inl e ↦ elim (Bool-cases (can_write_width2 p x y)) [
      | inl f ↦
          let done = write_width2-IsWhole cols rows small style w p x y g.bytes g.len s f in
          subst (Left p) (sym (put_wide p x y g e done.0)) (after_wide x y w, done.1)
      | inr f ↦
          subst (Left p)
            (sym (put_replaced p x y g e (no_room cols rows small style p x y g.bytes g.len f)))
            (write_width1-Left w p x y utf8_replacement_bytes 3 s)
    ]
  ]

-- A painter with its framebuffer in order: backed, and no half of a wide glyph anywhere.
pub record IsOrderly (p : FbPainter) : Type 0 where
  pub backed : IsBacked p.fb
  pub paired : IsPaired p.fb.cols p.fb.rows (width_at p.fb)

start-IsWhole : (p : FbPainter) → IsOrderly p → IsWhole p.fb.cols p.fb.rows (width_at p.fb) p p
start-IsWhole p o = record {
  shape = record {
    backed = o.backed;
    same_cols = refl;
    same_rows = refl;
    widths = λ x y h k. refl;
  };
  paired = o.paired;
  same_stack = refl;
  same_cap = refl;
  same_len = refl;
}

-- What stays when something is drawn: the size and the clip stack.
pub record SameFrame (p q : FbPainter) : Type 0 where
  pub same_cols : q.fb.cols ≡ p.fb.cols
  pub same_rows : q.fb.rows ≡ p.fb.rows
  pub same_stack : q.clip_stack ≡ p.clip_stack
  pub same_cap : q.clip_cap ≡ p.clip_cap
  pub same_len : q.clip_len ≡ p.clip_len

width_at-IsPaired :
    (cols rows : ℕ) (w : Widths) (fb : Fb)
    → HasWidths cols rows w fb
    → IsPaired cols rows w
    → IsPaired cols rows (width_at fb)
width_at-IsPaired cols rows w fb s paired x y h k =
    ground (arith, paired x y h k, s.widths x y h k, s.widths (x - 1) y, s.widths (x + 1) y)

IsWhole-IsOrderly :
    (p q : FbPainter) (w : Widths) → IsWhole p.fb.cols p.fb.rows w p q → IsOrderly q × SameFrame p q
IsWhole-IsOrderly p q w s =
    let paired = width_at-IsPaired p.fb.cols p.fb.rows w q.fb s.shape s.paired in
    (
      record {
        backed = s.shape.backed;
        paired =
            subst (λ c. IsPaired c q.fb.rows (width_at q.fb)) (sym s.shape.same_cols)
              (subst (λ r. IsPaired p.fb.cols r (width_at q.fb)) (sym s.shape.same_rows) paired);
      },
      record {
        same_cols = s.shape.same_cols;
        same_rows = s.shape.same_rows;
        same_stack = s.same_stack;
        same_cap = s.same_cap;
        same_len = s.same_len;
      },
    )

pub write_width1-IsOrderly :
    (p : FbPainter) (x y : ℕ) (bytes : List ℕ) (len : ℕ) (style : Style)
    → IsOrderly p
    → IsOrderly (write_width1 p x y bytes len style).1
      × SameFrame p (write_width1 p x y bytes len style).1
write_width1-IsOrderly p x y bytes len style o =
    let left =
      write_width1-Left p.fb.cols p.fb.rows o.backed.small style (width_at p.fb) p x y bytes len
        (start-IsWhole p o) in
    IsWhole-IsOrderly p (write_width1 p x y bytes len style).1 left.0 left.1

put_ways :
    (p : FbPainter) (x y : ℕ) (bytes : List ℕ) (len width : ℕ) (s : Style)
    → ((put_grapheme p x y bytes len width (some s)).1 ≡ p)
      ⊎ ((put_grapheme p x y bytes len width (some s)).1
          ≡ put_glyph p x y (canonical_glyph bytes len width) s)
unfolding put_grapheme
put_ways p x y bytes len width s = ground arith

-- On a framebuffer of at least one and fewer than 2^31 columns and rows, with its cells (fewer than
-- 2^62), where each continuation cell stands right of a wide lead and each wide lead left of a
-- continuation cell, zr_fb_put_grapheme at any coordinates, with any bytes, width and clip, leaves
-- the cells so, and the size and the clip stack as they were.
pub put_grapheme-IsOrderly :
    (p : FbPainter) (x y : ℕ) (bytes : List ℕ) (len width : ℕ) (style : Option Style)
    → IsOrderly p
    → IsOrderly (put_grapheme p x y bytes len width style).1
      × SameFrame p (put_grapheme p x y bytes len width style).1
unfolding put_grapheme
put_grapheme-IsOrderly p x y bytes len width none o =
    IsWhole-IsOrderly p p (width_at p.fb) (start-IsWhole p o)
put_grapheme-IsOrderly p x y bytes len width (some s) o =
    let start = start-IsWhole p o in
    let Goal : FbPainter → Type 0 = λ q. IsOrderly q × SameFrame p q in
    elim (put_ways p x y bytes len width s) [
      | inl e ↦ subst Goal (sym e) (IsWhole-IsOrderly p p (width_at p.fb) start)
      | inr e ↦
          let g = canonical_glyph bytes len width in
          let left =
            put_glyph-Left p.fb.cols p.fb.rows o.backed.small s (width_at p.fb) p x y g start in
          subst Goal (sym e) (IsWhole-IsOrderly p (put_glyph p x y g s) left.0 left.1)
    ]
