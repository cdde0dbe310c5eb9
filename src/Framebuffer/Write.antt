-- ===== src/Framebuffer/Write.antt =====
-- zr_painter_write_width1 and zr_painter_write_width2 of src/core/zr_framebuffer.c, and wide glyphs.
use zireael.Prelude.{
  ℕ, ◌+◌, ◌-◌, ◌^◌, ◌<◌, ◌≡◌, refl, sym, ap, ap₂, subst, ◌∙◌, true, false, List, some, arith,
}
use zireael.Framebuffer.{Cell, Style, fb_cell, grapheme_cell, continuation_cell}
use zireael.Framebuffer.Cells.{index}
use zireael.Framebuffer.Pairs.{
  Widths, IsPaired, HasWidths, with_width, at, put_cell-HasWidths, after_write,
}
use zireael.Framebuffer.WriteCell.{write_cell-HasWidths, after_write-IsPaired}
use zireael.Framebuffer.Paint.{
  FbPainter, can_touch, next_x, can_write_width2, write_cell, write_width1, write_width2,
  write_pair, one_space, painter_clip_cur,
}

-- A painter over a framebuffer of a size, with whole wide glyphs and a clip stack.
pub record IsWhole (cols rows : ℕ) (w : Widths) (p : FbPainter) (q : FbPainter) : Type 0 where
  pub shape : HasWidths cols rows w q.fb
  pub paired : IsPaired cols rows w
  pub same_stack : q.clip_stack ≡ p.clip_stack
  pub same_cap : q.clip_cap ≡ p.clip_cap
  pub same_len : q.clip_len ≡ p.clip_len

touch_inside :
    (p : FbPainter) (x y : ℕ) → can_touch p x y ≡ true → (x < p.fb.cols) × (y < p.fb.rows)
unfolding can_touch
touch_inside p x y e = ground (arith, e)

both_touched :
    (p : FbPainter) (x y : ℕ)
    → can_write_width2 p x y ≡ true
    → (can_touch p x y ≡ true) × (can_touch p (next_x x) y ≡ true) × (next_x x < p.fb.cols)
both_touched p x y e = ground (arith, e)

pub untouched :
    (p : FbPainter) (x y : ℕ) (bytes : List ℕ) (len : ℕ) (style : Style)
    → can_touch p x y ≡ false
    → write_width1 p x y bytes len style ≡ (false, p)
unfolding write_width1
untouched p x y bytes len style e = ground (arith, e)

touched :
    (p : FbPainter) (x y i : ℕ) (bytes : List ℕ) (len : ℕ) (style : Style)
    → can_touch p x y ≡ true
    → fb_cell p.fb x y ≡ some i
    → write_width1 p x y bytes len style ≡ (
      (write_cell p.fb x y i bytes len style).0,
      record p { fb = (write_cell p.fb x y i bytes len style).1 },
    )
unfolding write_width1
touched p x y i bytes len style e f = ground (arith, e, f)

-- The widths after zr_painter_write_width2.
abbrev pub after_wide : ℕ → ℕ → Widths → Widths
after_wide x y w =
    with_width (x + 1) y 0 (with_width x y 2 (after_write (x + 1) y (after_write x y w)))

module _ (cols rows : ℕ) (small : cols < 2 ^ 31) (style : Style) where
  -- A width-1 write changes nothing, or makes the write and reports it.
  pub write_width1-IsWhole :
      (w : Widths) (p q : FbPainter) (x y : ℕ) (bytes : List ℕ) (len : ℕ)
      → IsWhole cols rows w p q
      → can_touch q x y ≡ true
      → ((write_width1 q x y bytes len style).0 ≡ true)
        × (x < cols)
        × (y < rows)
        × IsWhole cols rows (after_write x y w) p (write_width1 q x y bytes len style).1
  write_width1-IsWhole w p q x y bytes len s e =
      let inside = touch_inside q x y e in
      let h : x < cols = omega (arith, inside, s.shape.same_cols) in
      let k : y < rows = omega (arith, inside, s.shape.same_rows) in
      let written =
        write_cell-HasWidths cols rows x y h k small style w q.fb bytes len s.shape s.paired in
      subst
        (λ r. (r.0 ≡ true) × (x < cols) × (y < rows) × IsWhole cols rows (after_write x y w) p r.1)
        (sym (touched q x y (index q.fb x y) bytes len style e (at s.shape x y h k)))
        (
          written.0,
          h,
          k,
          record {
            shape = written.1;
            paired = after_write-IsPaired cols rows x y h k small style w s.paired;
            same_stack = s.same_stack;
            same_cap = s.same_cap;
            same_len = s.same_len;
          },
        )

  -- A painter that differs only in its cells touches the same places.
  same_touch :
      (w : Widths) (p q : FbPainter) (x y : ℕ)
      → IsWhole cols rows w p q
      → p.fb.cols ≡ cols
      → p.fb.rows ≡ rows
      → can_touch q x y ≡ can_touch p x y
  unfolding can_touch
  same_touch w p q x y s same_cols same_rows =
      let clip : painter_clip_cur q ≡ painter_clip_cur p =
        ap₂ (λ st n. painter_clip_cur (record p { clip_stack = st; clip_len = n })) s.same_stack
          s.same_len in
      ground (arith, s.shape.same_cols, s.shape.same_rows, same_cols, same_rows, clip)

  pub no_room :
      (p : FbPainter) (x y : ℕ) (bytes : List ℕ) (len : ℕ)
      → can_write_width2 p x y ≡ false
      → write_width2 p x y bytes len style ≡ (false, p)
  unfolding write_width2
  no_room p x y bytes len e = ground (arith, e)

  same_at : (w : Widths) (a b a' b' : ℕ) → a ≡ a' → b ≡ b' → w a b ≡ w a' b'
  same_at w a b a' b' e f = ap₂ w e f

  -- Two cells of width 1 become a pair.
  pair-IsPaired :
      (w : Widths) (x y : ℕ)
      → x + 1 < cols
      → IsPaired cols rows w
      → w x y ≡ 1
      → w (x + 1) y ≡ 1
      → IsPaired cols rows (with_width (x + 1) y 0 (with_width x y 2 w))
  pair-IsPaired w x y h paired e f x' y' h' k' = ground (
    arith,
    paired x' y' h' k',
    same_at w (x' - 1) y' x y,
    same_at w (x' - 1) y' (x + 1) y,
    same_at w (x' + 1) y' x y,
    same_at w (x' + 1) y' (x + 1) y,
  )

  pair_written :
      (p : FbPainter) (x y : ℕ) (bytes : List ℕ) (len : ℕ) (c0 c1 : ℕ)
      → can_write_width2 p x y ≡ true
      → (write_width1 p x y one_space 1 style).0 ≡ true
      → (write_width1 (write_width1 p x y one_space 1 style).1 (next_x x) y one_space 1 style).0
        ≡ true
      → fb_cell
          (FbPainter.fb
            (write_width1
              (write_width1 p x y one_space 1 style).1
              (next_x x)
              y
              one_space
              1
              style).1)
          x
          y
        ≡ some c0
      → fb_cell
          (FbPainter.fb
            (write_width1
              (write_width1 p x y one_space 1 style).1
              (next_x x)
              y
              one_space
              1
              style).1)
          (next_x x)
          y
        ≡ some c1
      → write_width2 p x y bytes len style ≡ (
          let b =
            (write_width1
              (write_width1 p x y one_space 1 style).1
              (next_x x)
              y
              one_space
              1
              style).1 in
          (true, record b { fb = write_pair (FbPainter.fb b) c0 c1 bytes len style }))
  unfolding write_width2
  pair_written p x y bytes len c0 c1 e f g i j = ground (arith, e, f, g, i, j)

  pub write_width2-IsWhole :
      (w : Widths) (p : FbPainter) (x y : ℕ) (bytes : List ℕ) (len : ℕ)
      → IsWhole cols rows w p p
      → can_write_width2 p x y ≡ true
      → ((write_width2 p x y bytes len style).0 ≡ true)
        × IsWhole cols rows (after_wide x y w) p (write_width2 p x y bytes len style).1
  write_width2-IsWhole w p x y bytes len s e =
      let one = both_touched p x y e in
      let inside = touch_inside p x y one.0 in
      let step : next_x x ≡ x + 1 = omega (arith, inside, small, s.shape.same_cols) in
      let room : x + 1 < cols = omega (arith, one.2, step, s.shape.same_cols) in
      let a = write_width1-IsWhole w p p x y one_space 1 s one.0 in
      let pa = (write_width1 p x y one_space 1 style).1 in
      let wa = after_write x y w in
      let touch_b =
        same_touch wa p pa (next_x x) y a.3 s.shape.same_cols s.shape.same_rows ∙ one.1 in
      let b =
        subst
          (λ n.
            ((write_width1 pa (next_x x) y one_space 1 style).0 ≡ true)
            × (n < cols)
            × (y < rows)
            × IsWhole cols rows (after_write n y wa) p
                (write_width1 pa (next_x x) y one_space 1 style).1)
          step (write_width1-IsWhole wa p pa (next_x x) y one_space 1 a.3 touch_b) in
      let pb = (write_width1 pa (next_x x) y one_space 1 style).1 in
      let wb = after_write (x + 1) y wa in
      let c0 = at b.3.shape x y a.1 a.2 in
      let c1 = ap (λ n. fb_cell pb.fb n y) step ∙ at b.3.shape (x + 1) y room a.2 in
      let lead : Cell = record (grapheme_cell bytes len style) { width = 2 } in
      let first = put_cell-HasWidths b.3.shape x y a.1 a.2 lead in
      let second = put_cell-HasWidths first (x + 1) y room a.2 (continuation_cell style) in
      subst (λ r. (r.0 ≡ true) × IsWhole cols rows (after_wide x y w) p r.1)
        (sym
          (pair_written p x y bytes len (index pb.fb x y) (index pb.fb (x + 1) y) e a.0 b.0 c0 c1))
        (
          refl,
          record {
            shape = second;
            paired = pair-IsPaired wb x y room b.3.paired (ground arith) (ground arith);
            same_stack = b.3.same_stack;
            same_cap = b.3.same_cap;
            same_len = b.3.same_len;
          },
        )
