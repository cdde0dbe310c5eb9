-- ===== src/Framebuffer/Pairs.antt =====
-- The invariant of wide glyphs of src/core/zr_framebuffer.c: a lead of width 2 and its continuation of
-- width 0 stand side by side in a row.
use zireael.Prelude.{ℕ, ◌+◌, ◌-◌, ◌≤◌, ◌<◌, ◌≡◌, ◌∙◌, ◌&&◌, some, ◌==◌, if◌then◌else◌, arith}
use zireael.Framebuffer.{Cell, Fb, put_cell, fb_cell}
use zireael.Framebuffer.Cells.{IsBacked, index, width_at, fb_cell_lem, put_cell-IsBacked, width-put}

-- A width for each cell.
abbrev pub Widths : Type 0
Widths = ℕ → ℕ → ℕ

-- Leads and continuations come in pairs.
abbrev pub IsPaired : ℕ → ℕ → Widths → Type 0
IsPaired cols rows w =
    (x y : ℕ)
    → x < cols
    → y < rows
    → (w x y ≤ 2)
      × (w x y ≡ 0 → (0 < x) × (w (x - 1) y ≡ 2))
      × (w x y ≡ 2 → (x + 1 < cols) × (w (x + 1) y ≡ 0))

-- A framebuffer of a size, with cells of these widths.
pub record HasWidths (cols rows : ℕ) (w : Widths) (fb : Fb) : Type 0 where
  pub backed : IsBacked fb
  pub same_cols : fb.cols ≡ cols
  pub same_rows : fb.rows ≡ rows
  pub widths : (x y : ℕ) → x < cols → y < rows → width_at fb x y ≡ w x y

-- One cell gets a width.
abbrev pub with_width : ℕ → ℕ → ℕ → Widths → Widths
with_width x y n w = λ x' y'. if (x == x') && (y == y') then n else w x' y'

module _ {cols rows : ℕ} {w : Widths} {fb : Fb} (s : HasWidths cols rows w fb) (x y : ℕ)
    (h : x < cols) (k : y < rows) where
  pub at : fb_cell fb x y ≡ some (index fb x y)
  at = fb_cell_lem fb s.backed x y (omega (arith, h, s.same_cols)) (omega (arith, k, s.same_rows))

  pub put_cell-HasWidths :
      (c : Cell) → HasWidths cols rows (with_width x y c.width w) (put_cell fb (index fb x y) c)
  put_cell-HasWidths c = record {
    backed = put_cell-IsBacked fb s.backed (index fb x y) c;
    same_cols = s.same_cols;
    same_rows = s.same_rows;
    widths = λ x' y' h' k'.
        (let put =
            width-put fb s.backed x y (omega (arith, h, s.same_cols))
              (omega (arith, k, s.same_rows)) c x' y' (omega (arith, h', s.same_cols)) in
          let kept = s.widths x' y' h' k' in ground (arith, put, kept));
  }

-- The widths may be stated otherwise.
pub HasWidths-ext :
    {cols rows : ℕ} {w : Widths} {fb : Fb} (w' : Widths)
    → HasWidths cols rows w fb
    → ((x y : ℕ) → x < cols → y < rows → w x y ≡ w' x y)
    → HasWidths cols rows w' fb
HasWidths-ext w' s e = record {
  backed = s.backed;
  same_cols = s.same_cols;
  same_rows = s.same_rows;
  widths = λ x y h k. s.widths x y h k ∙ e x y h k;
}

-- The widths after zr_painter_write_width1.
abbrev pub after_write : ℕ → ℕ → Widths → Widths
after_write x y w = λ x' y'.
    if (x == x') && (y == y')
    then 1
    else if (y == y') && (x == x' + 1) && (w x y == 0)
    then 1
    else if (y == y') && (x' == x + 1) && (w x' y' == 0)
    then 1
    else w x' y'
