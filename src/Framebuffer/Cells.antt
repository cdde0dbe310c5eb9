-- ===== src/Framebuffer/Cells.antt =====
-- Cells of src/core/zr_framebuffer.c by their coordinates.
use zireael.Prelude.{
  ℕ, ◌+◌, ◌*◌, ◌^◌, ◌≤◌, ◌<◌, ◌≡◌, ◌≢◌, ◌⊎◌, inl, inr, ap, ◌&&◌, some, length, length-set, ◌==◌,
  if◌then◌else◌, arith, is_nil_lem,
}
use zireael.Prelude.Window.{get_or-set_self, get_or-set_ne}
use zireael.Checked.{checked_add_size}
use zireael.Checked.Laws.{checked_mul_size_lem}
use zireael.Framebuffer.{Cell, Fb, no_cell, cell_at, put_cell, fb_cell}

-- A framebuffer with cells: as many as its columns and rows say.
pub record IsBacked (fb : Fb) : Type 0 where
  pub cols : 0 < fb.cols
  pub rows : 0 < fb.rows
  pub small : fb.cols < 2 ^ 31
  pub low : fb.rows < 2 ^ 31
  pub size : length fb.cells < 2 ^ 62
  pub held : fb.rows * fb.cols ≤ length fb.cells

abbrev pub index : Fb → ℕ → ℕ → ℕ
index fb x y = y * fb.cols + x

abbrev pub width_at : Fb → ℕ → ℕ → ℕ
width_at fb x y = (cell_at fb (index fb x y)).width

pub index_below : (c r x y : ℕ) → x < c → y < r → y * c + x < r * c
index_below c r x y h k = grind arith

index_apart : (c x y x' y' : ℕ) → x < c → x' < c → y < y' → y * c + x < y' * c + x'
index_apart c x y x' y' h h' k = grind arith

pub index_ne : (c x y x' y' : ℕ) → x < c → x' < c → (x ≢ x') ⊎ (y ≢ y') → y * c + x ≢ y' * c + x'
index_ne c x y x' y' h h' other =
    ground (arith, other, index_apart c x y x' y' h h', index_apart c x' y' x y h' h)

module _ (fb : Fb) (b : IsBacked fb) where
  pub fb_cell_lem : (x y : ℕ) → x < fb.cols → y < fb.rows → fb_cell fb x y ≡ some (index fb x y)
  unfolding fb_cell checked_add_size
  fb_cell_lem x y h k =
      let below = index_below fb.cols fb.rows x y h k in
      ground (arith, below, checked_mul_size_lem y fb.cols, is_nil_lem fb.cells, b)

  -- Storing a cell keeps the framebuffer's shape.
  pub put_cell-IsBacked : (i : ℕ) (c : Cell) → IsBacked (put_cell fb i c)
  put_cell-IsBacked i c = record {
    cols = b.cols;
    rows = b.rows;
    small = b.small;
    low = b.low;
    size = omega (arith, length-set fb.cells i c, b.size);
    held = omega (arith, length-set fb.cells i c, b.held);
  }

  module _ (x y : ℕ) (h : x < fb.cols) (k : y < fb.rows) (c : Cell) where
    pub width-put_self : width_at (put_cell fb (index fb x y) c) x y ≡ c.width
    width-put_self =
        let below = index_below fb.cols fb.rows x y h k in
        ap (λ d. d.width)
          (get_or-set_self no_cell fb.cells (index fb x y) c (omega (arith, below, b.held)))

    pub cell-put_other :
        (x' y' : ℕ)
        → x' < fb.cols
        → (x ≢ x') ⊎ (y ≢ y')
        → cell_at (put_cell fb (index fb x y) c) (index fb x' y') ≡ cell_at fb (index fb x' y')
    cell-put_other x' y' h' other =
        get_or-set_ne no_cell fb.cells (index fb x y) (index fb x' y') c
          (index_ne fb.cols x y x' y' h h' other)

    -- All the widths after a cell is stored.
    pub width-put :
        (x' y' : ℕ)
        → x' < fb.cols
        → width_at (put_cell fb (index fb x y) c) x' y'
          ≡ (if (x == x') && (y == y') then c.width else width_at fb x' y')
    width-put x' y' h' = elim (same x' y') [
      | inl (p, q) ↦ let own = width-put_self in ground (arith, p, q, own)
      | inr other ↦
          let kept = ap (λ d. d.width) (cell-put_other x' y' h' other) in
          ground (arith, kept, other)
    ]
      where
        same : (x' y' : ℕ) → ((x ≡ x') × (y ≡ y')) ⊎ ((x ≢ x') ⊎ (y ≢ y'))
        same x' y' = ground arith
