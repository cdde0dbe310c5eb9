-- ===== src/Framebuffer.antt =====
-- src/core/zr_framebuffer.c and .h: rectangles, cells and the framebuffer. A signed 32-bit coordinate is
-- its bit pattern. A pointer to a cell is its index in the backing array.
pub mod Paint
pub mod Cells
pub mod Clip
pub mod ClipStack
pub mod Fill
pub mod FillPairs
pub mod Text
pub mod Layout
pub mod Repair
pub mod RepairCell
pub mod RepairPairs
pub mod Clear
pub mod Glyphs
pub mod Pairs
pub mod WriteCell
pub mod Write
pub mod Put
mod Tests
use zireael.Prelude.{
  ℕ, zero, suc, ◌+◌, ◌-◌, ◌*◌, ◌%◌, ◌^◌, min, Bool, true, false, not, ◌&&◌, ◌||◌, List, [], ◌∷◌,
  ◌++◌, Option, none, some, get_or, set, take, replicate, ltb, leb, ◌==◌, ◌!=◌, if◌then◌else◌,
  is_nil,
}
use zireael.Checked.{checked_mul_size, checked_add_size}

-- zr_rect_t
pub record Rect : Type 0 where
  pub x : ℕ
  pub y : ℕ
  pub w : ℕ
  pub h : ℕ

-- zr_style_t
pub record Style : Type 0 where
  pub fg_rgb : ℕ
  pub bg_rgb : ℕ
  pub attrs : ℕ
  pub reserved : ℕ
  pub underline_rgb : ℕ
  pub link_ref : ℕ

-- ZR_CELL_GLYPH_MAX
abbrev pub cell_glyph_max : ℕ
cell_glyph_max = 32

-- zr_cell_t, without its pad
pub record Cell : Type 0 where
  pub glyph : List ℕ
  pub glyph_len : ℕ
  pub width : ℕ
  pub style : Style

-- zr_fb_link_t
pub record FbLink : Type 0 where
  pub uri_off : ℕ
  pub uri_len : ℕ
  pub id_off : ℕ
  pub id_len : ℕ

-- zr_fb_t
pub record Fb : Type 0 where
  pub cols : ℕ
  pub rows : ℕ
  pub cells : List Cell
  pub links : List FbLink
  pub links_len : ℕ
  pub links_cap : ℕ
  pub link_bytes : List ℕ
  pub link_bytes_len : ℕ
  pub link_bytes_cap : ℕ

-- A signed number moved up by 2^31, so that the order is that of the naturals.
abbrev pub biased : ℕ → ℕ
biased a = (a + 2 ^ 31) % 2 ^ 32

-- `a <= 0` and `a < 0` on int32_t
abbrev pub not_positive : ℕ → Bool
not_positive a = leb (biased a) (2 ^ 31)

abbrev pub is_negative : ℕ → Bool
is_negative a = ltb (biased a) (2 ^ 31)

-- zr_rect_empty
abbrev pub rect_empty : Rect
rect_empty = record { x = 0; y = 0; w = 0; h = 0 }

-- zr_rect_right and zr_rect_bottom, moved up by 2^31, for a width or height that is not negative
abbrev pub rect_right : Rect → ℕ
rect_right r = biased (Rect.x r) + Rect.w r

abbrev pub rect_bottom : Rect → ℕ
rect_bottom r = biased (Rect.y r) + Rect.h r

-- zr_fb_bounds_rect, on a given framebuffer
abbrev pub bounds_rect : Fb → Rect
bounds_rect fb = record { x = 0; y = 0; w = Fb.cols fb; h = Fb.rows fb }

abbrev pub greater_of : ℕ → ℕ → ℕ
greater_of a b = if ltb b a then a else b

-- zr_rect_intersect; the subtraction stops at 0, as `if (w < 0) w = 0` does
unfoldable pub rect_intersect : Rect → Rect → Rect
rect_intersect a b =
    let x1 = greater_of (biased (Rect.x a)) (biased (Rect.x b)) in
    let y1 = greater_of (biased (Rect.y a)) (biased (Rect.y b)) in
    let x2 = min (rect_right a) (rect_right b) in
    let y2 = min (rect_bottom a) (rect_bottom b) in
    if not_positive (Rect.w a)
      || not_positive (Rect.h a)
      || not_positive (Rect.w b)
      || not_positive (Rect.h b)
    then rect_empty
    else record {
      x = biased x1;
      y = biased y1;
      w = min (x2 - x1) (2 ^ 31 - 1);
      h = min (y2 - y1) (2 ^ 31 - 1);
    }

-- zr_rect_contains
unfoldable pub rect_contains : Rect → ℕ → ℕ → Bool
rect_contains r x y =
    if not_positive (Rect.w r) || not_positive (Rect.h r)
    then false
    else if ltb (biased x) (biased (Rect.x r)) || ltb (biased y) (biased (Rect.y r))
    then false
    else ltb (biased x) (rect_right r) && ltb (biased y) (rect_bottom r)

-- zr_fb_has_backing, on a given framebuffer
abbrev pub fb_has_backing : Fb → Bool
fb_has_backing fb = not (is_nil (Fb.cells fb)) && (Fb.cols fb != 0) && (Fb.rows fb != 0)

-- zr_fb_cell_index, zr_fb_cell, zr_fb_cell_const
unfoldable pub fb_cell : Fb → ℕ → ℕ → Option ℕ
fb_cell fb x y =
    if not (fb_has_backing fb)
    then none
    else if leb (Fb.cols fb) x || leb (Fb.rows fb) y
    then none
    else (elim (checked_mul_size y (Fb.cols fb)) [
      | none ↦ none
      | some row_start ↦ checked_add_size row_start x
    ])

-- zr_cell_set_space
abbrev pub space_cell : Style → Cell
space_cell style = record { glyph = 32 ∷ replicate 31 0; glyph_len = 1; width = 1; style = style }

-- zr_cell_set_grapheme_width1
abbrev pub grapheme_cell : List ℕ → ℕ → Style → Cell
grapheme_cell bytes len style =
    let copy_len = if is_nil bytes || (len == 0) then 0 else min len cell_glyph_max in
    record {
      glyph = take copy_len bytes ++ replicate (cell_glyph_max - copy_len) 0;
      glyph_len = copy_len;
      width = 1;
      style = style;
    }

-- zr_cell_set_continuation
abbrev pub continuation_cell : Style → Cell
continuation_cell style = record { glyph = replicate 32 0; glyph_len = 0; width = 0; style = style }

-- What a pointer to a cell reads and writes; no call goes outside the array.
abbrev pub style_zero : Style
style_zero = record {
  fg_rgb = 0;
  bg_rgb = 0;
  attrs = 0;
  reserved = 0;
  underline_rgb = 0;
  link_ref = 0;
}

abbrev pub no_cell : Cell
no_cell = record { glyph = []; glyph_len = 0; width = 1; style = style_zero }

abbrev pub cell_at : Fb → ℕ → Cell
cell_at fb i = get_or (Fb.cells fb) i no_cell

abbrev pub put_cell : Fb → ℕ → Cell → Fb
put_cell fb i cell = record fb { cells = set (Fb.cells fb) i cell }

-- zr_cell_is_continuation and zr_cell_is_wide_lead
abbrev pub is_continuation : Cell → Bool
is_continuation cell = Cell.width cell == 0

abbrev pub is_wide_lead : Cell → Bool
is_wide_lead cell = Cell.width cell == 2
