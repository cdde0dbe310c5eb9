-- ===== src/Framebuffer/Clear.antt =====
-- zr_fb_clear of src/core/zr_framebuffer.c makes every cell a space.
use zireael.Prelude.{
  ℕ, zero, suc, ◌+◌, ◌*◌, ◌%◌, ◌^◌, ◌≤◌, ◌<◌, ◌≡◌, refl, sym, ap, subst, ◌∙◌, ◌&&◌, Option, ltb,
  leb, if◌then◌else◌, arith, length, length-set, is_nil_lem,
}
use zireael.Prelude.Window.{get_or-set_self, get_or-set_ne}
use zireael.Result.{zr_ok}
use zireael.Checked.Laws.{checked_mul_size_lem}
use zireael.Framebuffer.{Fb, Style, put_cell, space_cell, cell_at, no_cell}
use zireael.Framebuffer.Cells.{IsBacked, index, index_below}
use zireael.Framebuffer.Fill.{links_reset, clear_loop, style_or_default, fb_clear}

-- What the loop of zr_fb_clear leaves in the cells.
record Cleared (from n : ℕ) (s : Style) (fb r : Fb) : Type 0 where
  same_cols : r.cols ≡ fb.cols
  same_rows : r.rows ≡ fb.rows
  same_links : (r.links_len ≡ fb.links_len) × (r.link_bytes_len ≡ fb.link_bytes_len)
  same_size : length r.cells ≡ length fb.cells
  spaces :
      (j : ℕ)
      → cell_at r j ≡ (if leb from j && ltb j (from + n) then space_cell s else cell_at fb j)

clear_loop_lem :
    (n : ℕ) (fb : Fb) (i : ℕ) (s : Style)
    → i + n ≤ length fb.cells
    → length fb.cells < 2 ^ 62
    → Cleared i n s fb (clear_loop n fb i s)
unfolding clear_loop
clear_loop_lem zero fb i s h k = record {
  same_cols = refl;
  same_rows = refl;
  same_links = (refl, refl);
  same_size = refl;
  spaces = λ j. ground arith;
}
clear_loop_lem (suc n) fb i s h k =
    let next = put_cell fb i (space_cell s) in
    let size = length-set fb.cells i (space_cell s) in
    let step : (i + 1) % 2 ^ 64 ≡ i + 1 = omega (arith, h, k) in
    let rest =
      subst (λ m. Cleared (i + 1) n s next (clear_loop n next m s)) (sym step)
        (clear_loop_lem n next (i + 1) s (omega (arith, h, size)) (omega (arith, k, size))) in
    record {
      same_cols = rest.same_cols;
      same_rows = rest.same_rows;
      same_links = rest.same_links;
      same_size = rest.same_size ∙ size;
      spaces = λ j.
          (let here = get_or-set_self no_cell fb.cells i (space_cell s) (omega (arith, h)) in
            let other = get_or-set_ne no_cell fb.cells i j (space_cell s) in
            let same : i ≡ j → cell_at next j ≡ space_cell s =
              λ e. subst (λ m. cell_at next m ≡ space_cell s) e here in
            rest.spaces j ∙ ground (arith, same, other));
    }

cleared :
    (fb : Fb) (style : Option Style)
    → IsBacked fb
    → fb_clear fb style
      ≡ (zr_ok, clear_loop (fb.cols * fb.rows) (links_reset fb) 0 (style_or_default style))
unfolding fb_clear
cleared fb style b =
    let total : fb.cols * fb.rows ≤ length fb.cells = grind (arith, b.held) in
    let whole : 0 < fb.cols * fb.rows = grind (arith, b.cols, b.rows) in
    let size = b.size in
    ground (
      arith,
      checked_mul_size_lem fb.cols fb.rows,
      is_nil_lem fb.cells,
      b.cols,
      b.rows,
      total,
      whole,
      size,
    )

-- zr_fb_clear of a framebuffer of at least one and fewer than 2^31 columns and rows, with its cells
-- (fewer than 2^62), succeeds, keeps the size, drops all links, and makes each cell of
-- it a space of width 1 in the given style, or in the default style when none is given.
pub fb_clear-spaces :
    (fb : Fb) (style : Option Style) (x y : ℕ)
    → IsBacked fb
    → x < fb.cols
    → y < fb.rows
    → let r = (fb_clear fb style).1 in
      ((fb_clear fb style).0 ≡ zr_ok)
      × (r.cols ≡ fb.cols)
      × (r.rows ≡ fb.rows)
      × (r.links_len ≡ 0)
      × (r.link_bytes_len ≡ 0)
      × (cell_at r (index r x y) ≡ space_cell (style_or_default style))
fb_clear-spaces fb style x y b h k =
    let total = fb.cols * fb.rows in
    let s = style_or_default style in
    let loop = clear_loop_lem total (links_reset fb) 0 s (grind (arith, b.held)) b.size in
    let r = clear_loop total (links_reset fb) 0 s in
    let below = index_below fb.cols fb.rows x y h k in
    let inside : index fb x y < total = grind (arith, below) in
    let at_index : index r x y ≡ index fb x y = ap (λ c. y * c + x) loop.same_cols in
    subst
      (λ q.
        (q.0 ≡ zr_ok)
        × (q.1.cols ≡ fb.cols)
        × (q.1.rows ≡ fb.rows)
        × (q.1.links_len ≡ 0)
        × (q.1.link_bytes_len ≡ 0)
        × (cell_at q.1 (index q.1 x y) ≡ space_cell s))
      (sym (cleared fb style b))
      (
        refl,
        loop.same_cols,
        loop.same_rows,
        loop.same_links.0,
        loop.same_links.1,
        ap (cell_at r) at_index ∙ loop.spaces (index fb x y) ∙ ground (arith, inside),
      )
