-- ===== src/Framebuffer/Repair.antt =====
-- src/core/zr_framebuffer.c: zr_fb_repair_row.
use zireael.Prelude.{ℕ, zero, suc, ◌-◌, not, ◌||◌, none, some, leb, ◌==◌, if◌then◌else◌}
use zireael.Framebuffer.{
  Cell, Fb, fb_has_backing, fb_cell, space_cell, grapheme_cell, cell_at, put_cell, is_continuation,
  is_wide_lead,
}
use zireael.Framebuffer.Paint.{next_x}
use zireael.Framebuffer.Glyphs.{utf8_replacement_bytes}

-- The two parts of the body of its loop, at cell i: a continuation cell and a wide lead.
unfoldable pub repair_continuation : Fb → ℕ → ℕ → ℕ → Fb
repair_continuation fb x y i =
    let repaired = put_cell fb i (space_cell (Cell.style (cell_at fb i))) in
    if x == 0 then repaired else (elim (fb_cell fb (x - 1) y) [
      | none ↦ repaired
      | some lead ↦ if not (is_wide_lead (cell_at fb lead)) then repaired else fb
    ])

unfoldable pub repair_lead : Fb → ℕ → ℕ → ℕ → Fb
repair_lead fb x y i =
    let style = Cell.style (cell_at fb i) in
    let repaired = put_cell fb i (grapheme_cell utf8_replacement_bytes 3 style) in
    if leb (Fb.cols fb) (next_x x) then repaired else (elim (fb_cell fb (next_x x) y) [
      | none ↦ repaired
      | some cont ↦
          if not (is_continuation (cell_at fb cont))
          then put_cell repaired cont (space_cell style)
          else fb
    ])

-- The body of its loop.
unfoldable pub repair_one : Fb → ℕ → ℕ → Fb
repair_one fb x y = elim (fb_cell fb x y) [
  | none ↦ fb
  | some i ↦
      if is_continuation (cell_at fb i)
      then repair_continuation fb x y i
      else if is_wide_lead (cell_at fb i)
      then repair_lead fb x y i
      else fb
]

unfoldable pub repair_loop : ℕ → Fb → ℕ → ℕ → Fb
repair_loop zero fb x y = fb
repair_loop (suc n) fb x y = repair_loop n (repair_one fb x y) (next_x x) y

-- zr_fb_repair_row, on a given framebuffer
unfoldable pub repair_row : Fb → ℕ → Fb
repair_row fb y =
    if not (fb_has_backing fb) || leb (Fb.rows fb) y
    then fb
    else if Fb.cols fb == 0
    then fb
    else repair_loop (Fb.cols fb) fb 0 y
