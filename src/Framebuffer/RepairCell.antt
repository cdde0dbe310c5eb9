-- ===== src/Framebuffer/RepairCell.antt =====
-- One step of zr_fb_repair_row of src/core/zr_framebuffer.c, by the widths of the cells.
use zireael.Prelude.{
  ℕ, ◌+◌, ◌-◌, ◌^◌, ◌<◌, ◌≡◌, inl, inr, sym, ap₂, subst, Bool, true, false, ◌&&◌, ◌||◌, ltb, leb,
  ◌==◌, ◌!=◌, if◌then◌else◌, arith, Bool-cases,
}
use zireael.Framebuffer.{Fb, cell_at, put_cell, space_cell, grapheme_cell}
use zireael.Framebuffer.Cells.{index}
use zireael.Framebuffer.Pairs.{Widths, HasWidths, at, put_cell-HasWidths, HasWidths-ext}
use zireael.Framebuffer.Paint.{next_x}
use zireael.Framebuffer.Glyphs.{utf8_replacement_bytes}
use zireael.Framebuffer.Repair.{repair_continuation, repair_lead, repair_one}

module _ (cols rows x y : ℕ) (h : x < cols) (k : y < rows) (small : cols < 2 ^ 31) where
  -- The three repairs, by the widths.
  abbrev pub drops_half : Widths → Bool
  drops_half w = (w x y == 0) && ((x == 0) || (w (x - 1) y != 2))

  abbrev pub drops_last : Widths → Bool
  drops_last w = (w x y == 2) && leb cols (x + 1)

  abbrev pub drops_both : Widths → Bool
  drops_both w = (w x y == 2) && ltb (x + 1) cols && (w (x + 1) y != 0)

  -- The widths after the body of the loop.
  abbrev pub after_repair : Widths → Widths
  after_repair w = λ x' y'.
      if (y == y') && (x == x') && (drops_half w || drops_last w || drops_both w)
      then 1
      else if (y == y') && (x' == x + 1) && drops_both w
      then 1
      else w x' y'

  module _ (w : Widths) (fb : Fb) (s : HasWidths cols rows w fb) where
    continuation_repaired :
        drops_half w ≡ true
        → repair_one fb x y
          ≡ put_cell fb (index fb x y) (space_cell (cell_at fb (index fb x y)).style)
    unfolding repair_one repair_continuation
    continuation_repaired e =
        ground (arith, e, at s x y h k, s.widths x y h k, at s (x - 1) y, s.widths (x - 1) y, h, k)

    last_repaired :
        drops_last w ≡ true
        → repair_one fb x y
          ≡ put_cell fb
              (index fb x y)
              (grapheme_cell utf8_replacement_bytes 3 (cell_at fb (index fb x y)).style)
    unfolding repair_one repair_lead
    last_repaired e = ground (arith, e, at s x y h k, s.widths x y h k, h, s.same_cols, small)

    both_repaired :
        drops_both w ≡ true
        → repair_one fb x y
          ≡ put_cell
              (put_cell fb
                (index fb x y)
                (grapheme_cell utf8_replacement_bytes 3 (cell_at fb (index fb x y)).style))
              (index fb (x + 1) y)
              (space_cell (cell_at fb (index fb x y)).style)
    unfolding repair_one repair_lead
    both_repaired e =
        let room : x + 1 < cols = ground (arith, e) in
        let step : next_x x ≡ x + 1 = omega (arith, h, small) in
        ground (
          arith,
          e,
          at s x y h k,
          s.widths x y h k,
          at s (x + 1) y room k,
          s.widths (x + 1) y room k,
          step,
          s.same_cols,
        )

    pub nothing_repaired :
        (drops_half w || drops_last w || drops_both w) ≡ false → repair_one fb x y ≡ fb
    unfolding repair_one repair_continuation repair_lead
    nothing_repaired e =
        let step : next_x x ≡ x + 1 = omega (arith, h, small) in
        ground (
          arith,
          e,
          at s x y h k,
          s.widths x y h k,
          at s (x - 1) y,
          s.widths (x - 1) y,
          at s (x + 1) y,
          s.widths (x + 1) y,
          step,
          h,
          k,
          s.same_cols,
        )

    beside : (x' y' : ℕ) → x' ≡ x + 1 → y ≡ y' → w x' y' ≡ w (x + 1) y
    beside x' y' p q = ap₂ w p (sym q)

    pub repair_one-HasWidths : HasWidths cols rows (after_repair w) (repair_one fb x y)
    repair_one-HasWidths =
        let Goal : Fb → Type 0 = HasWidths cols rows (after_repair w) in
        let style = (cell_at fb (index fb x y)).style in
        elim (Bool-cases (drops_both w)) [
          | inl e ↦
              let room : x + 1 < cols = ground (arith, e) in
              let one =
                put_cell-HasWidths s x y h k (grapheme_cell utf8_replacement_bytes 3 style) in
              let two = put_cell-HasWidths one (x + 1) y room k (space_cell style) in
              subst Goal (sym (both_repaired e))
                (HasWidths-ext (after_repair w) two (λ x' y' h' k'. ground (arith, e)))
          | inr e ↦ elim (Bool-cases (drops_last w)) [
            | inl f ↦
                let one =
                  put_cell-HasWidths s x y h k (grapheme_cell utf8_replacement_bytes 3 style) in
                subst Goal (sym (last_repaired f))
                  (HasWidths-ext (after_repair w) one (λ x' y' h' k'. ground (arith, e, f)))
            | inr f ↦ elim (Bool-cases (drops_half w)) [
              | inl g ↦
                  let one = put_cell-HasWidths s x y h k (space_cell style) in
                  subst Goal (sym (continuation_repaired g))
                    (HasWidths-ext (after_repair w) one (λ x' y' h' k'. ground (arith, e, g)))
              | inr g ↦
                  subst Goal (sym (nothing_repaired (ground (arith, e, f, g))))
                    (HasWidths-ext (after_repair w) s (λ x' y' h' k'. ground (arith, e, f, g)))
            ]
          ]
        ]
