-- ===== src/Damage/Count.antt =====
-- zr_damage_cells: the number of cells, up to the largest uint32_t.
use zireael.Prelude.{
  ℕ, zero, suc, ◌+◌, ◌-◌, ◌*◌, ◌%◌, ◌^◌, ◌≤◌, ◌<◌, ◌≡◌, refl, inl, inr, false, ◌||◌, List, some,
  min, get_or, arith, ltb, ◌!=◌, if◌then◌else◌, Bool-cases,
}
use zireael.Result.{u32_max, IsU32}
use zireael.Checked.Laws.{checked_mul_size_lem}
use zireael.Damage.{DamageRect, Damage, zero_rect, sum_cells, damage_cells}
use zireael.Damage.Cover.{Inside, IsValid}

abbrev pub area : DamageRect → ℕ
area r = (r.x1 - r.x0 + 1) * (r.y1 - r.y0 + 1)

-- The areas of the `n` rectangles from index `i` on, added up.
abbrev pub total_area : List DamageRect → ℕ → ℕ → ℕ
total_area rects i zero = 0
total_area rects i (suc n) = area (get_or rects i zero_rect) + total_area rects (i + 1) n

-- What the tracker holds: the frame, or its rectangles.
abbrev pub cell_total : Damage → ℕ
cell_total d = if d.full_frame != 0 then d.cols * d.rows else total_area d.rects 0 d.rect_count

product_bound : (w h : ℕ) → w < 2 ^ 32 → h < 2 ^ 32 → w * h ≤ (2 ^ 32 - 1) * (2 ^ 32 - 1)
product_bound w h a b = grind arith

module _ (rects : List DamageRect) (cols rows : ℕ) (wide : IsU32 cols) (tall : IsU32 rows) where
  sum_step :
      (i n sum : ℕ)
      → Inside cols rows (get_or rects i zero_rect)
      → sum ≤ u32_max
      → sum_cells rects i (suc n) sum ≡ (
          if ltb u32_max (sum + area (get_or rects i zero_rect))
          then u32_max
          else sum_cells rects (i + 1) n (sum + area (get_or rects i zero_rect)))
  sum_step i n sum inside small =
      let r = get_or rects i zero_rect in
      let w : (r.x1 + 2 ^ 32 - r.x0 + 1) % 2 ^ 32 ≡ r.x1 - r.x0 + 1 = omega (arith, inside) in
      let h : (r.y1 + 2 ^ 32 - r.y0 + 1) % 2 ^ 32 ≡ r.y1 - r.y0 + 1 = omega (arith, inside) in
      let b =
        product_bound (r.x1 - r.x0 + 1) (r.y1 - r.y0 + 1) (omega (arith, inside))
          (omega (arith, inside)) in
      let plain : (sum
              + (r.x1 + 2 ^ 32 - r.x0 + 1)
                % 2 ^ 32
                * ((r.y1 + 2 ^ 32 - r.y0 + 1) % 2 ^ 32)
                % 2 ^ 64)
            % 2 ^ 64
          ≡ sum + area r =
        rw (w, h) (omega (arith, b, small)) in
      let counted : (ltb r.x1 r.x0 || ltb r.y1 r.y0) ≡ false = ground (arith, inside) in
      rw (counted, plain) refl

  sum_cells_lem :
      (n i sum : ℕ)
      → ((k : ℕ) → k < i + n → Inside cols rows (get_or rects k zero_rect))
      → sum ≤ u32_max
      → sum_cells rects i n sum ≡ min u32_max (sum + total_area rects i n)
  sum_cells_lem zero i sum inside small = omega arith
  sum_cells_lem (suc n) i sum inside small =
      let a = area (get_or rects i zero_rect) in
      let step = sum_step i n sum (inside i (omega arith)) small in
      elim (Bool-cases (ltb u32_max (sum + a))) [
        | inl h ↦ let over : u32_max < sum + a = ground (arith, h) in ground (arith, step, over)
        | inr h ↦
            let under : sum + a ≤ u32_max = ground (arith, h) in
            let rest =
              sum_cells_lem n (i + 1) (sum + a) (λ k b. inside k (omega (arith, b))) under in
            ground (arith, step, rest, under)
      ]

-- On a valid tracker the count is that of the frame's cells, or of its rectangles' cells added up;
-- a number above the largest uint32_t is given as that largest one, and no sum wraps.
pub damage_cells-total :
    (d : Damage) → IsValid d → damage_cells (some d) ≡ min u32_max (cell_total d)
unfolding damage_cells
damage_cells-total d v =
    let rects =
      sum_cells_lem d.rects d.cols d.rows v.cols_size v.rows_size d.rect_count 0 0
        (λ k b. v.inside k (omega (arith, b))) (omega arith) in
    ground (arith, rects, checked_mul_size_lem d.cols d.rows)
