-- ===== src/Framebuffer/RepairPairs.antt =====
-- zr_fb_repair_row of src/core/zr_framebuffer.c makes the wide glyphs of a row whole.
use zireael.Prelude.{
  ℕ, zero, suc, ◌+◌, ◌-◌, ◌*◌, ◌^◌, ◌≤◌, ◌<◌, ◌≡◌, ◌≢◌, inl, inr, refl, sym, ap, ap₂, subst, ◌∙◌,
  ltb, ◌==◌, arith, Bool-cases, is_nil_lem,
}
use zireael.Framebuffer.{Fb}
use zireael.Framebuffer.Cells.{IsBacked, width_at}
use zireael.Framebuffer.Pairs.{Widths, HasWidths}
use zireael.Framebuffer.Paint.{next_x}
use zireael.Framebuffer.Repair.{repair_one, repair_loop, repair_row}
use zireael.Framebuffer.RepairCell.{after_repair, nothing_repaired, repair_one-HasWidths}

-- The wide glyphs that start or end in the first n cells of a row are whole.
abbrev IsMended : ℕ → ℕ → ℕ → Widths → Type 0
IsMended cols n y w =
    (x : ℕ)
    → x < cols
    → (w x y ≤ 2)
      × (x < n → w x y ≡ 0 → (0 < x) × (w (x - 1) y ≡ 2))
      × (x < n → w x y ≡ 2 → (x + 1 < cols) × (w (x + 1) y ≡ 0))

module _ (cols rows x y : ℕ) (h : x < cols) (k : y < rows) (small : cols < 2 ^ 31)
    (w : Widths) where
  abbrev R : Widths
  R = after_repair cols rows x y h k small w

  elsewhere : (n : ℕ) → n ≢ x → n ≢ x + 1 → R n y ≡ w n y
  elsewhere n e f = ground (arith, e, f)

  -- Whole glyphs at a place of the row.
  abbrev IsMendedAt : ℕ → Type 0
  IsMendedAt n =
      (R n y ≡ 0 → (0 < n) × (R (n - 1) y ≡ 2)) × (R n y ≡ 2 → (n + 1 < cols) × (R (n + 1) y ≡ 0))

  own_mended : w x y ≤ 2 → IsMendedAt x
  own_mended b = (
    λ e.
        (let facts : (0 < x) × (w (x - 1) y ≡ 2) = ground (arith, e) in
          (facts.0, elsewhere (x - 1) (omega (arith, facts)) (omega (arith, facts)) ∙ facts.1)),
    λ e. ground (arith, e),
  )

  bounded : (n : ℕ) → w n y ≤ 2 → R n y ≤ 2
  bounded n b = ground (arith, b)

  half_kept : 0 < x → w x y ≡ 0 → w (x - 1) y ≡ 2 → R x y ≡ 0
  half_kept p e f = ground (arith, p, e, f)

  after_lead : (n : ℕ) → n < x → w n y ≡ 2 → w (n + 1) y ≡ 0 → R (n + 1) y ≡ 0
  after_lead n p e f = elim (Bool-cases (n + 1 == x)) [
    | inl q ↦
        let same : n + 1 ≡ x = ground (arith, q) in
        let before : n ≡ x - 1 = omega (arith, same) in
        subst (λ j. R j y ≡ 0) (sym same)
          (half_kept (omega (arith, p)) (subst (λ j. w j y ≡ 0) same f)
            (subst (λ j. w j y ≡ 2) before e))
    | inr q ↦ elsewhere (n + 1) (ground (arith, q)) (omega (arith, p)) ∙ f
  ]

  before_mended : (n : ℕ) → IsMended cols x y w → n < x → IsMendedAt n
  before_mended n m p =
      let here = elsewhere n (omega (arith, p)) (omega (arith, p)) in
      let old = m n (omega (arith, p, h)) in
      (
        λ e.
            (let half = old.1 p (sym here ∙ e) in
              (half.0, elsewhere (n - 1) (omega (arith, p)) (omega (arith, p)) ∙ half.1)),
        λ e. (let lead = old.2 p (sym here ∙ e) in (lead.0, after_lead n p (sym here ∙ e) lead.1)),
      )

  repair_one-IsMended : IsMended cols x y w → IsMended cols (x + 1) y R
  repair_one-IsMended m n h' = elim (Bool-cases (ltb n x)) [
    | inl e ↦
        (let old = before_mended n m (ground (arith, e)) in
          (bounded n (m n h').0, λ p. old.0, λ p. old.1))
    | inr e ↦
        (let own : n < x + 1 → IsMendedAt n =
            λ p. subst IsMendedAt (ground (arith, e, p)) (own_mended (m x h).0) in
          (bounded n (m n h').0, λ p. (own p).0, λ p. (own p).1))
  ]

-- The widths after the loop, from cell x on.
abbrev IsRepaired : (cols rows y : ℕ) → Widths → Fb → Type 0
IsRepaired cols rows y w r =
    (w' : Widths) × HasWidths cols rows w' r
    × IsMended cols cols y w'
    × ((x' y' : ℕ) → y' ≢ y → w' x' y' ≡ w x' y')

repair_loop-IsRepaired :
    (cols rows y n x : ℕ) (w : Widths) (fb : Fb)
    → y < rows
    → cols < 2 ^ 31
    → x + n ≡ cols
    → HasWidths cols rows w fb
    → IsMended cols x y w
    → IsRepaired cols rows y w (repair_loop n fb x y)
unfolding repair_loop
repair_loop-IsRepaired cols rows y zero x w fb k small e s m =
    (w, s, subst (λ j. IsMended cols j y w) (omega (arith, e)) m, λ x' y' q. refl)
repair_loop-IsRepaired cols rows y (suc n) x w fb k small e s m =
    let h : x < cols = omega (arith, e) in
    let step : next_x x ≡ x + 1 = omega (arith, h, small) in
    let R = after_repair cols rows x y h k small w in
    let rest =
      repair_loop-IsRepaired cols rows y n (x + 1) R (repair_one fb x y) k small (omega (arith, e))
        (repair_one-HasWidths cols rows x y h k small w fb s)
        (repair_one-IsMended cols rows x y h k small w m) in
    let other : (x' y' : ℕ) → y' ≢ y → R x' y' ≡ w x' y' = λ x' y' q. ground (arith, q) in
    subst (λ j. IsRepaired cols rows y w (repair_loop n (repair_one fb x y) j y)) (sym step)
      (rest.0, rest.1, rest.2, λ x' y' q. rest.3 x' y' q ∙ other x' y' q)

-- No half of a wide glyph in a row.
abbrev pub IsWholeRow : ℕ → ℕ → Widths → Type 0
IsWholeRow cols y w =
    (x : ℕ)
    → x < cols
    → (w x y ≤ 2)
      × (w x y ≡ 0 → (0 < x) × (w (x - 1) y ≡ 2))
      × (w x y ≡ 2 → (x + 1 < cols) × (w (x + 1) y ≡ 0))

row_repaired :
    (fb : Fb) (y : ℕ) → IsBacked fb → y < fb.rows → repair_row fb y ≡ repair_loop fb.cols fb 0 y
unfolding repair_row
row_repaired fb y b k = ground (arith, k, b.cols, b.rows, b.held, is_nil_lem fb.cells, some_cells)
  where
    some_cells : 0 < fb.rows * fb.cols
    some_cells = grind (arith, b.cols, b.rows)

repair_loop-whole :
    (cols rows y n x : ℕ) (w : Widths) (fb : Fb)
    → y < rows
    → cols < 2 ^ 31
    → x + n ≡ cols
    → HasWidths cols rows w fb
    → IsMended cols cols y w
    → repair_loop n fb x y ≡ fb
unfolding repair_loop
repair_loop-whole cols rows y zero x w fb k small e s m = refl
repair_loop-whole cols rows y (suc n) x w fb k small e s m =
    let h : x < cols = omega (arith, e) in
    let step : next_x x ≡ x + 1 = omega (arith, h, small) in
    let same = nothing_repaired cols rows x y h k small w fb s (ground (arith, m x h, h)) in
    ap₂ (λ r j. repair_loop n r j y) same step
    ∙ repair_loop-whole cols rows y n (x + 1) w fb k small (omega (arith, e)) s m

-- On a framebuffer of at least one and fewer than 2^31 columns and rows, with its cells (fewer than
-- 2^62), zr_fb_repair_row of a row whose cells have widths of at most 2, in any order, keeps the
-- size and the widths of the other rows, and leaves no half of a wide glyph in the row: each
-- continuation cell stands right of a wide lead, and each wide lead left of a continuation cell. To repair
-- the row again changes nothing.
pub repair_row-IsWholeRow :
    (fb : Fb) (y : ℕ)
    → IsBacked fb
    → y < fb.rows
    → ((x : ℕ) → x < fb.cols → width_at fb x y ≤ 2)
    → let r = repair_row fb y in
      IsBacked r
      × (r.cols ≡ fb.cols)
      × (r.rows ≡ fb.rows)
      × IsWholeRow fb.cols y (width_at r)
      × ((x' y' : ℕ) → x' < fb.cols → y' < fb.rows → y' ≢ y → width_at r x' y' ≡ width_at fb x' y')
      × (repair_row r y ≡ r)
repair_row-IsWholeRow fb y b k low =
    let start : HasWidths fb.cols fb.rows (width_at fb) fb = record {
      backed = b;
      same_cols = refl;
      same_rows = refl;
      widths = λ x' y' h' k'. refl;
    } in
    let done =
      repair_loop-IsRepaired fb.cols fb.rows y fb.cols 0 (width_at fb) fb k b.small (omega arith)
        start (λ x h. (low x h, λ p. absurd (omega (arith, p)), λ p. absurd (omega (arith, p)))) in
    let q = repair_loop fb.cols fb 0 y in
    let s = done.1 in
    subst
      (λ r.
        IsBacked r
        × (r.cols ≡ fb.cols)
        × (r.rows ≡ fb.rows)
        × IsWholeRow fb.cols y (width_at r)
        × ((x' y' : ℕ)
            → x' < fb.cols
            → y' < fb.rows
            → y' ≢ y
            → width_at r x' y' ≡ width_at fb x' y')
        × (repair_row r y ≡ r))
      (sym (row_repaired fb y b k))
      (
        s.backed,
        s.same_cols,
        s.same_rows,
        λ x h.
            ground
              (arith, done.2 x h, h, k, s.widths x y h k, s.widths (x - 1) y, s.widths (x + 1) y),
        λ x' y' h' k' p. s.widths x' y' h' k' ∙ done.3 x' y' p,
        row_repaired q y s.backed (omega (arith, k, s.same_rows))
            ∙ ap (λ n. repair_loop n q 0 y) s.same_cols
            ∙ repair_loop-whole fb.cols fb.rows y fb.cols 0 done.0 q k b.small (omega arith) s
                done.2,
      )
