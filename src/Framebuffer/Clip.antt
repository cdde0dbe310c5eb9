-- ===== src/Framebuffer/Clip.antt =====
-- The clip rectangles of src/core/zr_framebuffer.c as sets of cells.
use zireael.Prelude.{
  ℕ, ◌+◌, ◌-◌, ◌^◌, min, ◌<◌, ◌≡◌, inl, inr, sym, ap, ap₂, ◌∙◌, Bool, true, false, not, ◌&&◌, ltb,
  leb, arith, Bool-cases,
}
use zireael.Framebuffer.{
  Rect, biased, not_positive, greater_of, rect_empty, rect_right, rect_bottom, rect_intersect,
  rect_contains,
}

-- A rectangle of 32-bit numbers.
pub record IsRect (r : Rect) : Type 0 where
  pub x_word : r.x < 2 ^ 32
  pub y_word : r.y < 2 ^ 32
  pub w_word : r.w < 2 ^ 32
  pub h_word : r.h < 2 ^ 32

-- The test of one axis, of a rectangle that has cells.
abbrev in_side : ℕ → ℕ → ℕ → Bool
in_side a w p = leb a p && ltb p (a + w)

-- The side of the intersection, of coordinates that are moved up.
abbrev common_side : ℕ → ℕ → ℕ → ℕ → ℕ
common_side a b wa wb = min (min (a + wa) (b + wb) - greater_of a b) (2 ^ 31 - 1)

-- A point is in the intersection of two intervals when it is in both.
intersect_axis :
    (a b wa wb p : ℕ)
    → 0 < wa
    → wa < 2 ^ 31
    → (not (leb (common_side a b wa wb) 0) && in_side (greater_of a b) (common_side a b wa wb) p)
      ≡ (in_side a wa p && in_side b wb p)
intersect_axis a b wa wb p h k = ground (arith, h, k)

-- A rectangle with cells has its own sides.
positive_side : (w : ℕ) → w < 2 ^ 32 → not_positive w ≡ false → (0 < w) × (w < 2 ^ 31)
positive_side w h e = ground (arith, e)

biased_twice : (a : ℕ) → a < 2 ^ 32 → biased (biased a) ≡ a
biased_twice a h = omega (arith, h)

biased_word : (a : ℕ) → biased a < 2 ^ 32
biased_word a = omega arith

contains_lem :
    (r : Rect) (x y : ℕ)
    → rect_contains r x y ≡ (
        not (not_positive r.w)
        && not (not_positive r.h)
        && in_side (biased r.x) r.w (biased x)
        && in_side (biased r.y) r.h (biased y))
unfolding rect_contains
contains_lem r x y = ground arith

-- The rectangle that zr_rect_intersect returns when all sides are positive.
abbrev common : Rect → Rect → Rect
common a b =
    let x1 = greater_of (biased a.x) (biased b.x) in
    let y1 = greater_of (biased a.y) (biased b.y) in
    record {
      x = biased x1;
      y = biased y1;
      w = min (min (rect_right a) (rect_right b) - x1) (2 ^ 31 - 1);
      h = min (min (rect_bottom a) (rect_bottom b) - y1) (2 ^ 31 - 1);
    }

abbrev has_sides : Rect → Bool
has_sides r = not (not_positive r.w) && not (not_positive r.h)

intersect_sides :
    (a b : Rect) → has_sides a ≡ true → has_sides b ≡ true → rect_intersect a b ≡ common a b
unfolding rect_intersect
intersect_sides a b e f = ground (arith, e, f)

intersect_flat :
    (a b : Rect) → (has_sides a && has_sides b) ≡ false → rect_intersect a b ≡ rect_empty
unfolding rect_intersect
intersect_flat a b e = ground (arith, e)

positive_lem : (w : ℕ) → w < 2 ^ 31 → not (not_positive w) ≡ not (leb w 0)
positive_lem w h = ground (arith, h)

common_axis :
    (a b wa wb p : ℕ)
    → a < 2 ^ 32
    → b < 2 ^ 32
    → 0 < wa
    → wa < 2 ^ 31
    → (not (not_positive (common_side a b wa wb))
        && in_side (biased (biased (greater_of a b))) (common_side a b wa wb) p)
      ≡ (in_side a wa p && in_side b wb p)
common_axis a b wa wb p ha hb h k =
    ap₂ (λ q x. q && in_side x (common_side a b wa wb) p)
      (positive_lem (common_side a b wa wb) (ground arith))
      (biased_twice (greater_of a b) (ground (arith, ha, hb)))
    ∙ intersect_axis a b wa wb p h k

shuffle : (p q r s u v : Bool) → (p && r) ≡ u → (q && s) ≡ v → (p && q && r && s) ≡ (u && v)
shuffle p q r s u v e f = ground (arith, e, f)

regroup : (p q r s : Bool) → ((p && q) && (r && s)) ≡ ((p && r) && (q && s))
regroup p q r s = ground arith

contains_sides :
    (r : Rect) (x y : ℕ)
    → has_sides r ≡ true
    → rect_contains r x y
      ≡ (in_side (biased r.x) r.w (biased x) && in_side (biased r.y) r.h (biased y))
contains_sides r x y e = contains_lem r x y ∙ ground (arith, e)

contains-common :
    (a b : Rect) (x y : ℕ)
    → IsRect a
    → has_sides a ≡ true
    → has_sides b ≡ true
    → rect_contains (common a b) x y ≡ (rect_contains a x y && rect_contains b x y)
contains-common a b x y ra ea eb =
    let w = positive_side a.w ra.w_word (ground (arith, ea)) in
    let h = positive_side a.h ra.h_word (ground (arith, ea)) in
    contains_lem (common a b) x y
    ∙ shuffle (not (not_positive (common a b).w)) (not (not_positive (common a b).h))
        (in_side (biased (common a b).x) (common a b).w (biased x))
        (in_side (biased (common a b).y) (common a b).h (biased y))
        (in_side (biased a.x) a.w (biased x) && in_side (biased b.x) b.w (biased x))
        (in_side (biased a.y) a.h (biased y) && in_side (biased b.y) b.h (biased y))
        (common_axis (biased a.x) (biased b.x) a.w b.w (biased x) (biased_word a.x)
          (biased_word b.x) w.0 w.1)
        (common_axis (biased a.y) (biased b.y) a.h b.h (biased y) (biased_word a.y)
          (biased_word b.y) h.0 h.1)
    ∙ regroup (in_side (biased a.x) a.w (biased x)) (in_side (biased b.x) b.w (biased x))
        (in_side (biased a.y) a.h (biased y)) (in_side (biased b.y) b.h (biased y))
    ∙ sym (ap₂ (◌&&◌) (contains_sides a x y ea) (contains_sides b x y eb))

-- zr_rect_intersect, with a rectangle of 32-bit numbers, has the points that are in both.
pub contains-intersect :
    (a b : Rect) (x y : ℕ)
    → IsRect a
    → rect_contains (rect_intersect a b) x y ≡ (rect_contains a x y && rect_contains b x y)
contains-intersect a b x y ra = elim (Bool-cases (has_sides a && has_sides b)) [
  | inr e ↦
      (ap (λ r. rect_contains r x y) (intersect_flat a b e)
        ∙ ground (arith, e, contains_lem a x y, contains_lem b x y, contains_lem rect_empty x y))
  | inl e ↦
      (let ea : has_sides a ≡ true = ground (arith, e) in
        let eb : has_sides b ≡ true = ground (arith, e) in
        ap (λ r. rect_contains r x y) (intersect_sides a b ea eb)
        ∙ contains-common a b x y ra ea eb)
]
