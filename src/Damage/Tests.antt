-- ===== src/Damage/Tests.antt =====
-- Runs of the damage tracker, and its theorems at a concrete tracker.
use zireael.Prelude.{ℕ, zero, suc, ◌<◌, ◌≡◌, refl, some, [], ◌∷◌, arith, get_or}
use zireael.Damage.{Damage, zero_rect, damage_add_span, add_span_given, add_clipped}
use zireael.Damage.Cover.{Inside, IsValid, Added}
use zireael.Damage.AddSpan.{damage_add_span-Added}

-- Columns 1 to 3 of row 2, in a frame of 8 by 4 cells.
abbrev one_span : Damage
one_span = record {
  rects = record { x0 = 1; y0 = 2; x1 = 3; y1 = 2; link = 0 } ∷ zero_rect ∷ [];
  rect_cap = 2;
  rect_count = 1;
  cols = 8;
  rows = 4;
  full_frame = 0;
}

one_span-Inside : (i : ℕ) → i < 1 → Inside 8 4 (get_or one_span.rects i zero_rect)
one_span-Inside zero h = record {
  wide = omega arith;
  tall = omega arith;
  right = omega arith;
  bottom = omega arith;
}
one_span-Inside (suc n) h = absurd (omega (arith, h))

one_span-IsValid : IsValid one_span
one_span-IsValid = record {
  cols_size = omega arith;
  rows_size = omega arith;
  cap_size = omega arith;
  held = λ e. omega arith;
  unheld = λ e. ground (arith, e);
  counted = omega arith;
  inside = one_span-Inside;
}

damage_add_span-Added_example :
    (d' : Damage) × (damage_add_span (some one_span) 3 1 3 ≡ some d') × Added one_span 3 1 3 d'
damage_add_span-Added_example = damage_add_span-Added one_span 3 1 3 one_span-IsValid

-- The span below is joined to the rectangle above it.
joined :
    damage_add_span (some one_span) 3 1 3
    ≡ some (record one_span {
      rects = record { x0 = 1; y0 = 2; x1 = 3; y1 = 3; link = 0 } ∷ zero_rect ∷ [];
    })
unfolding damage_add_span add_span_given add_clipped
joined = refl
