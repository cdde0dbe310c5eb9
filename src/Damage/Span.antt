-- ===== src/Damage/Span.antt =====
-- zr_damage_add_span: no changed cell is lost, and as long as rectangles suffice, none is added.
use zireael.Prelude.{
  is_nil, ℕ, ◌+◌, ◌≤◌, ◌<◌, ◌≡◌, ◌≢◌, sym, ap, ◌∙◌, inl, inr, false, set, length-set, arith, leb,
  Bool-cases, leb→le, subst,
}
use zireael.Prelude.Window.{get_or-set_self, get_or-set_ne}
use zireael.Result.{u32_max}
use zireael.Damage.{DamageRect, Damage, zero_rect}
use zireael.Damage.Cover.{
  Holds, IsValid, by_frame, by_rect, Added, is_nil-set, IsMatch, extended, rect_at, true_ne_false,
}
use native.Mathlib.Decide.{ℕ_discrete}

module _ (d : Damage) (y x0 x1 : ℕ) (v : IsValid d) (given : is_nil d.rects ≡ false)
    (row_inside : y < d.rows) (wide : x0 ≤ x1) (x1_inside : x1 < d.cols) where
  module _ (k : ℕ) (below : k < d.rect_count) (m : IsMatch d.rects y x0 x1 k) where
    abbrev pub longer : DamageRect
    longer = record (rect_at d k) { y1 = y }

    abbrev pub taller : Damage
    taller = record d { rects = extended d.rects y k }

    own : rect_at taller k ≡ longer
    own = get_or-set_self zero_rect d.rects k longer (omega (arith, v.held given, v.counted))

    other : (i : ℕ) → k ≢ i → rect_at taller i ≡ rect_at d i
    other i h = get_or-set_ne zero_rect d.rects k i longer h

    next_row : (rect_at d k).y1 + 1 ≡ y
    next_row = let inside = v.inside k below in omega (arith, inside, m, v)

    pub taller-Added : Added d y x0 x1 taller
    taller-Added = record {
      valid = record {
        cols_size = v.cols_size;
        rows_size = v.rows_size;
        cap_size = v.cap_size;
        held = λ e. rw (length-set d.rects k longer) (v.held given);
        unheld = λ e. absurd (true_ne_false (sym e ∙ is_nil-set d.rects k longer ∙ given));
        counted = v.counted;
        inside = λ i b. elim (ℕ_discrete k i) [
          | yes e ↦
              let inside = v.inside k below in
              rw (← e, own)
                (record {
                  wide = inside.wide;
                  tall = omega (arith, inside, next_row);
                  right = inside.right;
                  bottom = row_inside;
                })
          | no h ↦ rw (other i h) (v.inside i b)
        ];
      };
      kept = λ x row c. elim c [
        | by_frame f ↦ by_frame f
        | by_rect i b h ↦ by_rect i b (elim (ℕ_discrete k i) [
          | yes e ↦
              let h' : Holds (rect_at d k) x row = rw e h in
              rw (← e, own)
                (record {
                  left = h'.left;
                  right = h'.right;
                  top = h'.top;
                  bottom = omega (arith, h', next_row);
                })
          | no ne ↦ rw (other i ne) h
        ])
      ];
      added = λ x lo hi w. by_rect k below (
          let inside = v.inside k below in
          rw own (record {
            left = omega (arith, lo, m);
            right = omega (arith, hi, m);
            top = omega (arith, inside, next_row);
            bottom = omega arith;
          }));
      exact = λ z x row c. elim c [
        | by_frame f ↦ absurd (f z)
        | by_rect i b h ↦ elim (ℕ_discrete k i) [
          | yes e ↦
              let h' : Holds longer x row =
                subst (λ r. Holds r x row) (ap (rect_at taller) (sym e) ∙ own) h in
              elim (Bool-cases (leb row (rect_at d k).y1)) [
                | inl le ↦ inl (
                    by_rect k below (record {
                      left = h'.left;
                      right = h'.right;
                      top = h'.top;
                      bottom = leb→le _ _ le;
                    }))
                | inr gt ↦
                    let above : (rect_at d k).y1 < row = ground (arith, gt) in
                    inr (
                      omega (arith, h', next_row, above),
                      omega (arith, h', m),
                      omega (arith, h', m),
                    )
              ]
          | no ne ↦ inl (by_rect i b (subst (λ r. Holds r x row) (other i ne) h))
        ]
      ];
    }

  module _ (room : d.rect_count < d.rect_cap) where
    abbrev pub fresh : DamageRect
    fresh = record { x0 = x0; y0 = y; x1 = x1; y1 = y; link = u32_max }

    abbrev pub more : Damage
    more = record d { rects = set d.rects d.rect_count fresh; rect_count = d.rect_count + 1 }

    last : rect_at more d.rect_count ≡ fresh
    last = get_or-set_self zero_rect d.rects d.rect_count fresh (omega (arith, v.held given, room))

    before : (i : ℕ) → d.rect_count ≢ i → rect_at more i ≡ rect_at d i
    before i h = get_or-set_ne zero_rect d.rects d.rect_count i fresh h

    pub more-Added : Added d y x0 x1 more
    more-Added = record {
      valid = record {
        cols_size = v.cols_size;
        rows_size = v.rows_size;
        cap_size = v.cap_size;
        held = λ e. rw (length-set d.rects d.rect_count fresh) (v.held given);
        unheld =
            λ e. absurd (true_ne_false (sym e ∙ is_nil-set d.rects d.rect_count fresh ∙ given));
        counted = omega arith;
        inside = λ i b. elim (ℕ_discrete d.rect_count i) [
          | yes e ↦
              rw (← e, last)
                (record { wide = wide; tall = omega arith; right = x1_inside; bottom = row_inside })
          | no h ↦ rw (before i h) (v.inside i (omega (arith, b, h)))
        ];
      };
      kept = λ x row c. elim c [
        | by_frame f ↦ by_frame f
        | by_rect i b h ↦ by_rect i (omega (arith, b)) (rw (before i (λ e. omega (arith, e, b))) h)
      ];
      added = λ x lo hi w.
          by_rect d.rect_count (omega arith)
            (rw last (record { left = lo; right = hi; top = omega arith; bottom = omega arith }));
      exact = λ z x row c. elim c [
        | by_frame f ↦ absurd (f z)
        | by_rect i b h ↦ elim (ℕ_discrete d.rect_count i) [
          | yes e ↦
              let h' : Holds fresh x row =
                subst (λ r. Holds r x row) (ap (rect_at more) (sym e) ∙ last) h in
              inr (omega (arith, h'), h'.left, h'.right)
          | no ne ↦
              inl (by_rect i (omega (arith, b, ne)) (subst (λ r. Holds r x row) (before i ne) h))
        ]
      ];
    }
