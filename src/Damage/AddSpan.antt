-- ===== src/Damage/AddSpan.antt =====
-- zr_damage_add_span on every branch.
use zireael.Prelude.{
  is_nil, ℕ, ◌+◌, ◌-◌, ◌≤◌, ◌<◌, ◌≡◌, ◌≢◌, refl, ◌⊎◌, inl, inr, false, List, none, some, set, arith,
  leb, if◌then◌else◌, Bool-cases, leb→le,
}
use zireael.Result.{u32_max}
use zireael.Damage.{
  DamageRect, Damage, damage_mark_full, extend_match, add_clipped, add_span_given, damage_add_span,
}
use zireael.Damage.Cover.{IsValid, Added, full-Added, mark_full-Added, extend_match_lem}
use zireael.Damage.Span.{taller-Added, more-Added}

module _ (d : Damage) (y x0 x1 : ℕ) (v : IsValid d) where
  add_clipped_match :
      (rects : List DamageRect)
      → extend_match d.rects y x0 x1 0 d.rect_count ≡ some rects
      → add_clipped d y x0 x1 ≡ record d { rects = rects }
  unfolding add_clipped
  add_clipped_match rects h = ground (arith, h)

  add_clipped_full :
      extend_match d.rects y x0 x1 0 d.rect_count ≡ none
      → d.rect_cap ≤ d.rect_count
      → add_clipped d y x0 x1 ≡ damage_mark_full d
  unfolding add_clipped
  add_clipped_full h full = ground (arith, h)

  add_clipped_room :
      extend_match d.rects y x0 x1 0 d.rect_count ≡ none
      → d.rect_count < d.rect_cap
      → add_clipped d y x0 x1 ≡ record d {
        rects =
            set d.rects d.rect_count (record { x0 = x0; y0 = y; x1 = x1; y1 = y; link = u32_max });
        rect_count = d.rect_count + 1;
      }
  unfolding add_clipped
  add_clipped_room h room = ground (arith, h, v.cap_size)

  add_clipped-Added :
      is_nil d.rects ≡ false
      → y < d.rows
      → x0 ≤ x1
      → x1 < d.cols
      → Added d y x0 x1 (add_clipped d y x0 x1)
  add_clipped-Added given row_inside wide x1_inside =
      elim (extend_match_lem d.rects y x0 x1 0 d.rect_count) [
        | inl e ↦ elim (Bool-cases (leb d.rect_cap d.rect_count)) [
          | inl h ↦ rw (add_clipped_full e (leb→le _ _ h)) (mark_full-Added d y x0 x1 v)
          | inr h ↦
              let room : d.rect_count < d.rect_cap = ground (arith, h) in
              rw (add_clipped_room e room)
                (more-Added d y x0 x1 v given row_inside wide x1_inside room)
        ]
        | inr (k, b, m, e) ↦
            rw (add_clipped_match _ e)
              (taller-Added d y x0 x1 v given row_inside wide x1_inside k (omega (arith, b)) m)
      ]

module _ (d : Damage) (y x0 x1 : ℕ) (v : IsValid d) where
  abbrev clip : ℕ
  clip = if leb d.cols x1 then d.cols - 1 else x1

  clipped :
      is_nil d.rects ≡ false
      → y < d.rows
      → x0 ≤ clip
      → clip < d.cols
      → Added d y x0 clip (add_clipped d y x0 clip)
  clipped = add_clipped-Added d y x0 clip v

  -- The branches of the function.
  abbrev Branch : Damage → Type 0
  Branch d' =
      ((d' ≡ d) × (d.full_frame ≢ 0))
      ⊎ ((d' ≡ damage_mark_full d)
          ⊎ (((d' ≡ d) × ((x1 < x0) ⊎ (d.cols ≤ x0)))
              ⊎ ((d' ≡ add_clipped d y x0 clip)
                  × (is_nil d.rects ≡ false)
                  × (y < d.rows)
                  × (x0 ≤ x1)
                  × (x0 < d.cols))))

  branch : Branch (add_span_given d y x0 x1)
  unfolding add_span_given
  branch = ground arith

  unclip : (d' : Damage) → x0 < d.cols → Added d y x0 clip d' → Added d y x0 x1 d'
  unclip d' w a = record {
    valid = a.valid;
    kept = a.kept;
    added = λ x lo hi c. a.added x lo (ground (arith, hi, c)) c;
    exact = λ z x row c. elim (a.exact z x row c) [
      | inl old ↦ inl old
      | inr (e, lo, hi) ↦ inr (e, lo, ground (arith, hi))
    ];
  }

  same-Added : (x1 < x0) ⊎ (d.cols ≤ x0) → Added d y x0 x1 d
  same-Added h = record {
    valid = v;
    kept = λ x row c. c;
    added = λ x lo hi w. absurd (omega (arith, lo, hi, w, h));
    exact = λ z x row c. inl c;
  }

  -- After a call on a valid tracker the tracker is valid, every cell that was to be drawn still is,
  -- and so is every cell of the span that has a column of the frame; and as long as the tracker has
  -- not fallen back on the full frame, no other cell is.
  pub damage_add_span-Added :
      (d' : Damage) × (damage_add_span (some d) y x0 x1 ≡ some d') × Added d y x0 x1 d'
  unfolding damage_add_span
  damage_add_span-Added = (
    add_span_given d y x0 x1,
    refl,
    elim branch [
      | inl (s, f) ↦ rw s (full-Added d d y x0 x1 v f)
      | inr (inl s) ↦ rw s (mark_full-Added d y x0 x1 v)
      | inr (inr (inl (s, h))) ↦ rw s (same-Added h)
      | inr (inr (inr (s, given, r, wide, w))) ↦
          rw s (unclip (add_clipped d y x0 clip) w (clipped given r (ground arith) (ground arith)))
    ],
  )
