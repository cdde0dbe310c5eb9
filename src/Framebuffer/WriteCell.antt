-- ===== src/Framebuffer/WriteCell.antt =====
-- zr_painter_write_width1 of src/core/zr_framebuffer.c, from where its cell is found, and wide glyphs.
use zireael.Prelude.{
  ℕ, ◌+◌, ◌-◌, ◌*◌, ◌^◌, ◌<◌, ◌≡◌, ◌≢◌, inl, inr, refl, sym, ap, ap₂, subst, ◌∙◌, Bool, true, false,
  not, ◌&&◌, ◌||◌, List, ltb, ◌==◌, if◌then◌else◌, arith, Bool-cases,
}
use zireael.Framebuffer.{Fb, Style, put_cell, space_cell, grapheme_cell}
use zireael.Framebuffer.Cells.{index}
use zireael.Framebuffer.Paint.{clear_continuation, clear_lead, clear_next, write_cell, next_x}
use zireael.Framebuffer.Pairs.{
  Widths, IsPaired, HasWidths, with_width, at, put_cell-HasWidths, HasWidths-ext, after_write,
}

-- Past two tests.
goes_on {ℓ} :
    {A : Type ℓ} (p q : Bool) (u v r : A)
    → p ≡ true
    → q ≡ true
    → (if not p then u else if not q then v else r) ≡ r
goes_on true true u v r e f = refl
goes_on true false u v r e f = ground (arith, f)
goes_on false q u v r e f = ground (arith, e)

module _ (cols rows x y : ℕ) (h : x < cols) (k : y < rows) (small : cols < 2 ^ 31)
    (style : Style) where
  -- The widths after each part of zr_painter_write_width1.
  abbrev after_continuation : Widths → Widths
  after_continuation w =
      λ x' y'. if (w x y == 0) && (y == y') && ((x == x') || (x == x' + 1)) then 1 else w x' y'

  abbrev after_next : Widths → Widths
  after_next w = λ x' y'. if (y == y') && (x' == x + 1) && (w x' y' == 0) then 1 else w x' y'

  cleared :
      (w : Widths) (fb : Fb)
      → (s : HasWidths cols rows w fb) → w x y ≡ 0
      → 0 < x
      → clear_continuation fb x y (index fb x y) style ≡ (
        true,
        put_cell
            (put_cell fb (index fb (x - 1) y) (space_cell style))
            (index fb x y)
            (space_cell style),
      )
  unfolding clear_continuation
  cleared w fb s here inside =
      ground (arith, at s (x - 1) y (omega (arith, h)) k, s.widths x y h k, here, inside)

  no_continuation :
      (w : Widths) (fb : Fb)
      → (s : HasWidths cols rows w fb) → w x y ≢ 0
      → clear_continuation fb x y (index fb x y) style ≡ (true, fb)
  unfolding clear_continuation
  no_continuation w fb s other = ground (arith, s.widths x y h k, other)

  continuation_lem :
      (w : Widths) (fb : Fb)
      → HasWidths cols rows w fb
      → IsPaired cols rows w
      → ((clear_continuation fb x y (index fb x y) style).0 ≡ true)
        × HasWidths cols rows
            (after_continuation w)
            (clear_continuation fb x y (index fb x y) style).1
  continuation_lem w fb s paired = elim (Bool-cases (w x y == 0)) [
    | inl e ↦
        (let here : w x y ≡ 0 = ground (arith, e) in
          let pair = (paired x y h k).1 here in
          let before : x - 1 < cols = omega (arith, h) in
          let first = put_cell-HasWidths s (x - 1) y before k (space_cell style) in
          let both = put_cell-HasWidths first x y h k (space_cell style) in
          let done : clear_continuation fb x y (index fb x y) style ≡ (
            true,
            put_cell (put_cell fb (index fb (x - 1) y) (space_cell style)) (index fb x y)
                (space_cell style),
          ) =
            cleared w fb s here pair.0 in
          subst (λ r. (r.0 ≡ true) × HasWidths cols rows (after_continuation w) r.1) (sym done)
            (
              refl,
              HasWidths-ext (after_continuation w) both (λ x' y' h' k'. ground (arith, here, pair)),
            ))
    | inr e ↦
        (let other : w x y ≢ 0 = ground (arith, e) in
          subst (λ r. (r.0 ≡ true) × HasWidths cols rows (after_continuation w) r.1)
            (sym (no_continuation w fb s other))
            (refl, HasWidths-ext (after_continuation w) s (λ x' y' h' k'. ground (arith, other))))
  ]

  abbrev after_lead : Widths → Widths → Widths
  after_lead w wa = λ x' y'. if (wa x y == 2) && (y == y') && (x' == x + 1) then 1 else wa x' y'

  wrap : next_x x ≡ x + 1
  wrap = omega (arith, h, small)

  no_lead :
      (w : Widths) (fb : Fb)
      → (s : HasWidths cols rows w fb) → w x y ≢ 2
      → clear_lead fb x y (index fb x y) style ≡ (true, fb)
  unfolding clear_lead
  no_lead w fb s other = ground (arith, s.widths x y h k, other)

  lead_cleared :
      (w : Widths) (fb : Fb)
      → (s : HasWidths cols rows w fb) → w x y ≡ 2
      → x + 1 < cols
      → clear_lead fb x y (index fb x y) style
        ≡ (true, put_cell fb (index fb (x + 1) y) (space_cell style))
  unfolding clear_lead
  lead_cleared w fb s here room =
      ground (arith, at s (x + 1) y room k, s.widths x y h k, here, room, wrap, s.same_cols)

  lead_lem :
      (w : Widths) (fb : Fb)
      → HasWidths cols rows w fb
      → (w x y ≡ 2 → x + 1 < cols)
      → ((clear_lead fb x y (index fb x y) style).0 ≡ true)
        × HasWidths cols rows (after_lead w w) (clear_lead fb x y (index fb x y) style).1
  lead_lem w fb s room =
      let Goal : Bool × Fb → Type 0 =
        λ r. (r.0 ≡ true) × HasWidths cols rows (after_lead w w) r.1 in
      elim (Bool-cases (w x y == 2)) [
        | inl e ↦
            let here : w x y ≡ 2 = ground (arith, e) in
            let put = put_cell-HasWidths s (x + 1) y (room here) k (space_cell style) in
            subst Goal (sym (lead_cleared w fb s here (room here)))
              (refl, HasWidths-ext (after_lead w w) put (λ x' y' h' k'. ground (arith, here)))
        | inr e ↦
            let other : w x y ≢ 2 = ground (arith, e) in
            subst Goal (sym (no_lead w fb s other))
              (refl, HasWidths-ext (after_lead w w) s (λ x' y' h' k'. ground (arith, other)))
      ]

  next_kept :
      (w : Widths) (fb : Fb)
      → (s : HasWidths cols rows w fb) → (x + 1 < cols → w (x + 1) y ≢ 0)
      → clear_next fb x y style ≡ fb
  unfolding clear_next
  next_kept w fb s other =
      ground (arith, at s (x + 1) y, s.widths (x + 1) y, other, wrap, s.same_cols, k)

  next_cleared :
      (w : Widths) (fb : Fb)
      → (s : HasWidths cols rows w fb) → x + 1 < cols
      → w (x + 1) y ≡ 0
      → clear_next fb x y style ≡ put_cell fb (index fb (x + 1) y) (space_cell style)
  unfolding clear_next
  next_cleared w fb s room here =
      ground
        (arith, at s (x + 1) y room k, s.widths (x + 1) y room k, here, room, wrap, s.same_cols)

  beside : (w : Widths) (x' y' : ℕ) → x' ≡ x + 1 → y ≡ y' → w x' y' ≡ w (x + 1) y
  beside w x' y' p q = ap₂ w p (sym q)

  next_lem :
      (w : Widths) (fb : Fb)
      → HasWidths cols rows w fb
      → HasWidths cols rows (after_next w) (clear_next fb x y style)
  next_lem w fb s = elim (Bool-cases (ltb (x + 1) cols && (w (x + 1) y == 0))) [
    | inl e ↦
        let room : x + 1 < cols = ground (arith, e) in
        let here : w (x + 1) y ≡ 0 = ground (arith, e) in
        let put = put_cell-HasWidths s (x + 1) y room k (space_cell style) in
        subst (HasWidths cols rows (after_next w)) (sym (next_cleared w fb s room here))
          (HasWidths-ext (after_next w) put (λ x' y' h' k'. ground (arith, here, beside w x' y')))
    | inr e ↦
        let other : x + 1 < cols → w (x + 1) y ≢ 0 = λ room. ground (arith, e, room) in
        subst (HasWidths cols rows (after_next w)) (sym (next_kept w fb s other)) (
          HasWidths-ext (after_next w) s (λ x' y' h' k'. ground (arith, other, h', beside w x' y')))
  ]

  widths_agree :
      (w : Widths)
      → (w x y ≡ 2 → (x + 1 < cols) × (w (x + 1) y ≡ 0))
      → (x' y' : ℕ)
      → with_width x y 1
          (after_next (after_lead (after_continuation w) (after_continuation w)))
          x'
          y'
        ≡ after_write x y w x' y'
  widths_agree w pair x' y' = ground (arith, pair, beside w x' y')

  same_index :
      {w w' : Widths} {fb fb' : Fb}
      → HasWidths cols rows w' fb'
      → HasWidths cols rows w fb
      → index fb' x y ≡ index fb x y
  same_index s' s = ap (λ c. y * c + x) (s'.same_cols ∙ sym s.same_cols)

  pub write_cell-HasWidths :
      (w : Widths) (fb : Fb) (bytes : List ℕ) (len : ℕ)
      → HasWidths cols rows w fb
      → IsPaired cols rows w
      → ((write_cell fb x y (index fb x y) bytes len style).0 ≡ true)
        × HasWidths cols rows
            (after_write x y w)
            (write_cell fb x y (index fb x y) bytes len style).1
  unfolding write_cell
  write_cell-HasWidths w fb bytes len s paired =
      let a = continuation_lem w fb s paired in
      let wa = after_continuation w in
      let i = index fb x y in
      let fa = (clear_continuation fb x y i style).1 in
      let here = paired x y h k in
      let b =
        subst
          (λ j.
            ((clear_lead fa x y j style).0 ≡ true)
            × HasWidths cols rows (after_lead wa wa) (clear_lead fa x y j style).1)
          (same_index a.1 s) (lead_lem wa fa a.1 (λ e. ground (arith, e, here))) in
      let fl = (clear_lead fa x y i style).1 in
      let c = next_lem (after_lead wa wa) fl b.1 in
      let fc = clear_next fl x y style in
      let cell = grapheme_cell bytes len style in
      let d =
        subst
          (λ j.
            HasWidths cols rows (with_width x y 1 (after_next (after_lead wa wa)))
              (put_cell fc j cell))
          (same_index c s) (put_cell-HasWidths c x y h k cell) in
      let e = HasWidths-ext (after_write x y w) d (λ x' y' h' k'. widths_agree w here.2 x' y') in
      let Goal : Bool × Fb → Type 0 =
        λ r. (r.0 ≡ true) × HasWidths cols rows (after_write x y w) r.1 in
      subst Goal
        (sym (
          goes_on (clear_continuation fb x y i style).0 (clear_lead fa x y i style).0 (false, fa)
            (false, fl) (true, put_cell fc i cell) a.0 b.0))
        (refl, e)

  -- Overwriting a cell keeps the pairs.
  pub after_write-IsPaired :
      (w : Widths) → IsPaired cols rows w → IsPaired cols rows (after_write x y w)
  after_write-IsPaired w paired x' y' h' k' = ground (
    arith,
    paired x' y' h' k',
    paired (x' - 1) y',
    paired (x' + 1) y',
    paired x y h k,
    beside w x' y',
  )
