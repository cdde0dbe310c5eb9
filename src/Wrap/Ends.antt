-- ===== src/Wrap/Ends.antt =====
-- The loop of zr_wrap_greedy_utf8 ends, although it moves the iterator back.
use zireael.Prelude.{
  ℕ, zero, suc, ◌+◌, ◌-◌, ◌*◌, ◌^◌, ◌≤◌, ◌<◌, ◌≡◌, inl, inr, refl, sym, ap, subst, ◌∙◌, List,
  Option, none, some, length, arith,
}
use zireael.Unicode.{UnicodeTables}
use zireael.Grapheme.{Grapheme, GraphemeIter, grapheme_next_given}
use zireael.Grapheme.Next.{grapheme_next_given-NextOutcome}
use zireael.Width.{WidthPolicy}
use zireael.Wrap.{WrapState, WrapOut, wrap_one, wrap_loop, wrap_start}
use zireael.Wrap.Step.{IsReady, Moved, same_line, next_line, wrap_one-Moved}

row : (a' a n : ℕ) → a' < a → a' * (n + 1) + n < a * (n + 1)
row a' a n h = grind arith

-- First the lines left, then the bytes left.
abbrev pub left : ℕ → WrapState → ℕ
left len s = (len - s.line_start) * (len + 1) + (len - s.it.off)

left_falls :
    (bytes : List ℕ) (len : ℕ) (s s' : WrapState)
    → IsReady bytes len s
    → IsReady bytes len s'
    → Moved s s'
    → left len s' < left len s
left_falls bytes len s s' ready ready' (same_line line out further) =
    let within : s'.it.off ≤ len = omega (arith, ready'.valid.within, ready'.same_len) in
    let same = ap (λ l. (len - l) * (len + 1)) line in omega (arith, within, same, further)
left_falls bytes len s s' ready ready' (next_line further out) =
    let within : s'.line_start ≤ len =
      omega (arith, ready'.valid.within, ready'.same_len, ready'.started) in
    omega
      (arith, row (len - s'.line_start) (len - s.line_start) len (omega (arith, within, further)))

module _ (bytes : List ℕ) (len : ℕ) where
  pub start-IsReady :
      (out : WrapOut)
      → len ≤ length bytes
      → len < 2 ^ 64
      → IsReady bytes len (wrap_start bytes len out)
  start-IsReady out fits small = record {
    same_bytes = refl;
    same_len = refl;
    valid = record { held = fits; size = small; within = omega arith };
    started = omega arith;
    break_within = inl refl;
  }

  pub start_left : (out : WrapOut) → left len (wrap_start bytes len out) < (len + 1) * (len + 1)
  start_left out = grind arith

module _ (tables : UnicodeTables) (policy : WidthPolicy) (tab_stop max_cols : ℕ) (bytes : List ℕ)
    (len : ℕ) where
  -- A property of the state that a round keeps holds when the loop ends, which it does at the end of
  -- the input.
  module _ {ℓ} (P : WrapState → Type ℓ)
      (keep : (s s' : WrapState)
        → IsReady bytes len s
        → IsReady bytes len s'
        → Moved s s'
        → P s
        → P s') where
    abbrev Done : WrapState → Type ℓ
    Done s = (s.it.off ≡ len) × IsReady bytes len s × P s

    abbrev continue : ℕ → WrapState → Option Grapheme × GraphemeIter → WrapState
    continue fuel s r = elim r.0 [
      | none ↦ record s { it = r.1 }
      | some g ↦
          wrap_loop tables policy tab_stop fuel max_cols
            (wrap_one tables policy tab_stop max_cols (record s { it = r.1 }) g)
    ]

    pub wrap_loop-keeps :
        (fuel : ℕ) (s : WrapState)
        → IsReady bytes len s
        → left len s < fuel
        → P s
        → Done (wrap_loop tables policy tab_stop fuel max_cols s)
    unfolding wrap_loop
    wrap_loop-keeps zero s ready enough p = absurd (omega (arith, enough))
    wrap_loop-keeps (suc fuel) s ready enough p =
        let r = grapheme_next_given tables s.it in
        elim (wrap_one-Moved tables policy tab_stop max_cols bytes len s ready r
          (grapheme_next_given-NextOutcome tables s.it ready.valid)) [
            | inl (ended, off, same) ↦
                subst Done
                  (sym
                    (ap (λ o. continue fuel s (o, r.1)) ended ∙ ap (λ i. record s { it = i }) same))
                  (off, ready, p)
            | inr (g, got, ready', moved) ↦
                let s' = wrap_one tables policy tab_stop max_cols (record s { it = r.1 }) g in
                subst Done (sym (ap (λ o. continue fuel s (o, r.1)) got)) (
                  wrap_loop-keeps fuel s' ready'
                    (omega (arith, left_falls bytes len s s' ready ready' moved, enough))
                    (keep s s' ready ready' moved p))
          ]

  -- With a stated length within the buffer and below 2^64, the loop of zr_wrap_greedy_utf8 ends at
  -- the end of the input, within (len + 1)^2 rounds, although it moves the iterator back to the last
  -- whitespace or to a grapheme that does not fit; whatever the column limit and the tab stop.
  pub wrap_loop_ends :
      (out : WrapOut)
      → len ≤ length bytes
      → len < 2 ^ 64
      → GraphemeIter.off (
          WrapState.it (
            wrap_loop tables policy tab_stop
              ((len + 1) * (len + 1))
              max_cols
              (wrap_start bytes len out)))
        ≡ len
  wrap_loop_ends out fits small =
      let done =
        wrap_loop-keeps (λ s. Unit {0}) (λ s s' ready ready' moved p. tt) ((len + 1) * (len + 1))
          (wrap_start bytes len out) (start-IsReady bytes len out fits small)
          (start_left bytes len out) tt in
      done.0
