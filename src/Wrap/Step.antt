-- ===== src/Wrap/Step.antt =====
-- The loop of zr_wrap_greedy_utf8: what holds before each round, and that a round makes progress.
use zireael.Prelude.{
  ℕ, ◌+◌, ◌-◌, ◌%◌, ◌^◌, ◌≤◌, ◌<◌, ◌≡◌, ◌≢◌, ◌⊎◌, inl, inr, refl, sym, subst, ◌∙◌, List, drop,
  if◌then◌else◌, Option, none, some, arith,
}
use zireael.Unicode.{UnicodeTables}
use zireael.Grapheme.{Grapheme, GraphemeIter}
use zireael.Grapheme.Next.{IsValid, NextOutcome, exhausted, cluster}
use zireael.Width.{WidthPolicy, width_grapheme_utf8}
use zireael.Wrap.{
  WrapState, ws_break_none, new_line, push_offset, rewind, wrap_one, is_tab_grapheme, tab_advance,
}

-- The line starts before the position, and the whitespace break, if there is one, lies between.
pub record IsReady (bytes : List ℕ) (len : ℕ) (s : WrapState) : Type 0 where
  pub same_bytes : s.it.bytes ≡ bytes
  pub same_len : s.it.len ≡ len
  pub valid : IsValid s.it
  pub started : s.line_start ≤ s.it.off
  pub break_within : (s.last_ws_break_off ≡ ws_break_none) ⊎ (s.last_ws_break_off ≤ s.it.off)

-- What a round does to the line: it keeps it, or starts another one further on.
pub data Moved (s s' : WrapState) : Type 0 where
  same_line : s'.line_start ≡ s.line_start → s'.out ≡ s.out → s.it.off < s'.it.off → Moved s s'
  next_line : s.line_start < s'.line_start → s'.out ≡ push_offset s'.line_start s.out → Moved s s'

module _ (tables : UnicodeTables) (policy : WidthPolicy) (tab_stop max_cols : ℕ) where
  abbrev one : WrapState → Grapheme → WrapState
  one = wrap_one tables policy tab_stop max_cols

  module _ (s : WrapState) (g : Grapheme) (it' : GraphemeIter) (len : ℕ)
      (from : g.offset ≡ s.it.off) (to : it'.off ≡ g.offset + g.size) (some_bytes : 1 ≤ g.size)
      (small : it'.off < 2 ^ 64) where
    abbrev past : WrapState
    past = record s { it = it' }

    abbrev gb : List ℕ
    gb = drop g.offset it'.bytes

    abbrev adv : ℕ
    adv =
        if is_tab_grapheme gb g.size
        then tab_advance s.col tab_stop
        else width_grapheme_utf8 tables gb g.size policy

    abbrev reach : ℕ
    reach = (s.col + adv) % 2 ^ 32

    -- The ways that a round can go.
    ways :
        (one past g ≡ new_line past it'.off)
        ⊎ ((one past g ≡ past)
            ⊎ ((one past g ≡ record past { col = reach; last_ws_break_off = it'.off })
                ⊎ ((one past g ≡ record past { col = reach })
                    ⊎ ((one past g ≡ record past { col = adv })
                        ⊎ (((s.last_ws_break_off ≢ ws_break_none)
                              × (s.line_start < s.last_ws_break_off)
                              × (one past g
                                  ≡ new_line (rewind past s.last_ws_break_off) s.last_ws_break_off))
                            ⊎ ((g.offset ≢ s.line_start)
                                × (one past g ≡ new_line (rewind past g.offset) g.offset)))))))
    unfolding wrap_one
    ways =
        let after : (g.offset + g.size) % 2 ^ 64 ≡ it'.off = omega (arith, to, small) in
        ground (arith, after)

    module _ (bytes : List ℕ) (ready : IsReady bytes len s) (valid : IsValid it')
        (same_bytes : it'.bytes ≡ s.it.bytes) (same_len : it'.len ≡ s.it.len) where
      abbrev Good : WrapState → Type 0
      Good s' = IsReady bytes len s' × Moved s s'

      -- The line goes on, with any column, and the whitespace break stays or is the position.
      goes_on :
          (c last : ℕ)
          → (last ≡ ws_break_none) ⊎ (last ≤ it'.off)
          → Good (record past { col = c; last_ws_break_off = last })
      goes_on c last h = (
        record {
          same_bytes = same_bytes ∙ ready.same_bytes;
          same_len = same_len ∙ ready.same_len;
          valid = valid;
          started = omega (arith, ready.started, from, to);
          break_within = h;
        },
        same_line refl refl (omega (arith, from, to, some_bytes)),
      )

      kept_break : (s.last_ws_break_off ≡ ws_break_none) ⊎ (s.last_ws_break_off ≤ it'.off)
      kept_break = ground (arith, ready.break_within, from, to)

      -- A line starts at a position after its start that is not past the iterator's.
      starts :
          (off : ℕ) → s.line_start < off → off ≤ it'.off → Good (new_line (rewind past off) off)
      starts off h within = (
        record {
          same_bytes = same_bytes ∙ ready.same_bytes;
          same_len = same_len ∙ ready.same_len;
          valid = record {
            held = valid.held;
            size = valid.size;
            within = omega (arith, within, valid.within);
          };
          started = omega arith;
          break_within = inl refl;
        },
        next_line h refl,
      )

      one-Good : Good (one past g)
      one-Good = elim ways [
        | inl e ↦
            subst Good (sym e)
              (starts it'.off (omega (arith, ready.started, from, to, some_bytes)) (omega arith))
        | inr (inl e) ↦ subst Good (sym e) (goes_on s.col s.last_ws_break_off kept_break)
        | inr (inr (inl e)) ↦ subst Good (sym e) (goes_on reach it'.off (inr (omega arith)))
        | inr (inr (inr (inl e))) ↦
            subst Good (sym e) (goes_on reach s.last_ws_break_off kept_break)
        | inr (inr (inr (inr (inl e)))) ↦
            subst Good (sym e) (goes_on adv s.last_ws_break_off kept_break)
        | inr (inr (inr (inr (inr (inl (given, above, e)))))) ↦
            subst Good (sym e)
              (starts s.last_ws_break_off above (ground (arith, given, kept_break)))
        | inr (inr (inr (inr (inr (inr (other, e)))))) ↦
            subst Good (sym e)
              (starts g.offset (ground (arith, other, ready.started, from)) (omega (arith, to)))
      ]

  -- A round after a grapheme keeps the state ready, and moves the position or the line on.
  pub wrap_one-Moved :
      (bytes : List ℕ) (len : ℕ) (s : WrapState)
      → IsReady bytes len s
      → (r : Option Grapheme × GraphemeIter) → NextOutcome tables s.it r
      → ((r.0 ≡ none) × (s.it.off ≡ len) × (r.1 ≡ s.it))
        ⊎ ((g : Grapheme) × (r.0 ≡ some g)
            × IsReady bytes len (one (record s { it = r.1 }) g)
            × Moved s (one (record s { it = r.1 }) g))
  wrap_one-Moved bytes len s ready _ (exhausted e) = inl (refl, e ∙ ready.same_len, refl)
  wrap_one-Moved bytes len s ready _ (cluster it' grows above valid same_bytes same_len) =
      let g : Grapheme = record { offset = s.it.off; size = it'.off - s.it.off } in
      let good =
        one-Good s g it' len refl (omega (arith, above)) (omega (arith, above))
          (omega (arith, valid.within, valid.size)) bytes ready valid same_bytes same_len in
      inr (g, refl, good.0, good.1)
