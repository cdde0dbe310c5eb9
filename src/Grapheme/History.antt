-- ===== src/Grapheme/History.antt =====
-- zr_grapheme_state_init and zr_grapheme_state_advance: the few fields of the break state stand for
-- all the code points that the cluster holds.
use zireael.Prelude.{
  ℕ, suc, ◌+◌, ◌%◌, ◌^◌, ◌<◌, ◌≤◌, ◌≡◌, ◌↔◌, refl, sym, ap, subst, ◌∙◌, Bool, true, false, ◌&&◌,
  List, [], ◌∷◌, length, if◌then◌else◌, arith,
}
use zireael.Unicode.{GcbClass, gcb_extend, gcb_zwj, gcb_regional_indicator, same_gcb}
use zireael.Grapheme.{
  GraphemeCp, BreakState, should_break, state_init, state_advance, breaks_before,
}
use zireael.Grapheme.Rules.{NoBreak, should_break-NoBreak}

-- The state after a first code point and later ones, the newest first.
abbrev pub replay : GraphemeCp → List GraphemeCp → BreakState
replay first [] = state_init first
replay first (cp ∷ older) = state_advance (replay first older) cp

-- The code points of the cluster, the newest first.
abbrev pub history : GraphemeCp → List GraphemeCp → List GraphemeCp
history first [] = first ∷ []
history first (cp ∷ older) = cp ∷ history first older

abbrev pub newest_class : GraphemeCp → List GraphemeCp → GcbClass
newest_class first [] = first.gcb_class
newest_class first (cp ∷ older) = cp.gcb_class

-- How many regional indicators the cluster ends with.
abbrev pub trailing_ri : List GraphemeCp → ℕ
trailing_ri [] = 0
trailing_ri (cp ∷ older) =
    if same_gcb cp.gcb_class gcb_regional_indicator then suc (trailing_ri older) else 0

-- Whether the cluster ends with an emoji and any number of extensions.
abbrev pub ends_in_emoji : List GraphemeCp → Bool
ends_in_emoji [] = false
ends_in_emoji (cp ∷ older) =
    if same_gcb cp.gcb_class gcb_extend then ends_in_emoji older else cp.is_extended_pictographic

-- Whether it ends with those and a ZWJ.
abbrev pub ends_in_emoji_zwj : List GraphemeCp → Bool
ends_in_emoji_zwj [] = false
ends_in_emoji_zwj (cp ∷ older) = same_gcb cp.gcb_class gcb_zwj && ends_in_emoji older

abbrev pub joiner_after_emoji : BreakState → Bool
joiner_after_emoji state = same_gcb state.prev_class gcb_zwj && state.prev_zwj_after_ep

trailing_ri-le : (h : List GraphemeCp) → trailing_ri h ≤ length h
trailing_ri-le [] = omega arith
trailing_ri-le (cp ∷ older) = ground (arith, trailing_ri-le older)

-- No ZWJ is an emoji.
abbrev pub IsPlain : GraphemeCp → Type 0
IsPlain cp = same_gcb cp.gcb_class gcb_zwj ≡ true → cp.is_extended_pictographic ≡ false

module _ (first : GraphemeCp) where
  prev_class-replay :
      (older : List GraphemeCp) → (replay first older).prev_class ≡ newest_class first older
  unfolding state_init state_advance
  prev_class-replay [] = refl
  prev_class-replay (cp ∷ older) = refl

  last-replay :
      (older : List GraphemeCp)
      → (replay first older).last_non_extend_is_ep ≡ ends_in_emoji (history first older)
  unfolding state_init state_advance
  last-replay [] = refl
  last-replay (cp ∷ older) = ground (arith, last-replay older)

  ri_run-replay :
      (older : List GraphemeCp)
      → length (history first older) < 2 ^ 32
      → (replay first older).ri_run ≡ trailing_ri (history first older)
  unfolding state_init state_advance
  ri_run-replay [] h = refl
  ri_run-replay (cp ∷ older) h =
      let keep = ri_run-replay older (omega arith) in
      let small = trailing_ri-le (history first older) in
      let next : (trailing_ri (history first older) + 1) % 2 ^ 32
          ≡ suc (trailing_ri (history first older)) =
        omega (arith, small, h) in
      ground (arith, keep, next)

  joiner-replay :
      IsPlain first
      → (older : List GraphemeCp)
      → joiner_after_emoji (replay first older) ≡ ends_in_emoji_zwj (history first older)
  unfolding state_init state_advance
  joiner-replay plain [] = ground (arith, plain)
  joiner-replay plain (cp ∷ older) = ground (arith, last-replay older)

only_after_zwj :
    (p n : GcbClass) (z ep : Bool) (run : ℕ)
    → should_break p z run n ep ≡ should_break p (same_gcb p gcb_zwj && z) run n ep
unfolding should_break
only_after_zwj p n z ep run = ground arith

-- For a cluster of fewer than 2^32 code points whose first is not both a ZWJ and an emoji, the break
-- state that zr_grapheme_state_init and zr_grapheme_state_advance keep makes zr_grapheme_next refuse
-- a break exactly when one of the rules GB3, GB6 to GB9b, GB11, GB12 and GB13 of UAX #29 forbids it
-- for all the code points of the cluster: an emoji may have extensions between it and the ZWJ, and
-- the regional indicators are those that the cluster ends with.
pub breaks_before-NoBreak :
    (first : GraphemeCp) (older : List GraphemeCp) (cp : GraphemeCp)
    → IsPlain first
    → length (history first older) < 2 ^ 32
    → (breaks_before (replay first older) cp ≡ false)
      ↔ NoBreak
          (ends_in_emoji_zwj (history first older))
          (trailing_ri (history first older))
          cp.is_extended_pictographic
          (newest_class first older)
          cp.gcb_class
breaks_before-NoBreak first older cp plain few =
    let state = replay first older in
    let ep = cp.is_extended_pictographic in
    let n = cp.gcb_class in
    let as_history : breaks_before state cp
        ≡ should_break (newest_class first older) (ends_in_emoji_zwj (history first older))
            (trailing_ri (history first older)) n ep =
      only_after_zwj state.prev_class n state.prev_zwj_after_ep ep state.ri_run
      ∙ ap (λ z. should_break state.prev_class z state.ri_run n ep)
          (joiner-replay first plain older)
      ∙ ap (λ r. should_break state.prev_class (ends_in_emoji_zwj (history first older)) r n ep)
          (ri_run-replay first older few)
      ∙ ap
          (λ p.
            should_break p (ends_in_emoji_zwj (history first older))
              (trailing_ri (history first older)) n ep)
          (prev_class-replay first older) in
    subst
      (λ b.
        (b ≡ false)
        ↔ NoBreak (ends_in_emoji_zwj (history first older)) (trailing_ri (history first older)) ep
            (newest_class first older) n)
      (sym as_history)
      (should_break-NoBreak (ends_in_emoji_zwj (history first older))
        (trailing_ri (history first older)) ep (newest_class first older) n)
