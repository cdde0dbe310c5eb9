-- ===== src/Width/Policy.antt =====
-- zr_width_grapheme_utf8 against the width policy, stated on the scalar values of the cluster.
use zireael.Prelude.{
  is_nil_lem, ℕ, zero, suc, ◌-◌, ◌^◌, ◌≤◌, ◌<◌, ◌≡◌, refl, ap, ◌∙◌, Bool, true, not, ◌&&◌, ◌||◌,
  List, [], ◌∷◌, length, ltb, ◌==◌, if◌then◌else◌, arith, Bool-cases, inl, inr,
}
use zireael.Unicode.{UnicodeTables, unicode_is_extended_pictographic, unicode_is_emoji_presentation}
use zireael.Width.{
  WidthPolicy, emoji_narrow, emoji_wide, emoji_width, variation_selector_15, variation_selector_16,
  WidthScan, scan_start, width_codepoint, width_loop, width_of_scan, width_grapheme_utf8,
  is_matched, cluster_has_emoji_presentation,
}
use zireael.Width.Cluster.{
  scalars, any, larger, largest, is_keycap_sequence, keycap_run-is_keycap_sequence, is_zwj,
  width_in_emoji, Gathered, width_loop-Gathered, loop_step, moves,
}

larger_zero : (a : ℕ) → larger 0 a ≡ a
larger_zero a = ground arith

-- The tests of the code and of the policy agree.
decision :
    (keycap presentation pictographic vs16 zwj vs15 : Bool) (text norm least : ℕ)
    → (let has_emoji =
          cluster_has_emoji_presentation keycap presentation pictographic vs16 zwj vs15 in
        let width = if has_emoji then norm else text in
        if has_emoji && ltb width least then least else width)
      ≡ (if keycap || presentation || (pictographic && (vs16 || (zwj && not vs15)))
          then larger norm least
          else text)
decision keycap presentation pictographic vs16 zwj vs15 text norm least = ground arith

module _ (tables : UnicodeTables) where
  -- What is shown as an emoji: a keycap sequence, a cluster with a scalar of emoji presentation, or a
  -- pictograph with a variation selector 16, or with a ZWJ and no variation selector 15.
  abbrev pub shown_as_emoji : List ℕ → Bool
  shown_as_emoji ss =
      is_keycap_sequence ss
      || any (unicode_is_emoji_presentation tables) ss
      || (any (unicode_is_extended_pictographic tables) ss
          && (any (λ c. c == variation_selector_16) ss
              || (any (is_zwj tables) ss && not (any (λ c. c == variation_selector_15) ss))))

  -- The policy: the widest scalar, where an emoji's scalars count one column each and the policy's
  -- width is the least.
  abbrev pub columns : WidthPolicy → List ℕ → ℕ
  columns policy ss =
      if shown_as_emoji ss
      then larger (largest (width_in_emoji tables) ss) (emoji_width policy)
      else largest (width_codepoint tables) ss

  width_codepoint_bound : (scalar : ℕ) → width_codepoint tables scalar ≤ 2
  unfolding width_codepoint
  width_codepoint_bound scalar = ground arith

  width_of_scan-columns :
      (ss : List ℕ) (w : WidthScan) (policy : WidthPolicy)
      → Gathered tables ss scan_start w
      → width_of_scan w policy ≡ columns policy ss
  unfolding width_of_scan
  width_of_scan-columns ss w policy g =
      let keycap : is_matched w.keycap_state ≡ is_keycap_sequence ss =
        ap is_matched g.keycap ∙ keycap_run-is_keycap_sequence ss in
      let text = g.text ∙ larger_zero (largest (width_codepoint tables) ss) in
      let norm = g.norm ∙ larger_zero (largest (width_in_emoji tables) ss) in
      rw (keycap, g.presentation, g.pictographic, g.zwj, g.vs15, g.vs16, text, norm)
        (decision (is_keycap_sequence ss) (any (unicode_is_emoji_presentation tables) ss)
          (any (unicode_is_extended_pictographic tables) ss)
          (any (λ c. c == variation_selector_16) ss) (any (is_zwj tables) ss)
          (any (λ c. c == variation_selector_15) ss) (largest (width_codepoint tables) ss)
          (largest (width_in_emoji tables) ss) (emoji_width policy))

  module _ (bytes : List ℕ) (len : ℕ) (fits : len ≤ length bytes) (small : len < 2 ^ 64) where
    -- The loop reads all the bytes.
    width_loop-all :
        (fuel : ℕ) (w : WidthScan)
        → w.off ≤ len
        → len - w.off ≤ fuel
        → (width_loop tables fuel bytes len w).off ≡ len
    unfolding width_loop
    width_loop-all zero w within enough = omega arith
    width_loop-all (suc fuel) w within enough = elim (Bool-cases (ltb w.off len)) [
      | inl e ↦
          let h : w.off < len = ground (arith, e) in
          let m = moves tables bytes len small w h in
          ap (λ s. s.off) (loop_step tables bytes len small fuel w h)
          ∙ width_loop-all fuel _ m.1 (omega (arith, m, enough))
      | inr e ↦ ground (arith, e, within)
    ]

    -- zr_width_grapheme_utf8 reads every scalar value of a cluster (within its buffer, shorter than
    -- 2^64 bytes) and gives the columns of the policy: those of the widest scalar value, and for a
    -- cluster that is shown as an emoji (a keycap sequence, a scalar of emoji presentation, or a
    -- pictograph with a variation selector 16 or with a ZWJ and no variation selector 15) at least
    -- the policy's emoji width, where scalars that can be emoji count one column each.
    pub width_grapheme_utf8-columns :
        (policy : WidthPolicy)
        → ((width_loop tables len bytes len scan_start).off ≡ len)
          × (width_grapheme_utf8 tables bytes len policy ≡ columns policy (scalars len bytes len 0))
    unfolding width_grapheme_utf8
    width_grapheme_utf8-columns policy =
        let same =
          width_of_scan-columns (scalars len bytes len 0) _ policy
            (width_loop-Gathered tables bytes len small len scan_start) in
        (
          width_loop-all len scan_start (omega arith) (omega arith),
          (elim (Bool-cases (len == 0)) [
            | inl e ↦ (let none_read : len ≡ 0 = ground (arith, e) in rw none_read refl)
            | inr e ↦ ground (arith, e, is_nil_lem bytes, fits, same)
          ]),
        )

  largest_bound : (ss : List ℕ) → largest (width_codepoint tables) ss ≤ 2
  largest_bound [] = omega arith
  largest_bound (x ∷ xs) = ground (arith, largest_bound xs, width_codepoint_bound x)

  largest_in_emoji_bound : (ss : List ℕ) → largest (width_in_emoji tables) ss ≤ 2
  largest_in_emoji_bound [] = omega arith
  largest_in_emoji_bound (x ∷ xs) =
      ground (arith, largest_in_emoji_bound xs, width_codepoint_bound x)

  -- The policy's columns are at most two; a cluster that is shown as an emoji takes at least one, and
  -- under the wide policy exactly two.
  pub columns_bound :
      (ss : List ℕ) (policy : WidthPolicy)
      → (columns policy ss ≤ 2)
        × (shown_as_emoji ss ≡ true → 1 ≤ columns policy ss)
        × (shown_as_emoji ss ≡ true → columns emoji_wide ss ≡ 2)
  columns_bound ss emoji_narrow = ground (arith, largest_bound ss, largest_in_emoji_bound ss)
  columns_bound ss emoji_wide = ground (arith, largest_bound ss, largest_in_emoji_bound ss)
