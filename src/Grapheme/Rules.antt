-- ===== src/Grapheme/Rules.antt =====
-- zr_grapheme_should_break against rules of UAX #29: all that forbid a break inside a cluster but
-- GB9c (Unicode 15.1), which the code leaves out.
use zireael.Prelude.{
  ℕ, ◌%◌, ◌≡◌, ◌⊎◌, ◌↔◌, inl, inr, refl, ap, Bool, true, false, arith, get_or, [], ◌∷◌, ◌∙◌, sym,
}
use zireael.Unicode.{
  GcbClass, gcb_other, gcb_cr, gcb_lf, gcb_control, gcb_prepend, gcb_spacingmark, gcb_extend,
  gcb_zwj, gcb_regional_indicator, gcb_l, gcb_v, gcb_t, gcb_lv, gcb_lvt, gcb_code, same_gcb,
}
use zireael.Grapheme.{grapheme_is_control, should_break}

of_code : ℕ → GcbClass
of_code i =
    get_or
      (gcb_other ∷ gcb_cr ∷ gcb_lf ∷ gcb_control ∷ gcb_prepend ∷ gcb_spacingmark ∷ gcb_extend
        ∷ gcb_zwj ∷ gcb_regional_indicator ∷ gcb_l ∷ gcb_v ∷ gcb_t ∷ gcb_lv ∷ gcb_lvt ∷ [])
      i gcb_other

of_code-gcb_code : (c : GcbClass) → of_code (gcb_code c) ≡ c
unfolding of_code
of_code-gcb_code gcb_other = refl
of_code-gcb_code gcb_cr = refl
of_code-gcb_code gcb_lf = refl
of_code-gcb_code gcb_control = refl
of_code-gcb_code gcb_prepend = refl
of_code-gcb_code gcb_spacingmark = refl
of_code-gcb_code gcb_extend = refl
of_code-gcb_code gcb_zwj = refl
of_code-gcb_code gcb_regional_indicator = refl
of_code-gcb_code gcb_l = refl
of_code-gcb_code gcb_v = refl
of_code-gcb_code gcb_t = refl
of_code-gcb_code gcb_lv = refl
of_code-gcb_code gcb_lvt = refl

pub same_gcb_eq : (a b : GcbClass) → same_gcb a b ≡ true → a ≡ b
same_gcb_eq a b e = sym (of_code-gcb_code a) ∙ ap of_code (ground (arith, e)) ∙ of_code-gcb_code b

pub same_gcb_self : (a b : GcbClass) → a ≡ b → same_gcb a b ≡ true
same_gcb_self a b e = let c = ap gcb_code e in ground (arith, c)

-- The rules that forbid a break between two classes, in a context: whether the code points up to the
-- first class end in an emoji, any extensions and a ZWJ, and how many regional indicators the
-- cluster ends with.
pub data NoBreak (emoji_zwj : Bool) (ri_run : ℕ) (next_is_ep : Bool) (p n : GcbClass) : Type 0 where
  gb3 : p ≡ gcb_cr → n ≡ gcb_lf → NoBreak emoji_zwj ri_run next_is_ep p n
  gb6 :
      p ≡ gcb_l
      → (n ≡ gcb_l) ⊎ ((n ≡ gcb_v) ⊎ ((n ≡ gcb_lv) ⊎ (n ≡ gcb_lvt)))
      → NoBreak emoji_zwj ri_run next_is_ep p n
  gb7 :
      (p ≡ gcb_lv) ⊎ (p ≡ gcb_v)
      → (n ≡ gcb_v) ⊎ (n ≡ gcb_t)
      → NoBreak emoji_zwj ri_run next_is_ep p n
  gb8 : (p ≡ gcb_lvt) ⊎ (p ≡ gcb_t) → n ≡ gcb_t → NoBreak emoji_zwj ri_run next_is_ep p n
  gb9 :
      grapheme_is_control p ≡ false
      → (n ≡ gcb_extend) ⊎ (n ≡ gcb_zwj)
      → NoBreak emoji_zwj ri_run next_is_ep p n
  gb9a :
      grapheme_is_control p ≡ false → n ≡ gcb_spacingmark → NoBreak emoji_zwj ri_run next_is_ep p n
  gb9b : p ≡ gcb_prepend → grapheme_is_control n ≡ false → NoBreak emoji_zwj ri_run next_is_ep p n
  gb11 :
      p ≡ gcb_zwj
      → emoji_zwj ≡ true
      → next_is_ep ≡ true
      → grapheme_is_control n ≡ false
      → NoBreak emoji_zwj ri_run next_is_ep p n
  gb12 :
      p ≡ gcb_regional_indicator
      → n ≡ gcb_regional_indicator
      → ri_run % 2 ≡ 1
      → NoBreak emoji_zwj ri_run next_is_ep p n

module _ (z : Bool) (run : ℕ) (ep : Bool) (p n : GcbClass) where
  forbidden : NoBreak z run ep p n → should_break p z run n ep ≡ false
  unfolding should_break
  forbidden (gb3 a b) = rw (a, b) refl
  forbidden (gb6 a (inl b)) = rw (a, b) refl
  forbidden (gb6 a (inr (inl b))) = rw (a, b) refl
  forbidden (gb6 a (inr (inr (inl b)))) = rw (a, b) refl
  forbidden (gb6 a (inr (inr (inr b)))) = rw (a, b) refl
  forbidden (gb7 (inl a) (inl b)) = rw (a, b) refl
  forbidden (gb7 (inl a) (inr b)) = rw (a, b) refl
  forbidden (gb7 (inr a) (inl b)) = rw (a, b) refl
  forbidden (gb7 (inr a) (inr b)) = rw (a, b) refl
  forbidden (gb8 (inl a) b) = rw (a, b) refl
  forbidden (gb8 (inr a) b) = rw (a, b) refl
  forbidden (gb9 c (inl b)) = let n6 = ap gcb_code b in ground (arith, c, n6)
  forbidden (gb9 c (inr b)) = let n7 = ap gcb_code b in ground (arith, c, n7)
  forbidden (gb9a c b) = let n5 = ap gcb_code b in ground (arith, c, n5)
  forbidden (gb9b a c) = let p4 = ap gcb_code a in ground (arith, c, p4)
  forbidden (gb11 a b d c) = let p7 = ap gcb_code a in ground (arith, b, c, d, p7)
  forbidden (gb12 a b odd) =
      let p8 = ap gcb_code a in let n8 = ap gcb_code b in ground (arith, odd, p8, n8)

  abbrev Is : GcbClass → GcbClass → Type 0
  Is a b = same_gcb a b ≡ true

  -- The Boolean form of the rules, each with the tests that precede it.
  tests :
      should_break p z run n ep ≡ false
      → (Is p gcb_cr × Is n gcb_lf)
        ⊎ (((grapheme_is_control p ≡ false) × (grapheme_is_control n ≡ false))
            × ((Is p gcb_l × (Is n gcb_l ⊎ (Is n gcb_v ⊎ (Is n gcb_lv ⊎ Is n gcb_lvt))))
                ⊎ (((Is p gcb_lv ⊎ Is p gcb_v) × (Is n gcb_v ⊎ Is n gcb_t))
                    ⊎ (((Is p gcb_lvt ⊎ Is p gcb_t) × Is n gcb_t)
                        ⊎ ((Is n gcb_extend ⊎ Is n gcb_zwj)
                            ⊎ (Is n gcb_spacingmark
                                ⊎ (Is p gcb_prepend
                                    ⊎ ((Is p gcb_zwj × (z ≡ true) × (ep ≡ true))
                                        ⊎ (Is p gcb_regional_indicator
                                            × Is n gcb_regional_indicator
                                            × (run % 2 ≡ 1))))))))))
  unfolding should_break
  tests e = ground arith

  abbrev eq : {a b : GcbClass} → Is a b → a ≡ b
  eq {a} {b} = same_gcb_eq a b

  abbrev either : {a b c d : GcbClass} → Is a c ⊎ Is b d → (a ≡ c) ⊎ (b ≡ d)
  either (inl h) = inl (eq h)
  either (inr h) = inr (eq h)

  one_of_four :
      Is n gcb_l ⊎ (Is n gcb_v ⊎ (Is n gcb_lv ⊎ Is n gcb_lvt))
      → (n ≡ gcb_l) ⊎ ((n ≡ gcb_v) ⊎ ((n ≡ gcb_lv) ⊎ (n ≡ gcb_lvt)))
  one_of_four (inl h) = inl (eq h)
  one_of_four (inr (inl h)) = inr (inl (eq h))
  one_of_four (inr (inr h)) = inr (inr (either h))

  named : should_break p z run n ep ≡ false → NoBreak z run ep p n
  named e = elim (tests e) [
    | inl (a, b) ↦ gb3 (eq a) (eq b)
    | inr (c, inl (a, b)) ↦ gb6 (eq a) (one_of_four b)
    | inr (c, inr (inl (a, b))) ↦ gb7 (either a) (either b)
    | inr (c, inr (inr (inl (a, b)))) ↦ gb8 (either a) (eq b)
    | inr (c, inr (inr (inr (inl b)))) ↦ gb9 c.0 (either b)
    | inr (c, inr (inr (inr (inr (inl b))))) ↦ gb9a c.0 (eq b)
    | inr (c, inr (inr (inr (inr (inr (inl a)))))) ↦ gb9b (eq a) c.1
    | inr (c, inr (inr (inr (inr (inr (inr (inl (a, d, f)))))))) ↦ gb11 (eq a) d f c.1
    | inr (c, inr (inr (inr (inr (inr (inr (inr (a, d, f)))))))) ↦ gb12 (eq a) (eq d) f
  ]

  -- zr_grapheme_should_break refuses a break between two code points exactly when one of the rules
  -- GB3, GB6 to GB9b, GB11 and GB12/GB13 of UAX #29 forbids it: CR before LF; the Hangul syllable
  -- pairs; no control before an extension, a ZWJ or a spacing mark; a prepended mark before what is
  -- no control; a ZWJ that follows an emoji before an emoji; two regional indicators after an odd
  -- number of them.
  pub should_break-NoBreak : (should_break p z run n ep ≡ false) ↔ NoBreak z run ep p n
  should_break-NoBreak = (named, forbidden)
