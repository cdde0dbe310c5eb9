-- ===== src/Width/Cluster.antt =====
-- zr_width_grapheme_utf8 as a function of the scalar values of the cluster.
use zireael.Prelude.{
  ℕ, zero, suc, ◌+◌, ◌-◌, ◌%◌, ◌^◌, ◌≤◌, ◌<◌, ◌≡◌, inl, inr, refl, sym, ◌∙◌, subst, Bool, true,
  false, ◌&&◌, ◌||◌, List, [], ◌∷◌, drop, ltb, ◌==◌, if◌then◌else◌, arith, Bool-cases,
}
use zireael.Utf8.{Utf8DecodeResult, utf8_decode_one}
use zireael.Utf8.Size.{utf8_size_lem}
use zireael.Unicode.{
  gcb_zwj, same_gcb, UnicodeTables, unicode_gcb_class, unicode_is_extended_pictographic,
  unicode_is_emoji_presentation,
}
use zireael.Width.{
  variation_selector_15, variation_selector_16, enclosing_keycap, is_keycap_base, KeycapState,
  keycap_start, keycap_invalid, keycap_next, is_matched, WidthScan, width_codepoint, scan_one,
  width_loop,
}

-- The scalar values of a buffer, decoded one after another.
abbrev pub scalars : ℕ → List ℕ → ℕ → ℕ → List ℕ
scalars zero bytes len off = []
scalars (suc fuel) bytes len off =
    let d = utf8_decode_one (drop off bytes) (len - off) in
    let rest = scalars fuel bytes len (off + Utf8DecodeResult.size d) in
    if ltb off len then Utf8DecodeResult.scalar d ∷ rest else []

abbrev pub any : (ℕ → Bool) → List ℕ → Bool
any test [] = false
any test (x ∷ xs) = test x || any test xs

abbrev pub larger : ℕ → ℕ → ℕ
larger a b = if ltb a b then b else a

abbrev pub largest : (ℕ → ℕ) → List ℕ → ℕ
largest f [] = 0
largest f (x ∷ xs) = larger (f x) (largest f xs)

-- A keycap sequence: a digit, # or *, at most one variation selector 16, and the keycap.
abbrev pub is_keycap_sequence : List ℕ → Bool
is_keycap_sequence (b ∷ k ∷ []) = is_keycap_base b && (k == enclosing_keycap)
is_keycap_sequence (b ∷ v ∷ k ∷ []) =
    is_keycap_base b && (v == variation_selector_16) && (k == enclosing_keycap)
is_keycap_sequence _ = false

abbrev pub keycap_run : KeycapState → List ℕ → KeycapState
keycap_run state [] = state
keycap_run state (x ∷ xs) = keycap_run (keycap_next state x) xs

stays_invalid : (xs : List ℕ) → keycap_run keycap_invalid xs ≡ keycap_invalid
stays_invalid [] = refl
stays_invalid (x ∷ xs) = stays_invalid xs

pub keycap_run-is_keycap_sequence :
    (ss : List ℕ) → is_matched (keycap_run keycap_start ss) ≡ is_keycap_sequence ss
keycap_run-is_keycap_sequence [] = refl
keycap_run-is_keycap_sequence (b ∷ []) = ground arith
keycap_run-is_keycap_sequence (b ∷ k ∷ []) = ground arith
keycap_run-is_keycap_sequence (b ∷ v ∷ k ∷ []) = ground arith
keycap_run-is_keycap_sequence (b ∷ v ∷ k ∷ x ∷ xs) = ground (arith, stays_invalid xs)

larger_assoc : (a b c : ℕ) → larger (larger a b) c ≡ larger a (larger b c)
larger_assoc a b c = ground arith

||_assoc : (a b c : Bool) → ((a || b) || c) ≡ (a || (b || c))
||_assoc true b c = refl
||_assoc false b c = refl

||_false : (a : Bool) → (a || false) ≡ a
||_false true = refl
||_false false = refl

module _ (tables : UnicodeTables) where
  abbrev pub is_zwj : ℕ → Bool
  is_zwj scalar = same_gcb (unicode_gcb_class tables scalar) gcb_zwj

  -- The columns of a code point in an emoji: one where it can be shown as an emoji.
  abbrev pub width_in_emoji : ℕ → ℕ
  width_in_emoji scalar =
      if unicode_is_emoji_presentation tables scalar
        || unicode_is_extended_pictographic tables scalar
      then 1
      else width_codepoint tables scalar

  -- What the loop has gathered when it has read the scalar values `ss`.
  pub record Gathered (ss : List ℕ) (w w' : WidthScan) : Type 0 where
    pub text : w'.width_text ≡ larger w.width_text (largest (width_codepoint tables) ss)
    pub norm : w'.width_emoji_norm ≡ larger w.width_emoji_norm (largest width_in_emoji ss)
    pub presentation :
        w'.has_emoji_presentation
        ≡ (w.has_emoji_presentation || any (unicode_is_emoji_presentation tables) ss)
    pub pictographic :
        w'.has_extended_pictographic
        ≡ (w.has_extended_pictographic || any (unicode_is_extended_pictographic tables) ss)
    pub zwj : w'.has_zwj ≡ (w.has_zwj || any is_zwj ss)
    pub vs15 : w'.has_vs15 ≡ (w.has_vs15 || any (λ c. c == variation_selector_15) ss)
    pub vs16 : w'.has_vs16 ≡ (w.has_vs16 || any (λ c. c == variation_selector_16) ss)
    pub keycap : w'.keycap_state ≡ keycap_run w.keycap_state ss

  Gathered-none : (w : WidthScan) → Gathered [] w w
  Gathered-none w = record {
    text = ground arith;
    norm = ground arith;
    presentation = sym (||_false w.has_emoji_presentation);
    pictographic = sym (||_false w.has_extended_pictographic);
    zwj = sym (||_false w.has_zwj);
    vs15 = sym (||_false w.has_vs15);
    vs16 = sym (||_false w.has_vs16);
    keycap = refl;
  }

  Gathered-one :
      (d : Utf8DecodeResult) (ss : List ℕ) (w w' : WidthScan)
      → Gathered ss (scan_one tables w d) w'
      → Gathered (d.scalar ∷ ss) w w'
  unfolding scan_one
  Gathered-one d ss w w' g = record {
    text = g.text ∙ larger_assoc w.width_text (width_codepoint tables d.scalar) _;
    norm = g.norm ∙ larger_assoc w.width_emoji_norm (width_in_emoji d.scalar) _;
    presentation = g.presentation ∙ ||_assoc w.has_emoji_presentation _ _;
    pictographic = g.pictographic ∙ ||_assoc w.has_extended_pictographic _ _;
    zwj = g.zwj ∙ ||_assoc w.has_zwj _ _;
    vs15 = g.vs15 ∙ ||_assoc w.has_vs15 _ _;
    vs16 = g.vs16 ∙ ||_assoc w.has_vs16 _ _;
    keycap = g.keycap;
  }

  module _ (bytes : List ℕ) (len : ℕ) (small : len < 2 ^ 64) where
    abbrev decoded : ℕ → Utf8DecodeResult
    decoded off = utf8_decode_one (drop off bytes) (len - off)

    pub loop_step :
        (fuel : ℕ) (w : WidthScan)
        → w.off < len
        → width_loop tables (suc fuel) bytes len w
          ≡ width_loop tables fuel bytes len (scan_one tables w (decoded w.off))
    unfolding width_loop
    loop_step fuel w h =
        let wrap : (len + 2 ^ 64 - w.off) % 2 ^ 64 ≡ len - w.off = omega arith in
        let size = utf8_size_lem (drop w.off bytes) (len - w.off) (omega arith) in
        ground (arith, wrap, size)

    pub moves :
        (w : WidthScan)
        → w.off < len
        → ((scan_one tables w (decoded w.off)).off ≡ w.off + (decoded w.off).size)
          × ((scan_one tables w (decoded w.off)).off ≤ len)
          × (w.off < (scan_one tables w (decoded w.off)).off)
    unfolding scan_one
    moves w h = omega (arith, utf8_size_lem (drop w.off bytes) (len - w.off) (omega arith))

    scalars_step :
        (fuel off : ℕ)
        → off < len
        → scalars (suc fuel) bytes len off
          ≡ (decoded off).scalar ∷ scalars fuel bytes len (off + (decoded off).size)
    scalars_step fuel off h = ground arith

    pub width_loop-Gathered :
        (fuel : ℕ) (w : WidthScan)
        → Gathered (scalars fuel bytes len w.off) w (width_loop tables fuel bytes len w)
    unfolding width_loop
    width_loop-Gathered zero w = Gathered-none w
    width_loop-Gathered (suc fuel) w = elim (Bool-cases (ltb w.off len)) [
      | inl e ↦
          let h : w.off < len = ground (arith, e) in
          let d = decoded w.off in
          let w1 = scan_one tables w d in
          let rest : Gathered (scalars fuel bytes len (w.off + d.size)) w1
              (width_loop tables fuel bytes len w1) =
            subst
              (λ o. Gathered (scalars fuel bytes len o) w1 (width_loop tables fuel bytes len w1))
              (moves w h).0 (width_loop-Gathered fuel w1) in
          subst (λ ss. Gathered ss w (width_loop tables (suc fuel) bytes len w))
            (sym (scalars_step fuel w.off h))
            (subst (Gathered (d.scalar ∷ scalars fuel bytes len (w.off + d.size)) w)
              (sym (loop_step fuel w h))
              (Gathered-one d (scalars fuel bytes len (w.off + d.size)) w _ rest))
      | inr e ↦
          let none_left : scalars (suc fuel) bytes len w.off ≡ [] = ground (arith, e) in
          let done : width_loop tables (suc fuel) bytes len w ≡ w = ground (arith, e) in
          subst (λ ss. Gathered ss w (width_loop tables (suc fuel) bytes len w)) (sym none_left)
            (subst (Gathered [] w) (sym done) (Gathered-none w))
    ]
