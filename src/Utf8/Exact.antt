-- ===== src/Utf8/Exact.antt =====
-- zr_utf8_decode_one on any input: an encoding is accepted, anything else is rejected.
use zireael.Prelude.{
  ℕ, zero, suc, ◌<◌, ◌≡◌, ◌≢◌, ◌≤◌, ◌⊎◌, inl, inr, List, [], ◌∷◌, ◌++◌, arith, refl, true, ap, ◌∙◌,
  drop, length, sym, subst, take-append-drop,
}
use zireael.Utf8.{
  Utf8DecodeResult, utf8_invalid, utf8_decode_one, utf8_decode_two_bytes, utf8_decode_three_bytes,
  utf8_decode_four_bytes,
}
use zireael.Utf8.Scalar.{IsScalar, utf8_encode}
use zireael.Utf8.Decode.{utf8_accepted, decode_ascii, decode_other}
use zireael.Utf8.RoundTrip.{utf8_decode_one-encode, one_eq}
use zireael.Utf8.Sound.{all_bytes, StartsWith, Sound, found, sound_2, sound_3, sound_4}

pub data DecodeOutcome (s : List ℕ) (len : ℕ) : Utf8DecodeResult → Type 0 where
  accepted : (c : ℕ) → IsScalar c → StartsWith s len c → DecodeOutcome s len (utf8_accepted c)
  rejected :
      ((c : ℕ) → IsScalar c → StartsWith s len c → ⊥) → DecodeOutcome s len (utf8_invalid len)

-- Too few bytes for the lead byte.
cut_2 : (x : ℕ) (xs : List ℕ) → 0xC2 ≤ x → x ≤ 0xDF → utf8_decode_one (x ∷ xs) 1 ≡ utf8_invalid 1
unfolding utf8_decode_one utf8_decode_two_bytes
cut_2 x xs lo hi = ground arith

cut_3 :
    (x : ℕ) (xs : List ℕ) (len : ℕ)
    → 0xE0 ≤ x
    → x ≤ 0xEF
    → 0 < len
    → len < 3
    → utf8_decode_one (x ∷ xs) len ≡ utf8_invalid len
unfolding utf8_decode_one utf8_decode_three_bytes
cut_3 x xs len lo hi given short = ground arith

cut_4 :
    (x : ℕ) (xs : List ℕ) (len : ℕ)
    → 0xF0 ≤ x
    → x ≤ 0xF4
    → 0 < len
    → len < 4
    → utf8_decode_one (x ∷ xs) len ≡ utf8_invalid len
unfolding utf8_decode_one utf8_decode_four_bytes
cut_4 x xs len lo hi given short = ground arith

decode_empty : (s : List ℕ) → utf8_decode_one s 0 ≡ utf8_invalid 0
unfolding utf8_decode_one
decode_empty s = refl

module _ (x len : ℕ) (given : 0 < len) where
  class_1 : (xs : List ℕ) → x < 0x80 → Sound (x ∷ xs) len (utf8_decode_one (x ∷ xs) len)
  class_1 xs h =
      found (x ∷ xs) len x (x ∷ []) (sym (one_eq x h)) given refl (inl (omega arith))
        (decode_ascii len given x xs h)

  class_2 :
      (xs : List ℕ)
      → len ≤ length (x ∷ xs)
      → all_bytes xs ≡ true
      → 0xC2 ≤ x
      → x ≤ 0xDF
      → Sound (x ∷ xs) len (utf8_decode_one (x ∷ xs) len)
  class_2 [] fits bytes lo hi =
      let one : len ≡ 1 = omega arith in
      inl (ap (utf8_decode_one (x ∷ [])) one ∙ cut_2 x [] lo hi ∙ sym (ap utf8_invalid one))
  class_2 (y ∷ ys) fits bytes lo hi = sound_2 x y ys len (ground (arith, bytes)) lo hi given

  class_3 :
      (xs : List ℕ)
      → len ≤ length (x ∷ xs)
      → all_bytes xs ≡ true
      → 0xE0 ≤ x
      → x ≤ 0xEF
      → Sound (x ∷ xs) len (utf8_decode_one (x ∷ xs) len)
  class_3 [] fits bytes lo hi = inl (cut_3 x [] len lo hi given (omega arith))
  class_3 (y ∷ []) fits bytes lo hi = inl (cut_3 x (y ∷ []) len lo hi given (omega arith))
  class_3 (y ∷ z ∷ xs) fits bytes lo hi =
      sound_3 x y z xs len (ground (arith, bytes)) (ground (arith, bytes)) lo hi given

  class_4 :
      (xs : List ℕ)
      → len ≤ length (x ∷ xs)
      → all_bytes xs ≡ true
      → 0xF0 ≤ x
      → x ≤ 0xF4
      → Sound (x ∷ xs) len (utf8_decode_one (x ∷ xs) len)
  class_4 [] fits bytes lo hi = inl (cut_4 x [] len lo hi given (omega arith))
  class_4 (y ∷ []) fits bytes lo hi = inl (cut_4 x (y ∷ []) len lo hi given (omega arith))
  class_4 (y ∷ z ∷ []) fits bytes lo hi = inl (cut_4 x (y ∷ z ∷ []) len lo hi given (omega arith))
  class_4 (y ∷ z ∷ t ∷ xs) fits bytes lo hi =
      sound_4 x y z t xs len (ground (arith, bytes)) (ground (arith, bytes)) (ground (arith, bytes))
        lo hi given

-- The lead byte's classes.
data Lead (x : ℕ) : Type 0 where
  ascii : x < 0x80 → Lead x
  lead_2 : 0xC2 ≤ x → x ≤ 0xDF → Lead x
  lead_3 : 0xE0 ≤ x → x ≤ 0xEF → Lead x
  lead_4 : 0xF0 ≤ x → x ≤ 0xF4 → Lead x
  no_lead : ((0x80 ≤ x) × (x < 0xC2)) ⊎ (0xF4 < x) → Lead x

lead_cases :
    (x : ℕ)
    → (x < 0x80)
      ⊎ (((0xC2 ≤ x) × (x ≤ 0xDF))
          ⊎ (((0xE0 ≤ x) × (x ≤ 0xEF))
              ⊎ (((0xF0 ≤ x) × (x ≤ 0xF4)) ⊎ (((0x80 ≤ x) × (x < 0xC2)) ⊎ (0xF4 < x)))))
lead_cases x = ground arith

lead : (x : ℕ) → Lead x
lead x = elim (lead_cases x) [
  | inl h ↦ ascii h
  | inr (inl (lo, hi)) ↦ lead_2 lo hi
  | inr (inr (inl (lo, hi))) ↦ lead_3 lo hi
  | inr (inr (inr (inl (lo, hi)))) ↦ lead_4 lo hi
  | inr (inr (inr (inr h))) ↦ no_lead h
]

sound :
    (s : List ℕ) (len : ℕ)
    → len ≤ length s
    → all_bytes s ≡ true
    → Sound s len (utf8_decode_one s len)
sound s zero fits bytes = inl (decode_empty s)
sound [] (suc n) fits bytes = absurd (omega arith)
sound (x ∷ xs) (suc n) fits bytes =
    let given : 0 < suc n = omega arith in
    let rest : all_bytes xs ≡ true = ground (arith, bytes) in
    elim (lead x) [
      | ascii h ↦ class_1 x (suc n) given xs h
      | lead_2 lo hi ↦ class_2 x (suc n) given xs fits rest lo hi
      | lead_3 lo hi ↦ class_3 x (suc n) given xs fits rest lo hi
      | lead_4 lo hi ↦ class_4 x (suc n) given xs fits rest lo hi
      | no_lead h ↦ inl (decode_other (suc n) given x xs h)
    ]

-- What starts with an encoding is decoded to it.
starts_decodes :
    (s : List ℕ) (len c : ℕ)
    → IsScalar c
    → StartsWith s len c
    → utf8_decode_one s len ≡ utf8_accepted c
starts_decodes s len c scalar (fits, starts) =
    let n = length (utf8_encode c) in
    let split : s ≡ utf8_encode c ++ drop n s =
      sym (take-append-drop n s) ∙ ap (λ p. p ++ drop n s) starts in
    ap (λ t. utf8_decode_one t len) split ∙ utf8_decode_one-encode c (drop n s) len scalar fits

not_both : (len c : ℕ) → utf8_invalid len ≢ utf8_accepted c
not_both len c e = absurd (omega (arith, ap (λ r. r.valid) e))

-- On an input of bytes that is at least as long as stated, the result is an accepted scalar value
-- exactly when the input starts with its encoding (the shortest form, no surrogate, at most
-- U+10FFFF), with the length of that encoding as its size; when no scalar value's encoding is there,
-- the result is U+FFFD, not valid, of size 1, or 0 on an empty input.
pub utf8_decode_one-DecodeOutcome :
    (s : List ℕ) (len : ℕ)
    → len ≤ length s
    → all_bytes s ≡ true
    → DecodeOutcome s len (utf8_decode_one s len)
utf8_decode_one-DecodeOutcome s len fits bytes = elim (sound s len fits bytes) [
  | inl e ↦ subst (DecodeOutcome s len) (sym e) (
      rejected
        (λ c. λ scalar. λ starts. not_both len c (sym e ∙ starts_decodes s len c scalar starts)))
  | inr (c, scalar, starts, e) ↦ subst (DecodeOutcome s len) (sym e) (accepted c scalar starts)
]
