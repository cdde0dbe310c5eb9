-- ===== src/InputParser/Incomplete.antt =====
-- zr__is_incomplete_utf8_prefix of src/core/zr_input_parser.c on whole characters and on cut ones.
use zireael.Prelude.{
  ℕ, zero, suc, ◌+◌, ◌-◌, ◌/◌, ◌%◌, ◌^◌, ◌≤◌, ◌<◌, ◌≡◌, refl, sym, ap, subst, ◌∙◌, true, false,
  List, [], ◌∷◌, ◌++◌, get_or, length, take, drop, arith, bit_and, is_nil_lem,
}
use zireael.Prelude.Cells.{drop-drop}
use zireael.Utf8.{utf8_is_cont}
use zireael.Utf8.Scalar.{IsScalar, utf8_encode, is_cont_lem}
use zireael.Utf8.RoundTrip.{one, two, three, four, width}
use zireael.InputParser.{add_size}
use zireael.InputParser.Parse.{all_cont, expected_size, is_incomplete_utf8_prefix}
use zireael.InputParser.Text.{get_or-drop}

cont_byte : (x : ℕ) → x < 64 → bit_and (0x80 + x) 0xC0 ≡ 0x80
unfolding utf8_is_cont
cont_byte x h = ground (arith, is_cont_lem (0x80 + x) (omega (arith, h)))

-- The size that a lead byte announces.
announced :
    (c : ℕ)
    → IsScalar c
    → 1 < length (utf8_encode c)
    → expected_size (get_or (utf8_encode c) 0 0) ≡ length (utf8_encode c)
announced c h k = elim (width c) [
  | one a e ↦ absurd (omega (arith, ap length e, k))
  | two a b e ↦ rw e (ground (arith, a, b))
  | three a b e ↦ rw e (ground (arith, a, b))
  | four a e ↦ rw e (ground (arith, a, h))
]

announced_le :
    (c : ℕ) (rest : List ℕ)
    → IsScalar c
    → expected_size (get_or (utf8_encode c ++ rest) 0 0) ≤ length (utf8_encode c)
announced_le c rest h = elim (width c) [
  | one a e ↦ rw e (ground (arith, a))
  | two a b e ↦ rw e (ground (arith, a, b))
  | three a b e ↦ rw e (ground (arith, a, b))
  | four a e ↦ rw e (ground (arith, a, h))
]

-- The bounds on a second byte that rule out overlong forms, surrogates and what is above 0x10FFFF.
abbrev InRange : ℕ → ℕ → Type 0
InRange b0 b1 =
    (bit_and b1 0xC0 ≡ 0x80)
    × (b0 ≡ 0xE0 → 0xA0 ≤ b1)
    × (b0 ≡ 0xED → b1 ≤ 0x9F)
    × (b0 ≡ 0xF0 → 0x90 ≤ b1)
    × (b0 ≡ 0xF4 → b1 ≤ 0x8F)

second_byte :
    (c : ℕ)
    → IsScalar c
    → 2 < length (utf8_encode c)
    → InRange (get_or (utf8_encode c) 0 0) (get_or (utf8_encode c) 1 0)
second_byte c h k = elim (width c) [
  | one a e ↦ absurd (omega (arith, ap length e, k))
  | two a b e ↦ absurd (omega (arith, ap length e, k))
  | three a b e ↦ rw e (
    cont_byte (c / 64 % 64) (omega arith),
    λ p. ground (arith, a, b, p),
    λ p. ground (arith, a, b, h, p),
    λ p. ground (arith, a, b, p),
    λ p. ground (arith, a, b, p),
  )
  | four a e ↦ rw e (
    cont_byte (c / 4096 % 64) (omega arith),
    λ p. ground (arith, a, h, p),
    λ p. ground (arith, a, h, p),
    λ p. ground (arith, a, h, p),
    λ p. ground (arith, a, h, p),
  )
]

third_byte : (c : ℕ) → 3 < length (utf8_encode c) → bit_and (get_or (utf8_encode c) 2 0) 0xC0 ≡ 0x80
third_byte c k = elim (width c) [
  | one a e ↦ absurd (omega (arith, ap length e, k))
  | two a b e ↦ absurd (omega (arith, ap length e, k))
  | three a b e ↦ absurd (omega (arith, ap length e, k))
  | four a e ↦ rw e (cont_byte (c / 64 % 64) (omega arith))
]

at_most_four : (c : ℕ) → length (utf8_encode c) ≤ 4
at_most_four c = ground arith

pub get_or-take : (n j : ℕ) (s : List ℕ) → j < n → get_or (take n s) j 0 ≡ get_or s j 0
get_or-take zero j s h = absurd (omega (arith, h))
get_or-take (suc n) j [] h = refl
get_or-take (suc n) zero (x ∷ s) h = refl
get_or-take (suc n) (suc j) (x ∷ s) h = get_or-take n j s (omega (arith, h))

module _ (bytes : List ℕ) (len i : ℕ) (fits : len ≤ length bytes) (small : len + 8 < 2 ^ 64) where
  -- One to three bytes of a longer sequence, up to the end.
  one_byte :
      (b0 : ℕ)
      → i + 1 ≡ len
      → get_or bytes i 0 ≡ b0
      → 2 ≤ expected_size b0
      → is_incomplete_utf8_prefix bytes len i ≡ true
  unfolding is_incomplete_utf8_prefix all_cont
  one_byte b0 e f g =
      let avail : (len + 2 ^ 64 - i) % 2 ^ 64 ≡ 1 = omega (arith, e, small) in
      let cont : all_cont ((len + 2 ^ 64 - i) % 2 ^ 64 - 1) bytes i 1 ≡ true =
        ap (λ m. all_cont (m - 1) bytes i 1) avail in
      ground (arith, avail, cont, e, f, g, is_nil_lem bytes, fits)

  two_bytes :
      (b0 b1 : ℕ)
      → i + 2 ≡ len
      → get_or bytes i 0 ≡ b0
      → get_or bytes (add_size i 1) 0 ≡ b1
      → bit_and b1 0xC0 ≡ 0x80
      → 3 ≤ expected_size b0
      → (b0 ≡ 0xE0 → 0xA0 ≤ b1)
      → (b0 ≡ 0xED → b1 ≤ 0x9F)
      → (b0 ≡ 0xF0 → 0x90 ≤ b1)
      → (b0 ≡ 0xF4 → b1 ≤ 0x8F)
      → is_incomplete_utf8_prefix bytes len i ≡ true
  unfolding is_incomplete_utf8_prefix all_cont
  two_bytes b0 b1 e f f1 c1 g p q r s =
      let avail : (len + 2 ^ 64 - i) % 2 ^ 64 ≡ 2 = omega (arith, e, small) in
      let now : all_cont 1 bytes i 1 ≡ true = ground (arith, f1, c1) in
      let cont : all_cont ((len + 2 ^ 64 - i) % 2 ^ 64 - 1) bytes i 1 ≡ true =
        ap (λ m. all_cont (m - 1) bytes i 1) avail ∙ now in
      ground (arith, avail, cont, e, f, f1, g, p, q, r, s, is_nil_lem bytes, fits)

  three_bytes :
      (b0 b1 b2 : ℕ)
      → i + 3 ≡ len
      → get_or bytes i 0 ≡ b0
      → get_or bytes (add_size i 1) 0 ≡ b1
      → get_or bytes (add_size i 2) 0 ≡ b2
      → bit_and b1 0xC0 ≡ 0x80
      → bit_and b2 0xC0 ≡ 0x80
      → 4 ≤ expected_size b0
      → (b0 ≡ 0xF0 → 0x90 ≤ b1)
      → (b0 ≡ 0xF4 → b1 ≤ 0x8F)
      → is_incomplete_utf8_prefix bytes len i ≡ true
  unfolding is_incomplete_utf8_prefix all_cont
  three_bytes b0 b1 b2 e f f1 f2 c1 c2 g r s =
      let avail : (len + 2 ^ 64 - i) % 2 ^ 64 ≡ 3 = omega (arith, e, small) in
      let now : all_cont 2 bytes i 1 ≡ true = ground (arith, f1, f2, c1, c2) in
      let cont : all_cont ((len + 2 ^ 64 - i) % 2 ^ 64 - 1) bytes i 1 ≡ true =
        ap (λ m. all_cont (m - 1) bytes i 1) avail ∙ now in
      ground (arith, avail, cont, e, f, f1, g, r, s, is_nil_lem bytes, fits)

  -- A byte of the sequence at i.
  byte_at :
      (j : ℕ) (s : List ℕ)
      → i + j < len
      → drop i bytes ≡ s
      → get_or bytes (add_size i j) 0 ≡ get_or s j 0
  byte_at j s h e =
      let same : add_size i j ≡ i + j = omega (arith, h, small) in
      ap (λ k. get_or bytes k 0) same
      ∙ get_or-drop bytes (i + j)
      ∙ ap (λ l. get_or l 0 0) (sym (drop-drop j i bytes) ∙ ap (drop j) e)
      ∙ sym (get_or-drop s j)

  pub first_byte : (s : List ℕ) → drop i bytes ≡ s → get_or bytes i 0 ≡ get_or s 0 0
  first_byte s e = get_or-drop bytes i ∙ ap (λ l. get_or l 0 0) e

  -- A character of which some bytes, but not all, are there.
  pub cut_held :
      (c n : ℕ)
      → IsScalar c
      → 0 < n
      → n < length (utf8_encode c)
      → drop i bytes ≡ take n (utf8_encode c)
      → i + n ≡ len
      → is_incomplete_utf8_prefix bytes len i ≡ true
  cut_held c zero h p q e ends = absurd (omega (arith, p))
  cut_held c (suc zero) h p q e ends =
      let s = utf8_encode c in
      one_byte (get_or s 0 0) ends (first_byte (take 1 s) e ∙ get_or-take 1 0 s (omega arith))
        (omega (arith, announced c h (omega (arith, q)), q))
  cut_held c (suc (suc zero)) h p q e ends =
      let s = utf8_encode c in
      let b = second_byte c h q in
      two_bytes (get_or s 0 0) (get_or s 1 0) ends
        (first_byte (take 2 s) e ∙ get_or-take 2 0 s (omega arith))
        (byte_at 1 (take 2 s) (omega (arith, ends)) e ∙ get_or-take 2 1 s (omega arith)) b.0
        (omega (arith, announced c h (omega (arith, q)), q)) b.1 b.2 b.3 b.4
  cut_held c (suc (suc (suc zero))) h p q e ends =
      let s = utf8_encode c in
      let b = second_byte c h (omega (arith, q)) in
      three_bytes (get_or s 0 0) (get_or s 1 0) (get_or s 2 0) ends
        (first_byte (take 3 s) e ∙ get_or-take 3 0 s (omega arith))
        (byte_at 1 (take 3 s) (omega (arith, ends)) e ∙ get_or-take 3 1 s (omega arith))
        (byte_at 2 (take 3 s) (omega (arith, ends)) e ∙ get_or-take 3 2 s (omega arith)) b.0
        (third_byte c q) (omega (arith, announced c h (omega (arith, q)), q)) b.3 b.4
  cut_held c (suc (suc (suc (suc n)))) h p q e ends = absurd (omega (arith, q, at_most_four c))

  complete :
      i < len
      → expected_size (get_or bytes i 0) ≤ len - i
      → is_incomplete_utf8_prefix bytes len i ≡ false
  unfolding is_incomplete_utf8_prefix
  complete h e =
      let avail : (len + 2 ^ 64 - i) % 2 ^ 64 ≡ len - i = omega (arith, h, small) in
      ground (arith, h, avail, e)

  -- A whole character is not kept back.
  pub whole_taken :
      (c : ℕ) (rest : List ℕ)
      → IsScalar c
      → i < len
      → drop i bytes ≡ utf8_encode c ++ rest
      → i + length (utf8_encode c) ≤ len
      → is_incomplete_utf8_prefix bytes len i ≡ false
  whole_taken c rest h within e inside =
      let lead = first_byte (utf8_encode c ++ rest) e in
      complete within (
        subst (λ b. expected_size b ≤ len - i) (sym lead)
          (omega (arith, announced_le c rest h, inside)))
