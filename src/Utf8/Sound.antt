-- ===== src/Utf8/Sound.antt =====
-- zr_utf8_decode_one by the length that the lead byte asks for: an accepted encoding or a refusal.
use zireael.Prelude.{
  ℕ, ◌+◌, ◌*◌, ◌/◌, ◌%◌, ◌<◌, ◌≡◌, ◌≤◌, ◌⊎◌, inl, inr, List, [], ◌∷◌, ltb, leb, arith, refl, ◌==◌,
  ◌&&◌, not, Bool, true, ap, ◌∙◌, take, length, sym, subst, Bool-cases,
}
use zireael.Utf8.{Utf8DecodeResult, utf8_make_result, utf8_invalid, utf8_decode_one}
use zireael.Utf8.Scalar.{IsScalar, utf8_encode}
use zireael.Utf8.Decode.{
  utf8_accepted, code_2, code_3, code_4, two_bytes_lem, three_bytes_lem, four_bytes_lem,
  decode_lead_2, decode_lead_3, decode_lead_4,
}
use zireael.Utf8.RoundTrip.{two_eq, three_eq, four_eq}

-- Every element is a byte.
abbrev pub all_bytes : List ℕ → Bool
all_bytes [] = true
all_bytes (x ∷ xs) = ltb x 256 && all_bytes xs

-- The first `len` bytes of `s` begin with the encoding of `c`.
abbrev pub StartsWith : List ℕ → ℕ → ℕ → Type 0
StartsWith s len c =
    (length (utf8_encode c) ≤ len) × (take (length (utf8_encode c)) s ≡ utf8_encode c)

-- An accepted scalar value, or the invalid result.
abbrev pub Sound : List ℕ → ℕ → Utf8DecodeResult → Type 0
Sound s len r =
    (r ≡ utf8_invalid len) ⊎ ((c : ℕ) × IsScalar c × StartsWith s len c × (r ≡ utf8_accepted c))

pub found :
    (s : List ℕ) (len c : ℕ) (prefix : List ℕ) {r : Utf8DecodeResult}
    → prefix ≡ utf8_encode c
    → length prefix ≤ len
    → take (length prefix) s ≡ prefix
    → IsScalar c
    → r ≡ utf8_make_result c (length prefix) 1
    → Sound s len r
found s len c prefix {r} e fits starts scalar result = inr (
  c,
  scalar,
  subst (λ p. (length p ≤ len) × (take (length p) s ≡ p)) e (fits, starts),
  result ∙ ap (λ p. utf8_make_result c (length p) 1) e,
)

encoded_2 :
    (x y : ℕ) → 0xC2 ≤ x → x ≤ 0xDF → y / 64 ≡ 2 → x ∷ y ∷ [] ≡ utf8_encode (x % 32 * 64 + y % 64)
encoded_2 x y lo hi hy =
    sym (two_eq (x % 32 * 64 + y % 64) (omega arith) (omega arith) ∙ ground arith)

encoded_3 :
    (x y z : ℕ)
    → 0xE0 ≤ x
    → x ≤ 0xEF
    → y / 64 ≡ 2
    → z / 64 ≡ 2
    → 0x800 ≤ x % 16 * 4096 + y % 64 * 64 + z % 64
    → x ∷ y ∷ z ∷ [] ≡ utf8_encode (x % 16 * 4096 + y % 64 * 64 + z % 64)
encoded_3 x y z lo hi hy hz h =
    sym (three_eq (x % 16 * 4096 + y % 64 * 64 + z % 64) h (omega arith) ∙ ground arith)

encoded_4 :
    (x y z t : ℕ)
    → 0xF0 ≤ x
    → x ≤ 0xF4
    → y / 64 ≡ 2
    → z / 64 ≡ 2
    → t / 64 ≡ 2
    → 0x10000 ≤ x % 8 * 262144 + y % 64 * 4096 + z % 64 * 64 + t % 64
    → x ∷ y ∷ z ∷ t ∷ [] ≡ utf8_encode (x % 8 * 262144 + y % 64 * 4096 + z % 64 * 64 + t % 64)
encoded_4 x y z t lo hi hy hz ht h =
    sym (four_eq (x % 8 * 262144 + y % 64 * 4096 + z % 64 * 64 + t % 64) h ∙ ground arith)

pub sound_2 :
    (x y : ℕ) (xs : List ℕ) (len : ℕ)
    → y < 256
    → 0xC2 ≤ x
    → x ≤ 0xDF
    → 0 < len
    → Sound (x ∷ y ∷ xs) len (utf8_decode_one (x ∷ y ∷ xs) len)
sound_2 x y xs len hy lo hi given =
    let s = x ∷ y ∷ xs in
    rw (decode_lead_2 len given x (y ∷ xs) lo hi ∙ two_bytes_lem s len hy)
      (elim (Bool-cases (leb 2 len && (y / 64 == 2))) [
        | inl h ↦
            found s len (code_2 s) (x ∷ y ∷ []) (encoded_2 x y lo hi (ground (arith, h)))
              (ground (arith, h)) refl (inl (omega arith)) (ground (arith, h))
        | inr h ↦ inl (ground (arith, h))
      ])

pub sound_3 :
    (x y z : ℕ) (xs : List ℕ) (len : ℕ)
    → y < 256
    → z < 256
    → 0xE0 ≤ x
    → x ≤ 0xEF
    → 0 < len
    → Sound (x ∷ y ∷ z ∷ xs) len (utf8_decode_one (x ∷ y ∷ z ∷ xs) len)
sound_3 x y z xs len hy hz lo hi given =
    let s = x ∷ y ∷ z ∷ xs in
    rw (decode_lead_3 len given x (y ∷ z ∷ xs) lo hi ∙ three_bytes_lem s len hy hz lo hi)
      (elim (Bool-cases (
        leb 3 len
        && (y / 64 == 2)
        && (z / 64 == 2)
        && leb 0x800 (code_3 s)
        && not (leb 0xD800 (code_3 s) && leb (code_3 s) 0xDFFF))) [
          | inl h ↦
              found s len (code_3 s) (x ∷ y ∷ z ∷ [])
                (encoded_3 x y z lo hi (ground (arith, h)) (ground (arith, h)) (ground (arith, h)))
                (ground (arith, h)) refl (ground (arith, h)) (ground (arith, h))
          | inr h ↦ inl (ground (arith, h))
        ])

pub sound_4 :
    (x y z t : ℕ) (xs : List ℕ) (len : ℕ)
    → y < 256
    → z < 256
    → t < 256
    → 0xF0 ≤ x
    → x ≤ 0xF4
    → 0 < len
    → Sound (x ∷ y ∷ z ∷ t ∷ xs) len (utf8_decode_one (x ∷ y ∷ z ∷ t ∷ xs) len)
sound_4 x y z t xs len hy hz ht lo hi given =
    let s = x ∷ y ∷ z ∷ t ∷ xs in
    rw (decode_lead_4 len given x (y ∷ z ∷ t ∷ xs) lo hi ∙ four_bytes_lem s len hy hz ht lo hi)
      (elim (Bool-cases (
        leb 4 len
        && (y / 64 == 2)
        && (z / 64 == 2)
        && (t / 64 == 2)
        && leb 0x10000 (code_4 s)
        && ltb (code_4 s) 0x110000)) [
          | inl h ↦
              found s len (code_4 s) (x ∷ y ∷ z ∷ t ∷ [])
                (encoded_4 x y z t lo hi (ground (arith, h)) (ground (arith, h)) (ground (arith, h))
                  (ground (arith, h)))
                (ground (arith, h)) refl (ground (arith, h)) (ground (arith, h))
          | inr h ↦ inl (ground (arith, h))
        ])
