-- ===== src/Utf8/Decode.antt =====
-- zr_utf8_decode_one: it accepts exactly the encodings of scalar values.
use zireael.Prelude.{
  ℕ, ◌+◌, ◌*◌, ◌/◌, ◌%◌, ◌<◌, ◌≡◌, ◌≤◌, ◌⊎◌, List, ◌∷◌, ltb, leb, if◌then◌else◌, arith, ◌==◌, ◌&&◌,
  not, length, get_or,
}
use zireael.Utf8.{
  Utf8DecodeResult, utf8_make_result, utf8_invalid, utf8_decode_one, utf8_decode_two_bytes,
  utf8_decode_three_bytes, utf8_decode_four_bytes,
}
use zireael.Utf8.Scalar.{
  utf8_encode, is_cont_lem, low_6, low_5, low_4, low_3, join_2, join_3, join_4,
}

module _ (s : List ℕ) where
  abbrev pub b0 : ℕ
  b0 = get_or s 0 0

  abbrev pub b1 : ℕ
  b1 = get_or s 1 0

  abbrev pub b2 : ℕ
  b2 = get_or s 2 0

  abbrev pub b3 : ℕ
  b3 = get_or s 3 0

  abbrev pub code_2 : ℕ
  code_2 = b0 % 32 * 64 + b1 % 64

  abbrev pub code_3 : ℕ
  code_3 = b0 % 16 * 4096 + b1 % 64 * 64 + b2 % 64

  abbrev pub code_4 : ℕ
  code_4 = b0 % 8 * 262144 + b1 % 64 * 4096 + b2 % 64 * 64 + b3 % 64

module _ (s : List ℕ) (len : ℕ) where
  pub two_bytes_lem :
      (b1 s) < 256
      → utf8_decode_two_bytes s len ≡ (
          if leb 2 len && ((b1 s) / 64 == 2)
          then utf8_make_result (code_2 s) 2 1
          else utf8_invalid len)
  unfolding utf8_decode_two_bytes
  two_bytes_lem h1 =
      ground (
        arith,
        is_cont_lem (b1 s) h1,
        low_5 (b0 s),
        low_6 (b1 s),
        join_2 ((b0 s) % 32) ((b1 s) % 64),
      )

  pub three_bytes_lem :
      (b1 s) < 256
      → (b2 s) < 256
      → 0xE0 ≤ (b0 s)
      → (b0 s) ≤ 0xEF
      → utf8_decode_three_bytes s len ≡ (
          if leb 3 len
            && ((b1 s) / 64 == 2)
            && ((b2 s) / 64 == 2)
            && leb 0x800 (code_3 s)
            && not (leb 0xD800 (code_3 s) && leb (code_3 s) 0xDFFF)
          then utf8_make_result (code_3 s) 3 1
          else utf8_invalid len)
  unfolding utf8_decode_three_bytes
  three_bytes_lem h1 h2 lo hi = ground (
    arith,
    is_cont_lem (b1 s) h1,
    is_cont_lem (b2 s) h2,
    low_4 (b0 s),
    low_6 (b1 s),
    low_6 (b2 s),
    join_3 ((b0 s) % 16) ((b1 s) % 64) ((b2 s) % 64),
  )

  pub four_bytes_lem :
      (b1 s) < 256
      → (b2 s) < 256
      → (b3 s) < 256
      → 0xF0 ≤ (b0 s)
      → (b0 s) ≤ 0xF4
      → utf8_decode_four_bytes s len ≡ (
          if leb 4 len
            && ((b1 s) / 64 == 2)
            && ((b2 s) / 64 == 2)
            && ((b3 s) / 64 == 2)
            && leb 0x10000 (code_4 s)
            && ltb (code_4 s) 0x110000
          then utf8_make_result (code_4 s) 4 1
          else utf8_invalid len)
  unfolding utf8_decode_four_bytes
  four_bytes_lem h1 h2 h3 lo hi = ground (
    arith,
    is_cont_lem (b1 s) h1,
    is_cont_lem (b2 s) h2,
    is_cont_lem (b3 s) h3,
    low_3 (b0 s),
    low_6 (b1 s),
    low_6 (b2 s),
    low_6 (b3 s),
    join_4 ((b0 s) % 8) ((b1 s) % 64) ((b2 s) % 64) ((b3 s) % 64),
  )

abbrev pub utf8_accepted : ℕ → Utf8DecodeResult
utf8_accepted c = utf8_make_result c (length (utf8_encode c)) 1

-- The lead byte selects the decoder.
module _ (len : ℕ) (given : 0 < len) where
  pub decode_ascii :
      (x : ℕ) (xs : List ℕ) → x < 0x80 → utf8_decode_one (x ∷ xs) len ≡ utf8_make_result x 1 1
  unfolding utf8_decode_one
  decode_ascii x xs h = ground arith

  pub decode_lead_2 :
      (x : ℕ) (xs : List ℕ)
      → 0xC2 ≤ x
      → x ≤ 0xDF
      → utf8_decode_one (x ∷ xs) len ≡ utf8_decode_two_bytes (x ∷ xs) len
  unfolding utf8_decode_one
  decode_lead_2 x xs lo hi = ground arith

  pub decode_lead_3 :
      (x : ℕ) (xs : List ℕ)
      → 0xE0 ≤ x
      → x ≤ 0xEF
      → utf8_decode_one (x ∷ xs) len ≡ utf8_decode_three_bytes (x ∷ xs) len
  unfolding utf8_decode_one
  decode_lead_3 x xs lo hi = ground arith

  pub decode_lead_4 :
      (x : ℕ) (xs : List ℕ)
      → 0xF0 ≤ x
      → x ≤ 0xF4
      → utf8_decode_one (x ∷ xs) len ≡ utf8_decode_four_bytes (x ∷ xs) len
  unfolding utf8_decode_one
  decode_lead_4 x xs lo hi = ground arith

  pub decode_other :
      (x : ℕ) (xs : List ℕ)
      → ((0x80 ≤ x) × (x < 0xC2)) ⊎ (0xF4 < x)
      → utf8_decode_one (x ∷ xs) len ≡ utf8_invalid len
  unfolding utf8_decode_one
  decode_other x xs h = ground arith
