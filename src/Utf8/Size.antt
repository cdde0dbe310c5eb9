-- ===== src/Utf8/Size.antt =====
-- zr_utf8_decode_one: the size of what it decodes, on any bytes.
use zireael.Prelude.{ℕ, ◌≤◌, ◌<◌, ◌⊎◌, ◌≡◌, List, arith}
use zireael.Utf8.{
  utf8_decode_one, utf8_decode_two_bytes, utf8_decode_three_bytes, utf8_decode_four_bytes,
}

module _ (s : List ℕ) (len : ℕ) (given : 0 < len) where
  size_2 :
      ((utf8_decode_two_bytes s len).size ≡ 1)
      ⊎ (((utf8_decode_two_bytes s len).size ≡ 2) × (2 ≤ len))
  unfolding utf8_decode_two_bytes
  size_2 = ground arith

  size_3 :
      ((utf8_decode_three_bytes s len).size ≡ 1)
      ⊎ (((utf8_decode_three_bytes s len).size ≡ 3) × (3 ≤ len))
  unfolding utf8_decode_three_bytes
  size_3 = ground arith

  size_4 :
      ((utf8_decode_four_bytes s len).size ≡ 1)
      ⊎ (((utf8_decode_four_bytes s len).size ≡ 4) × (4 ≤ len))
  unfolding utf8_decode_four_bytes
  size_4 = ground arith

  pub utf8_size_lem :
      (1 ≤ (utf8_decode_one s len).size)
      × ((utf8_decode_one s len).size ≤ len)
      × ((utf8_decode_one s len).size ≤ 4)
  unfolding utf8_decode_one
  utf8_size_lem = ground (arith, size_2, size_3, size_4)
