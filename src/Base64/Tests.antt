-- ===== src/Base64/Tests.antt =====
-- Runs of the base64 encoder, and its theorem at a concrete input.
use zireael.Prelude.{◌≡◌, refl, true, some, [], ◌∷◌, arith, replicate}
use zireael.Prelude.Buffer.{write_at}
use zireael.Result.{zr_ok}
use zireael.Checked.{checked_add_size, checked_mul_size}
use zireael.Base64.{
  base64_encode, base64_encoded_size, encode_groups, encode_tail, base64_encode_triplet,
  alphabet_at,
}
use zireael.Base64.Encode.{EncodeOutcome, base64_encode-EncodeOutcome}

base64_encode-EncodeOutcome_example :
    EncodeOutcome
      (77 ∷ 97 ∷ 110 ∷ 33 ∷ [])
      4
      (replicate 9 0)
      9
      (base64_encode (77 ∷ 97 ∷ 110 ∷ 33 ∷ []) 4 (replicate 9 0) 9 true)
base64_encode-EncodeOutcome_example =
    base64_encode-EncodeOutcome (77 ∷ 97 ∷ 110 ∷ 33 ∷ []) 4 (replicate 9 0) 9 (omega arith)
      (omega arith) (omega arith) (omega arith) refl

-- "Ma" is "TWE=".
man :
    base64_encode (77 ∷ 97 ∷ []) 2 (0 ∷ 0 ∷ 0 ∷ 0 ∷ []) 4 true
    ≡ (zr_ok, 84 ∷ 87 ∷ 69 ∷ 61 ∷ [], some 4)
unfolding base64_encode base64_encoded_size encode_groups encode_tail base64_encode_triplet
    alphabet_at write_at checked_add_size checked_mul_size
man = refl
