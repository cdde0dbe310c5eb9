-- ===== src/Base64.antt =====
-- src/core/zr_base64.c: the encoder for image payloads. Input and output are lists of bytes, NULL the
-- empty one.
pub mod Rfc4648
pub mod Groups
pub mod Encode
mod Tests
use zireael.Prelude.{
  is_nil, ℕ, zero, suc, ◌+◌, ◌-◌, ◌*◌, ◌/◌, ◌%◌, ◌^◌, Bool, true, false, not, ◌&&◌, ◌||◌, Option,
  none, some, List, [], ◌∷◌, get_or, bit_and, bit_or, ltb, leb, ◌==◌, ◌!=◌, if◌then◌else◌,
}
use zireael.Prelude.Buffer.{write_at, slice}
use zireael.Result.{ZrResult, zr_ok, zr_err_invalid_argument, zr_err_limit}
use zireael.Checked.{checked_add_size, checked_mul_size}

-- ZR_BASE64_ALPHABET
abbrev pub base64_alphabet : List ℕ
base64_alphabet =
    65 ∷ 66 ∷ 67 ∷ 68 ∷ 69 ∷ 70 ∷ 71 ∷ 72 ∷ 73 ∷ 74 ∷ 75 ∷ 76 ∷ 77 ∷ 78 ∷ 79 ∷ 80 ∷ 81 ∷ 82 ∷ 83
    ∷ 84 ∷ 85 ∷ 86 ∷ 87 ∷ 88 ∷ 89 ∷ 90 ∷ 97 ∷ 98 ∷ 99 ∷ 100 ∷ 101 ∷ 102 ∷ 103 ∷ 104 ∷ 105 ∷ 106
    ∷ 107 ∷ 108 ∷ 109 ∷ 110 ∷ 111 ∷ 112 ∷ 113 ∷ 114 ∷ 115 ∷ 116 ∷ 117 ∷ 118 ∷ 119 ∷ 120 ∷ 121 ∷ 122
    ∷ 48 ∷ 49 ∷ 50 ∷ 51 ∷ 52 ∷ 53 ∷ 54 ∷ 55 ∷ 56 ∷ 57 ∷ 43 ∷ 47 ∷ []

unfoldable pub alphabet_at : ℕ → ℕ
alphabet_at idx = get_or base64_alphabet idx 0

-- zr_base64_encoded_size; `none` is the overflow.
unfoldable pub base64_encoded_size : ℕ → Option ℕ
base64_encoded_size in_len = if in_len == 0 then some 0 else elim (checked_add_size in_len 2) [
  | none ↦ none
  | some groups ↦ checked_mul_size (groups / 3) 4
]

-- zr_base64_encode_triplet: the four bytes of `out`
unfoldable pub base64_encode_triplet : ℕ → ℕ → ℕ → List ℕ
base64_encode_triplet src0 src1 src2 =
    let idx0 = src0 / 2 ^ 2 in
    let idx1_hi = bit_and src0 0x03 * 2 ^ 4 % 2 ^ 8 in
    let idx1_lo = src1 / 2 ^ 4 in
    let idx2_hi = bit_and src1 0x0F * 2 ^ 2 % 2 ^ 8 in
    let idx2_lo = src2 / 2 ^ 6 in
    let idx3 = bit_and src2 0x3F in
    alphabet_at idx0
    ∷ alphabet_at (bit_or idx1_hi idx1_lo)
    ∷ alphabet_at (bit_or idx2_hi idx2_lo)
    ∷ alphabet_at idx3
    ∷ []

-- The loop of zr_base64_encode over whole groups: `out`, `i` and `j` behind it. A round takes three
-- bytes, so `in_len` rounds are enough.
unfoldable pub encode_groups : ℕ → List ℕ → ℕ → List ℕ → ℕ → ℕ → List ℕ × ℕ × ℕ
encode_groups zero src in_len out i j = (out, i, j)
encode_groups (suc rounds) src in_len out i j =
    let t = base64_encode_triplet (get_or src i 0) (get_or src (i + 1) 0) (get_or src (i + 2) 0) in
    let rest = encode_groups rounds src in_len (write_at out j t) (i + 3) (j + 4) in
    if leb ((i + 3) % 2 ^ 64) in_len then rest else (out, i, j)

-- The rest of zr_base64_encode behind the loop: the last one or two bytes, and the length.
unfoldable pub encode_tail : List ℕ → ℕ → List ℕ → ℕ → ℕ → List ℕ × ℕ
encode_tail src in_len out i j =
    if ltb i in_len
    then (let rem = in_len - i in
        let tail = write_at (0 ∷ 0 ∷ 0 ∷ []) 0 (slice src i rem) in
        let enc = base64_encode_triplet (get_or tail 0 0) (get_or tail 1 0) (get_or tail 2 0) in
        let third = if rem == 1 then 61 else get_or enc 2 0 in
        (write_at out j (get_or enc 0 0 ∷ get_or enc 1 0 ∷ third ∷ 61 ∷ []), j + 4))
    else (out, j)

-- zr_base64_encode; the result, `out`, and `*out_len` where it is given
unfoldable pub base64_encode : List ℕ → ℕ → List ℕ → ℕ → Bool → ZrResult × List ℕ × Option ℕ
base64_encode src in_len out out_cap false = (zr_err_invalid_argument, out, none)
base64_encode src in_len out out_cap true =
    if is_nil out && (out_cap != 0)
    then (zr_err_invalid_argument, out, some 0)
    else if is_nil src && (in_len != 0)
    then (zr_err_invalid_argument, out, some 0)
    else elim (base64_encoded_size in_len) [
      | none ↦ (zr_err_limit, out, some 0)
      | some need ↦
          if ltb out_cap need
          then (zr_err_limit, out, some 0)
          else if need == 0
          then (zr_ok, out, some 0)
          else if is_nil out
          then (zr_err_invalid_argument, out, some 0)
          else (let (out', i, j) = encode_groups in_len src in_len out 0 0 in
              let (out'', out_len) = encode_tail src in_len out' i j in
              (zr_ok, out'', some out_len))
    ]
