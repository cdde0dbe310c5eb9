-- ===== src/Utf8.antt =====
-- src/unicode/zr_utf8.c: decoding one scalar value. The input is a list of bytes with NULL as the
-- empty list; `len` is the length that the caller states.
pub mod Scalar
pub mod Decode
pub mod RoundTrip
pub mod Sound
pub mod Exact
pub mod Size
mod Tests
use zireael.Prelude.{
  is_nil, ℕ, ◌+◌, ◌-◌, ◌*◌, ◌/◌, ◌%◌, ◌^◌, Bool, true, false, not, ◌&&◌, ◌||◌, List, [], ◌∷◌,
  get_or, bit_and, bit_or, ltb, leb, ◌==◌, ◌!=◌, if◌then◌else◌,
}

-- zr_utf8_decode_result_t, without its pad byte
pub record Utf8DecodeResult : Type 0 where
  pub scalar : ℕ
  pub size : ℕ
  pub valid : ℕ

-- ZR_UTF8_REPLACEMENT
abbrev pub utf8_replacement : ℕ
utf8_replacement = 0xFFFD

-- zr_utf8_make_result
abbrev pub utf8_make_result : ℕ → ℕ → ℕ → Utf8DecodeResult
utf8_make_result scalar size valid = record { scalar = scalar; size = size; valid = valid }

-- zr_utf8_invalid
abbrev pub utf8_invalid : ℕ → Utf8DecodeResult
utf8_invalid len = utf8_make_result utf8_replacement (if ltb 0 len then 1 else 0) 0

-- zr_utf8_is_cont
unfoldable pub utf8_is_cont : ℕ → Bool
utf8_is_cont b = bit_and b 0xC0 == 0x80

-- zr_utf8_decode_ascii
abbrev pub utf8_decode_ascii : ℕ → Utf8DecodeResult
utf8_decode_ascii b0 = utf8_make_result b0 1 1

-- zr_utf8_payload_bits
abbrev pub utf8_payload_bits : ℕ → ℕ → ℕ
utf8_payload_bits byte payload_mask = bit_and byte payload_mask

-- zr_utf8_join_payloads_2
unfoldable pub utf8_join_payloads_2 : ℕ → ℕ → ℕ
utf8_join_payloads_2 top low = bit_or (top * 2 ^ 6 % 2 ^ 32) low

-- zr_utf8_join_payloads_3
unfoldable pub utf8_join_payloads_3 : ℕ → ℕ → ℕ → ℕ
utf8_join_payloads_3 top mid low =
    bit_or (bit_or (top * 2 ^ 12 % 2 ^ 32) (mid * 2 ^ 6 % 2 ^ 32)) low

-- zr_utf8_join_payloads_4
unfoldable pub utf8_join_payloads_4 : ℕ → ℕ → ℕ → ℕ → ℕ
utf8_join_payloads_4 top high mid low =
    bit_or (bit_or (bit_or (top * 2 ^ 18 % 2 ^ 32) (high * 2 ^ 12 % 2 ^ 32)) (mid * 2 ^ 6 % 2 ^ 32))
      low

-- zr_utf8_decode_two_bytes
unfoldable pub utf8_decode_two_bytes : List ℕ → ℕ → Utf8DecodeResult
utf8_decode_two_bytes s len =
    if ltb len 2
    then utf8_invalid len
    else (let b1 = get_or s 1 0 in
        if not (utf8_is_cont b1)
        then utf8_invalid len
        else (let top = utf8_payload_bits (get_or s 0 0) 0x1F in
            let low = utf8_payload_bits b1 0x3F in
            utf8_make_result (utf8_join_payloads_2 top low) 2 1))

-- zr_utf8_decode_three_bytes
unfoldable pub utf8_decode_three_bytes : List ℕ → ℕ → Utf8DecodeResult
utf8_decode_three_bytes s len =
    let b0 = get_or s 0 0 in
    let b1 = get_or s 1 0 in
    let b2 = get_or s 2 0 in
    let top = utf8_payload_bits b0 0x0F in
    let mid = utf8_payload_bits b1 0x3F in
    let low = utf8_payload_bits b2 0x3F in
    let cp = utf8_join_payloads_3 top mid low in
    if ltb len 3
    then utf8_invalid len
    else if not (utf8_is_cont b1) || not (utf8_is_cont b2)
    then utf8_invalid len
    else if (b0 == 0xE0) && ltb b1 0xA0
    then utf8_invalid len
    else if (b0 == 0xED) && ltb 0x9F b1
    then utf8_invalid len
    else if leb 0xD800 cp && leb cp 0xDFFF
    then utf8_invalid len
    else if ltb cp 0x800
    then utf8_invalid len
    else utf8_make_result cp 3 1

-- zr_utf8_decode_four_bytes
unfoldable pub utf8_decode_four_bytes : List ℕ → ℕ → Utf8DecodeResult
utf8_decode_four_bytes s len =
    let b0 = get_or s 0 0 in
    let b1 = get_or s 1 0 in
    let b2 = get_or s 2 0 in
    let b3 = get_or s 3 0 in
    let top = utf8_payload_bits b0 0x07 in
    let high = utf8_payload_bits b1 0x3F in
    let mid = utf8_payload_bits b2 0x3F in
    let low = utf8_payload_bits b3 0x3F in
    let cp = utf8_join_payloads_4 top high mid low in
    if ltb len 4
    then utf8_invalid len
    else if not (utf8_is_cont b1) || not (utf8_is_cont b2) || not (utf8_is_cont b3)
    then utf8_invalid len
    else if (b0 == 0xF0) && ltb b1 0x90
    then utf8_invalid len
    else if (b0 == 0xF4) && ltb 0x8F b1
    then utf8_invalid len
    else if ltb 0x10FFFF cp
    then utf8_invalid len
    else if ltb cp 0x10000
    then utf8_invalid len
    else utf8_make_result cp 4 1

-- zr_utf8_decode_one
unfoldable pub utf8_decode_one : List ℕ → ℕ → Utf8DecodeResult
utf8_decode_one s len =
    if (len == 0) || is_nil s
    then utf8_invalid len
    else (let b0 = get_or s 0 0 in
        if leb b0 0x7F
        then utf8_decode_ascii b0
        else if leb 0xC2 b0 && leb b0 0xDF
        then utf8_decode_two_bytes s len
        else if leb 0xE0 b0 && leb b0 0xEF
        then utf8_decode_three_bytes s len
        else if leb 0xF0 b0 && leb b0 0xF4
        then utf8_decode_four_bytes s len
        else utf8_invalid len)
