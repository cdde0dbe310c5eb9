-- ===== src/Utf8/Tests.antt =====
-- Runs of the UTF-8 decoder, and its theorems at concrete inputs.
use zireael.Prelude.{◌≡◌, refl, [], ◌∷◌, arith}
use zireael.Utf8.{utf8_decode_one, utf8_decode_three_bytes, utf8_is_cont, utf8_make_result}
use zireael.Utf8.Exact.{DecodeOutcome, utf8_decode_one-DecodeOutcome}

-- A surrogate.
utf8_decode_one-DecodeOutcome_example :
    DecodeOutcome (0xED ∷ 0xA0 ∷ 0x80 ∷ []) 3 (utf8_decode_one (0xED ∷ 0xA0 ∷ 0x80 ∷ []) 3)
utf8_decode_one-DecodeOutcome_example =
    utf8_decode_one-DecodeOutcome (0xED ∷ 0xA0 ∷ 0x80 ∷ []) 3 (omega arith) refl

surrogate_refused : utf8_decode_one (0xED ∷ 0xA0 ∷ 0x80 ∷ []) 3 ≡ utf8_make_result 0xFFFD 1 0
unfolding utf8_decode_one utf8_decode_three_bytes utf8_is_cont
surrogate_refused = refl
