-- ===== src/Utf8/Scalar.antt =====
-- The encoding of a Unicode scalar value in UTF-8 (RFC 3629, section 3), by division.
use zireael.Prelude.{
  ℕ, ◌+◌, ◌*◌, ◌/◌, ◌%◌, ◌<◌, ◌≡◌, ◌≤◌, ◌⊎◌, List, [], ◌∷◌, ltb, if◌then◌else◌, arith, bit_and,
  ◌==◌,
}
use zireael.Prelude.Bits.{and_ones, and_shifted, or_high_low}
use zireael.Utf8.{utf8_is_cont, utf8_join_payloads_2, utf8_join_payloads_3, utf8_join_payloads_4}

-- A code point outside the surrogates.
abbrev pub IsScalar : ℕ → Type 0
IsScalar c = (c < 0xD800) ⊎ ((0xE000 ≤ c) × (c < 0x110000))

abbrev pub utf8_encode : ℕ → List ℕ
utf8_encode c =
    if ltb c 0x80
    then c ∷ []
    else if ltb c 0x800
    then (0xC0 + c / 64) ∷ (0x80 + c % 64) ∷ []
    else if ltb c 0x10000
    then (0xE0 + c / 4096) ∷ (0x80 + c / 64 % 64) ∷ (0x80 + c % 64) ∷ []
    else (0xF0 + c / 262144) ∷ (0x80 + c / 4096 % 64) ∷ (0x80 + c / 64 % 64) ∷ (0x80 + c % 64) ∷ []

-- A byte is a continuation byte when its two upper bits are 10.
pub is_cont_lem : (b : ℕ) → b < 256 → utf8_is_cont b ≡ (b / 64 == 2)
unfolding utf8_is_cont
is_cont_lem b h = ground (arith, and_shifted 6 (b / 64) 3 (b % 64), and_ones 2 (b / 64))

pub low_6 : (b : ℕ) → bit_and b 0x3F ≡ b % 64
low_6 b = and_ones 6 b

pub low_5 : (b : ℕ) → bit_and b 0x1F ≡ b % 32
low_5 b = and_ones 5 b

pub low_4 : (b : ℕ) → bit_and b 0x0F ≡ b % 16
low_4 b = and_ones 4 b

pub low_3 : (b : ℕ) → bit_and b 0x07 ≡ b % 8
low_3 b = and_ones 3 b

pub join_2 : (t l : ℕ) → t < 32 → l < 64 → utf8_join_payloads_2 t l ≡ t * 64 + l
unfolding utf8_join_payloads_2
join_2 t l ht hl = ground (arith, or_high_low 6 t l)

pub join_3 :
    (t m l : ℕ) → t < 16 → m < 64 → l < 64 → utf8_join_payloads_3 t m l ≡ t * 4096 + m * 64 + l
unfolding utf8_join_payloads_3
join_3 t m l ht hm hl = ground (arith, or_high_low 12 t (m * 64), or_high_low 6 (t * 64 + m) l)

pub join_4 :
    (t h m l : ℕ)
    → t < 8
    → h < 64
    → m < 64
    → l < 64
    → utf8_join_payloads_4 t h m l ≡ t * 262144 + h * 4096 + m * 64 + l
unfolding utf8_join_payloads_4
join_4 t h m l ht hh hm hl = ground (
  arith,
  or_high_low 18 t (h * 4096),
  or_high_low 12 (t * 64 + h) (m * 64),
  or_high_low 6 (t * 4096 + h * 64 + m) l,
)
