-- ===== src/Utf8/RoundTrip.antt =====
-- zr_utf8_decode_one on the encoding of a scalar value.
use zireael.Prelude.{
  ℕ, ◌+◌, ◌/◌, ◌%◌, ◌<◌, ◌≡◌, ◌≤◌, ◌⊎◌, inl, inr, List, [], ◌∷◌, ◌++◌, arith, ap, ◌∙◌, length,
}
use zireael.Utf8.{utf8_decode_one}
use zireael.Utf8.Scalar.{IsScalar, utf8_encode}
use zireael.Utf8.Decode.{
  utf8_accepted, two_bytes_lem, three_bytes_lem, four_bytes_lem, decode_ascii, decode_lead_2,
  decode_lead_3, decode_lead_4,
}

pub data Width (c : ℕ) : Type 0 where
  one : c < 0x80 → utf8_encode c ≡ c ∷ [] → Width c
  two : 0x80 ≤ c → c < 0x800 → utf8_encode c ≡ (0xC0 + c / 64) ∷ (0x80 + c % 64) ∷ [] → Width c
  three :
      0x800 ≤ c
      → c < 0x10000
      → utf8_encode c ≡ (0xE0 + c / 4096) ∷ (0x80 + c / 64 % 64) ∷ (0x80 + c % 64) ∷ []
      → Width c
  four :
      0x10000 ≤ c
      → utf8_encode c
        ≡ (0xF0 + c / 262144) ∷ (0x80 + c / 4096 % 64) ∷ (0x80 + c / 64 % 64) ∷ (0x80 + c % 64) ∷ []
      → Width c

pub one_eq : (c : ℕ) → c < 0x80 → utf8_encode c ≡ c ∷ []
one_eq c h = ground arith

pub two_eq : (c : ℕ) → 0x80 ≤ c → c < 0x800 → utf8_encode c ≡ (0xC0 + c / 64) ∷ (0x80 + c % 64) ∷ []
two_eq c lo hi = ground arith

pub three_eq :
    (c : ℕ)
    → 0x800 ≤ c
    → c < 0x10000
    → utf8_encode c ≡ (0xE0 + c / 4096) ∷ (0x80 + c / 64 % 64) ∷ (0x80 + c % 64) ∷ []
three_eq c lo hi = ground arith

pub four_eq :
    (c : ℕ)
    → 0x10000 ≤ c
    → utf8_encode c
      ≡ (0xF0 + c / 262144) ∷ (0x80 + c / 4096 % 64) ∷ (0x80 + c / 64 % 64) ∷ (0x80 + c % 64) ∷ []
four_eq c lo = ground arith

width_cases :
    (c : ℕ)
    → (c < 0x80) ⊎ (((0x80 ≤ c) × (c < 0x800)) ⊎ (((0x800 ≤ c) × (c < 0x10000)) ⊎ (0x10000 ≤ c)))
width_cases c = ground arith

pub width : (c : ℕ) → Width c
width c = elim (width_cases c) [
  | inl h ↦ one h (one_eq c h)
  | inr (inl (lo, hi)) ↦ two lo hi (two_eq c lo hi)
  | inr (inr (inl (lo, hi))) ↦ three lo hi (three_eq c lo hi)
  | inr (inr (inr lo)) ↦ four lo (four_eq c lo)
]

-- The encoding of a scalar value, stated to be at least as long as it is, decodes to that value and
-- its own length, whatever follows it.
pub utf8_decode_one-encode :
    (c : ℕ) (rest : List ℕ) (len : ℕ)
    → IsScalar c
    → length (utf8_encode c) ≤ len
    → utf8_decode_one (utf8_encode c ++ rest) len ≡ utf8_accepted c
utf8_decode_one-encode c rest len scalar fits = elim (width c) [
  | one h e ↦ rw e (decode_ascii len (omega (arith, fits, ap length e)) c rest h)
  | two lo hi e ↦
      let s = (0xC0 + c / 64) ∷ (0x80 + c % 64) ∷ rest in
      rw e (
        decode_lead_2 len (omega (arith, fits, ap length e)) _ _ (omega arith) (omega arith)
        ∙ two_bytes_lem s len (omega arith)
        ∙ ground (arith, fits, ap length e, scalar))
  | three lo hi e ↦
      let s = (0xE0 + c / 4096) ∷ (0x80 + c / 64 % 64) ∷ (0x80 + c % 64) ∷ rest in
      rw e (
        decode_lead_3 len (omega (arith, fits, ap length e)) _ _ (omega arith) (omega arith)
        ∙ three_bytes_lem s len (omega arith) (omega arith) (omega arith) (omega arith)
        ∙ ground (arith, fits, ap length e, scalar))
  | four lo e ↦
      let s =
        (0xF0 + c / 262144)
        ∷ (0x80 + c / 4096 % 64)
        ∷ (0x80 + c / 64 % 64)
        ∷ (0x80 + c % 64)
        ∷ rest in
      rw e (
        decode_lead_4 len (omega (arith, fits, ap length e)) _ _ (omega arith)
          (omega (arith, scalar))
        ∙ four_bytes_lem s len (omega arith) (omega arith) (omega arith) (omega arith)
            (omega (arith, scalar))
        ∙ ground (arith, fits, ap length e, scalar))
]
