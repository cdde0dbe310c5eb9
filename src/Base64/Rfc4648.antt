-- ===== src/Base64/Rfc4648.antt =====
-- The decoding of RFC 4648, section 4, and the encoding of a list that it inverts.
use zireael.Prelude.{
  ℕ, ◌+◌, ◌-◌, ◌*◌, ◌/◌, ◌%◌, ◌^◌, ◌<◌, ◌≡◌, ◌≢◌, refl, sym, ap, ◌∙◌, Bool, true, ◌&&◌, List, [],
  ◌∷◌, ◌++◌, get_or, bit_and, bit_or, ltb, leb, ◌==◌, if◌then◌else◌, arith, length,
}
use zireael.Prelude.Bits.{all_below, agree_at, and_ones, or_high_low}
use zireael.Base64.{alphabet_at, base64_encode_triplet}

-- The value of a character: `A` to `Z`, `a` to `z`, `0` to `9`, `+` and `/`; 64 for any other.
abbrev pub value : ℕ → ℕ
value c =
    if leb 65 c && leb c 90
    then c - 65
    else if leb 97 c && leb c 122
    then c - 97 + 26
    else if leb 48 c && leb c 57
    then c - 48 + 52
    else if c == 43
    then 62
    else if c == 47
    then 63
    else 64

-- The bytes of a last group, whose fourth character may be the pad 61, and whose third then too.
abbrev pub decode_last : ℕ → ℕ → ℕ → List ℕ
decode_last c0 c1 c2 =
    if c2 == 61
    then (value c0 * 64 + value c1) / 16 ∷ []
    else (let v = (value c0 * 64 + value c1) * 64 + value c2 in v / 1024 ∷ v / 4 % 256 ∷ [])

abbrev pub decode_group : ℕ → ℕ → ℕ → ℕ → List ℕ
decode_group c0 c1 c2 c3 =
    let v = ((value c0 * 64 + value c1) * 64 + value c2) * 64 + value c3 in
    v / 65536 ∷ v / 256 % 256 ∷ v % 256 ∷ []

abbrev pub decode : List ℕ → List ℕ
decode (c0 ∷ c1 ∷ c2 ∷ c3 ∷ rest) =
    let more = decode rest in
    (if c3 == 61 then decode_last c0 c1 c2 else decode_group c0 c1 c2 c3 ++ more)
decode _ = []

-- The characters of a list of bytes.
abbrev pub encode : List ℕ → List ℕ
encode [] = []
encode (a ∷ []) = let t = base64_encode_triplet a 0 0 in get_or t 0 0 ∷ get_or t 1 0 ∷ 61 ∷ 61 ∷ []
encode (a ∷ b ∷ []) =
    let t = base64_encode_triplet a b 0 in get_or t 0 0 ∷ get_or t 1 0 ∷ get_or t 2 0 ∷ 61 ∷ []
encode (a ∷ b ∷ c ∷ rest) = base64_encode_triplet a b c ++ encode rest

value-alphabet_at : (i : ℕ) → i < 64 → value (alphabet_at i) ≡ i
unfolding alphabet_at all_below
value-alphabet_at i h = agree_at 64 (λ k. value (alphabet_at k)) (λ k. k) refl i h

no_pad : (i : ℕ) → i < 64 → alphabet_at i ≢ 61
no_pad i h e = omega (arith, sym (value-alphabet_at i h) ∙ ap value e)

triplet_lem :
    (a b c : ℕ)
    → a < 256
    → b < 256
    → c < 256
    → base64_encode_triplet a b c
      ≡ alphabet_at (a / 4)
        ∷ alphabet_at (a % 4 * 16 + b / 16)
        ∷ alphabet_at (b % 16 * 4 + c / 64)
        ∷ alphabet_at (c % 64)
        ∷ []
unfolding base64_encode_triplet
triplet_lem a b c ha hb hc =
    let p : bit_or (bit_and a 0x03 * 2 ^ 4 % 2 ^ 8) (b / 2 ^ 4) ≡ a % 4 * 16 + b / 16 =
      ground (arith, and_ones 2 a, or_high_low 4 (a % 4) (b / 16)) in
    let q : bit_or (bit_and b 0x0F * 2 ^ 2 % 2 ^ 8) (c / 2 ^ 6) ≡ b % 16 * 4 + c / 64 =
      ground (arith, and_ones 4 b, or_high_low 2 (b % 16) (c / 64)) in
    let r : bit_and c 0x3F ≡ c % 64 = and_ones 6 c in rw (p, q, r) refl

abbrev pub all_bytes : List ℕ → Bool
all_bytes [] = true
all_bytes (x ∷ xs) = ltb x 256 && all_bytes xs

decode_one : (a : ℕ) → a < 256 → decode (encode (a ∷ [])) ≡ a ∷ []
decode_one a ha = rw (triplet_lem a 0 0 ha (omega arith) (omega arith)) (
    ground (
      arith,
      value-alphabet_at (a / 4) (omega arith),
      value-alphabet_at (a % 4 * 16 + 0 / 16) (omega arith),
    ))

decode_two : (a b : ℕ) → a < 256 → b < 256 → decode (encode (a ∷ b ∷ [])) ≡ a ∷ b ∷ []
decode_two a b ha hb = rw (triplet_lem a b 0 ha hb (omega arith)) (
    ground (
      arith,
      no_pad (b % 16 * 4 + 0 / 64) (omega arith),
      value-alphabet_at (a / 4) (omega arith),
      value-alphabet_at (a % 4 * 16 + b / 16) (omega arith),
      value-alphabet_at (b % 16 * 4 + 0 / 64) (omega arith),
    ))

decode_three :
    (a b c : ℕ) (rest : List ℕ)
    → a < 256
    → b < 256
    → c < 256
    → decode (encode (a ∷ b ∷ c ∷ rest)) ≡ a ∷ b ∷ c ∷ decode (encode rest)
decode_three a b c rest ha hb hc = rw (triplet_lem a b c ha hb hc) (
    ground (
      arith,
      no_pad (c % 64) (omega arith),
      value-alphabet_at (a / 4) (omega arith),
      value-alphabet_at (a % 4 * 16 + b / 16) (omega arith),
      value-alphabet_at (b % 16 * 4 + c / 64) (omega arith),
      value-alphabet_at (c % 64) (omega arith),
    ))

pub decode-encode : (xs : List ℕ) → all_bytes xs ≡ true → decode (encode xs) ≡ xs
decode-encode [] h = refl
decode-encode (a ∷ []) h = decode_one a (ground (arith, h))
decode-encode (a ∷ b ∷ []) h = decode_two a b (ground (arith, h)) (ground (arith, h))
decode-encode (a ∷ b ∷ c ∷ rest) h =
    decode_three a b c rest (ground (arith, h)) (ground (arith, h)) (ground (arith, h))
    ∙ ap (λ l. a ∷ b ∷ c ∷ l) (decode-encode rest (ground (arith, h)))

pub length-encode : (xs : List ℕ) → length (encode xs) ≡ (length xs + 2) / 3 * 4
unfolding base64_encode_triplet
length-encode [] = omega arith
length-encode (a ∷ []) = omega arith
length-encode (a ∷ b ∷ []) = omega arith
length-encode (a ∷ b ∷ c ∷ rest) = omega (arith, length-encode rest)
