-- ===== src/InputParser/Decimal.antt =====
-- zr__parse_u32_dec against the value of the decimal numeral that stands there.
use zireael.Prelude.{
  ℕ, zero, suc, ◌+◌, ◌-◌, ◌*◌, ◌%◌, ◌^◌, ◌≤◌, ◌<◌, ◌≡◌, true, false, ◌&&◌, List, [], ◌∷◌, get_or,
  length, ltb, if◌then◌else◌, arith, is_nil_lem,
}
use zireael.InputParser.{add_size, is_digit}
use zireael.InputParser.Numbers.{DecResult, dec_loop, parse_u32_dec}

-- The values of the digits from an offset to the first byte that is none, or to the end.
abbrev pub digits : ℕ → List ℕ → ℕ → ℕ → List ℕ
digits zero bytes len i = []
digits (suc fuel) bytes len i =
    let rest = digits fuel bytes len (i + 1) in
    if ltb i len && is_digit (get_or bytes i 0) then (get_or bytes i 0 - 48) ∷ rest else []

-- The number that the digits continue.
abbrev pub numeral : ℕ → List ℕ → ℕ
numeral v [] = v
numeral v (d ∷ ds) = numeral (v * 10 + d) ds

numeral_grows : (ds : List ℕ) (v : ℕ) → v ≤ numeral v ds
numeral_grows [] v = omega arith
numeral_grows (d ∷ ds) v = omega (arith, numeral_grows ds (v * 10 + d))

module _ (bytes : List ℕ) (len : ℕ) (small : len < 2 ^ 64) where
  abbrev Reads : ℕ → ℕ → List ℕ → DecResult → Type 0
  Reads i v ds r =
      (numeral v ds < 2 ^ 32 → r ≡ record { ok = true; i = i + length ds; value = numeral v ds })
      × (2 ^ 32 ≤ numeral v ds → r.ok ≡ false)

  dec_loop-numeral :
      (fuel i v : ℕ)
      → v < 2 ^ 32
      → len - i < fuel
      → Reads i v (digits fuel bytes len i) (dec_loop fuel bytes len i v)
  unfolding dec_loop
  dec_loop-numeral zero i v low enough = absurd (omega arith)
  dec_loop-numeral (suc fuel) i v low enough =
      let d = get_or bytes i 0 - 48 in
      ground (
        arith,
        numeral_grows (digits fuel bytes len (i + 1)) (v * 10 + d),
        dec_loop-numeral fuel (add_size i 1) ((v * 10 + d) % 2 ^ 32),
      )

  -- Within the buffer and below 2^64 bytes, zr__parse_u32_dec succeeds exactly when a digit stands at
  -- the position and the number that the digits from there on denote is below 2^32; it then gives
  -- that number and the position behind its digits, and otherwise leaves the position.
  pub parse_u32_dec-numeral :
      (i : ℕ)
      → len ≤ length bytes
      → parse_u32_dec bytes len i ≡ (
          let ds = digits (suc (len - i)) bytes len i in
          if ltb i len && is_digit (get_or bytes i 0) && ltb (numeral 0 ds) (2 ^ 32)
          then record { ok = true; i = i + length ds; value = numeral 0 ds }
          else record { ok = false; i = i; value = 0 })
  unfolding parse_u32_dec
  parse_u32_dec-numeral i fits =
      let reads = dec_loop-numeral (suc (len - i)) i 0 (omega arith) (omega arith) in
      ground (arith, reads, is_nil_lem bytes, fits)
