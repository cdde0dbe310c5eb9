-- ===== src/Checked/Align.antt =====
-- zr_checked.h: the power-of-two test, and rounding up to a multiple of an alignment.
use zireael.Prelude.{
  ℕ, zero, suc, ◌+◌, ◌-◌, ◌*◌, ◌/◌, ◌%◌, ◌^◌, ◌≤◌, ◌<◌, ◌≡◌, refl, ◌≢◌, ap, true, false, none, some,
  bit_and, ltb, if◌then◌else◌, arith, ◌∙◌,
}
use zireael.Prelude.Bits.{and_ones, and_shifted, bit_and_halves}
use zireael.Result.{size_max, IsSize}
use zireael.Checked.{is_pow2_size, checked_align_up_size}
use native.Mathlib.Nat.{pow-suc, one-le-pow, mod-eq_of_lt}
use native.Mathlib.Decide.{ℕ_discrete, dec_lt}

and_self : (n a : ℕ) → a ≤ n → bit_and a a ≡ a
and_self n zero h = refl
and_self zero (suc a) h = absurd (omega arith)
and_self (suc n) (suc a) h =
    omega (arith, bit_and_halves (suc a) (suc a), and_self n (suc a / 2) (omega arith))

-- An odd number above 1 shares its upper bits with its predecessor.
odd_shares : (v : ℕ) → v % 2 ≡ 1 → bit_and v (v - 1) ≡ 0 → v ≡ 1
odd_shares v o z =
    let e : (v - 1) / 2 ≡ v / 2 = omega arith in
    omega (
      arith,
      bit_and_halves v (v - 1),
      ap (λ t. bit_and (v / 2) t) e,
      and_self (v / 2) (v / 2) (omega arith),
    )

even_halves : (v : ℕ) → v % 2 ≡ 0 → v ≢ 0 → bit_and v (v - 1) ≡ 0 → bit_and (v / 2) (v / 2 - 1) ≡ 0
even_halves v o p z =
    let e : (v - 1) / 2 ≡ v / 2 - 1 = omega arith in
    omega (arith, bit_and_halves v (v - 1), ap (λ t. bit_and (v / 2) t) e)

pow_of_shared : (n v : ℕ) → v ≤ n → v ≢ 0 → bit_and v (v - 1) ≡ 0 → (k : ℕ) × (v ≡ 2 ^ k)
pow_of_shared zero v h p z = absurd (omega arith)
pow_of_shared (suc n) v h p z = elim (ℕ_discrete (v % 2) 0) [
  | yes e ↦
      let (k, q) = pow_of_shared n (v / 2) (omega arith) (omega arith) (even_halves v e p z) in
      (suc k, omega (arith, pow-suc 2 k))
  | no o ↦ (0, odd_shares v (omega arith) z)
]

-- The test accepts powers of two only.
pub is_pow2_size→pow : (v : ℕ) → is_pow2_size v ≡ true → (k : ℕ) × (v ≡ 2 ^ k)
unfolding is_pow2_size
is_pow2_size→pow v h = pow_of_shared v v (omega arith) (ground arith) (ground arith)

mul_pow : (j k n : ℕ) → j + k ≡ n → 2 ^ j * 2 ^ k ≡ 2 ^ n
mul_pow zero k n e = let p : k ≡ n = omega arith in rw p (omega arith)
mul_pow (suc j) k zero e = absurd (omega arith)
mul_pow (suc j) k (suc n) e =
    omega (arith, pow-suc 2 n, ap (λ (t : ℕ). t * 2 ^ k) (pow-suc 2 j), mul_pow j k n (omega arith))

mask_of : (a b : ℕ) → a * b ≡ 2 ^ 64 → 1 ≤ a → 1 ≤ b → size_max - (b - 1) ≡ (a - 1) * b
mask_of zero b e p q = absurd (omega arith)
mask_of (suc a) b e p q =
    let e' : a * b + b ≡ 2 ^ 64 = omega arith in
    let s : suc a - 1 ≡ a = omega arith in rw s (omega arith)

-- Clearing the low `k` bits of a `size_t` rounds down to a multiple of `2 ^ k`.
clear_low :
    (j k x : ℕ) → j + k ≡ 64 → IsSize x → bit_and x (size_max - (2 ^ k - 1)) ≡ x / 2 ^ k * 2 ^ k
clear_low j k x e h =
    let mask : size_max - (2 ^ k - 1) ≡ (2 ^ j - 1) * 2 ^ k =
      mask_of (2 ^ j) (2 ^ k) (mul_pow j k 64 e) (one-le-pow j 2 (omega arith))
        (one-le-pow k 2 (omega arith)) in
    let parts : x ≡ x / 2 ^ k * 2 ^ k + x % 2 ^ k = omega (arith, one-le-pow k 2) in
    let small : x / 2 ^ k < 2 ^ j = grind (arith, mul_pow j k 64 e, one-le-pow k 2) in
    let kept : bit_and (x / 2 ^ k) (2 ^ j - 1) ≡ x / 2 ^ k =
      and_ones j (x / 2 ^ k) ∙ mod-eq_of_lt small in
    rw mask (
      ap (λ t. bit_and t ((2 ^ j - 1) * 2 ^ k)) parts
      ∙ and_shifted k (x / 2 ^ k) (2 ^ j - 1) (x % 2 ^ k) (omega (arith, one-le-pow k 2))
      ∙ ap (λ (t : ℕ). t * 2 ^ k) kept)

exponent_bound : (k : ℕ) → 2 ^ k < 2 ^ 64 → k < 64
exponent_bound k h = elim (dec_lt k 64) [
  | yes p ↦ p
  | no p ↦ absurd (grind (arith, mul_pow (k - 64) 64 k (omega arith), one-le-pow (k - 64) 2))
]

-- For a value and an alignment of 64 bits, the alignment accepted as a power of two, the result is the
-- value rounded up to a multiple of the alignment; the call refuses exactly where the value plus the
-- alignment less 1 is 2^64 or more.
pub checked_align_up_size_lem :
    (value align : ℕ)
    → IsSize value
    → IsSize align
    → is_pow2_size align ≡ true
    → checked_align_up_size value align ≡ (
        if ltb (value + (align - 1)) (2 ^ 64)
        then some ((value + (align - 1)) / align * align)
        else none)
unfolding checked_align_up_size
checked_align_up_size_lem value align hv ha p =
    let (k, e) = is_pow2_size→pow align p in
    let e' : align ≡ 2 ^ k = e in
    let small : k < 64 = exponent_bound k (omega arith) in
    ground (arith, one-le-pow k 2, clear_low (64 - k) k (value + (align - 1)) (omega arith))

pub checked_align_up_size_refuses :
    (value align : ℕ) → is_pow2_size align ≡ false → checked_align_up_size value align ≡ none
unfolding checked_align_up_size
checked_align_up_size_refuses value align h = ground arith
