-- ===== src/Prelude/Bits.antt =====
-- `|` of disjoint bit fields and `&` with masks, as arithmetic, for fields of any width.
use zireael.Prelude.{
  ℕ, zero, suc, ◌+◌, ◌-◌, ◌*◌, ◌/◌, ◌%◌, ◌^◌, ◌≤◌, ◌<◌, ◌≡◌, refl, ap, min, bit_and, bit_or, Bool,
  true, ◌&&◌, ◌==◌, ==_iff, arith,
}
use Prim.Native.Nat.{max, digits, bit_and-bitwise, bit_or-bitwise}
use native.Mathlib.Nat.{pow-suc, one-le-pow}

-- Over a small range a claim is checked at every value.
unfoldable pub all_below : ℕ → (ℕ → Bool) → Bool
all_below zero p = true
all_below (suc n) p = p n && all_below n p

pub all_below→at : (n : ℕ) (p : ℕ → Bool) (x : ℕ) → all_below n p ≡ true → x < n → p x ≡ true
unfolding all_below
all_below→at zero p x h lt = absurd (omega arith)
all_below→at (suc n) p x h lt = ground (arith, all_below→at n p x)

-- Two functions that agree at every value below `n`.
pub agree_at :
    (n : ℕ) (f g : ℕ → ℕ) → all_below n (λ x. f x == g x) ≡ true → (x : ℕ) → x < n → f x ≡ g x
agree_at n f g table x h = (==_iff (f x) (g x)).0 (all_below→at n (λ x. f x == g x) x table h)

-- The native operations count the digits down; any count that is large enough will do.
digits_count :
    (z : ℕ → ℕ) (f : ℕ → ℕ → ℕ) (n a m b : ℕ) → a ≤ n → a ≤ m → digits z f n a b ≡ digits z f m a b
digits_count z f zero zero zero b p q = refl
digits_count z f zero zero (suc m) b p q = refl
digits_count z f zero (suc a) m b p q = absurd (omega arith)
digits_count z f (suc n) zero zero b p q = refl
digits_count z f (suc n) zero (suc m) b p q = refl
digits_count z f (suc n) (suc a) zero b p q = absurd (omega arith)
digits_count z f (suc n) (suc a) (suc m) b p q =
    ap (λ t. t * 2 + f (suc a % 2) (b % 2))
      (digits_count z f n (suc a / 2) m (b / 2) (omega arith) (omega arith))

pub bit_and_halves : (a b : ℕ) → bit_and a b ≡ bit_and (a / 2) (b / 2) * 2 + min (a % 2) (b % 2)
bit_and_halves zero b = omega (arith, bit_and-bitwise 0 b, bit_and-bitwise 0 (b / 2))
bit_and_halves (suc a) b = omega (
  arith,
  digits_count (λ b. 0) min a (suc a / 2) (suc a / 2) (b / 2) (omega arith) (omega arith),
  bit_and-bitwise (suc a) b,
  bit_and-bitwise (suc a / 2) (b / 2),
)

pub bit_or_halves : (a b : ℕ) → bit_or a b ≡ bit_or (a / 2) (b / 2) * 2 + max (a % 2) (b % 2)
bit_or_halves zero b = omega (arith, bit_or-bitwise 0 b, bit_or-bitwise 0 (b / 2))
bit_or_halves (suc a) b = omega (
  arith,
  digits_count (λ b. b) max a (suc a / 2) (suc a / 2) (b / 2) (omega arith) (omega arith),
  bit_or-bitwise (suc a) b,
  bit_or-bitwise (suc a / 2) (b / 2),
)

-- With zero on the right; `n` bounds the number of halvings.
or_zero : (n a : ℕ) → a ≤ n → bit_or a 0 ≡ a
or_zero n zero h = bit_or-bitwise 0 0
or_zero zero (suc a) h = absurd (omega arith)
or_zero (suc n) (suc a) h =
    omega (arith, bit_or_halves (suc a) 0, or_zero n (suc a / 2) (omega arith))

and_zero : (n a : ℕ) → a ≤ n → bit_and a 0 ≡ 0
and_zero n zero h = bit_and-bitwise 0 0
and_zero zero (suc a) h = absurd (omega arith)
and_zero (suc n) (suc a) h =
    omega (arith, bit_and_halves (suc a) 0, and_zero n (suc a / 2) (omega arith))

double_pow : (q k : ℕ) → q * 2 ^ suc k ≡ 2 * (q * 2 ^ k)
double_pow q k = omega (arith, ap (λ (t : ℕ). q * t) (pow-suc 2 k))

-- `(q << k) | r` adds the two when `r` has at most `k` bits, and so does `r | (q << k)`.
pub or_high_low : (k q r : ℕ) → r < 2 ^ k → bit_or (q * 2 ^ k) r ≡ q * 2 ^ k + r
or_high_low zero q r h = ground (arith, or_zero q q)
or_high_low (suc k) q r h = ground (
  arith,
  double_pow q k,
  pow-suc 2 k,
  bit_or_halves (q * 2 ^ suc k) r,
  or_high_low k q (r / 2) (omega (arith, pow-suc 2 k)),
)

pub or_low_high : (k q r : ℕ) → r < 2 ^ k → bit_or r (q * 2 ^ k) ≡ r + q * 2 ^ k
or_low_high zero q r h = ground (arith, bit_or-bitwise 0 q)
or_low_high (suc k) q r h = ground (
  arith,
  double_pow q k,
  pow-suc 2 k,
  bit_or_halves r (q * 2 ^ suc k),
  or_low_high k q (r / 2) (omega (arith, pow-suc 2 k)),
)

-- A mask of `k` ones keeps the remainder by `2 ^ k`.
and_ones_at : (k q r : ℕ) → r < 2 ^ k → bit_and (q * 2 ^ k + r) (2 ^ k - 1) ≡ r
and_ones_at zero q r h = ground (arith, and_zero (q * 1 + r) (q * 1 + r))
and_ones_at (suc k) q r h = ground (
  arith,
  double_pow q k,
  pow-suc 2 k,
  one-le-pow k 2,
  bit_and_halves (q * 2 ^ suc k + r) (2 ^ suc k - 1),
  and_ones_at k q (r / 2) (omega (arith, pow-suc 2 k)),
)

pub and_ones : (k a : ℕ) → bit_and a (2 ^ k - 1) ≡ a % 2 ^ k
and_ones k a = ground (arith, one-le-pow k 2, and_ones_at k (a / 2 ^ k) (a % 2 ^ k))

-- A mask shifted up by `k` clears the `k` low bits.
pub and_shifted :
    (k q m r : ℕ) → r < 2 ^ k → bit_and (q * 2 ^ k + r) (m * 2 ^ k) ≡ bit_and q m * 2 ^ k
and_shifted zero q m r h =
    let e : q * 1 + r ≡ q = omega arith in
    let e' : m * 1 ≡ m = omega arith in rw (e, e') (omega arith)
and_shifted (suc k) q m r h = ground (
  arith,
  double_pow q k,
  double_pow m k,
  double_pow (bit_and q m) k,
  pow-suc 2 k,
  bit_and_halves (q * 2 ^ suc k + r) (m * 2 ^ suc k),
  and_shifted k q m (r / 2) (omega (arith, pow-suc 2 k)),
)
