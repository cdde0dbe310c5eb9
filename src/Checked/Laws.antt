-- ===== src/Checked/Laws.antt =====
-- zr_checked.h: each operation succeeds exactly when the exact result fits the width.
use zireael.Prelude.{
  ℕ, zero, suc, ◌+◌, ◌-◌, ◌*◌, ◌/◌, ◌^◌, ◌≤◌, ◌<◌, ◌≡◌, ◌≢◌, none, some, ltb, if◌then◌else◌, arith,
}
use zireael.Result.{size_max, IsSize}
use zireael.Checked.{checked_add_size, checked_sub_size, checked_mul_size}

-- The sum when it fits `size_t`, and a refusal otherwise.
pub checked_add_size_lem :
    (a b : ℕ)
    → IsSize a
    → IsSize b
    → checked_add_size a b ≡ (if ltb (a + b) (2 ^ 64) then some (a + b) else none)
unfolding checked_add_size
checked_add_size_lem a b ha hb = ground arith

pub checked_sub_size_lem :
    (a b : ℕ)
    → IsSize a
    → IsSize b
    → checked_sub_size a b ≡ (if ltb a b then none else some (a - b))
unfolding checked_sub_size
checked_sub_size_lem a b ha hb = ground arith

div_bound : (m a b : ℕ) → b ≢ 0 → (a ≤ m / b → a * b ≤ m) × (m / b < a → m < a * b)
div_bound m a b h = (λ p. grind arith, λ p. grind arith)

-- The product where it is below 2^64, and a refusal exactly where it is not.
pub checked_mul_size_lem :
    (a b : ℕ) → checked_mul_size a b ≡ (if ltb (a * b) (2 ^ 64) then some (a * b) else none)
unfolding checked_mul_size
checked_mul_size_lem zero b = ground arith
checked_mul_size_lem (suc a) zero = ground arith
checked_mul_size_lem (suc a) (suc b) =
    ground (arith, div_bound size_max (suc a) (suc b) (omega arith))
