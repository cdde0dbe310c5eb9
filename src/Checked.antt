-- ===== src/Checked.antt =====
-- src/util/zr_checked.h: overflow-checked arithmetic. `none` is the `false` of the C function, and
-- `some v` its `true` with `*out = v`. Every caller passes the address of a local as `out`, so its
-- NULL test has no counterpart here.
pub mod Laws
pub mod Align
mod Tests
use zireael.Prelude.{
  ℕ, ◌+◌, ◌-◌, ◌*◌, ◌/◌, ◌%◌, ◌^◌, Bool, ◌&&◌, ◌||◌, not, Option, none, some, bit_and, ltb, ◌==◌,
  ◌!=◌, if◌then◌else◌,
}
use zireael.Result.{size_max, u32_max}

-- The subtraction runs only at `v ≢ 0`.
unfoldable pub is_pow2_size : ℕ → Bool
is_pow2_size v = (v != 0) && (bit_and v (v - 1) == 0)

unfoldable pub checked_add_size : ℕ → ℕ → Option ℕ
checked_add_size a b = if ltb (size_max - b) a then none else some ((a + b) % 2 ^ 64)

unfoldable pub checked_sub_size : ℕ → ℕ → Option ℕ
checked_sub_size a b = if ltb a b then none else some ((a + 2 ^ 64 - b) % 2 ^ 64)

unfoldable pub checked_mul_size : ℕ → ℕ → Option ℕ
checked_mul_size a b =
    if (a == 0) || (b == 0)
    then some 0
    else (if ltb (size_max / b) a then none else some (a * b % 2 ^ 64))

unfoldable pub checked_add_u32 : ℕ → ℕ → Option ℕ
checked_add_u32 a b = if ltb (u32_max - b) a then none else some ((a + b) % 2 ^ 32)

unfoldable pub checked_mul_u32 : ℕ → ℕ → Option ℕ
checked_mul_u32 a b =
    if (a == 0) || (b == 0)
    then some 0
    else (if ltb (u32_max / b) a then none else some (a * b % 2 ^ 32))

-- `~mask` is `size_max - mask`.
unfoldable pub checked_align_up_size : ℕ → ℕ → Option ℕ
unfolding is_pow2_size
checked_align_up_size value align =
    if (align == 0) || not (is_pow2_size align)
    then none
    else (let mask = align - 1 in
        if ltb (size_max - mask) value
        then none
        else some (bit_and ((value + mask) % 2 ^ 64) (size_max - mask)))
