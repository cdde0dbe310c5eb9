-- ===== src/Checked/Tests.antt =====
-- Runs of the checked arithmetic, and its theorems at concrete numbers.
use zireael.Prelude.{◌^◌, ◌≡◌, refl, true, none}
use zireael.Checked.{checked_mul_size, checked_add_u32, is_pow2_size}

-- 2^33 * 2^33 does not fit.
wide_product : checked_mul_size (2 ^ 33) (2 ^ 33) ≡ none
unfolding checked_mul_size
wide_product = refl

carried : checked_add_u32 4294967295 1 ≡ none
unfolding checked_add_u32
carried = refl

eight : is_pow2_size 8 ≡ true
unfolding is_pow2_size
eight = refl
