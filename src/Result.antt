-- ===== src/Result.antt =====
-- include/zr/zr_result.h: the result codes that every fallible operation returns, and the widths of
-- the C integers.
use zireael.Prelude.{ℕ, ◌-◌, ◌^◌, ◌<◌}

-- `ZR_OK`, `ZR_ERR_INVALID_ARGUMENT`, ... in the order of the header.
pub data ZrResult : Type 0 where
  zr_ok : ZrResult
  zr_err_invalid_argument : ZrResult
  zr_err_oom : ZrResult
  zr_err_limit : ZrResult
  zr_err_unsupported : ZrResult
  zr_err_format : ZrResult
  zr_err_platform : ZrResult

-- `size_t` has 64 bits.
abbrev pub size_max : ℕ
size_max = 2 ^ 64 - 1

abbrev pub u32_max : ℕ
u32_max = 2 ^ 32 - 1

abbrev pub IsSize : ℕ → Type 0
IsSize n = n < 2 ^ 64

abbrev pub IsU32 : ℕ → Type 0
IsU32 n = n < 2 ^ 32

abbrev pub IsByte : ℕ → Type 0
IsByte n = n < 256
