-- ===== src/Vec.antt =====
-- src/util/zr_vec.c: a vector of elements of one size over the caller's storage. A vector that is
-- NULL is `none`; storage and elements are lists of bytes, NULL the empty one.
pub mod Items
mod Tests
use zireael.Prelude.{
  is_nil, ℕ, ◌+◌, ◌-◌, ◌%◌, ◌^◌, Bool, true, false, not, ◌&&◌, ◌||◌, Option, none, some, List, [],
  ltb, leb, ◌==◌, ◌!=◌, if◌then◌else◌,
}
use zireael.Prelude.Buffer.{write_at, slice}
use zireael.Result.{ZrResult, zr_ok, zr_err_invalid_argument, zr_err_limit}
use zireael.Checked.{checked_mul_size}

-- zr_vec_t
pub record Vec : Type 0 where
  pub data_bytes : List ℕ
  pub len : ℕ
  pub cap : ℕ
  pub elem_size : ℕ

-- zr__vec_get_offset; its callers pass the address of a local as `out_off`.
unfoldable pub vec_get_offset : Option Vec → ℕ → Option ℕ
vec_get_offset none idx = none
vec_get_offset (some v) idx =
    if leb v.len idx || is_nil v.data_bytes || (v.elem_size == 0)
    then none
    else checked_mul_size idx v.elem_size

-- zr_vec_init
unfoldable pub vec_init : Option Vec → List ℕ → ℕ → ℕ → ZrResult × Option Vec
vec_init none backing_buf cap_elems elem_size = (zr_err_invalid_argument, none)
vec_init (some v) backing_buf cap_elems elem_size =
    if (elem_size == 0) || ((cap_elems != 0) && is_nil backing_buf)
    then (zr_err_invalid_argument, some v)
    else (
      zr_ok,
      some (record {
        data_bytes = if cap_elems != 0 then backing_buf else [];
        len = 0;
        cap = cap_elems;
        elem_size = elem_size;
      }),
    )

-- zr_vec_reset
unfoldable pub vec_reset : Option Vec → Option Vec
vec_reset none = none
vec_reset (some v) = some (record v { len = 0 })

-- zr_vec_len
unfoldable pub vec_len : Option Vec → ℕ
vec_len none = 0
vec_len (some v) = v.len

-- zr_vec_cap
unfoldable pub vec_cap : Option Vec → ℕ
vec_cap none = 0
vec_cap (some v) = v.cap

-- zr_vec_at and zr_vec_at_const: the offset into the storage that the pointer has.
unfoldable pub vec_at : Option Vec → ℕ → Option ℕ
vec_at v idx = elim (vec_get_offset v idx) [ none ↦ none | some off ↦ some off ]

-- zr_vec_push of the `elem_size` bytes of `elem`
unfoldable pub vec_push : Option Vec → List ℕ → ZrResult × Option Vec
vec_push none elem = (zr_err_invalid_argument, none)
vec_push (some v) elem =
    if is_nil elem
    then (zr_err_invalid_argument, some v)
    else if leb v.cap v.len
    then (zr_err_limit, some v)
    else elim (checked_mul_size v.len v.elem_size) [
      | none ↦ (zr_err_limit, some v)
      | some off ↦ (
        zr_ok,
        some (record v { data_bytes = write_at v.data_bytes off elem; len = (v.len + 1) % 2 ^ 64 }),
      )
    ]

-- zr_vec_pop; the bytes written to `out_elem` are the second part.
unfoldable pub vec_pop : Option Vec → Bool → ZrResult × Option (List ℕ) × Option Vec
vec_pop none has_out = (zr_err_invalid_argument, none, none)
vec_pop (some v) has_out =
    if not has_out
    then (zr_err_invalid_argument, none, some v)
    else if v.len == 0
    then (zr_err_limit, none, some v)
    else (let idx = (v.len + 2 ^ 64 - 1) % 2 ^ 64 in
        elim (checked_mul_size idx v.elem_size) [
          | none ↦ (zr_err_limit, none, some v)
          | some off ↦
              (zr_ok, some (slice v.data_bytes off v.elem_size), some (record v { len = idx }))
        ])
