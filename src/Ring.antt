-- ===== src/Ring.antt =====
-- src/util/zr_ring.c: a ring of elements of one size over the caller's storage. A ring that is NULL
-- is `none`; storage and elements are lists of bytes, NULL the empty one.
pub mod Fifo
pub mod Init
mod Tests
use zireael.Prelude.{
  is_nil, ℕ, ◌+◌, ◌-◌, ◌%◌, ◌^◌, Bool, true, false, not, ◌&&◌, ◌||◌, Option, none, some, List, [],
  ltb, leb, ◌==◌, ◌!=◌, if◌then◌else◌,
}
use zireael.Prelude.Buffer.{write_at, slice}
use zireael.Result.{ZrResult, zr_ok, zr_err_invalid_argument, zr_err_limit}
use zireael.Checked.{checked_mul_size}

-- zr_ring_t
pub record Ring : Type 0 where
  pub data_bytes : List ℕ
  pub cap : ℕ
  pub len : ℕ
  pub head : ℕ
  pub tail : ℕ
  pub elem_size : ℕ

-- zr__ring_advance
abbrev pub ring_advance : ℕ → ℕ → ℕ
ring_advance idx cap = (idx + 1) % 2 ^ 64 % cap

-- zr_ring_init
unfoldable pub ring_init : Option Ring → List ℕ → ℕ → ℕ → ZrResult × Option Ring
ring_init none backing_buf cap_elems elem_size = (zr_err_invalid_argument, none)
ring_init (some r) backing_buf cap_elems elem_size =
    if (elem_size == 0) || ((cap_elems != 0) && is_nil backing_buf)
    then (zr_err_invalid_argument, some r)
    else (
      zr_ok,
      some (record {
        data_bytes = if cap_elems != 0 then backing_buf else [];
        cap = cap_elems;
        len = 0;
        head = 0;
        tail = 0;
        elem_size = elem_size;
      }),
    )

-- zr_ring_reset
unfoldable pub ring_reset : Option Ring → Option Ring
ring_reset none = none
ring_reset (some r) = some (record r { len = 0; head = 0; tail = 0 })

-- zr_ring_len
unfoldable pub ring_len : Option Ring → ℕ
ring_len none = 0
ring_len (some r) = r.len

-- zr_ring_cap
unfoldable pub ring_cap : Option Ring → ℕ
ring_cap none = 0
ring_cap (some r) = r.cap

-- zr_ring_is_empty
unfoldable pub ring_is_empty : Option Ring → Bool
ring_is_empty none = true
ring_is_empty (some r) = r.len == 0

-- zr_ring_is_full
unfoldable pub ring_is_full : Option Ring → Bool
ring_is_full none = false
ring_is_full (some r) = (r.cap != 0) && leb r.cap r.len

-- zr_ring_push of the `elem_size` bytes of `elem`
unfoldable pub ring_push : Option Ring → List ℕ → ZrResult × Option Ring
ring_push none elem = (zr_err_invalid_argument, none)
ring_push (some r) elem =
    if is_nil elem
    then (zr_err_invalid_argument, some r)
    else if (r.cap == 0) || leb r.cap r.len
    then (zr_err_limit, some r)
    else if leb r.cap r.tail
    then (zr_err_limit, some r)
    else elim (checked_mul_size r.tail r.elem_size) [
      | none ↦ (zr_err_limit, some r)
      | some off ↦ (
        zr_ok,
        some (record r {
          data_bytes = write_at r.data_bytes off elem;
          tail = ring_advance r.tail r.cap;
          len = (r.len + 1) % 2 ^ 64;
        }),
      )
    ]

-- zr_ring_pop; `some bytes` is the `true` of the C function with the bytes written to `out_elem`
unfoldable pub ring_pop : Option Ring → Bool → Option (List ℕ) × Option Ring
ring_pop none has_out = (none, none)
ring_pop (some r) has_out =
    if not has_out
    then (none, some r)
    else if (r.len == 0) || (r.cap == 0)
    then (none, some r)
    else if leb r.cap r.head
    then (none, some r)
    else elim (checked_mul_size r.head r.elem_size) [
      | none ↦ (none, some r)
      | some off ↦ (
        some (slice r.data_bytes off r.elem_size),
        some (record r { head = ring_advance r.head r.cap; len = (r.len + 2 ^ 64 - 1) % 2 ^ 64 }),
      )
    ]
