-- ===== src/StringBuilder.antt =====
-- src/util/zr_string_builder.c: a writer of bytes that writes all of its input or nothing. A builder
-- that is NULL is `none`; buffers and inputs are lists of bytes, NULL the empty one. An input that
-- lies in the buffer itself is read before it is written (memmove), so it is passed as its bytes.
pub mod Writes
mod Tests
use zireael.Prelude.{
  is_nil, ℕ, ◌+◌, ◌-◌, ◌%◌, ◌^◌, Bool, true, false, not, ◌&&◌, ◌||◌, Option, none, some, List, [],
  ◌∷◌, take, ltb, ◌!=◌, if◌then◌else◌,
}
use zireael.Prelude.Buffer.{write_at}
use zireael.Bytes.{store_u16le, store_u32le, store_u64le}

-- zr_sb_t
pub record StringBuilder : Type 0 where
  pub buf : List ℕ
  pub cap : ℕ
  pub len : ℕ
  pub truncated : Bool

-- zr_sb_init
unfoldable pub sb_init : Option StringBuilder → List ℕ → ℕ → Option StringBuilder
sb_init none buf cap = none
sb_init (some sb) buf cap = some (record { buf = buf; cap = cap; len = 0; truncated = false })

-- zr_sb_reset
unfoldable pub sb_reset : Option StringBuilder → Option StringBuilder
sb_reset none = none
sb_reset (some sb) = some (record sb { len = 0; truncated = false })

-- zr_sb_len
unfoldable pub sb_len : Option StringBuilder → ℕ
sb_len none = 0
sb_len (some sb) = sb.len

-- zr_sb_truncated
unfoldable pub sb_truncated : Option StringBuilder → Bool
sb_truncated none = true
sb_truncated (some sb) = sb.truncated

-- zr_sb_remaining
unfoldable pub sb_remaining : Option StringBuilder → ℕ
sb_remaining none = 0
sb_remaining (some sb) = if ltb sb.cap sb.len then 0 else sb.cap - sb.len

-- zr_sb__can_write
unfoldable pub sb_can_write : Option StringBuilder → ℕ → Bool
sb_can_write none n = false
sb_can_write (some sb) n =
    if is_nil sb.buf && (sb.cap != 0)
    then false
    else if ltb sb.cap sb.len
    then false
    else if ltb (sb_remaining (some sb)) n
    then false
    else true

-- zr_sb_write_bytes of the first `len` bytes of `bytes`
unfoldable pub sb_write_bytes : Option StringBuilder → List ℕ → ℕ → Bool × Option StringBuilder
sb_write_bytes none bytes len = (false, none)
sb_write_bytes (some sb) bytes len =
    if is_nil bytes && (len != 0)
    then (false, some sb)
    else if not (sb_can_write (some sb) len)
    then (false, some (record sb { truncated = true }))
    else (
      true,
      some (record sb {
        buf = if len != 0 then write_at sb.buf sb.len (take len bytes) else sb.buf;
        len = (sb.len + len) % 2 ^ 64;
      }),
    )

-- zr_sb_write_u8
unfoldable pub sb_write_u8 : Option StringBuilder → ℕ → Bool × Option StringBuilder
sb_write_u8 sb v = sb_write_bytes sb (v ∷ []) 1

-- zr_sb_write_u16le
unfoldable pub sb_write_u16le : Option StringBuilder → ℕ → Bool × Option StringBuilder
sb_write_u16le sb v = sb_write_bytes sb (store_u16le v) 2

-- zr_sb_write_u32le
unfoldable pub sb_write_u32le : Option StringBuilder → ℕ → Bool × Option StringBuilder
sb_write_u32le sb v = sb_write_bytes sb (store_u32le v) 4

-- zr_sb_write_u64le
unfoldable pub sb_write_u64le : Option StringBuilder → ℕ → Bool × Option StringBuilder
sb_write_u64le sb v = sb_write_bytes sb (store_u64le v) 8
