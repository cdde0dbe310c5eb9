-- ===== src/Bytes/Reader.antt =====
-- zr_bytes.h: the reader never passes the end, and a failed read moves nothing.
use zireael.Prelude.{
  is_nil, ℕ, ◌+◌, ◌-◌, ◌^◌, ◌≤◌, ◌<◌, ◌≡◌, refl, Bool, true, false, none, some, List, [], ◌∷◌,
  length, arith, if◌then◌else◌, leb, le→leb, ◌∙◌, append-nil,
}
use zireael.Prelude.Buffer.{slice}
use zireael.Bytes.{
  ByteReader, byte_reader_remaining, byte_reader_skip, byte_reader_read_bytes,
  byte_reader_read_u32le, load_u32le, store_u32le,
}
use zireael.Bytes.Endian.{load-store_u32le}

-- The reader stands inside its bytes.
pub record IsReader (r : ByteReader) : Type 0 where
  pub held : r.len ≤ length r.bytes
  pub size : r.len < 2 ^ 64
  pub inside : r.off ≤ r.len

remaining_nil : (bytes : List ℕ) → is_nil bytes ≡ true → length bytes ≡ 0
remaining_nil [] h = refl
remaining_nil (x ∷ xs) h = absurd (ground arith)

pub byte_reader_remaining_lem :
    (r : ByteReader) → IsReader r → byte_reader_remaining r ≡ r.len - r.off
unfolding byte_reader_remaining
byte_reader_remaining_lem r v = ground (arith, remaining_nil r.bytes)

-- On a reader inside its bytes, a read of `n` bytes into a given buffer returns exactly the next `n`
-- bytes and moves past them where that many are left; otherwise it fails and the reader is as before.
pub byte_reader_read_bytes_lem :
    (r : ByteReader) (n : ℕ)
    → IsReader r
    → byte_reader_read_bytes r true n ≡ (
        if leb n (r.len - r.off)
        then (some (slice r.bytes r.off n), record r { off = r.off + n })
        else (none, r))
unfolding byte_reader_read_bytes
byte_reader_read_bytes_lem r n v = ground (arith, remaining_nil r.bytes)

pub byte_reader_read_bytes-IsReader :
    (r : ByteReader) (has_out : Bool) (n : ℕ)
    → IsReader r
    → IsReader (byte_reader_read_bytes r has_out n).1
unfolding byte_reader_read_bytes
byte_reader_read_bytes-IsReader r has_out n v = ground (arith, remaining_nil r.bytes)

-- A skip moves by exactly `n`, or not at all.
pub byte_reader_skip_lem :
    (r : ByteReader) (n : ℕ)
    → IsReader r
    → byte_reader_skip r n
      ≡ (if leb n (r.len - r.off) then (true, record r { off = r.off + n }) else (false, r))
unfolding byte_reader_skip
byte_reader_skip_lem r n v = ground (arith, remaining_nil r.bytes)

-- On a reader inside its bytes, where the next four bytes are the stored form of a number below 2^32,
-- a read into a given number returns it, and the reader stands behind it.
pub byte_reader_read_u32le-store :
    (r : ByteReader) (v : ℕ)
    → IsReader r
    → r.off + 4 ≤ r.len
    → slice r.bytes r.off 4 ≡ store_u32le v
    → v < 2 ^ 32
    → byte_reader_read_u32le r true ≡ (some v, record r { off = r.off + 4 })
unfolding byte_reader_read_u32le
byte_reader_read_u32le-store r v w room next h =
    let got : byte_reader_read_bytes r true 4
        ≡ (some (store_u32le v), record r { off = r.off + 4 }) =
      byte_reader_read_bytes_lem r 4 w ∙ rw (← next, le→leb 4 (r.len - r.off) (omega arith)) in
    let back : load_u32le (store_u32le v) ≡ v = rw append-nil at (load-store_u32le v [] h) in
    ground (arith, got, back)
