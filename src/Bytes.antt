-- ===== src/Bytes.antt =====
-- src/util/zr_bytes.h: little-endian loads and stores, and the bounded byte reader. A pointer to
-- bytes is the list of the bytes from there on.
pub mod Endian
pub mod Reader
mod Tests
use zireael.Prelude.{
  is_nil, ℕ, ◌+◌, ◌-◌, ◌*◌, ◌/◌, ◌%◌, ◌^◌, Bool, true, false, not, ◌&&◌, ◌||◌, Option, none, some,
  List, [], ◌∷◌, bit_and, bit_or, ltb, ◌==◌, ◌!=◌, if◌then◌else◌, get_or,
}
use zireael.Prelude.Buffer.{slice}

-- zr_load_u16le
unfoldable pub load_u16le : List ℕ → ℕ
load_u16le b =
    let p0 = get_or b 0 0 in let p1 = get_or b 1 0 * 2 ^ 8 % 2 ^ 16 in bit_or p0 p1 % 2 ^ 16

-- zr_load_u32le
unfoldable pub load_u32le : List ℕ → ℕ
load_u32le b =
    let p0 = get_or b 0 0 in
    let p1 = get_or b 1 0 * 2 ^ 8 % 2 ^ 32 in
    let p2 = get_or b 2 0 * 2 ^ 16 % 2 ^ 32 in
    let p3 = get_or b 3 0 * 2 ^ 24 % 2 ^ 32 in bit_or (bit_or (bit_or p0 p1) p2) p3

-- zr_load_u64le
unfoldable pub load_u64le : List ℕ → ℕ
load_u64le b =
    let p0 = get_or b 0 0 in
    let p1 = get_or b 1 0 * 2 ^ 8 % 2 ^ 64 in
    let p2 = get_or b 2 0 * 2 ^ 16 % 2 ^ 64 in
    let p3 = get_or b 3 0 * 2 ^ 24 % 2 ^ 64 in
    let p4 = get_or b 4 0 * 2 ^ 32 % 2 ^ 64 in
    let p5 = get_or b 5 0 * 2 ^ 40 % 2 ^ 64 in
    let p6 = get_or b 6 0 * 2 ^ 48 % 2 ^ 64 in
    let p7 = get_or b 7 0 * 2 ^ 56 % 2 ^ 64 in
    bit_or (bit_or (bit_or (bit_or (bit_or (bit_or (bit_or p0 p1) p2) p3) p4) p5) p6) p7

-- `(uint8_t)((v >> k) & 0xFF)`
unfoldable pub byte_at : ℕ → ℕ → ℕ
byte_at v k = bit_and (v / 2 ^ k) 0xff % 2 ^ 8

-- The bytes that zr_store_u16le writes.
unfoldable pub store_u16le : ℕ → List ℕ
store_u16le v = byte_at v 0 ∷ byte_at v 8 ∷ []

-- The bytes that zr_store_u32le writes.
unfoldable pub store_u32le : ℕ → List ℕ
store_u32le v = byte_at v 0 ∷ byte_at v 8 ∷ byte_at v 16 ∷ byte_at v 24 ∷ []

-- The bytes that zr_store_u64le writes.
unfoldable pub store_u64le : ℕ → List ℕ
store_u64le v =
    byte_at v 0
    ∷ byte_at v 8
    ∷ byte_at v 16
    ∷ byte_at v 24
    ∷ byte_at v 32
    ∷ byte_at v 40
    ∷ byte_at v 48
    ∷ byte_at v 56
    ∷ []

-- zr_byte_reader_t
pub record ByteReader : Type 0 where
  pub bytes : List ℕ
  pub len : ℕ
  pub off : ℕ

-- zr_byte_reader_init
unfoldable pub byte_reader_init : List ℕ → ℕ → ByteReader
byte_reader_init bytes len = record { bytes = bytes; len = len; off = 0 }

-- zr_byte_reader_remaining
unfoldable pub byte_reader_remaining : ByteReader → ℕ
byte_reader_remaining r =
    if is_nil r.bytes then 0 else if ltb r.len r.off then 0 else (r.len + 2 ^ 64 - r.off) % 2 ^ 64

-- zr_byte_reader_skip
unfoldable pub byte_reader_skip : ByteReader → ℕ → Bool × ByteReader
unfolding byte_reader_remaining
byte_reader_skip r n =
    if ltb (byte_reader_remaining r) n
    then (false, r)
    else (true, record r { off = (r.off + n) % 2 ^ 64 })

-- zr_byte_reader_read_bytes; `some` is `true` with what was copied to `out`.
unfoldable pub byte_reader_read_bytes : ByteReader → Bool → ℕ → Option (List ℕ) × ByteReader
unfolding byte_reader_remaining
byte_reader_read_bytes r has_out n =
    if not has_out && (n != 0)
    then (none, r)
    else if is_nil r.bytes && (n != 0)
    then (none, r)
    else if ltb (byte_reader_remaining r) n
    then (none, r)
    else (some (slice r.bytes r.off n), record r { off = (r.off + n) % 2 ^ 64 })

-- A fixed-width read: the bytes go through a local, which the load decodes.
unfoldable pub read_with : (List ℕ → ℕ) → ℕ → ByteReader → Bool → Option ℕ × ByteReader
read_with load width r has_out =
    if not has_out
    then (none, r)
    else (let (got, r') = byte_reader_read_bytes r true width in
        elim got [ none ↦ (none, r') | some bytes ↦ (some (load bytes), r') ])

-- zr_byte_reader_read_u8
unfoldable pub byte_reader_read_u8 : ByteReader → Bool → Option ℕ × ByteReader
unfolding read_with
byte_reader_read_u8 = read_with (λ b. get_or b 0 0) 1

-- zr_byte_reader_read_u16le
unfoldable pub byte_reader_read_u16le : ByteReader → Bool → Option ℕ × ByteReader
unfolding read_with
byte_reader_read_u16le = read_with load_u16le 2

-- zr_byte_reader_read_u32le
unfoldable pub byte_reader_read_u32le : ByteReader → Bool → Option ℕ × ByteReader
unfolding read_with
byte_reader_read_u32le = read_with load_u32le 4

-- zr_byte_reader_read_u64le
unfoldable pub byte_reader_read_u64le : ByteReader → Bool → Option ℕ × ByteReader
unfolding read_with
byte_reader_read_u64le = read_with load_u64le 8
