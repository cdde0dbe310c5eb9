-- ===== src/Bytes/Endian.antt =====
-- zr_bytes.h: a store followed by a load gives the value back, whatever follows in memory.
use zireael.Prelude.{ℕ, ◌+◌, ◌*◌, ◌/◌, ◌%◌, ◌^◌, ◌<◌, ◌≡◌, List, [], ◌∷◌, ◌++◌, arith, bit_or}
use zireael.Prelude.Bits.{and_ones, or_low_high}
use zireael.Bytes.{
  load_u16le, load_u32le, load_u64le, byte_at, store_u16le, store_u32le, store_u64le,
}

pub byte_at_lem : (v k : ℕ) → byte_at v k ≡ v / 2 ^ k % 256
unfolding byte_at
byte_at_lem v k = omega (arith, and_ones 8 (v / 2 ^ k))

-- Joining bytes from the lowest up.
join : (k acc b : ℕ) → acc < 2 ^ k → bit_or acc (b * 2 ^ k) ≡ acc + b * 2 ^ k
join k acc b h = or_low_high k b acc h

pub load-store_u16le : (v : ℕ) (rest : List ℕ) → v < 2 ^ 16 → load_u16le (store_u16le v ++ rest) ≡ v
unfolding load_u16le store_u16le
load-store_u16le v rest h =
    ground (arith, byte_at_lem v 0, byte_at_lem v 8, join 8 (byte_at v 0) (byte_at v 8))

pub load-store_u32le : (v : ℕ) (rest : List ℕ) → v < 2 ^ 32 → load_u32le (store_u32le v ++ rest) ≡ v
unfolding load_u32le store_u32le
load-store_u32le v rest h =
    let b0 = byte_at v 0 in
    let b1 = byte_at v 8 in
    let b2 = byte_at v 16 in
    let b3 = byte_at v 24 in
    ground (
      arith,
      byte_at_lem v 0,
      byte_at_lem v 8,
      byte_at_lem v 16,
      byte_at_lem v 24,
      join 8 b0 b1,
      join 16 (b0 + b1 * 2 ^ 8) b2,
      join 24 (b0 + b1 * 2 ^ 8 + b2 * 2 ^ 16) b3,
    )

-- A number below 2^64 is loaded back from the bytes that were stored for it, whatever follows them.
pub load-store_u64le : (v : ℕ) (rest : List ℕ) → v < 2 ^ 64 → load_u64le (store_u64le v ++ rest) ≡ v
unfolding load_u64le store_u64le
load-store_u64le v rest h =
    let b0 = byte_at v 0 in
    let b1 = byte_at v 8 in
    let b2 = byte_at v 16 in
    let b3 = byte_at v 24 in
    let b4 = byte_at v 32 in
    let b5 = byte_at v 40 in
    let b6 = byte_at v 48 in
    let b7 = byte_at v 56 in
    ground (
      arith,
      byte_at_lem v 0,
      byte_at_lem v 8,
      byte_at_lem v 16,
      byte_at_lem v 24,
      byte_at_lem v 32,
      byte_at_lem v 40,
      byte_at_lem v 48,
      byte_at_lem v 56,
      join 8 b0 b1,
      join 16 (b0 + b1 * 2 ^ 8) b2,
      join 24 (b0 + b1 * 2 ^ 8 + b2 * 2 ^ 16) b3,
      join 32 (b0 + b1 * 2 ^ 8 + b2 * 2 ^ 16 + b3 * 2 ^ 24) b4,
      join 40 (b0 + b1 * 2 ^ 8 + b2 * 2 ^ 16 + b3 * 2 ^ 24 + b4 * 2 ^ 32) b5,
      join 48 (b0 + b1 * 2 ^ 8 + b2 * 2 ^ 16 + b3 * 2 ^ 24 + b4 * 2 ^ 32 + b5 * 2 ^ 40) b6,
      join 56
          (b0 + b1 * 2 ^ 8 + b2 * 2 ^ 16 + b3 * 2 ^ 24 + b4 * 2 ^ 32 + b5 * 2 ^ 40 + b6 * 2 ^ 48)
          b7,
    )

-- Storing the number that four bytes were loaded as gives those bytes back.
pub store-load_u32le :
    (b0 b1 b2 b3 : ℕ) (rest : List ℕ)
    → b0 < 256
    → b1 < 256
    → b2 < 256
    → b3 < 256
    → store_u32le (load_u32le (b0 ∷ b1 ∷ b2 ∷ b3 ∷ rest)) ≡ b0 ∷ b1 ∷ b2 ∷ b3 ∷ []
unfolding load_u32le store_u32le
store-load_u32le b0 b1 b2 b3 rest h0 h1 h2 h3 =
    let v = b0 + b1 * 2 ^ 8 + b2 * 2 ^ 16 + b3 * 2 ^ 24 in
    ground (
      arith,
      byte_at_lem v 0,
      byte_at_lem v 8,
      byte_at_lem v 16,
      byte_at_lem v 24,
      join 8 b0 b1,
      join 16 (b0 + b1 * 2 ^ 8) b2,
      join 24 (b0 + b1 * 2 ^ 8 + b2 * 2 ^ 16) b3,
    )
