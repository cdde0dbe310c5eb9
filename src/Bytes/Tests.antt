-- ===== src/Bytes/Tests.antt =====
-- Runs of the loads, the stores and the reader, and their theorems at concrete bytes.
use zireael.Prelude.{◌≡◌, refl, true, false, [], ◌∷◌, ◌++◌, arith, none}
use zireael.Bytes.{
  ByteReader, load_u16le, load_u32le, byte_at, store_u16le, store_u32le, byte_reader_read_bytes,
  byte_reader_read_u16le, byte_reader_skip,
}
use zireael.Bytes.Endian.{load-store_u16le, load-store_u32le}
use zireael.Bytes.Reader.{byte_reader_skip_lem}

abbrev reader : ByteReader
reader = record { bytes = 9 ∷ 0x78 ∷ 0x56 ∷ 0x34 ∷ 0x12 ∷ []; len = 5; off = 1 }

stored : store_u32le 0x12345678 ≡ 0x78 ∷ 0x56 ∷ 0x34 ∷ 0x12 ∷ []
unfolding store_u32le byte_at
stored = refl

read_short : (byte_reader_read_u16le (record reader { off = 4 }) true).0 ≡ none
unfolding byte_reader_read_u16le byte_reader_read_bytes
read_short = refl

load-store_u16le_example : load_u16le (store_u16le 0xfedc ++ (7 ∷ [])) ≡ 0xfedc
load-store_u16le_example = load-store_u16le 0xfedc (7 ∷ []) (omega arith)

load-store_u32le_example : load_u32le (store_u32le 0xfedcba98 ++ (7 ∷ [])) ≡ 0xfedcba98
load-store_u32le_example = load-store_u32le 0xfedcba98 (7 ∷ []) (omega arith)

byte_reader_skip_lem_example : byte_reader_skip reader 5 ≡ (false, reader)
byte_reader_skip_lem_example = byte_reader_skip_lem reader 5 (omega arith)
