-- ===== src/EventPack/Record.antt =====
-- The wire format of a record: its header of four numbers, its payload and the padding to 4 bytes.
use zireael.Prelude.{ℕ, ◌+◌, ◌-◌, ◌*◌, ◌/◌, List, ◌++◌, length, replicate}
use zireael.Bytes.{store_u32le}
use zireael.EventPack.{record_header_size}

-- A record as a reader of the batch sees it; the payload includes the padding.
pub record Rec : Type 0 where
  pub type : ℕ
  pub time_ms : ℕ
  pub flags : ℕ
  pub payload : List ℕ

-- The next multiple of 4.
abbrev pub round4 : ℕ → ℕ
round4 n = (n + 3) / 4 * 4

abbrev pub padded : List ℕ → List ℕ
padded p = p ++ replicate (round4 (length p) - length p) 0

abbrev pub rec_size_of : List ℕ → ℕ
rec_size_of p = record_header_size + round4 (length p)

abbrev pub encode : ℕ → ℕ → ℕ → List ℕ → List ℕ
encode type time_ms flags p =
    store_u32le type
    ++ (store_u32le (rec_size_of p) ++ (store_u32le time_ms ++ (store_u32le flags ++ padded p)))
