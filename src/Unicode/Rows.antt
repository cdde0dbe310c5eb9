-- ===== src/Unicode/Rows.antt =====
-- A few rows of the generated tables of src/unicode/, for tests.
use zireael.Prelude.{List, [], ◌∷◌}
use zireael.Unicode.{
  UnicodeRange, UnicodeRange8, UnicodeTables, gcb_cr, gcb_lf, gcb_extend, gcb_zwj,
  gcb_regional_indicator,
}

abbrev pub emoji : List UnicodeRange
emoji = record { lo = 0x231A; hi = 0x231B } ∷ record { lo = 0x1F600; hi = 0x1F64F } ∷ []

abbrev pub classes : List UnicodeRange8
classes =
    record { lo = 0x0A; hi = 0x0A; v = gcb_lf }
    ∷ record { lo = 0x0D; hi = 0x0D; v = gcb_cr }
    ∷ record { lo = 0x300; hi = 0x36F; v = gcb_extend }
    ∷ record { lo = 0x200D; hi = 0x200D; v = gcb_zwj }
    ∷ record { lo = 0x1F1E6; hi = 0x1F1FF; v = gcb_regional_indicator }
    ∷ []

abbrev pub few_rows : UnicodeTables
few_rows = record {
  gcb_ranges = classes;
  extended_pictographic_ranges = emoji;
  emoji_presentation_ranges = emoji;
  eaw_wide_ranges = emoji;
}
