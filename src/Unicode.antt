-- ===== src/Unicode.antt =====
-- src/unicode/zr_unicode_data.c: the property lookups by binary search. The generated tables are a
-- parameter, as lists of ranges.
pub mod Search
pub mod Rows
mod Tests
use zireael.Prelude.{
  ℕ, zero, suc, ◌+◌, ◌-◌, ◌/◌, Bool, true, false, List, length, get_or, ltb, ◌==◌,
}

-- zr_gcb_class_t
pub data GcbClass : Type 0 where
  gcb_other : GcbClass
  gcb_cr : GcbClass
  gcb_lf : GcbClass
  gcb_control : GcbClass
  gcb_prepend : GcbClass
  gcb_spacingmark : GcbClass
  gcb_extend : GcbClass
  gcb_zwj : GcbClass
  gcb_regional_indicator : GcbClass
  gcb_l : GcbClass
  gcb_v : GcbClass
  gcb_t : GcbClass
  gcb_lv : GcbClass
  gcb_lvt : GcbClass

-- The value of the enumeration, which the C comparison of two classes compares.
abbrev pub gcb_code : GcbClass → ℕ
gcb_code gcb_other = 0
gcb_code gcb_cr = 1
gcb_code gcb_lf = 2
gcb_code gcb_control = 3
gcb_code gcb_prepend = 4
gcb_code gcb_spacingmark = 5
gcb_code gcb_extend = 6
gcb_code gcb_zwj = 7
gcb_code gcb_regional_indicator = 8
gcb_code gcb_l = 9
gcb_code gcb_v = 10
gcb_code gcb_t = 11
gcb_code gcb_lv = 12
gcb_code gcb_lvt = 13

abbrev pub same_gcb : GcbClass → GcbClass → Bool
same_gcb a b = gcb_code a == gcb_code b

-- zr_unicode_range8_t, without its pad bytes, `v` as the class that it is cast to
pub record UnicodeRange8 : Type 0 where
  pub lo : ℕ
  pub hi : ℕ
  pub v : GcbClass

-- zr_unicode_range_t
pub record UnicodeRange : Type 0 where
  pub lo : ℕ
  pub hi : ℕ

-- What a read past a table would give; no call makes one.
abbrev pub no_range : UnicodeRange
no_range = record { lo = 0; hi = 0 }

abbrev pub no_range8 : UnicodeRange8
no_range8 = record { lo = 0; hi = 0; v = gcb_other }

-- The loop of zr_unicode_in_ranges
unfoldable pub in_ranges_loop : ℕ → List UnicodeRange → ℕ → ℕ → ℕ → Bool
in_ranges_loop zero ranges scalar lo hi = false
in_ranges_loop (suc fuel) ranges scalar lo hi =
    let mid = lo + (hi - lo) / 2 in
    let r = get_or ranges mid no_range in
    elim (ltb lo hi) [
      | false ↦ false
      | true ↦ elim (ltb scalar (UnicodeRange.lo r)) [
        | true ↦ in_ranges_loop fuel ranges scalar lo mid
        | false ↦ elim (ltb (UnicodeRange.hi r) scalar) [
          | true ↦ in_ranges_loop fuel ranges scalar (mid + 1) hi
          | false ↦ true
        ]
      ]
    ]

-- zr_unicode_in_ranges
unfoldable pub in_ranges : List UnicodeRange → ℕ → ℕ → Bool
in_ranges ranges n scalar = in_ranges_loop (suc n) ranges scalar 0 n

-- The loop of zr_unicode_ranges8_lookup
unfoldable pub ranges8_lookup_loop : ℕ → List UnicodeRange8 → ℕ → ℕ → ℕ → GcbClass
ranges8_lookup_loop zero ranges scalar lo hi = gcb_other
ranges8_lookup_loop (suc fuel) ranges scalar lo hi =
    let mid = lo + (hi - lo) / 2 in
    let r = get_or ranges mid no_range8 in
    elim (ltb lo hi) [
      | false ↦ gcb_other
      | true ↦ elim (ltb scalar (UnicodeRange8.lo r)) [
        | true ↦ ranges8_lookup_loop fuel ranges scalar lo mid
        | false ↦ elim (ltb (UnicodeRange8.hi r) scalar) [
          | true ↦ ranges8_lookup_loop fuel ranges scalar (mid + 1) hi
          | false ↦ UnicodeRange8.v r
        ]
      ]
    ]

-- zr_unicode_ranges8_lookup
unfoldable pub ranges8_lookup : List UnicodeRange8 → ℕ → ℕ → GcbClass
ranges8_lookup ranges n scalar = ranges8_lookup_loop (suc n) ranges scalar 0 n

-- kGcbRanges, kExtendedPictographicRanges, kEmojiPresentationRanges, kEawWideRanges
pub record UnicodeTables : Type 0 where
  pub gcb_ranges : List UnicodeRange8
  pub extended_pictographic_ranges : List UnicodeRange
  pub emoji_presentation_ranges : List UnicodeRange
  pub eaw_wide_ranges : List UnicodeRange

module _ (tables : UnicodeTables) where
  -- zr_unicode_gcb_class
  unfoldable pub unicode_gcb_class : ℕ → GcbClass
  unicode_gcb_class scalar =
      let ranges = UnicodeTables.gcb_ranges tables in ranges8_lookup ranges (length ranges) scalar

  -- zr_unicode_is_extended_pictographic
  unfoldable pub unicode_is_extended_pictographic : ℕ → Bool
  unicode_is_extended_pictographic scalar =
      let ranges = UnicodeTables.extended_pictographic_ranges tables in
      in_ranges ranges (length ranges) scalar

  -- zr_unicode_is_emoji_presentation
  unfoldable pub unicode_is_emoji_presentation : ℕ → Bool
  unicode_is_emoji_presentation scalar =
      let ranges = UnicodeTables.emoji_presentation_ranges tables in
      in_ranges ranges (length ranges) scalar

  -- zr_unicode_is_eaw_wide
  unfoldable pub unicode_is_eaw_wide : ℕ → Bool
  unicode_is_eaw_wide scalar =
      let ranges = UnicodeTables.eaw_wide_ranges tables in in_ranges ranges (length ranges) scalar
