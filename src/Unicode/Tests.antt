-- ===== src/Unicode/Tests.antt =====
-- Runs of the lookups, and their theorems at concrete tables.
use zireael.Prelude.{ℕ, zero, suc, ◌<◌, ◌≡◌, refl, false, List, [], ◌∷◌, get_or, ◌≤◌, arith}
use zireael.Unicode.{
  UnicodeRange, UnicodeRange8, gcb_cr, gcb_lf, gcb_extend, no_range, no_range8, in_ranges,
  in_ranges_loop, ranges8_lookup, ranges8_lookup_loop,
}
use zireael.Unicode.Rows.{emoji, classes}
use zireael.Unicode.Search.{ranges8_lookup-scan8}

abbrev line_ends : List UnicodeRange8
line_ends =
    record { lo = 0x0A; hi = 0x0A; v = gcb_lf } ∷ record { lo = 0x0D; hi = 0x0D; v = gcb_cr } ∷ []

emoji_filled :
    (i : ℕ)
    → i < 2
    → UnicodeRange.lo (get_or emoji i no_range) ≤ UnicodeRange.hi (get_or emoji i no_range)
emoji_filled zero h = omega arith
emoji_filled (suc zero) h = omega arith
emoji_filled (suc (suc i)) h = absurd (omega arith)

emoji_apart :
    (i j : ℕ)
    → i < j
    → j < 2
    → UnicodeRange.hi (get_or emoji i no_range) < UnicodeRange.lo (get_or emoji j no_range)
emoji_apart i zero h k = absurd (omega arith)
emoji_apart zero (suc zero) h k = omega arith
emoji_apart (suc i) (suc zero) h k = absurd (omega arith)
emoji_apart i (suc (suc j)) h k = absurd (omega arith)

line_ends_filled :
    (i : ℕ)
    → i < 2
    → UnicodeRange8.lo (get_or line_ends i no_range8)
      ≤ UnicodeRange8.hi (get_or line_ends i no_range8)
line_ends_filled zero h = omega arith
line_ends_filled (suc zero) h = omega arith
line_ends_filled (suc (suc i)) h = absurd (omega arith)

line_ends_apart :
    (i j : ℕ)
    → i < j
    → j < 2
    → UnicodeRange8.hi (get_or line_ends i no_range8)
      < UnicodeRange8.lo (get_or line_ends j no_range8)
line_ends_apart i zero h k = absurd (omega arith)
line_ends_apart zero (suc zero) h k = omega arith
line_ends_apart (suc i) (suc zero) h k = absurd (omega arith)
line_ends_apart i (suc (suc j)) h k = absurd (omega arith)

ranges8_lookup-scan8_example : ranges8_lookup line_ends 2 0x0D ≡ gcb_cr
ranges8_lookup-scan8_example =
    ranges8_lookup-scan8 line_ends 0x0D (line_ends_filled, line_ends_apart)

between_rows : (in_ranges emoji 2 0x1000 ≡ false) × (ranges8_lookup classes 5 0x301 ≡ gcb_extend)
unfolding in_ranges in_ranges_loop ranges8_lookup ranges8_lookup_loop
between_rows = (refl, refl)
