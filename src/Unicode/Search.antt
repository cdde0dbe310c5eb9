-- ===== src/Unicode/Search.antt =====
-- zr_unicode_in_ranges and zr_unicode_ranges8_lookup against a scan of the whole table.
use zireael.Prelude.{
  ℕ, zero, suc, ◌+◌, ◌-◌, ◌/◌, ◌<◌, ◌≤◌, ◌≡◌, ◌⊎◌, inl, inr, refl, Bool, true, false, ◌&&◌, List,
  [], ◌∷◌, length, get_or, leb, if◌then◌else◌, arith, Bool-cases, sym, ap, ◌∙◌,
}
use zireael.Unicode.{
  GcbClass, gcb_other, UnicodeRange, UnicodeRange8, no_range, no_range8, in_ranges, in_ranges_loop,
  ranges8_lookup, ranges8_lookup_loop,
}

abbrev pub contains : UnicodeRange → ℕ → Bool
contains r scalar = leb (UnicodeRange.lo r) scalar && leb scalar (UnicodeRange.hi r)

abbrev pub contains8 : UnicodeRange8 → ℕ → Bool
contains8 r scalar = leb (UnicodeRange8.lo r) scalar && leb scalar (UnicodeRange8.hi r)

-- The reference: what the first range that holds the scalar gives.
abbrev pub scan_by {ℓ κ} : {A : Type ℓ} {B : Type κ} → (A → Bool) → (A → B) → B → List A → B
scan_by test value default [] = default
scan_by test value default (x ∷ xs) = if test x then value x else scan_by test value default xs

abbrev pub scan : List UnicodeRange → ℕ → Bool
scan ranges scalar = scan_by (λ r. contains r scalar) (λ r. true) false ranges

abbrev pub scan8 : List UnicodeRange8 → ℕ → GcbClass
scan8 ranges scalar = scan_by (λ r. contains8 r scalar) UnicodeRange8.v gcb_other ranges

-- No range is empty, and each ends before the next one starts.
abbrev pub IsAscending : List UnicodeRange → Type 0
IsAscending ranges =
    ((i : ℕ)
      → i < length ranges
      → UnicodeRange.lo (get_or ranges i no_range) ≤ UnicodeRange.hi (get_or ranges i no_range))
    × ((i j : ℕ)
        → i < j
        → j < length ranges
        → UnicodeRange.hi (get_or ranges i no_range) < UnicodeRange.lo (get_or ranges j no_range))

abbrev pub IsAscending8 : List UnicodeRange8 → Type 0
IsAscending8 ranges =
    ((i : ℕ)
      → i < length ranges
      → UnicodeRange8.lo (get_or ranges i no_range8) ≤ UnicodeRange8.hi (get_or ranges i no_range8))
    × ((i j : ℕ)
        → i < j
        → j < length ranges
        → UnicodeRange8.hi (get_or ranges i no_range8)
          < UnicodeRange8.lo (get_or ranges j no_range8))

module _ {ℓ κ} {A : Type ℓ} {B : Type κ} (d : A) (test : A → Bool) (value : A → B)
    (default : B) where
  none_suc :
      (x : A) (xs : List A)
      → test x ≡ false
      → ((i : ℕ) → i < length xs → test (get_or xs i d) ≡ false)
      → (i : ℕ) → i < length (x ∷ xs)
      → test (get_or (x ∷ xs) i d) ≡ false
  none_suc x xs e rest zero h = e
  none_suc x xs e rest (suc i) h = rest i (omega arith)

  -- Where a scan finds its value, or that there is none.
  scan_cases :
      (xs : List A)
      → ((i : ℕ) × (i < length xs)
          × (test (get_or xs i d) ≡ true)
          × (scan_by test value default xs ≡ value (get_or xs i d)))
        ⊎ (((i : ℕ) → i < length xs → test (get_or xs i d) ≡ false)
            × (scan_by test value default xs ≡ default))
  scan_cases [] = inr ((λ i h. absurd (omega arith)), refl)
  scan_cases (x ∷ xs) = elim (Bool-cases (test x)) [
    | inl e ↦ inl (0, omega arith, e, rw e refl)
    | inr e ↦ elim (scan_cases xs) [
      | inl (i, h, c, s) ↦ inl (suc i, omega arith, c, rw e s)
      | inr (rest, s) ↦ inr (none_suc x xs e rest, rw e s)
    ]
  ]

module _ (ranges : List UnicodeRange) (scalar : ℕ) where
  abbrev hits : ℕ → Bool
  hits i = contains (get_or ranges i no_range) scalar

  loop_misses :
      ((i : ℕ) → i < length ranges → hits i ≡ false)
      → (fuel lo hi : ℕ) → hi ≤ length ranges
      → in_ranges_loop fuel ranges scalar lo hi ≡ false
  unfolding in_ranges_loop
  loop_misses none_in zero lo hi within = refl
  loop_misses none_in (suc fuel) lo hi within =
      let mid : ℕ = lo + (hi - lo) / 2 in
      ground
        (arith, none_in mid, loop_misses none_in fuel lo mid, loop_misses none_in fuel (mid + 1) hi)

  -- The loop keeps the index that holds the scalar between its bounds.
  loop_hits :
      IsAscending ranges
      → (i : ℕ) → hits i ≡ true
      → (fuel lo hi : ℕ) → hi - lo < fuel
      → lo ≤ i
      → i < hi
      → hi ≤ length ranges
      → in_ranges_loop fuel ranges scalar lo hi ≡ true
  unfolding in_ranges_loop
  loop_hits ascending i e zero lo hi enough above below within = ground arith
  loop_hits ascending i e (suc fuel) lo hi enough above below within =
      let mid : ℕ = lo + (hi - lo) / 2 in
      ground (
        arith,
        ascending.0 mid,
        ascending.1 i mid,
        ascending.1 mid i,
        loop_hits ascending i e fuel lo mid,
        loop_hits ascending i e fuel (mid + 1) hi,
      )

  -- On a table whose ranges are not empty and each end before the next one starts, the binary search
  -- zr_unicode_in_ranges finds the scalar exactly when a scan of the whole table does.
  pub in_ranges-scan :
      IsAscending ranges → in_ranges ranges (length ranges) scalar ≡ scan ranges scalar
  unfolding in_ranges
  in_ranges-scan ascending =
      let n = length ranges in
      elim (scan_cases no_range (λ r. contains r scalar) (λ r. true) false ranges) [
        | inl (i, h, c, s) ↦
            loop_hits ascending i c (suc n) 0 n (omega arith) (omega arith) h (omega arith) ∙ sym s
        | inr (none_in, s) ↦ loop_misses none_in (suc n) 0 n (omega arith) ∙ sym s
      ]

order : (i j : ℕ) → (i < j) ⊎ ((i ≡ j) ⊎ (j < i))
order i j = ground arith

module _ (ranges : List UnicodeRange8) (scalar : ℕ) where
  abbrev hits8 : ℕ → Bool
  hits8 i = contains8 (get_or ranges i no_range8) scalar

  lookup_misses :
      ((i : ℕ) → i < length ranges → hits8 i ≡ false)
      → (fuel lo hi : ℕ) → hi ≤ length ranges
      → ranges8_lookup_loop fuel ranges scalar lo hi ≡ gcb_other
  unfolding ranges8_lookup_loop
  lookup_misses none_in zero lo hi within = refl
  lookup_misses none_in (suc fuel) lo hi within =
      let mid : ℕ = lo + (hi - lo) / 2 in
      ground (
        arith,
        none_in mid,
        lookup_misses none_in fuel lo mid,
        lookup_misses none_in fuel (mid + 1) hi,
      )

  lookup_hits :
      IsAscending8 ranges
      → (i : ℕ) → hits8 i ≡ true
      → (fuel lo hi : ℕ) → hi - lo < fuel
      → lo ≤ i
      → i < hi
      → hi ≤ length ranges
      → ranges8_lookup_loop fuel ranges scalar lo hi ≡ UnicodeRange8.v (get_or ranges i no_range8)
  unfolding ranges8_lookup_loop
  lookup_hits ascending i e zero lo hi enough above below within = ground arith
  lookup_hits ascending i e (suc fuel) lo hi enough above below within =
      let mid : ℕ = lo + (hi - lo) / 2 in
      elim (order i mid) [
        | inl p ↦
            let gap = ascending.1 i mid p (omega arith) in
            let rest = lookup_hits ascending i e fuel lo mid (omega arith) above p (omega arith) in
            ground (arith, gap, rest)
        | inr (inl p) ↦ let here = ap (λ k. get_or ranges k no_range8) p in ground (arith, here)
        | inr (inr p) ↦
            let gap = ascending.1 mid i p (omega arith) in
            let filled = ascending.0 mid (omega arith) in
            let rest =
              lookup_hits ascending i e fuel (mid + 1) hi (omega arith) (omega arith) below
                within in
            ground (arith, gap, filled, rest)
      ]

  -- On a table of ranges with values, none empty and each ending before the next one starts, the
  -- binary search zr_unicode_ranges8_lookup gives the value of the range that a scan of the whole
  -- table finds, and ZR_GCB_OTHER where it finds none.
  pub ranges8_lookup-scan8 :
      IsAscending8 ranges → ranges8_lookup ranges (length ranges) scalar ≡ scan8 ranges scalar
  unfolding ranges8_lookup
  ranges8_lookup-scan8 ascending =
      let n = length ranges in
      elim (scan_cases no_range8 (λ r. contains8 r scalar) UnicodeRange8.v gcb_other ranges) [
        | inl (i, h, c, s) ↦
            lookup_hits ascending i c (suc n) 0 n (omega arith) (omega arith) h (omega arith)
            ∙ sym s
        | inr (none_in, s) ↦ lookup_misses none_in (suc n) 0 n (omega arith) ∙ sym s
      ]
