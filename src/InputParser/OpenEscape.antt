-- ===== src/InputParser/OpenEscape.antt =====
-- zr__esc_is_incomplete_supported of src/core/zr_input_parser.c: which escape sequences are kept
-- back.
use zireael.Prelude.{
  ℕ, zero, suc, ◌+◌, ◌-◌, ◌^◌, ◌≤◌, ◌<◌, ◌≡◌, sym, ap, ◌∙◌, Bool, true, false, not, ◌&&◌, ◌||◌,
  List, [], ◌∷◌, get_or, length, length-drop, drop, ◌==◌, if◌then◌else◌, arith, is_nil_lem,
}
use zireael.Prelude.Cells.{drop-drop}
use zireael.InputParser.{add_size, is_digit}
use zireael.InputParser.Parse.{no_mouse_end, only_params, esc_is_incomplete_supported}
use zireael.InputParser.Text.{get_or-drop}

abbrev all_bytes : (ℕ → Bool) → List ℕ → Bool
all_bytes test [] = true
all_bytes test (b ∷ bs) = if test b then all_bytes test bs else false

-- Neither M nor m
abbrev in_mouse_report : ℕ → Bool
in_mouse_report b = not ((b == 77) || (b == 109))

-- A digit or a semicolon
abbrev in_params : ℕ → Bool
in_params b = is_digit b || (b == 59)

-- The bytes up to the end begin a sequence that the parser knows, and do not end it: ESC alone, ESC
-- [ and ESC O; ESC [ < without an M or m; and ESC [ with digits and semicolons only.
abbrev pub is_open_escape : List ℕ → Bool
is_open_escape [] = false
is_open_escape (e ∷ []) = e == 0x1B
is_open_escape (e ∷ b ∷ []) = (e == 0x1B) && ((b == 91) || (b == 79))
is_open_escape (e ∷ b ∷ c ∷ rest) =
    (e == 0x1B)
    && (b == 91)
    && (if c == 60 then all_bytes in_mouse_report rest else all_bytes in_params (c ∷ rest))

module _ (bytes : List ℕ) (small : length bytes + 8 < 2 ^ 64) where
  -- The bytes from j on.
  abbrev BytesAt : ℕ → List ℕ → Type 0
  BytesAt j s = (j + length s ≡ length bytes) × ((k : ℕ) → get_or bytes (j + k) 0 ≡ get_or s k 0)

  behind_first : (j x : ℕ) (s : List ℕ) → BytesAt j (x ∷ s) → BytesAt (j + 1) s
  behind_first j x s (n, nth) =
      (omega (arith, n), λ k. ap (λ m. get_or bytes m 0) (omega arith) ∙ nth (suc k))

  first_of : (j x : ℕ) (s : List ℕ) → BytesAt j (x ∷ s) → get_or bytes j 0 ≡ x
  first_of j x s (n, nth) = ap (λ m. get_or bytes m 0) (omega arith) ∙ nth 0

  no_mouse_end_lem :
      (rounds j : ℕ) (s : List ℕ)
      → BytesAt j s
      → length s < rounds
      → no_mouse_end rounds bytes (length bytes) j ≡ all_bytes in_mouse_report s
  unfolding no_mouse_end
  no_mouse_end_lem zero j s a h = absurd (omega (arith, h))
  no_mouse_end_lem (suc rounds) j [] a h = ground (arith, a.0)
  no_mouse_end_lem (suc rounds) j (x ∷ s) a h =
      let step : add_size j 1 ≡ j + 1 = omega (arith, a.0, small) in
      let rest = no_mouse_end_lem rounds (j + 1) s (behind_first j x s a) (omega (arith, h)) in
      let next : no_mouse_end rounds bytes (length bytes) (add_size j 1)
          ≡ all_bytes in_mouse_report s =
        ap (no_mouse_end rounds bytes (length bytes)) step ∙ rest in
      ground (arith, next, a.0, first_of j x s a)

  only_params_lem :
      (rounds j : ℕ) (s : List ℕ)
      → BytesAt j s
      → length s < rounds
      → only_params rounds bytes (length bytes) j ≡ all_bytes in_params s
  unfolding only_params
  only_params_lem zero j s a h = absurd (omega (arith, h))
  only_params_lem (suc rounds) j [] a h = ground (arith, a.0)
  only_params_lem (suc rounds) j (x ∷ s) a h =
      let step : add_size j 1 ≡ j + 1 = omega (arith, a.0, small) in
      let rest = only_params_lem rounds (j + 1) s (behind_first j x s a) (omega (arith, h)) in
      let next : only_params rounds bytes (length bytes) (add_size j 1) ≡ all_bytes in_params s =
        ap (only_params rounds bytes (length bytes)) step ∙ rest in
      ground (arith, next, a.0, first_of j x s a)

  open_escape_lem :
      (i : ℕ) (s : List ℕ)
      → BytesAt i s
      → esc_is_incomplete_supported bytes (length bytes) i ≡ is_open_escape s
  unfolding esc_is_incomplete_supported
  open_escape_lem i [] a = ground (arith, a.0)
  open_escape_lem i (e ∷ []) a = ground (arith, a.0, first_of i e [] a, small, is_nil_lem bytes)
  open_escape_lem i (e ∷ b ∷ []) a =
      let second = first_of (i + 1) b [] (behind_first i e (b ∷ []) a) in
      let step : add_size i 1 ≡ i + 1 = omega (arith, a.0, small) in
      ground (
        arith,
        a.0,
        first_of i e (b ∷ []) a,
        ap (λ m. get_or bytes m 0) step ∙ second,
        small,
        is_nil_lem bytes,
      )
  open_escape_lem i (e ∷ b ∷ c ∷ s) a =
      let a1 = behind_first i e (b ∷ c ∷ s) a in
      let a2 = behind_first (i + 1) b (c ∷ s) a1 in
      let step1 : add_size i 1 ≡ i + 1 = omega (arith, a.0, small) in
      let step2 : add_size i 2 ≡ i + 1 + 1 = omega (arith, a.0, small) in
      let step3 : add_size i 3 ≡ i + 1 + 1 + 1 = omega (arith, a.0, small) in
      let rounds = suc (length bytes - i) in
      let mouse =
        ap (no_mouse_end rounds bytes (length bytes)) step3
        ∙ no_mouse_end_lem rounds (i + 1 + 1 + 1) s (behind_first (i + 1 + 1) c s a2)
            (omega (arith, a.0)) in
      let params =
        ap (only_params rounds bytes (length bytes)) step2
        ∙ only_params_lem rounds (i + 1 + 1) (c ∷ s) a2 (omega (arith, a.0)) in
      ground (
        arith,
        a.0,
        first_of i e (b ∷ c ∷ s) a,
        ap (λ m. get_or bytes m 0) step1 ∙ first_of (i + 1) b (c ∷ s) a1,
        ap (λ m. get_or bytes m 0) step2 ∙ first_of (i + 1 + 1) c s a2,
        mouse,
        params,
        small,
        is_nil_lem bytes,
      )

-- Of a buffer of fewer than 2^64 - 8 bytes, zr__esc_is_incomplete_supported holds for the bytes
-- from a position in it (or its end) on exactly when these begin a sequence that the parser knows
-- and do not end it: ESC alone, ESC [ and ESC O; ESC [ < and any bytes without an M or m; and ESC [
-- and any digits and semicolons.
pub esc_is_incomplete_supported-open :
    (bytes : List ℕ) (i : ℕ)
    → length bytes + 8 < 2 ^ 64
    → i ≤ length bytes
    → esc_is_incomplete_supported bytes (length bytes) i ≡ is_open_escape (drop i bytes)
esc_is_incomplete_supported-open bytes i small h = open_escape_lem bytes small i (drop i bytes) (
  omega (arith, length-drop i bytes, h),
  λ k.
      get_or-drop bytes (i + k)
      ∙ ap (λ l. get_or l 0 0) (sym (drop-drop k i bytes))
      ∙ sym (get_or-drop (drop i bytes) k),
)
