-- ===== src/Prelude/Buffer.antt =====
-- Memory as a list of cells: `memcpy` into a buffer and out of it. A C array of bytes is a list of
-- numbers; a write past its end changes nothing there (the components prove that none happens).
use zireael.Prelude.{
  ℕ, zero, suc, ◌+◌, ◌≤◌, ◌≡◌, refl, ap, ◌⊎◌, inl, inr, List, [], ◌∷◌, ◌++◌, arith, length, take,
  drop,
}

module _ {ℓ} {A : Type ℓ} where
  -- `memcpy(buf + off, src, length src)`.
  unfoldable pub write_at : List A → ℕ → List A → List A
  write_at [] off src = []
  write_at (x ∷ xs) zero [] = x ∷ xs
  write_at (x ∷ xs) zero (y ∷ ys) = y ∷ write_at xs zero ys
  write_at (x ∷ xs) (suc off) src = x ∷ write_at xs off src

  -- The `n` cells from `off` on: `memcpy(out, buf + off, n)`.
  abbrev pub slice : List A → ℕ → ℕ → List A
  slice buf off n = take n (drop off buf)

  pub length-write_at :
      (buf : List A) (off : ℕ) (src : List A) → length (write_at buf off src) ≡ length buf
  unfolding write_at
  length-write_at [] off src = refl
  length-write_at (x ∷ xs) zero [] = refl
  length-write_at (x ∷ xs) zero (y ∷ ys) = ap suc (length-write_at xs zero ys)
  length-write_at (x ∷ xs) (suc off) src = ap suc (length-write_at xs off src)

  write_at-nil : (buf : List A) (off : ℕ) → write_at buf off [] ≡ buf
  unfolding write_at
  write_at-nil [] off = refl
  write_at-nil (x ∷ xs) zero = refl
  write_at-nil (x ∷ xs) (suc off) = ap (λ l. x ∷ l) (write_at-nil xs off)

  -- What was written is read back.
  pub slice-write_at_self :
      (buf : List A) (off : ℕ) (src : List A)
      → off + length src ≤ length buf
      → slice (write_at buf off src) off (length src) ≡ src
  unfolding write_at
  slice-write_at_self buf off [] h = refl
  slice-write_at_self [] zero (y ∷ ys) h = absurd (omega arith)
  slice-write_at_self [] (suc off) (y ∷ ys) h = absurd (omega arith)
  slice-write_at_self (x ∷ xs) zero (y ∷ ys) h =
      ap (λ l. y ∷ l) (slice-write_at_self xs zero ys (omega arith))
  slice-write_at_self (x ∷ xs) (suc off) (y ∷ ys) h =
      slice-write_at_self xs off (y ∷ ys) (omega arith)

  -- A read before the written range, or after it, is as it was.
  pub slice-write_at_before :
      (buf : List A) (off : ℕ) (src : List A) (a n : ℕ)
      → a + n ≤ off
      → slice (write_at buf off src) a n ≡ slice buf a n
  unfolding write_at
  slice-write_at_before [] off src a n h = refl
  slice-write_at_before (x ∷ xs) zero src zero zero h = refl
  slice-write_at_before (x ∷ xs) zero src zero (suc n) h = absurd (omega arith)
  slice-write_at_before (x ∷ xs) zero src (suc a) n h = absurd (omega arith)
  slice-write_at_before (x ∷ xs) (suc off) src zero zero h = refl
  slice-write_at_before (x ∷ xs) (suc off) src zero (suc n) h =
      ap (λ l. x ∷ l) (slice-write_at_before xs off src zero n (omega arith))
  slice-write_at_before (x ∷ xs) (suc off) src (suc a) n h =
      slice-write_at_before xs off src a n (omega arith)

  pub slice-write_at_after :
      (buf : List A) (off : ℕ) (src : List A) (a n : ℕ)
      → off + length src ≤ a
      → slice (write_at buf off src) a n ≡ slice buf a n
  unfolding write_at
  slice-write_at_after [] off src a n h = refl
  slice-write_at_after (x ∷ xs) zero [] a n h = refl
  slice-write_at_after (x ∷ xs) zero (y ∷ ys) zero n h = absurd (omega arith)
  slice-write_at_after (x ∷ xs) zero (y ∷ ys) (suc a) n h =
      slice-write_at_after xs zero ys a n (omega arith)
  slice-write_at_after (x ∷ xs) (suc off) src zero n h = absurd (omega arith)
  slice-write_at_after (x ∷ xs) (suc off) src (suc a) n h =
      slice-write_at_after xs off src a n (omega arith)

  pub slice-write_at_disjoint :
      (buf : List A) (off : ℕ) (src : List A) (a n : ℕ)
      → (a + n ≤ off) ⊎ (off + length src ≤ a)
      → slice (write_at buf off src) a n ≡ slice buf a n
  slice-write_at_disjoint buf off src a n (inl h) = slice-write_at_before buf off src a n h
  slice-write_at_disjoint buf off src a n (inr h) = slice-write_at_after buf off src a n h

  -- Appending at the end of what is filled extends it.
  pub take-write_at_append :
      (buf : List A) (off : ℕ) (src : List A) (n : ℕ)
      → n ≡ off + length src
      → n ≤ length buf
      → take n (write_at buf off src) ≡ take off buf ++ src
  unfolding write_at
  take-write_at_append [] off src (suc n) e h = absurd (omega arith)
  take-write_at_append [] zero [] zero e h = refl
  take-write_at_append [] zero (y ∷ ys) zero e h = absurd (omega arith)
  take-write_at_append [] (suc off) src zero e h = absurd (omega arith)
  take-write_at_append (x ∷ xs) zero [] zero e h = refl
  take-write_at_append (x ∷ xs) zero [] (suc n) e h = absurd (omega arith)
  take-write_at_append (x ∷ xs) zero (y ∷ ys) zero e h = absurd (omega arith)
  take-write_at_append (x ∷ xs) zero (y ∷ ys) (suc n) e h =
      ap (λ l. y ∷ l) (take-write_at_append xs zero ys n (omega arith) (omega arith))
  take-write_at_append (x ∷ xs) (suc off) src zero e h = absurd (omega arith)
  take-write_at_append (x ∷ xs) (suc off) src (suc n) e h =
      ap (λ l. x ∷ l) (take-write_at_append xs off src n (omega arith) (omega arith))

  pub length-slice :
      (buf : List A) (off n : ℕ) → off + n ≤ length buf → length (slice buf off n) ≡ n
  length-slice buf off zero h = refl
  length-slice [] zero (suc n) h = absurd (omega arith)
  length-slice [] (suc off) (suc n) h = absurd (omega arith)
  length-slice (x ∷ xs) zero (suc n) h = ap suc (length-slice xs zero n (omega arith))
  length-slice (x ∷ xs) (suc off) (suc n) h = length-slice xs off (suc n) (omega arith)
