-- ===== src/Prelude/Window.antt =====
-- The events of a circular array in queue order: `n` of them from index `h` on.
use zireael.Prelude.{
  ℕ, zero, suc, ◌+◌, ◌-◌, ◌%◌, ◌≤◌, ◌<◌, ◌≡◌, ◌≢◌, refl, sym, ap, ap₂, ◌∙◌, ◌⊎◌, inl, inr, List, [],
  ◌∷◌, ◌++◌, length, get_or, set, arith,
}
use native.Mathlib.Nat.{mod-eq_of_lt, mod-eq-sub-mod, mod-add-mod}
use native.Mathlib.Decide.{dec_lt}

-- One step round the array.
pub next_cases :
    (h cap : ℕ)
    → h < cap
    → (((h + 1) % cap ≡ h + 1) × (h + 1 < cap)) ⊎ (((h + 1) % cap ≡ 0) × (h + 1 ≡ cap))
next_cases h cap p = elim (dec_lt (h + 1) cap) [
  | yes q ↦ inl (mod-eq_of_lt q, q)
  | no q ↦ inr (
      let e : h + 1 ≡ cap = omega arith in
      (rw (e, mod-eq-sub-mod {n = cap} {m = cap} (omega arith)) (grind arith), e))
]

-- Fewer than `cap` steps, and at least one, lead elsewhere.
round_ne : (h k cap : ℕ) → h < cap → 0 < k → k < cap → (h + k) % cap ≢ h
round_ne h k cap p q b = elim (dec_lt (h + k) cap) [
  | yes u ↦ omega (arith, mod-eq_of_lt u)
  | no u ↦ omega (
    arith,
    mod-eq-sub-mod {n = h + k} {m = cap} (omega arith),
    mod-eq_of_lt {n = h + k - cap} {m = cap} (omega arith),
  )
]

module _ {ℓ} {A : Type ℓ} (d : A) where
  pub get_or-set_ne :
      (xs : List A) (i j : ℕ) (v : A) → i ≢ j → get_or (set xs i v) j d ≡ get_or xs j d
  get_or-set_ne [] i j v h = refl
  get_or-set_ne (x ∷ xs) zero zero v h = absurd (h refl)
  get_or-set_ne (x ∷ xs) zero (suc j) v h = refl
  get_or-set_ne (x ∷ xs) (suc i) zero v h = refl
  get_or-set_ne (x ∷ xs) (suc i) (suc j) v h = get_or-set_ne xs i j v (omega arith)

  pub get_or-set_self : (xs : List A) (i : ℕ) (v : A) → i < length xs → get_or (set xs i v) i d ≡ v
  get_or-set_self [] i v h = absurd (omega arith)
  get_or-set_self (x ∷ xs) zero v h = refl
  get_or-set_self (x ∷ xs) (suc i) v h = get_or-set_self xs i v (omega arith)

  pub set-append_end :
      (xs : List A) (y v : A) (i : ℕ) → i ≡ length xs → set (xs ++ (y ∷ [])) i v ≡ xs ++ (v ∷ [])
  set-append_end [] y v zero e = refl
  set-append_end [] y v (suc i) e = absurd (omega arith)
  set-append_end (x ∷ xs) y v zero e = absurd (omega arith)
  set-append_end (x ∷ xs) y v (suc i) e = ap (λ l. x ∷ l) (set-append_end xs y v i (omega arith))

  module _ (cap : ℕ) where
    abbrev pub window : List A → ℕ → ℕ → List A
    window xs h zero = []
    window xs h (suc n) = get_or xs h d ∷ window xs ((h + 1) % cap) n

    pub length-window : (xs : List A) (h n : ℕ) → length (window xs h n) ≡ n
    length-window xs h zero = refl
    length-window xs h (suc n) = ap suc (length-window xs ((h + 1) % cap) n)

    pub window_step :
        (xs : List A) (h n : ℕ)
        → n ≢ 0
        → window xs h n ≡ get_or xs h d ∷ window xs ((h + 1) % cap) (n - 1)
    window_step xs h zero p = absurd (p refl)
    window_step xs h (suc n) p = ap (λ k. window xs h (suc k)) (omega arith)

    add_step : (h i : ℕ) → ((h + 1) % cap + i) % cap ≡ (h + suc i) % cap
    add_step h i = rw mod-add-mod (ap (λ k. k % cap) (omega arith))

    pub window_snoc :
        (xs : List A) (h n : ℕ)
        → h < cap
        → window xs h (suc n) ≡ window xs h n ++ (get_or xs ((h + n) % cap) d ∷ [])
    window_snoc xs h zero p =
        ap (λ k. get_or xs k d ∷ []) (sym (ap (λ k. k % cap) (omega arith) ∙ mod-eq_of_lt p))
    window_snoc xs h (suc n) p =
        ap (λ l. get_or xs h d ∷ l)
          (window_snoc xs ((h + 1) % cap) n (omega arith)
            ∙ ap (λ k. window xs ((h + 1) % cap) n ++ (get_or xs k d ∷ [])) (add_step h n))

    -- A window that stops before it comes round to `idx`, `k` steps on, does not see a write there.
    window-set_miss :
        (xs : List A) (v : A) (idx h n k : ℕ)
        → idx < cap
        → h < cap
        → (h + k ≡ idx) ⊎ (h + k ≡ idx + cap)
        → k < cap
        → n ≤ k
        → window (set xs idx v) h n ≡ window xs h n
    window-set_miss xs v idx h zero k p q e b le = refl
    window-set_miss xs v idx h (suc n) zero p q e b le = absurd (omega arith)
    window-set_miss xs v idx h (suc n) (suc k) p q e b le =
        let next = next_cases h cap q in
        ap₂ ◌∷◌ (get_or-set_ne xs idx h v (omega arith)) (
          window-set_miss xs v idx ((h + 1) % cap) n k p (omega arith) (omega arith) (omega arith)
            (omega arith))

    -- A write at the `i`-th place of the window changes the `i`-th element.
    pub window-set :
        (xs : List A) (v : A) (h n i idx : ℕ)
        → cap ≤ length xs
        → h < cap
        → n ≤ cap
        → i < n
        → idx ≡ (h + i) % cap
        → window (set xs idx v) h n ≡ set (window xs h n) i v
    window-set xs v h zero i idx s p q b e = absurd (omega arith)
    window-set xs v h (suc n) zero idx s p q b e =
        let e' : idx ≡ h = e ∙ (ap (λ k. k % cap) (omega arith) ∙ mod-eq_of_lt p) in
        let next = next_cases h cap p in
        ap₂ ◌∷◌ (rw e' (get_or-set_self xs h v (omega arith))) (
          window-set_miss xs v idx ((h + 1) % cap) n (cap - 1) (omega arith) (omega arith)
            (omega arith) (omega arith) (omega arith))
    window-set xs v h (suc n) (suc i) idx s p q b e =
        let next = next_cases h cap p in
        ap₂ ◌∷◌
          (get_or-set_ne xs idx h v (rw e (round_ne h (suc i) cap p (omega arith) (omega arith))))
          (window-set xs v ((h + 1) % cap) n i idx s (omega arith) (omega arith) (omega arith)
            (e ∙ sym (add_step h i)))

    -- A write at the place behind the window extends it.
    pub window-append :
        (xs : List A) (v : A) (h n idx : ℕ)
        → cap ≤ length xs
        → h < cap
        → n < cap
        → idx ≡ (h + n) % cap
        → window (set xs idx v) h (suc n) ≡ window xs h n ++ (v ∷ [])
    window-append xs v h n idx s p q e =
        window-set xs v h (suc n) n idx s p q (omega arith) e
        ∙ ap (λ l. set l n v) (window_snoc xs h n p)
        ∙ set-append_end (window xs h n) (get_or xs ((h + n) % cap) d) v n
            (sym (length-window xs h n))

    pub get_or-window :
        (xs : List A) (h n i : ℕ)
        → h < cap
        → i < n
        → get_or (window xs h n) i d ≡ get_or xs ((h + i) % cap) d
    get_or-window xs h zero i p b = absurd (omega arith)
    get_or-window xs h (suc n) zero p b =
        ap (λ k. get_or xs k d) (sym (ap (λ k. k % cap) (omega arith) ∙ mod-eq_of_lt p))
    get_or-window xs h (suc n) (suc i) p b =
        get_or-window xs ((h + 1) % cap) n i (omega arith) (omega arith)
        ∙ ap (λ k. get_or xs k d) (add_step h i)
