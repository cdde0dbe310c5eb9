-- ===== src/Prelude/Cells.antt =====
-- Storage of elements of one size: the bytes as a list of elements.
use zireael.Prelude.{
  ℕ, zero, suc, ◌+◌, ◌*◌, ◌≤◌, ◌<◌, ◌≡◌, refl, sym, ap, ap₂, ◌∙◌, List, [], ◌∷◌, length, take, drop,
  set, get_or, arith, length-drop,
}
use zireael.Prelude.Buffer.{write_at, slice}

-- `n` elements of `size` bytes.
abbrev pub cells : ℕ → List ℕ → ℕ → List (List ℕ)
cells size buf zero = []
cells size buf (suc n) = take size buf ∷ cells size (drop size buf) n

pub length-cells : (size : ℕ) (buf : List ℕ) (n : ℕ) → length (cells size buf n) ≡ n
length-cells size buf zero = refl
length-cells size buf (suc n) = ap suc (length-cells size (drop size buf) n)

drop-nil : (n : ℕ) → drop {A = ℕ} n [] ≡ []
drop-nil zero = refl
drop-nil (suc n) = refl

pub drop-drop : (a b : ℕ) (xs : List ℕ) → drop a (drop b xs) ≡ drop (b + a) xs
drop-drop a zero xs = let e : 0 + a ≡ a = omega arith in rw e refl
drop-drop zero (suc b) [] = sym (drop-nil (suc b + 0))
drop-drop (suc a) (suc b) [] = sym (drop-nil (suc b + suc a))
drop-drop a (suc b) (x ∷ xs) =
    let e : suc b + a ≡ suc (b + a) = omega arith in rw e (drop-drop a b xs)

-- The `i`-th element is the slice at its offset.
pub get_or-cells :
    (size : ℕ) (buf : List ℕ) (n i : ℕ)
    → i < n
    → get_or (cells size buf n) i [] ≡ slice buf (i * size) size
get_or-cells size buf zero i h = absurd (omega arith)
get_or-cells size buf (suc n) zero h = let e : 0 * size ≡ 0 = omega arith in rw e refl
get_or-cells size buf (suc n) (suc i) h =
    let e : suc i * size ≡ size + i * size = omega arith in
    rw e (
      get_or-cells size (drop size buf) n i (omega arith)
      ∙ ap (take size) (drop-drop (i * size) size buf))

take-write_at_behind :
    (n off : ℕ) (buf src : List ℕ) → n ≤ off → take n (write_at buf off src) ≡ take n buf
unfolding write_at
take-write_at_behind zero off buf src h = refl
take-write_at_behind (suc n) off [] src h = refl
take-write_at_behind (suc n) zero (x ∷ xs) src h = absurd (omega arith)
take-write_at_behind (suc n) (suc off) (x ∷ xs) src h =
    ap (λ l. x ∷ l) (take-write_at_behind n off xs src (omega arith))

drop-write_at_behind :
    (n off : ℕ) (buf src : List ℕ)
    → drop n (write_at buf (n + off) src) ≡ write_at (drop n buf) off src
unfolding write_at
drop-write_at_behind zero off buf src = let e : 0 + off ≡ off = omega arith in rw e refl
drop-write_at_behind (suc n) off [] src = refl
drop-write_at_behind (suc n) off (x ∷ xs) src =
    let e : suc n + off ≡ suc (n + off) = omega arith in rw e (drop-write_at_behind n off xs src)

take-write_at_own :
    (buf src : List ℕ) → length src ≤ length buf → take (length src) (write_at buf 0 src) ≡ src
unfolding write_at
take-write_at_own buf [] h = refl
take-write_at_own [] (y ∷ ys) h = absurd (omega arith)
take-write_at_own (x ∷ xs) (y ∷ ys) h = ap (λ l. y ∷ l) (take-write_at_own xs ys (omega arith))

drop-write_at_own :
    (buf src : List ℕ) → drop (length src) (write_at buf 0 src) ≡ drop (length src) buf
unfolding write_at
drop-write_at_own [] [] = refl
drop-write_at_own (x ∷ xs) [] = refl
drop-write_at_own [] (y ∷ ys) = refl
drop-write_at_own (x ∷ xs) (y ∷ ys) = drop-write_at_own xs ys

-- Writing an element's bytes replaces that element.
pub cells-write_at :
    (size : ℕ) (buf src : List ℕ) (n i : ℕ)
    → length src ≡ size
    → n * size ≤ length buf
    → i < n
    → cells size (write_at buf (i * size) src) n ≡ set (cells size buf n) i src
cells-write_at size buf src zero i e fits h = absurd (omega arith)
cells-write_at size buf src (suc n) zero e fits h =
    let e0 : 0 * size ≡ 0 = omega arith in
    rw (e0, ← e)
      (ap₂ ◌∷◌ (take-write_at_own buf src (omega arith))
        (ap (λ b. cells size b n) (drop-write_at_own buf src)))
cells-write_at size buf src (suc n) (suc i) e fits h =
    let split : suc i * size ≡ size + i * size = omega arith in
    rw split (
      ap₂ ◌∷◌ (take-write_at_behind size (size + i * size) buf src (omega arith)) (
        ap (λ b. cells size b n) (drop-write_at_behind size (i * size) buf src)
        ∙ cells-write_at size (drop size buf) src n i e (omega (arith, length-drop size buf))
            (omega arith)))
