-- ===== src/Vec/Items.antt =====
-- zr_vec.c against a list of elements: push and pop at its end, and the place of an element.
use zireael.Prelude.{
  is_nil_lem, ℕ, zero, suc, ◌+◌, ◌-◌, ◌*◌, ◌^◌, ◌≤◌, ◌<◌, ◌≡◌, ◌≢◌, refl, sym, ap, ◌∙◌, ◌⊎◌, inl,
  inr, true, List, [], ◌∷◌, ◌++◌, none, some, length, take, get_or, set, arith, leb, ◌==◌,
  Bool-cases, leb→le,
}
use zireael.Prelude.Buffer.{write_at, slice, length-write_at}
use zireael.Prelude.Cells.{cells, length-cells, get_or-cells, cells-write_at}
use zireael.Result.{zr_ok, zr_err_limit}
use zireael.Checked.Laws.{checked_mul_size_lem}
use zireael.Vec.{Vec, vec_push, vec_pop, vec_at, vec_get_offset}

pub record IsValid (v : Vec) : Type 0 where
  pub sized : v.elem_size ≢ 0
  pub held : v.cap * v.elem_size ≤ length v.data_bytes
  pub size : length v.data_bytes < 2 ^ 64
  pub cap_size : v.cap < 2 ^ 64
  pub within : v.len ≤ v.cap

abbrev pub items : Vec → List (List ℕ)
items v = take v.len (cells v.elem_size v.data_bytes v.cap)

module _ {ℓ} {A : Type ℓ} (d : A) where
  take-set_end :
      (xs : List A) (n : ℕ) (x : A)
      → n < length xs
      → take (suc n) (set xs n x) ≡ take n xs ++ (x ∷ [])
  take-set_end [] n x h = absurd (omega arith)
  take-set_end (y ∷ ys) zero x h = refl
  take-set_end (y ∷ ys) (suc n) x h = ap (λ l. y ∷ l) (take-set_end ys n x (omega arith))

  take-suc :
      (xs : List A) (n : ℕ) → n < length xs → take (suc n) xs ≡ take n xs ++ (get_or xs n d ∷ [])
  take-suc [] n h = absurd (omega arith)
  take-suc (y ∷ ys) zero h = refl
  take-suc (y ∷ ys) (suc n) h = ap (λ l. y ∷ l) (take-suc ys n (omega arith))

  get_or-take : (xs : List A) (n i : ℕ) → i < n → get_or (take n xs) i d ≡ get_or xs i d
  get_or-take xs zero i h = absurd (omega arith)
  get_or-take [] (suc n) i h = refl
  get_or-take (y ∷ ys) (suc n) zero h = refl
  get_or-take (y ∷ ys) (suc n) (suc i) h = get_or-take ys n i (omega arith)

slot_bound : (i cap size : ℕ) → i < cap → i * size + size ≤ cap * size
slot_bound i cap size h = grind arith

module _ (v : Vec) (valid : IsValid v) where
  abbrev stored : List (List ℕ)
  stored = cells v.elem_size v.data_bytes v.cap

  length-stored : length stored ≡ v.cap
  length-stored = length-cells v.elem_size v.data_bytes v.cap

  module _ (elem : List ℕ) (whole : length elem ≡ v.elem_size) where
    abbrev pushed : Vec
    pushed = record v {
      data_bytes = write_at v.data_bytes (v.len * v.elem_size) elem;
      len = v.len + 1;
    }

    vec_push_room : v.len < v.cap → vec_push (some v) elem ≡ (zr_ok, some pushed)
    unfolding vec_push
    vec_push_room h =
        let given = is_nil_lem elem (omega (arith, whole, valid.sized)) in
        let b = slot_bound v.len v.cap v.elem_size h in
        ground (arith, given, checked_mul_size_lem v.len v.elem_size, valid)

    vec_push_full : v.cap ≤ v.len → vec_push (some v) elem ≡ (zr_err_limit, some v)
    unfolding vec_push
    vec_push_full h =
        let given = is_nil_lem elem (omega (arith, whole, valid.sized)) in ground (arith, given)

    pushed-IsValid : v.len < v.cap → IsValid pushed
    pushed-IsValid h = record {
      sized = valid.sized;
      held = omega (arith, valid, length-write_at v.data_bytes (v.len * v.elem_size) elem);
      size = omega (arith, valid, length-write_at v.data_bytes (v.len * v.elem_size) elem);
      cap_size = valid.cap_size;
      within = omega arith;
    }

    pushed-items : v.len < v.cap → items pushed ≡ items v ++ (elem ∷ [])
    pushed-items h =
        let one : v.len + 1 ≡ suc v.len = omega arith in
        ap (take (v.len + 1))
          (cells-write_at v.elem_size v.data_bytes elem v.cap v.len whole valid.held h)
        ∙ ap (λ n. take n (set stored v.len elem)) one
        ∙ take-set_end [] stored v.len elem (omega (arith, length-stored))

    -- On a valid vector and an element of its size: a full vector is refused with ZR_ERR_LIMIT and
    -- left as it was; otherwise the element is added at the end and the vector stays valid.
    pub vec_push-append :
        ((v.cap ≤ v.len) × (vec_push (some v) elem ≡ (zr_err_limit, some v)))
        ⊎ ((v' : Vec) × (vec_push (some v) elem ≡ (zr_ok, some v'))
            × IsValid v'
            × (items v' ≡ items v ++ (elem ∷ [])))
    vec_push-append = elim (Bool-cases (leb v.cap v.len)) [
      | inl h ↦ inl (leb→le _ _ h, vec_push_full (leb→le _ _ h))
      | inr h ↦
          let room : v.len < v.cap = ground (arith, h) in
          inr (pushed, vec_push_room room, pushed-IsValid room, pushed-items room)
    ]

  abbrev popped : Vec
  popped = record v { len = v.len - 1 }

  abbrev last_slot : List ℕ
  last_slot = slice v.data_bytes ((v.len - 1) * v.elem_size) v.elem_size

  vec_pop-none : v.len ≡ 0 → vec_pop (some v) true ≡ (zr_err_limit, none, some v)
  unfolding vec_pop
  vec_pop-none h = ground (arith, h)

  vec_pop-some : v.len ≢ 0 → vec_pop (some v) true ≡ (zr_ok, some last_slot, some popped)
  unfolding vec_pop
  vec_pop-some h =
      let b = slot_bound (v.len - 1) v.cap v.elem_size (omega (arith, valid)) in
      ground (arith, checked_mul_size_lem (v.len - 1) v.elem_size, valid)

  popped-items : v.len ≢ 0 → items v ≡ items popped ++ (last_slot ∷ [])
  popped-items h =
      let one : v.len ≡ suc (v.len - 1) = omega arith in
      ap (λ n. take n stored) one
      ∙ take-suc [] stored (v.len - 1) (omega (arith, length-stored, valid))
      ∙ ap (λ e. items popped ++ (e ∷ []))
          (get_or-cells v.elem_size v.data_bytes v.cap (v.len - 1) (omega (arith, valid)))

  popped-IsValid : IsValid popped
  popped-IsValid = record {
    sized = valid.sized;
    held = valid.held;
    size = valid.size;
    cap_size = valid.cap_size;
    within = omega (arith, valid);
  }

  -- On a valid vector, a pop into a given buffer is refused with ZR_ERR_LIMIT exactly when it has no
  -- element, and changes nothing then; otherwise it yields the last element, the others stay, and
  -- the vector stays valid.
  pub vec_pop-last :
      ((v.len ≡ 0) × (vec_pop (some v) true ≡ (zr_err_limit, none, some v)))
      ⊎ ((last : List ℕ) × (v' : Vec) × (vec_pop (some v) true ≡ (zr_ok, some last, some v'))
          × IsValid v'
          × (items v ≡ items v' ++ (last ∷ [])))
  vec_pop-last = elim (Bool-cases (v.len == 0)) [
    | inl h ↦ inl (ground (arith, h), vec_pop-none (ground (arith, h)))
    | inr h ↦
        let left : v.len ≢ 0 = ground (arith, h) in
        inr (last_slot, popped, vec_pop-some left, popped-IsValid, popped-items left)
  ]

  vec_at_inside : (idx : ℕ) → idx < v.len → vec_at (some v) idx ≡ some (idx * v.elem_size)
  unfolding vec_at vec_get_offset
  vec_at_inside idx h =
      let b = slot_bound idx v.cap v.elem_size (omega (arith, valid)) in
      let given = is_nil_lem v.data_bytes (omega (arith, b, valid)) in
      ground (arith, given, checked_mul_size_lem idx v.elem_size, valid)

  vec_at_outside : (idx : ℕ) → v.len ≤ idx → vec_at (some v) idx ≡ none
  unfolding vec_at vec_get_offset
  vec_at_outside idx h = ground arith

  -- On a valid vector, an index out of range gives NULL, and one in range gives a pointer to the
  -- bytes of that element, which lie inside the storage.
  pub vec_at-items :
      (idx : ℕ)
      → ((v.len ≤ idx) × (vec_at (some v) idx ≡ none))
        ⊎ ((off : ℕ) × (vec_at (some v) idx ≡ some off)
            × (off + v.elem_size ≤ length v.data_bytes)
            × (slice v.data_bytes off v.elem_size ≡ get_or (items v) idx []))
  vec_at-items idx = elim (Bool-cases (leb v.len idx)) [
    | inl h ↦ inl (leb→le _ _ h, vec_at_outside idx (leb→le _ _ h))
    | inr h ↦
        let inside : idx < v.len = ground (arith, h) in
        let b = slot_bound idx v.cap v.elem_size (omega (arith, valid)) in
        inr (
          idx * v.elem_size,
          vec_at_inside idx inside,
          omega (arith, b, valid),
          sym (
              get_or-take [] stored v.len idx inside
              ∙ get_or-cells v.elem_size v.data_bytes v.cap idx (omega (arith, valid))),
        )
  ]
