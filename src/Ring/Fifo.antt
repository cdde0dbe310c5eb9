-- ===== src/Ring/Fifo.antt =====
-- zr_ring.c against a list of elements: push appends, pop takes the first, reset empties.
use zireael.Prelude.{
  is_nil, is_nil_lem, ℕ, suc, ◌+◌, ◌-◌, ◌*◌, ◌%◌, ◌^◌, ◌≤◌, ◌<◌, ◌≡◌, ◌≢◌, sym, ap, ap₂, ◌∙◌, ◌⊎◌,
  inl, inr, true, false, List, [], ◌∷◌, ◌++◌, none, some, length, set, arith, leb, ◌==◌, Bool-cases,
  leb→le,
}
use zireael.Prelude.Buffer.{write_at, slice, length-write_at}
use zireael.Prelude.Window.{window, window-append, window_step}
use zireael.Prelude.Cells.{cells, length-cells, get_or-cells, cells-write_at}
use zireael.Result.{zr_ok, zr_err_limit}
use zireael.Checked.Laws.{checked_mul_size_lem}
use zireael.Ring.{Ring, ring_advance, ring_push, ring_pop}
use native.Mathlib.Nat.{mod-add-mod, mod-lt}

pub record IsValid (r : Ring) : Type 0 where
  pub sized : r.elem_size ≢ 0
  pub held : r.cap * r.elem_size ≤ length r.data_bytes
  pub size : length r.data_bytes < 2 ^ 64
  pub cap_size : r.cap < 2 ^ 64
  pub within : r.len ≤ r.cap
  pub placed : (r.cap ≡ 0) ⊎ ((r.head < r.cap) × (r.tail ≡ (r.head + r.len) % r.cap))

-- The elements in the order of their push.
abbrev pub items : Ring → List (List ℕ)
items r = window [] r.cap (cells r.elem_size r.data_bytes r.cap) r.head r.len

-- A slot's offset stays inside the storage.
slot_bound : (i cap size : ℕ) → i < cap → i * size + size ≤ cap * size
slot_bound i cap size h = grind arith

module _ (r : Ring) (v : IsValid r) where
  head_inside : r.cap ≢ 0 → r.head < r.cap
  head_inside h = elim v.placed [ inl e ↦ absurd (h e) | inr (p, e) ↦ p ]

  tail_eq : r.cap ≢ 0 → r.tail ≡ (r.head + r.len) % r.cap
  tail_eq h = elim v.placed [ inl e ↦ absurd (h e) | inr (p, e) ↦ e ]

  tail_inside : r.cap ≢ 0 → r.tail < r.cap
  tail_inside h = rw (tail_eq h) (mod-lt (r.head + r.len) (omega arith))

  -- One step on, without the wrap of size_t.
  advance_eq :
      (i k : ℕ) → r.cap ≢ 0 → i < r.cap → i ≡ k % r.cap → ring_advance i r.cap ≡ (k + 1) % r.cap
  advance_eq i k h p e =
      let small : (i + 1) % 2 ^ 64 ≡ i + 1 = omega (arith, v) in
      rw (small, e) (mod-add-mod k r.cap 1)

  module _ (elem : List ℕ) (whole : length elem ≡ r.elem_size) where
    abbrev pushed : Ring
    pushed = record r {
      data_bytes = write_at r.data_bytes (r.tail * r.elem_size) elem;
      tail = ring_advance r.tail r.cap;
      len = r.len + 1;
    }

    not_nil : is_nil elem ≡ false
    not_nil = is_nil_lem elem (omega (arith, whole, v.sized))

    ring_push_room : r.len < r.cap → ring_push (some r) elem ≡ (zr_ok, some pushed)
    unfolding ring_push
    ring_push_room h =
        let t = tail_inside (omega arith) in
        let b = slot_bound r.tail r.cap r.elem_size t in
        ground (arith, not_nil, checked_mul_size_lem r.tail r.elem_size, v)

    ring_push_full : r.cap ≤ r.len → ring_push (some r) elem ≡ (zr_err_limit, some r)
    unfolding ring_push
    ring_push_full h = ground (arith, not_nil)

    pushed-IsValid : r.len < r.cap → IsValid pushed
    pushed-IsValid h = record {
      sized = v.sized;
      held = omega (arith, v, length-write_at r.data_bytes (r.tail * r.elem_size) elem);
      size = omega (arith, v, length-write_at r.data_bytes (r.tail * r.elem_size) elem);
      cap_size = v.cap_size;
      within = omega arith;
      placed = inr (
        head_inside (omega arith),
        advance_eq r.tail (r.head + r.len) (omega arith) (tail_inside (omega arith))
              (tail_eq (omega arith))
            ∙ ap (λ k. k % r.cap) (omega arith),
      );
    }

    pushed-items : r.len < r.cap → items pushed ≡ items r ++ (elem ∷ [])
    pushed-items h =
        let one : r.len + 1 ≡ suc r.len = omega arith in
        let cs = cells r.elem_size r.data_bytes r.cap in
        ap (λ l. window [] r.cap l r.head (r.len + 1))
          (cells-write_at r.elem_size r.data_bytes elem r.cap r.tail whole v.held
            (tail_inside (omega arith)))
        ∙ ap (λ n. window [] r.cap (set cs r.tail elem) r.head n) one
        ∙ window-append [] r.cap cs elem r.head r.len r.tail
            (omega (arith, length-cells r.elem_size r.data_bytes r.cap)) (head_inside (omega arith))
            h (tail_eq (omega arith))

    -- On a valid ring and an element of the ring's size: a full ring is refused with ZR_ERR_LIMIT
    -- and left as it was; otherwise the element becomes the last one and the ring stays valid.
    pub ring_push-append :
        ((r.cap ≤ r.len) × (ring_push (some r) elem ≡ (zr_err_limit, some r)))
        ⊎ ((r' : Ring) × (ring_push (some r) elem ≡ (zr_ok, some r'))
            × IsValid r'
            × (items r' ≡ items r ++ (elem ∷ [])))
    ring_push-append = elim (Bool-cases (leb r.cap r.len)) [
      | inl h ↦ inl (leb→le _ _ h, ring_push_full (leb→le _ _ h))
      | inr h ↦
          let room : r.len < r.cap = ground (arith, h) in
          inr (pushed, ring_push_room room, pushed-IsValid room, pushed-items room)
    ]

  abbrev popped : Ring
  popped = record r { head = ring_advance r.head r.cap; len = r.len - 1 }

  ring_pop-none : r.len ≡ 0 → ring_pop (some r) true ≡ (none, some r)
  unfolding ring_pop
  ring_pop-none h = ground (arith, h)

  advance_head_eq : r.cap ≢ 0 → ring_advance r.head r.cap ≡ (r.head + 1) % r.cap
  advance_head_eq h =
      let p = head_inside h in
      let small : (r.head + 1) % 2 ^ 64 ≡ r.head + 1 = omega (arith, v) in ap (λ k. k % r.cap) small

  ring_pop-some :
      r.len ≢ 0
      → ring_pop (some r) true
        ≡ (some (slice r.data_bytes (r.head * r.elem_size) r.elem_size), some popped)
  unfolding ring_pop
  ring_pop-some h =
      let p = head_inside (omega (arith, v)) in
      let b = slot_bound r.head r.cap r.elem_size p in
      ground (arith, checked_mul_size_lem r.head r.elem_size, v)

  popped-IsValid : r.len ≢ 0 → IsValid popped
  popped-IsValid h =
      let head_eq = advance_head_eq (omega (arith, v)) in
      let tail_kept : r.tail ≡ (ring_advance r.head r.cap + (r.len - 1)) % r.cap =
        tail_eq (omega (arith, v))
        ∙ ap (λ k. k % r.cap) (omega arith)
        ∙ sym (mod-add-mod (r.head + 1) r.cap (r.len - 1))
        ∙ ap (λ k. (k + (r.len - 1)) % r.cap) (sym head_eq) in
      record {
        sized = v.sized;
        held = v.held;
        size = v.size;
        cap_size = v.cap_size;
        within = omega (arith, v);
        placed = inr (rw head_eq (mod-lt (r.head + 1) (omega (arith, v))), tail_kept);
      }

  popped-items :
      r.len ≢ 0 → items r ≡ slice r.data_bytes (r.head * r.elem_size) r.elem_size ∷ items popped
  popped-items h =
      let cs = cells r.elem_size r.data_bytes r.cap in
      window_step [] r.cap cs r.head r.len h
      ∙ ap₂ ◌∷◌
          (get_or-cells r.elem_size r.data_bytes r.cap r.head (head_inside (omega (arith, v))))
          (ap (λ k. window [] r.cap cs k (r.len - 1)) (sym (advance_head_eq (omega (arith, v)))))

  -- On a valid ring, a pop into a given buffer fails exactly when no element is left, and changes
  -- nothing then; otherwise it yields the first element, the others stay in order, and the ring
  -- stays valid.
  pub ring_pop-first :
      ((r.len ≡ 0) × (ring_pop (some r) true ≡ (none, some r)))
      ⊎ ((first : List ℕ) × (r' : Ring) × (ring_pop (some r) true ≡ (some first, some r'))
          × IsValid r'
          × (items r ≡ first ∷ items r'))
  ring_pop-first = elim (Bool-cases (r.len == 0)) [
    | inl h ↦ inl (ground (arith, h), ring_pop-none (ground (arith, h)))
    | inr h ↦
        let some_left : r.len ≢ 0 = ground (arith, h) in
        inr (
          slice r.data_bytes (r.head * r.elem_size) r.elem_size,
          popped,
          ring_pop-some some_left,
          popped-IsValid some_left,
          popped-items some_left,
        )
  ]
