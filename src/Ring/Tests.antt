-- ===== src/Ring/Tests.antt =====
-- Runs of the ring, and its theorems at a concrete ring.
use zireael.Prelude.{ℕ, ◌≤◌, ◌≡◌, refl, ◌⊎◌, inr, true, none, some, List, [], ◌∷◌, arith}
use zireael.Result.{zr_ok, zr_err_limit}
use zireael.Ring.{Ring, ring_push, ring_pop}
use zireael.Ring.Fifo.{IsValid, items, ring_push-append, ring_pop-first}

-- Three elements of two bytes, of which one, the last slot's, is in use.
abbrev pairs : Ring
pairs = record {
  data_bytes = 1 ∷ 2 ∷ 3 ∷ 4 ∷ 5 ∷ 6 ∷ [];
  cap = 3;
  len = 1;
  head = 2;
  tail = 0;
  elem_size = 2;
}

pairs-IsValid : IsValid pairs
pairs-IsValid = record {
  sized = λ e. omega (arith, e);
  held = omega arith;
  size = omega arith;
  cap_size = omega arith;
  within = omega arith;
  placed = inr (omega arith, omega arith);
}

ring_push-append_example :
    ((3 ≤ 1) × (ring_push (some pairs) (8 ∷ 9 ∷ []) ≡ (zr_err_limit, some pairs)))
    ⊎ ((r' : Ring) × (ring_push (some pairs) (8 ∷ 9 ∷ []) ≡ (zr_ok, some r'))
        × IsValid r'
        × (items r' ≡ (5 ∷ 6 ∷ []) ∷ (8 ∷ 9 ∷ []) ∷ []))
ring_push-append_example = ring_push-append pairs pairs-IsValid (8 ∷ 9 ∷ []) refl

ring_pop-first_example :
    ((pairs.len ≡ 0) × (ring_pop (some pairs) true ≡ (none, some pairs)))
    ⊎ ((first : List ℕ) × (r' : Ring) × (ring_pop (some pairs) true ≡ (some first, some r'))
        × IsValid r'
        × ((5 ∷ 6 ∷ []) ∷ [] ≡ first ∷ items r'))
ring_pop-first_example = ring_pop-first pairs pairs-IsValid
