-- ===== src/UserRing/Moves.antt =====
-- The ways in which zr_evq_user_alloc_locked moves the indices, and the layout behind each.
use zireael.Prelude.{
  ℕ, ◌+◌, ◌-◌, ◌≤◌, ◌<◌, ◌≡◌, refl, List, [], ◌∷◌, ◌++◌, arith, append_assoc, append-nil, sym,
}
use zireael.UserRing.{UserRing}
use zireael.UserRing.Layout.{Slot, IsFlat, IsWrapped, Layout, flat, wrapped, Chain-append}

abbrev pub slot_of : ℕ → ℕ → Slot
slot_of o n = record { off = o; len = n }

-- The four ways in which a grant moves the indices, from `r` to `r'`.
module _ (r r' : UserRing) (n o : ℕ) where
  -- At the tail, with room left behind it.
  pub record AtEnd : Type 0 where
    pub off : o ≡ r.user_tail
    pub room : r.user_tail + n < r.user_bytes_cap
    pub tail : r'.user_tail ≡ r.user_tail + n
    pub used : r'.user_used ≡ r.user_used + n
    pub pad : r'.user_pad_end ≡ r.user_pad_end

  -- At the tail, up to the end of the storage.
  pub record ToBrim : Type 0 where
    pub off : o ≡ r.user_tail
    pub room : r.user_tail + n ≡ r.user_bytes_cap
    pub tail : r'.user_tail ≡ 0
    pub used : r'.user_used ≡ r.user_used + n
    pub pad : r'.user_pad_end ≡ r.user_pad_end

  -- At the start, with the bytes behind the tail as pad.
  pub record ToStart : Type 0 where
    pub off : o ≡ 0
    pub over : r.user_bytes_cap - r.user_tail < n
    pub room : n ≤ r.user_head
    pub tail : r'.user_tail ≡ n
    pub pad : r'.user_pad_end ≡ r.user_bytes_cap - r.user_tail
    pub used : r'.user_used ≡ r.user_used + (r.user_bytes_cap - r.user_tail) + n

  -- Between the tail and the head.
  pub record InMiddle : Type 0 where
    pub off : o ≡ r.user_tail
    pub room : r.user_tail + n ≤ r.user_head
    pub tail : r'.user_tail ≡ r.user_tail + n
    pub used : r'.user_used ≡ r.user_used + n
    pub pad : r'.user_pad_end ≡ r.user_pad_end

  -- What no grant touches.
  pub record IsKept : Type 0 where
    pub bytes : r'.user_bytes ≡ r.user_bytes
    pub cap : r'.user_bytes_cap ≡ r.user_bytes_cap
    pub head : r'.user_head ≡ r.user_head

module _ (r r' : UserRing) (n o : ℕ) (p : 0 < n) (k : IsKept r r' n o) where
  pub at_end :
      (slots : List Slot)
      → IsFlat r slots
      → AtEnd r r' n o
      → Layout r' (slots ++ (slot_of o n ∷ []))
  at_end slots f h = flat (record {
    chain = rw (k.head, h.off, h.tail) (Chain-append r.user_head slots r.user_tail n f.chain p);
    ordered = omega arith;
    tail_in = omega arith;
    filled = omega arith;
    no_pad = omega arith;
    idle = omega arith;
  })

  pub to_brim :
      (slots : List Slot)
      → IsFlat r slots
      → ToBrim r r' n o
      → Layout r' (slots ++ (slot_of o n ∷ []))
  to_brim slots f h =
      let brim : r'.user_bytes_cap - r'.user_pad_end ≡ r.user_tail + n = omega arith in
      wrapped (slots ++ (slot_of o n ∷ [])) [] (sym (append-nil _)) (record {
        older = rw (k.head, h.off, brim) (Chain-append r.user_head slots r.user_tail n f.chain p);
        newer = omega arith;
        apart = omega arith;
        pad_in = omega arith;
        filled = omega arith;
      })

  pub to_start :
      (slots : List Slot)
      → IsFlat r slots
      → ToStart r r' n o
      → Layout r' (slots ++ (slot_of o n ∷ []))
  to_start slots f h =
      let brim : r'.user_bytes_cap - r'.user_pad_end ≡ r.user_tail = omega (arith, f.tail_in) in
      wrapped slots (slot_of o n ∷ []) refl (record {
        older = rw (k.head, brim) f.chain;
        newer = omega arith;
        apart = omega arith;
        pad_in = omega arith;
        filled = omega arith;
      })

  pub in_middle :
      (slots front back : List Slot)
      → slots ≡ front ++ back
      → IsWrapped r front back
      → InMiddle r r' n o
      → Layout r' (slots ++ (slot_of o n ∷ []))
  in_middle slots front back q f h =
      wrapped front (back ++ (slot_of o n ∷ [])) (rw q (append_assoc front back (slot_of o n ∷ [])))
        (record {
          older = rw (k.head, k.cap, h.pad) f.older;
          newer = rw (h.off, h.tail) (Chain-append 0 back r.user_tail n f.newer p);
          apart = omega arith;
          pad_in = omega arith;
          filled = omega arith;
        })
