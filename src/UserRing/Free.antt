-- ===== src/UserRing/Free.antt =====
-- zr_evq_user_free_head_locked: freeing the oldest slot leaves the layout of the others, and its
-- assertions hold.
use zireael.Prelude.{ℕ, ◌+◌, ◌-◌, ◌≤◌, ◌<◌, ◌≡◌, refl, List, [], ◌∷◌, ◌++◌, arith}
use mathlib.Core.List.{head-eq_of_cons-eq, tail-eq_of_cons-eq}
use zireael.UserRing.{UserRing, user_free_head}
use zireael.UserRing.Layout.{
  Slot, Chain, IsFlat, IsWrapped, Layout, flat, wrapped, IsRing, Chain-le,
}

-- An empty run ends where it begins, and a run that begins where it ends is empty.
Chain-closed : (a : ℕ) (ss : List Slot) → Chain a ss a → ss ≡ []
Chain-closed a [] h = refl
Chain-closed a (s ∷ ss) (e, q, c) = absurd (omega (arith, Chain-le (a + s.len) ss a c))

-- The indices after a call, one by one.
record IndicesAre (r r' : UserRing) (head tail used pad : ℕ) : Type 0 where
  bytes_eq : r'.user_bytes ≡ r.user_bytes
  cap_eq : r'.user_bytes_cap ≡ r.user_bytes_cap
  head_eq : r'.user_head ≡ head
  tail_eq : r'.user_tail ≡ tail
  used_eq : r'.user_used ≡ used
  pad_eq : r'.user_pad_end ≡ pad

module _ (r : UserRing) (v : IsRing r) (n : ℕ) (p : 0 < n) where
  flat_indices :
      r.user_used + r.user_head ≡ r.user_tail
      → r.user_tail ≤ r.user_bytes_cap
      → r.user_pad_end ≡ 0
      → r.user_head + n < r.user_tail
      → IndicesAre r (user_free_head r n) (r.user_head + n) r.user_tail (r.user_used - n) 0
  unfolding user_free_head
  flat_indices f t d h = ground arith

  drained_indices :
      r.user_used ≡ n
      → r.user_head + n ≤ r.user_bytes_cap
      → r.user_pad_end ≡ 0
      → IndicesAre r (user_free_head r n) 0 0 0 0
  unfolding user_free_head
  drained_indices f t d = ground arith

  front_indices :
      r.user_used + r.user_head ≡ r.user_bytes_cap + r.user_tail
      → r.user_tail ≤ r.user_head
      → r.user_head + n + r.user_pad_end < r.user_bytes_cap
      → IndicesAre r
          (user_free_head r n)
          (r.user_head + n)
          r.user_tail
          (r.user_used - n)
          r.user_pad_end
  unfolding user_free_head
  front_indices f a h = ground arith

  last_indices :
      r.user_used + r.user_head ≡ r.user_bytes_cap + r.user_tail
      → r.user_tail ≤ r.user_head
      → r.user_head + n + r.user_pad_end ≡ r.user_bytes_cap
      → IndicesAre r (user_free_head r n) 0 r.user_tail r.user_tail 0
  unfolding user_free_head
  last_indices f a h = ground arith

module _ (r : UserRing) (v : IsRing r) (s : Slot) where
  -- The oldest of one run.
  free_flat : (ss : List Slot) → IsFlat r (s ∷ ss) → Layout (user_free_head r s.len) ss
  free_flat [] f =
      let i =
        drained_indices r v s.len f.chain.1 (omega (arith, f.chain)) (omega (arith, f.chain))
          f.no_pad in
      flat (record {
        chain = omega arith;
        ordered = omega arith;
        tail_in = omega arith;
        filled = omega arith;
        no_pad = omega arith;
        idle = omega arith;
      })
  free_flat (t ∷ ss) f =
      let le : r.user_head + s.len + t.len ≤ r.user_tail = Chain-le _ ss _ f.chain.2.2 in
      let i =
        flat_indices r v s.len f.chain.1 f.filled f.tail_in f.no_pad (omega (arith, f.chain)) in
      flat (record {
        chain = rw (i.head_eq, i.tail_eq) f.chain.2;
        ordered = omega arith;
        tail_in = omega arith;
        filled = omega arith;
        no_pad = omega arith;
        idle = omega arith;
      })

  -- The oldest of two runs, with more of the first run behind it.
  free_front :
      (t : Slot) (ss back : List Slot)
      → IsWrapped r (s ∷ t ∷ ss) back
      → IsWrapped (user_free_head r s.len) (t ∷ ss) back
  free_front t ss back f =
      let le : r.user_head + s.len + t.len ≤ r.user_bytes_cap - r.user_pad_end =
        Chain-le _ ss _ f.older.2.2 in
      let i = front_indices r v s.len f.older.1 f.filled f.apart (omega (arith, f.older)) in
      record {
        older = rw (i.head_eq, i.cap_eq, i.pad_eq) f.older.2;
        newer = rw i.tail_eq f.newer;
        apart = omega arith;
        pad_in = omega (arith, f.older);
        filled = omega (arith, f.older);
      }

  -- The last of the first run: the second becomes the only one.
  free_last : (back : List Slot) → IsWrapped r (s ∷ []) back → IsFlat (user_free_head r s.len) back
  free_last back f =
      let i = last_indices r v s.len f.older.1 f.filled f.apart (omega (arith, f.older)) in
      record {
        chain = rw (i.head_eq, i.tail_eq) f.newer;
        ordered = omega arith;
        tail_in = omega arith;
        filled = omega arith;
        no_pad = omega arith;
        idle = omega arith;
      }

user_free_head-kept :
    (r : UserRing) (n : ℕ)
    → ((user_free_head r n).user_bytes ≡ r.user_bytes)
      × ((user_free_head r n).user_bytes_cap ≡ r.user_bytes_cap)
unfolding user_free_head
user_free_head-kept r n = ground arith

-- What freeing the oldest slot `s` means: the assertions of the C code, and the layout behind it.
pub record Freed (r : UserRing) (s : Slot) (ss : List Slot) (r' : UserRing) : Type 0 where
  pub at_head : s.off ≡ r.user_head
  pub covered : s.len ≤ r.user_used
  pub inside : s.off + s.len ≤ r.user_bytes_cap
  pub layout : Layout r' ss
  pub same_bytes : r'.user_bytes ≡ r.user_bytes
  pub same_cap : r'.user_bytes_cap ≡ r.user_bytes_cap

free_wrapped :
    (r : UserRing) (s : Slot) (front back : List Slot)
    → IsRing r
    → IsWrapped r (s ∷ front) back
    → Layout (user_free_head r s.len) (front ++ back)
free_wrapped r s [] back v f = flat (free_last r v s back f)
free_wrapped r s (t ∷ front) back v f =
    wrapped (t ∷ front) back refl (free_front r v s t front back f)

wrapped-Freed :
    (r : UserRing) (s : Slot) (front back : List Slot)
    → IsRing r
    → IsWrapped r (s ∷ front) back
    → Freed r s (front ++ back) (user_free_head r s.len)
wrapped-Freed r s front back v f =
    let le : r.user_head + s.len ≤ r.user_bytes_cap - r.user_pad_end =
      Chain-le _ front _ f.older.2 in
    record {
      at_head = f.older.0;
      covered = omega arith;
      inside = omega (arith, f.older);
      layout = free_wrapped r s front back v f;
      same_bytes = (user_free_head-kept r s.len).0;
      same_cap = (user_free_head-kept r s.len).1;
    }

-- In a ring with a layout, freeing the oldest slot satisfies what the C code asserts (the slot is at
-- the head, and no more than what is used), leaves the layout of the other slots, any pad skipped,
-- and keeps the bytes and the capacity.
pub user_free_head-Freed :
    (r : UserRing) (s : Slot) (ss : List Slot)
    → IsRing r
    → Layout r (s ∷ ss)
    → Freed r s ss (user_free_head r s.len)
user_free_head-Freed r s ss v (flat f) =
    let le : r.user_head + s.len ≤ r.user_tail = Chain-le _ ss _ f.chain.2 in
    record {
      at_head = f.chain.0;
      covered = omega arith;
      inside = omega (arith, f.chain);
      layout = free_flat r v s ss f;
      same_bytes = (user_free_head-kept r s.len).0;
      same_cap = (user_free_head-kept r s.len).1;
    }
user_free_head-Freed r s ss v (wrapped [] back q f) = absurd (omega (arith, f.older))
user_free_head-Freed r s ss v (wrapped (t ∷ front) back q f) =
    rw (head-eq_of_cons-eq q, tail-eq_of_cons-eq q) (wrapped-Freed r t front back v f)
