-- ===== src/UserRing/Alloc.antt =====
-- zr_evq_user_alloc_locked: a granted range is free, inside the storage, and extends the layout.
use zireael.Prelude.{
  ℕ, ◌+◌, ◌-◌, ◌≤◌, ◌<◌, ◌≡◌, refl, ◌⊎◌, inl, inr, List, [], ◌∷◌, ◌++◌, arith, none, some,
}
use zireael.UserRing.{UserRing, alloc_end, alloc_mid, restart_empty, user_alloc}
use zireael.UserRing.Layout.{
  Slot, Apart, IsFlat, IsWrapped, Layout, flat, wrapped, IsRing, Chain-Within, Within-Apart,
  Apart-append,
}
use zireael.UserRing.Moves.{
  AtEnd, ToBrim, ToStart, InMiddle, IsKept, at_end, to_brim, to_start, in_middle,
}

-- What a granted range of `n` bytes at `o` means.
pub record Granted (r : UserRing) (slots : List Slot) (n o : ℕ) (r' : UserRing) : Type 0 where
  pub layout : Layout r' (slots ++ (record { off = o; len = n } ∷ []))
  pub inside : o + n ≤ r.user_bytes_cap
  pub free : Apart o n slots
  pub same_bytes : r'.user_bytes ≡ r.user_bytes
  pub same_cap : r'.user_bytes_cap ≡ r.user_bytes_cap

flat-Apart :
    (r : UserRing) (slots : List Slot) (n o : ℕ)
    → IsFlat r slots
    → (r.user_tail ≤ o) ⊎ (o + n ≤ r.user_head)
    → Apart o n slots
flat-Apart r slots n o f h =
    Within-Apart r.user_head r.user_tail o n slots (Chain-Within _ _ _ f.chain) h

wrapped-Apart :
    (r : UserRing) (slots front back : List Slot) (n o : ℕ)
    → slots ≡ front ++ back
    → IsWrapped r front back
    → r.user_tail ≤ o
    → o + n ≤ r.user_head
    → Apart o n slots
wrapped-Apart r slots front back n o q f h k = rw q (
    Apart-append o n front back
      (Within-Apart r.user_head (r.user_bytes_cap - r.user_pad_end) o n front
        (Chain-Within _ _ _ f.older) (inr k))
      (Within-Apart 0 r.user_tail o n back (Chain-Within _ _ _ f.newer) (inl h)))

alloc_end_ways :
    (r : UserRing) (slots : List Slot) (n o : ℕ)
    → IsRing r
    → IsFlat r slots
    → 0 < n
    → n + r.user_used ≤ r.user_bytes_cap
    → (alloc_end r n).0 ≡ some o
    → let r' = (alloc_end r n).1 in
      IsKept r r' n o × (AtEnd r r' n o ⊎ (ToBrim r r' n o ⊎ ToStart r r' n o))
unfolding alloc_end
alloc_end_ways r slots n o v f p fits e = ground arith

alloc_mid_ways :
    (r : UserRing) (front back : List Slot) (n o : ℕ)
    → IsRing r
    → IsWrapped r front back
    → 0 < n
    → (alloc_mid r n).0 ≡ some o
    → let r' = (alloc_mid r n).1 in IsKept r r' n o × InMiddle r r' n o
unfolding alloc_mid
alloc_mid_ways r front back n o v f p e = ground arith

alloc_end-flat :
    (r : UserRing) (slots : List Slot) (n o : ℕ)
    → IsRing r
    → IsFlat r slots
    → 0 < n
    → n + r.user_used ≤ r.user_bytes_cap
    → (alloc_end r n).0 ≡ some o
    → Granted r slots n o (alloc_end r n).1
alloc_end-flat r slots n o v f p fits e =
    let r' = (alloc_end r n).1 in
    let (k, ways) = alloc_end_ways r slots n o v f p fits e in
    record {
      layout = elim ways [
        | inl h ↦ at_end r r' n o p k slots f h
        | inr (inl h) ↦ to_brim r r' n o p k slots f h
        | inr (inr h) ↦ to_start r r' n o p k slots f h
      ];
      inside = omega arith;
      free = flat-Apart r slots n o f (omega arith);
      same_bytes = k.bytes;
      same_cap = k.cap;
    }

alloc_mid-wrapped :
    (r : UserRing) (slots front back : List Slot) (n o : ℕ)
    → IsRing r
    → slots ≡ front ++ back
    → IsWrapped r front back
    → 0 < n
    → (alloc_mid r n).0 ≡ some o
    → Granted r slots n o (alloc_mid r n).1
alloc_mid-wrapped r slots front back n o v q f p e =
    let (k, h) = alloc_mid_ways r front back n o v f p e in
    record {
      layout = in_middle r (alloc_mid r n).1 n o p k slots front back q f h;
      inside = omega arith;
      free = wrapped-Apart r slots front back n o q f (omega arith) (omega arith);
      same_bytes = k.bytes;
      same_cap = k.cap;
    }

user_alloc-flat :
    (r : UserRing) (slots : List Slot) (n o : ℕ)
    → IsRing r
    → IsFlat r slots
    → 0 < n
    → (user_alloc r n).0 ≡ some o
    → (n + r.user_used ≤ r.user_bytes_cap) × (user_alloc r n ≡ alloc_end (restart_empty r) n)
unfolding user_alloc
user_alloc-flat r slots n o v f p e = ground arith

user_alloc-wrapped :
    (r : UserRing) (front back : List Slot) (n o : ℕ)
    → IsRing r
    → IsWrapped r front back
    → 0 < n
    → (user_alloc r n).0 ≡ some o
    → user_alloc r n ≡ alloc_mid r n
unfolding user_alloc
user_alloc-wrapped r front back n o v f p e = ground arith

-- In a flat layout an empty ring has its head and tail together already.
restart_empty-flat : (r : UserRing) (slots : List Slot) → IsFlat r slots → restart_empty r ≡ r
unfolding restart_empty
restart_empty-flat r slots f = ground arith

-- In a ring with a layout of live slots, a grant of a positive size lies inside the storage, meets no
-- live slot and becomes the newest slot of the layout; the bytes and the capacity stay.
pub user_alloc-Granted :
    (r : UserRing) (slots : List Slot) (n o : ℕ)
    → IsRing r
    → Layout r slots
    → 0 < n
    → (user_alloc r n).0 ≡ some o
    → Granted r slots n o (user_alloc r n).1
user_alloc-Granted r slots n o v (flat f) p e =
    let (fits, q) = user_alloc-flat r slots n o v f p e in
    let q' : user_alloc r n ≡ alloc_end r n = rw (restart_empty-flat r slots f) at q in
    rw q' (alloc_end-flat r slots n o v f p fits (rw q' at e))
user_alloc-Granted r slots n o v (wrapped front back q f) p e =
    rw (user_alloc-wrapped r front back n o v f p e) (
      alloc_mid-wrapped r slots front back n o v q f p
        (rw (user_alloc-wrapped r front back n o v f p e) at e))

-- No bytes are always granted, and nothing changes.
pub user_alloc_zero : (r : UserRing) → user_alloc r 0 ≡ (some r.user_tail, r)
unfolding user_alloc
user_alloc_zero r = refl

refused_flat :
    (r : UserRing) (slots : List Slot) (n : ℕ)
    → IsFlat r slots
    → (user_alloc r n).0 ≡ none
    → (user_alloc r n).1 ≡ r
unfolding user_alloc alloc_end alloc_mid
refused_flat r slots n f e = ground arith

refused_wrapped :
    (r : UserRing) (front back : List Slot) (n : ℕ)
    → IsWrapped r front back
    → (user_alloc r n).0 ≡ none
    → (user_alloc r n).1 ≡ r
unfolding user_alloc alloc_end alloc_mid
refused_wrapped r front back n f e = ground arith

-- A refusal leaves a ring with a layout as it was.
pub user_alloc_refused :
    (r : UserRing) (slots : List Slot) (n : ℕ)
    → Layout r slots
    → (user_alloc r n).0 ≡ none
    → (user_alloc r n).1 ≡ r
user_alloc_refused r slots n (flat f) e = refused_flat r slots n f e
user_alloc_refused r slots n (wrapped front back q f) e = refused_wrapped r front back n f e
