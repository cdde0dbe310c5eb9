-- ===== src/UserRing/Exact.antt =====
-- zr_evq_user_alloc_locked grants exactly what fits in one free run of the ring.
use zireael.Prelude.{
  is_nil, ℕ, ◌+◌, ◌-◌, ◌<◌, length, ◌≡◌, refl, List, [], ◌∷◌, arith, none, some, Option, Bool, true,
  false, ◌||◌, leb, ◌==◌, if◌then◌else◌,
}
use zireael.UserRing.{UserRing, alloc_end, alloc_mid, restart_empty, user_alloc}
use zireael.UserRing.Layout.{Slot, IsFlat, IsWrapped, Layout, flat, wrapped, IsRing}

-- The run behind the tail or the one before the head where the live bytes are one run, the run
-- between tail and head where they are two.
abbrev pub has_run : UserRing → ℕ → Bool
has_run r n =
    if r.user_used + r.user_head == r.user_tail
    then leb n (r.user_bytes_cap - r.user_tail) || leb n r.user_head
    else leb n (r.user_head - r.user_tail)

abbrev pub granted : Option ℕ → Bool
granted none = false
granted (some o) = true

stored_nil : (bytes : List ℕ) → is_nil bytes ≡ true → length bytes ≡ 0
stored_nil [] h = refl
stored_nil (x ∷ xs) h = absurd (ground (arith, h))

flat-has_run :
    (r : UserRing) (slots : List Slot) (n : ℕ)
    → IsRing r
    → IsFlat r slots
    → 0 < n
    → granted (user_alloc r n).0 ≡ has_run r n
unfolding user_alloc alloc_end alloc_mid restart_empty
flat-has_run r slots n v f p = ground (arith, stored_nil r.user_bytes)

wrapped-has_run :
    (r : UserRing) (front back : List Slot) (n : ℕ)
    → IsRing r
    → IsWrapped r front back
    → 0 < n
    → granted (user_alloc r n).0 ≡ has_run r n
unfolding user_alloc alloc_end alloc_mid restart_empty
wrapped-has_run r front back n v f p = ground (arith, stored_nil r.user_bytes)

-- In a ring with a layout, a request of a positive size is granted exactly when one free run is long
-- enough: behind the tail or before the head where the live bytes are one run, between tail and head
-- where they wrap.
pub user_alloc-has_run :
    (r : UserRing) (slots : List Slot) (n : ℕ)
    → IsRing r
    → Layout r slots
    → 0 < n
    → granted (user_alloc r n).0 ≡ has_run r n
user_alloc-has_run r slots n v (flat f) p = flat-has_run r slots n v f p
user_alloc-has_run r slots n v (wrapped front back q f) p = wrapped-has_run r front back n v f p
