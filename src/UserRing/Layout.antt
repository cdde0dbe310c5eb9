-- ===== src/UserRing/Layout.antt =====
-- How the payloads in the queue lie in the ring: in FIFO order they fill it from head to tail, in
-- one run, or in two runs with the pad behind the first.
use zireael.Prelude.{ℕ, ◌+◌, ◌-◌, ◌^◌, ◌≤◌, ◌<◌, ◌≡◌, ◌⊎◌, List, [], ◌∷◌, ◌++◌, arith, length}
use zireael.UserRing.{UserRing}

-- A payload: its offset and its length.
pub record Slot : Type 0 where
  pub off : ℕ
  pub len : ℕ

-- The slots follow one another from `a` up to `b`, and none is empty.
abbrev pub Chain : ℕ → List Slot → ℕ → Type 0
Chain a [] b = a ≡ b
Chain a (s ∷ ss) b = (s.off ≡ a) × (0 < s.len) × Chain (a + s.len) ss b

-- The slots lie between `a` and `b`.
abbrev pub Within : ℕ → ℕ → List Slot → Type 0
Within a b [] = Unit {0}
Within a b (s ∷ ss) = (a ≤ s.off) × (s.off + s.len ≤ b) × Within a b ss

-- The range of `n` bytes at `o` meets none of the slots.
abbrev pub Apart : ℕ → ℕ → List Slot → Type 0
Apart o n [] = Unit {0}
Apart o n (s ∷ ss) = ((s.off + s.len ≤ o) ⊎ (o + n ≤ s.off)) × Apart o n ss

-- One run.
pub record IsFlat (r : UserRing) (slots : List Slot) : Type 0 where
  pub chain : Chain r.user_head slots r.user_tail
  pub ordered : r.user_head ≤ r.user_tail
  pub tail_in : r.user_tail ≤ r.user_bytes_cap
  pub filled : r.user_used + r.user_head ≡ r.user_tail
  pub no_pad : r.user_pad_end ≡ 0
  pub idle : (0 < r.user_used) ⊎ (r.user_tail ≡ 0)

-- Two runs; the older is not empty.
pub record IsWrapped (r : UserRing) (front back : List Slot) : Type 0 where
  pub older : Chain r.user_head front (r.user_bytes_cap - r.user_pad_end)
  pub newer : Chain 0 back r.user_tail
  pub apart : r.user_tail ≤ r.user_head
  pub pad_in : r.user_head + r.user_pad_end < r.user_bytes_cap
  pub filled : r.user_used + r.user_head ≡ r.user_bytes_cap + r.user_tail

pub data Layout (r : UserRing) (slots : List Slot) : Type 0 where
  flat : IsFlat r slots → Layout r slots
  wrapped :
      (front back : List Slot) → slots ≡ front ++ back → IsWrapped r front back → Layout r slots

-- The ring's own bounds.
pub record IsRing (r : UserRing) : Type 0 where
  pub storage : r.user_bytes_cap ≤ length r.user_bytes
  pub cap_u32 : r.user_bytes_cap < 2 ^ 32

pub Chain-append :
    (a : ℕ) (ss : List Slot) (b n : ℕ)
    → Chain a ss b
    → 0 < n
    → Chain a (ss ++ (record { off = b; len = n } ∷ [])) (b + n)
Chain-append a [] b n h p = omega arith
Chain-append a (s ∷ ss) b n (e, q, c) p = (e, q, Chain-append (a + s.len) ss b n c p)

pub Chain-le : (a : ℕ) (ss : List Slot) (b : ℕ) → Chain a ss b → a ≤ b
Chain-le a [] b h = omega arith
Chain-le a (s ∷ ss) b (e, q, c) = omega (arith, Chain-le (a + s.len) ss b c)

pub Within-mono :
    (a a' b b' : ℕ) (ss : List Slot) → a' ≤ a → b ≤ b' → Within a b ss → Within a' b' ss
Within-mono a a' b b' [] p q h = tt
Within-mono a a' b b' (s ∷ ss) p q (u, v, h) =
    (omega arith, omega arith, Within-mono a a' b b' ss p q h)

pub Chain-Within : (a : ℕ) (ss : List Slot) (b : ℕ) → Chain a ss b → Within a b ss
Chain-Within a [] b h = tt
Chain-Within a (s ∷ ss) b (e, q, c) = (
  omega arith,
  omega (arith, Chain-le (a + s.len) ss b c),
  Within-mono (a + s.len) a b b ss (omega arith) (omega arith) (Chain-Within (a + s.len) ss b c),
)

-- A range before a run, or after it, meets none of its slots.
pub Within-Apart :
    (a b o n : ℕ) (ss : List Slot) → Within a b ss → (b ≤ o) ⊎ (o + n ≤ a) → Apart o n ss
Within-Apart a b o n [] w h = tt
Within-Apart a b o n (s ∷ ss) (u, v, w) h = (omega arith, Within-Apart a b o n ss w h)

pub Apart-append :
    (o n : ℕ) (ss ts : List Slot) → Apart o n ss → Apart o n ts → Apart o n (ss ++ ts)
Apart-append o n [] ts h k = k
Apart-append o n (s ∷ ss) ts (p, h) k = (p, Apart-append o n ss ts h k)
