-- ===== src/Ring/Init.antt =====
-- zr_ring_init: the ring over the caller's storage.
use zireael.Prelude.{
  ℕ, zero, suc, ◌*◌, ◌^◌, ◌≤◌, ◌<◌, ◌≡◌, ◌≢◌, refl, sym, inl, inr, true, List, [], some, length,
  is_nil_lem, arith, ◌!=◌, if◌then◌else◌,
}
use zireael.Result.{zr_ok}
use zireael.Ring.{Ring, ring_init}
use zireael.Ring.Fifo.{IsValid, items}
use native.Mathlib.Nat.{mod-eq_of_lt}

cap_bound : (cap size : ℕ) → size ≢ 0 → cap ≤ cap * size
cap_bound cap size h = grind arith

abbrev fresh : List ℕ → ℕ → ℕ → Ring
fresh backing cap elem_size = record {
  data_bytes = if cap != 0 then backing else [];
  cap = cap;
  len = 0;
  head = 0;
  tail = 0;
  elem_size = elem_size;
}

fresh-IsValid :
    (backing : List ℕ) (cap elem_size : ℕ)
    → elem_size ≢ 0
    → cap * elem_size ≤ length backing
    → length backing < 2 ^ 64
    → IsValid (fresh backing cap elem_size)
fresh-IsValid backing zero elem_size sized held size = record {
  sized = sized;
  held = omega arith;
  size = omega arith;
  cap_size = omega arith;
  within = omega arith;
  placed = inl refl;
}
fresh-IsValid backing (suc n) elem_size sized held size =
    let b = cap_bound (suc n) elem_size sized in
    let given : (suc n != 0) ≡ true = ground arith in
    record {
      sized = sized;
      held = rw given held;
      size = rw given size;
      cap_size = omega arith;
      within = omega arith;
      placed = inr (omega arith, sym (mod-eq_of_lt (omega arith)));
    }

ring_init_eq :
    (r : Ring) (backing : List ℕ) (cap elem_size : ℕ)
    → elem_size ≢ 0
    → cap * elem_size ≤ length backing
    → ring_init (some r) backing cap elem_size ≡ (zr_ok, some (fresh backing cap elem_size))
unfolding ring_init
ring_init_eq r backing cap elem_size sized held =
    let b = cap_bound cap elem_size sized in ground (arith, is_nil_lem backing)

-- Initialised over storage that holds `cap` elements of `elem_size` bytes, the size not 0 and the
-- storage below 2^64 bytes, a ring is valid, has no elements and has the capacity `cap`.
pub ring_init-IsValid :
    (r : Ring) (backing : List ℕ) (cap elem_size : ℕ)
    → elem_size ≢ 0
    → cap * elem_size ≤ length backing
    → length backing < 2 ^ 64
    → (r' : Ring) × (ring_init (some r) backing cap elem_size ≡ (zr_ok, some r'))
      × IsValid r'
      × (items r' ≡ [])
      × (r'.cap ≡ cap)
ring_init-IsValid r backing cap elem_size sized held size = (
  fresh backing cap elem_size,
  ring_init_eq r backing cap elem_size sized held,
  fresh-IsValid backing cap elem_size sized held size,
  refl,
  refl,
)
