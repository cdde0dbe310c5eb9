-- ===== src/Vec/Tests.antt =====
-- The vector's theorems at a concrete vector.
use zireael.Prelude.{[], ◌∷◌, arith}
use zireael.Vec.{Vec}
use zireael.Vec.Items.{IsValid}

abbrev pairs : Vec
pairs = record { data_bytes = 1 ∷ 2 ∷ 3 ∷ 4 ∷ 5 ∷ 6 ∷ []; len = 2; cap = 3; elem_size = 2 }

pairs-IsValid : IsValid pairs
pairs-IsValid = record {
  sized = λ e. omega (arith, e);
  held = omega arith;
  size = omega arith;
  cap_size = omega arith;
  within = omega arith;
}
