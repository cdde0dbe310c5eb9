-- ===== src/StringBuilder/Tests.antt =====
-- The string builder's theorems at a concrete builder.
use zireael.Prelude.{false, some, [], ◌∷◌, arith}
use zireael.StringBuilder.{StringBuilder, sb_write_bytes}
use zireael.StringBuilder.Writes.{IsValid, WriteOutcome, sb_write_bytes-WriteOutcome}

abbrev two_bytes : StringBuilder
two_bytes = record { buf = 104 ∷ 105 ∷ 0 ∷ 0 ∷ 0 ∷ 0 ∷ []; cap = 6; len = 2; truncated = false }

two_bytes-IsValid : IsValid two_bytes
two_bytes-IsValid = record { held = omega arith; size = omega arith; inside = omega arith }

sb_write_bytes-WriteOutcome_example :
    WriteOutcome two_bytes (33 ∷ 33 ∷ []) (sb_write_bytes (some two_bytes) (33 ∷ 33 ∷ 34 ∷ []) 2)
sb_write_bytes-WriteOutcome_example =
    sb_write_bytes-WriteOutcome two_bytes two_bytes-IsValid (33 ∷ 33 ∷ 34 ∷ []) 2 (omega arith)
