-- ===== src/InputParser/Keys.antt =====
-- The sequences by which xterm reports special keys (its "PC-Style Function Keys"), for the input
-- parser.
use zireael.Prelude.{ℕ, ◌+◌, Bool, true, false, List, [], ◌∷◌, ◌++◌, ltb, ◌==◌, if◌then◌else◌}

-- The keys that are reported with modifiers: cursor keys, and keys with a number and a tilde.
pub data SpecialKey : Type 0 where
  up_key : SpecialKey
  down_key : SpecialKey
  right_key : SpecialKey
  left_key : SpecialKey
  home_key : SpecialKey
  end_key : SpecialKey
  insert_key : SpecialKey
  delete_key : SpecialKey
  page_up_key : SpecialKey
  page_down_key : SpecialKey
  f5_key : SpecialKey
  f6_key : SpecialKey
  f7_key : SpecialKey
  f8_key : SpecialKey
  f9_key : SpecialKey
  f10_key : SpecialKey
  f11_key : SpecialKey
  f12_key : SpecialKey

-- The modifiers that are held: Shift, Alt, Control and Meta.
pub data Held : Type 0 where
  held : (shift alt ctrl meta : Bool) → Held

abbrev bit : Bool → ℕ → ℕ
bit true n = n
bit false n = 0

-- 1 + Shift 1, Alt 2, Control 4, Meta 8
abbrev modifier_param : Held → ℕ
modifier_param (held shift alt ctrl meta) = 1 + bit shift 1 + bit alt 2 + bit ctrl 4 + bit meta 8

-- ZR_MOD_SHIFT 1, ZR_MOD_CTRL 2, ZR_MOD_ALT 4, ZR_MOD_META 8
abbrev pub mod_bits : Held → ℕ
mod_bits (held shift alt ctrl meta) = bit shift 1 + bit ctrl 2 + bit alt 4 + bit meta 8

-- A number below 20 in decimal.
abbrev digits : ℕ → List ℕ
digits n = if ltb n 10 then (48 + n) ∷ [] else 49 ∷ (38 + n) ∷ []

-- The byte that ends the sequence, and the number in front of it.
abbrev final_of : SpecialKey → ℕ
final_of up_key = 65
final_of down_key = 66
final_of right_key = 67
final_of left_key = 68
final_of home_key = 72
final_of end_key = 70
final_of insert_key = 126
final_of delete_key = 126
final_of page_up_key = 126
final_of page_down_key = 126
final_of f5_key = 126
final_of f6_key = 126
final_of f7_key = 126
final_of f8_key = 126
final_of f9_key = 126
final_of f10_key = 126
final_of f11_key = 126
final_of f12_key = 126

abbrev number_of : SpecialKey → List ℕ
number_of up_key = 49 ∷ []
number_of down_key = 49 ∷ []
number_of right_key = 49 ∷ []
number_of left_key = 49 ∷ []
number_of home_key = 49 ∷ []
number_of end_key = 49 ∷ []
number_of insert_key = 50 ∷ []
number_of delete_key = 51 ∷ []
number_of page_up_key = 53 ∷ []
number_of page_down_key = 54 ∷ []
number_of f5_key = 49 ∷ 53 ∷ []
number_of f6_key = 49 ∷ 55 ∷ []
number_of f7_key = 49 ∷ 56 ∷ []
number_of f8_key = 49 ∷ 57 ∷ []
number_of f9_key = 50 ∷ 48 ∷ []
number_of f10_key = 50 ∷ 49 ∷ []
number_of f11_key = 50 ∷ 51 ∷ []
number_of f12_key = 50 ∷ 52 ∷ []

-- The number of a cursor key is left out when no modifier is held.
abbrev plain_number : SpecialKey → List ℕ
plain_number k = if final_of k == 126 then number_of k else []

-- ESC [ number ; modifiers final, or ESC [ number final
abbrev pub key_sequence : SpecialKey → Held → List ℕ
key_sequence k m =
    0x1B
    ∷ 91
    ∷ ((if modifier_param m == 1
          then plain_number k
          else number_of k ++ (59 ∷ digits (modifier_param m)))
        ++ (final_of k ∷ []))

-- zr_key_t
abbrev pub code_of : SpecialKey → ℕ
code_of up_key = 20
code_of down_key = 21
code_of right_key = 23
code_of left_key = 22
code_of home_key = 12
code_of end_key = 13
code_of insert_key = 10
code_of delete_key = 11
code_of page_up_key = 14
code_of page_down_key = 15
code_of f5_key = 104
code_of f6_key = 105
code_of f7_key = 106
code_of f8_key = 107
code_of f9_key = 108
code_of f10_key = 109
code_of f11_key = 110
code_of f12_key = 111
