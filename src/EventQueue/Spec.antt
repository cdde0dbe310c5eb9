-- ===== src/EventQueue/Spec.antt =====
-- The abstract queue: a list of at most `cap` items, oldest first.
use zireael.Prelude.{
  ℕ, Bool, ◌&&◌, ◌||◌, Option, none, some, List, [], ◌∷◌, ◌++◌, ◌==◌, if◌then◌else◌, length,
}
use zireael.Result.{ZrResult, zr_ok, zr_err_limit}
use zireael.Event.{EventBody, is_resize_body, is_mouse_coalescible_body}
use zireael.EventQueue.Items.{Item}

-- Two bodies of one coalescible kind.
abbrev pub coalesces : EventBody → EventBody → Bool
coalesces new old =
    (is_resize_body new && is_resize_body old)
    || (is_mouse_coalescible_body new && is_mouse_coalescible_body old)

-- Replaces the newest item that the new one coalesces with; `none` where there is no such item.
unfoldable pub replace_last : Item → List Item → Option (List Item)
replace_last x [] = none
replace_last x (y ∷ ys) = elim (replace_last x ys) [
  | some zs ↦ some (y ∷ zs)
  | none ↦ if coalesces x.body y.body then some (x ∷ ys) else none
]

-- The list without its oldest item when it has reached the capacity.
unfoldable pub drop_oldest : ℕ → List Item → List Item
drop_oldest cap [] = []
drop_oldest cap (x ∷ xs) = if length (x ∷ xs) == cap then xs else x ∷ xs

unfoldable pub push : ℕ → Item → List Item → List Item
unfolding replace_last drop_oldest
push cap x xs = elim (replace_last x xs) [ some ys ↦ ys | none ↦ drop_oldest cap xs ++ (x ∷ []) ]

unfoldable pub try_push : ℕ → Item → List Item → ZrResult × List Item
unfolding replace_last
try_push cap x xs = elim (replace_last x xs) [
  | some ys ↦ (zr_ok, ys)
  | none ↦ if length xs == cap then (zr_err_limit, xs) else (zr_ok, xs ++ (x ∷ []))
]
