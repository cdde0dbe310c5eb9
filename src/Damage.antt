-- ===== src/Damage.antt =====
-- src/core/zr_damage.c and zr_damage.h: the changed regions of a frame as a bounded list of
-- rectangles. A tracker that is NULL is `none`; the storage is a list of rectangles, NULL the empty
-- one.
pub mod Cover
pub mod Span
pub mod AddSpan
pub mod Count
mod Tests
use zireael.Prelude.{
  is_nil, ℕ, zero, suc, ◌+◌, ◌-◌, ◌*◌, ◌%◌, ◌^◌, Bool, true, false, not, ◌&&◌, ◌||◌, Option, none,
  some, List, [], get_or, set, ltb, leb, ◌==◌, ◌!=◌, if◌then◌else◌,
}
use zireael.Result.{u32_max}
use zireael.Checked.{checked_mul_size}

-- zr_damage_rect_t
pub record DamageRect : Type 0 where
  pub x0 : ℕ
  pub y0 : ℕ
  pub x1 : ℕ
  pub y1 : ℕ
  pub link : ℕ

abbrev pub zero_rect : DamageRect
zero_rect = record { x0 = 0; y0 = 0; x1 = 0; y1 = 0; link = 0 }

-- zr_damage_t, without its pad bytes
pub record Damage : Type 0 where
  pub rects : List DamageRect
  pub rect_cap : ℕ
  pub rect_count : ℕ
  pub cols : ℕ
  pub rows : ℕ
  pub full_frame : ℕ

-- zr_damage_begin_frame
unfoldable pub damage_begin_frame : Option Damage → List DamageRect → ℕ → ℕ → ℕ → Option Damage
damage_begin_frame none storage storage_cap cols rows = none
damage_begin_frame (some d) storage storage_cap cols rows = some (record {
  rects = storage;
  rect_cap = storage_cap;
  rect_count = 0;
  cols = cols;
  rows = rows;
  full_frame = 0;
})

-- zr_damage_mark_full; its callers have tested `d`.
unfoldable pub damage_mark_full : Damage → Damage
damage_mark_full d =
    if is_nil d.rects || (d.rect_cap == 0) || (d.cols == 0) || (d.rows == 0)
    then record d { full_frame = 1; rect_count = 0 }
    else record d {
      full_frame = 1;
      rects =
          set d.rects 0
            (record { x0 = 0; y0 = 0; x1 = d.cols - 1; y1 = d.rows - 1; link = u32_max });
      rect_count = 1;
    }

-- The loop of zr_damage_add_span over the `n` rectangles from index `i` on: the storage after the
-- first match has been extended, or `none` without a match.
abbrev pub extend_match : List DamageRect → ℕ → ℕ → ℕ → ℕ → ℕ → Option (List DamageRect)
extend_match rects y x0 x1 i zero = none
extend_match rects y x0 x1 i (suc n) =
    let r = get_or rects i zero_rect in
    let rest = extend_match rects y x0 x1 (i + 1) n in
    if (r.x0 != x0) || (r.x1 != x1)
    then rest
    else if (r.y1 + 1) % 2 ^ 32 != y
    then rest
    else some (set rects i (record r { y1 = y }))

-- zr_damage_add_span from its loop on
unfoldable pub add_clipped : Damage → ℕ → ℕ → ℕ → Damage
add_clipped d y x0 x1 = elim (extend_match d.rects y x0 x1 0 d.rect_count) [
  | some rects ↦ record d { rects = rects }
  | none ↦ if leb d.rect_cap d.rect_count then damage_mark_full d else record d {
    rects = set d.rects d.rect_count (record { x0 = x0; y0 = y; x1 = x1; y1 = y; link = u32_max });
    rect_count = (d.rect_count + 1) % 2 ^ 32;
  }
]

-- zr_damage_add_span, once `d` is known to be given
unfoldable pub add_span_given : Damage → ℕ → ℕ → ℕ → Damage
add_span_given d y x0 x1 =
    if d.full_frame != 0
    then d
    else if is_nil d.rects || (d.rect_cap == 0)
    then damage_mark_full d
    else if (d.cols == 0) || (d.rows == 0)
    then damage_mark_full d
    else if leb d.rows y
    then damage_mark_full d
    else if ltb x1 x0 || leb d.cols x0
    then d
    else add_clipped d y x0 (if leb d.cols x1 then d.cols - 1 else x1)

-- zr_damage_add_span
unfoldable pub damage_add_span : Option Damage → ℕ → ℕ → ℕ → Option Damage
damage_add_span none y x0 x1 = none
damage_add_span (some d) y x0 x1 = some (add_span_given d y x0 x1)

-- The loop of zr_damage_cells over the `n` rectangles from index `i` on.
abbrev pub sum_cells : List DamageRect → ℕ → ℕ → ℕ → ℕ
sum_cells rects i zero sum = sum % 2 ^ 32
sum_cells rects i (suc n) sum =
    let r = get_or rects i zero_rect in
    let w = (r.x1 + 2 ^ 32 - r.x0 + 1) % 2 ^ 32 in
    let h = (r.y1 + 2 ^ 32 - r.y0 + 1) % 2 ^ 32 in
    let sum' = (sum + w * h % 2 ^ 64) % 2 ^ 64 in
    let skipped = sum_cells rects (i + 1) n sum in
    let added = sum_cells rects (i + 1) n sum' in
    if ltb r.x1 r.x0 || ltb r.y1 r.y0 then skipped else if ltb u32_max sum' then u32_max else added

-- zr_damage_cells
unfoldable pub damage_cells : Option Damage → ℕ
damage_cells none = 0
damage_cells (some d) =
    if d.full_frame != 0
    then elim (checked_mul_size d.cols d.rows) [
      | none ↦ u32_max
      | some cells ↦ if ltb u32_max cells then u32_max else cells % 2 ^ 32
    ]
    else sum_cells d.rects 0 d.rect_count 0
