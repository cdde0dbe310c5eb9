-- ===== src/Damage/Cover.antt =====
-- zr_damage_add_span: the cells that the tracker covers.
use zireael.Prelude.{
  is_nil, ℕ, zero, suc, ◌+◌, ◌-◌, ◌%◌, ◌^◌, ◌≤◌, ◌<◌, ◌≡◌, ◌≢◌, refl, sym, ◌∙◌, ◌⊎◌, inl, inr, Bool,
  true, false, ◌&&◌, ◌||◌, List, [], ◌∷◌, none, some, length, get_or, set, length-set, arith, ◌==◌,
  Bool-cases,
}
use zireael.Prelude.Window.{get_or-set_self}
use zireael.Result.{u32_max, IsU32}
use zireael.Damage.{DamageRect, Damage, zero_rect, damage_mark_full, extend_match}

pub true_ne_false : true ≢ false
true_ne_false e = ground (arith, e)

abbrev pub rect_at : Damage → ℕ → DamageRect
rect_at d i = get_or d.rects i zero_rect

-- The cell at column `x` and row `y` lies in the rectangle.
pub record Holds (r : DamageRect) (x y : ℕ) : Type 0 where
  pub left : r.x0 ≤ x
  pub right : x ≤ r.x1
  pub top : r.y0 ≤ y
  pub bottom : y ≤ r.y1

pub record Inside (cols rows : ℕ) (r : DamageRect) : Type 0 where
  pub wide : r.x0 ≤ r.x1
  pub tall : r.y0 ≤ r.y1
  pub right : r.x1 < cols
  pub bottom : r.y1 < rows

pub record IsValid (d : Damage) : Type 0 where
  pub cols_size : IsU32 d.cols
  pub rows_size : IsU32 d.rows
  pub cap_size : IsU32 d.rect_cap
  pub held : is_nil d.rects ≡ false → d.rect_cap ≤ length d.rects
  pub unheld : is_nil d.rects ≡ true → d.rect_count ≡ 0
  pub counted : d.rect_count ≤ d.rect_cap
  pub inside : (i : ℕ) → i < d.rect_count → Inside d.cols d.rows (rect_at d i)

-- The cell is to be drawn again.
pub data Covered (d : Damage) (x y : ℕ) : Type 0 where
  by_frame : d.full_frame ≢ 0 → Covered d x y
  by_rect : (i : ℕ) → i < d.rect_count → Holds (rect_at d i) x y → Covered d x y

pub record Added (d : Damage) (y x0 x1 : ℕ) (d' : Damage) : Type 0 where
  pub valid : IsValid d'
  pub kept : (x row : ℕ) → Covered d x row → Covered d' x row
  pub added : (x : ℕ) → x0 ≤ x → x ≤ x1 → x < d.cols → Covered d' x y
  pub exact :
      d'.full_frame ≡ 0
      → (x row : ℕ) → Covered d' x row
      → Covered d x row ⊎ ((row ≡ y) × (x0 ≤ x) × (x ≤ x1))

-- A full frame covers every cell.
pub full-Added : (d d' : Damage) (y x0 x1 : ℕ) → IsValid d' → d'.full_frame ≢ 0 → Added d y x0 x1 d'
full-Added d d' y x0 x1 v full = record {
  valid = v;
  kept = λ x row c. by_frame full;
  added = λ x lo hi w. by_frame full;
  exact = λ e. absurd (full e);
}

whole_frame : ℕ → ℕ → DamageRect
whole_frame cols rows = record { x0 = 0; y0 = 0; x1 = cols - 1; y1 = rows - 1; link = u32_max }

no_storage : Damage → Bool
no_storage d = is_nil d.rects || (d.rect_cap == 0) || (d.cols == 0) || (d.rows == 0)

mark_full_empty :
    (d : Damage)
    → no_storage d ≡ true
    → damage_mark_full d ≡ record d { full_frame = 1; rect_count = 0 }
unfolding damage_mark_full no_storage
mark_full_empty d h = ground (arith, h)

mark_full_whole :
    (d : Damage)
    → no_storage d ≡ false
    → damage_mark_full d ≡ record d {
      full_frame = 1;
      rects = set d.rects 0 (whole_frame d.cols d.rows);
      rect_count = 1;
    }
unfolding damage_mark_full no_storage whole_frame
mark_full_whole d h = ground (arith, h)

pub is_nil-set :
    (rects : List DamageRect) (i : ℕ) (r : DamageRect) → is_nil (set rects i r) ≡ is_nil rects
is_nil-set [] i r = refl
is_nil-set (x ∷ xs) zero r = refl
is_nil-set (x ∷ xs) (suc i) r = refl

pub mark_full-Added : (d : Damage) (y x0 x1 : ℕ) → IsValid d → Added d y x0 x1 (damage_mark_full d)
unfolding no_storage whole_frame
mark_full-Added d y x0 x1 v = elim (Bool-cases (no_storage d)) [
  | inl h ↦ rw (mark_full_empty d h) (
      full-Added d _ y x0 x1
        (record {
          cols_size = v.cols_size;
          rows_size = v.rows_size;
          cap_size = v.cap_size;
          held = v.held;
          unheld = λ e. refl;
          counted = omega arith;
          inside = λ i b. absurd (omega (arith, b));
        })
        (λ e. omega (arith, e)))
  | inr h ↦
      let wide : d.cols ≢ 0 = ground (arith, h) in
      let tall : d.rows ≢ 0 = ground (arith, h) in
      let given : is_nil d.rects ≡ false = ground (arith, h) in
      let cap : d.rect_cap ≢ 0 = ground (arith, h) in
      rw (mark_full_whole d h) (
        full-Added d _ y x0 x1
          (record {
            cols_size = v.cols_size;
            rows_size = v.rows_size;
            cap_size = v.cap_size;
            held = λ e. rw (length-set d.rects 0 (whole_frame d.cols d.rows)) (v.held given);
            unheld = λ e.
                absurd (
                  true_ne_false (sym e ∙ is_nil-set d.rects 0 (whole_frame d.cols d.rows) ∙ given));
            counted = omega arith;
            inside = λ i b.
                let zeroth : i ≡ 0 = omega (arith, b) in
                rw
                  (
                    zeroth,
                    get_or-set_self zero_rect d.rects 0 (whole_frame d.cols d.rows)
                        (omega (arith, v.held given)),
                  )
                  (record {
                    wide = omega arith;
                    tall = omega arith;
                    right = omega arith;
                    bottom = omega arith;
                  });
          })
          (λ e. omega (arith, e)))
]

abbrev pub IsMatch : List DamageRect → ℕ → ℕ → ℕ → ℕ → Type 0
IsMatch rects y x0 x1 k =
    ((get_or rects k zero_rect).x0 ≡ x0)
    × ((get_or rects k zero_rect).x1 ≡ x1)
    × (((get_or rects k zero_rect).y1 + 1) % 2 ^ 32 ≡ y)

abbrev pub extended : List DamageRect → ℕ → ℕ → List DamageRect
extended rects y k = set rects k (record (get_or rects k zero_rect) { y1 = y })

abbrev test : List DamageRect → ℕ → ℕ → ℕ → ℕ → Bool
test rects y x0 x1 k =
    ((get_or rects k zero_rect).x0 == x0)
    && ((get_or rects k zero_rect).x1 == x1)
    && (((get_or rects k zero_rect).y1 + 1) % 2 ^ 32 == y)

match_here :
    (rects : List DamageRect) (y x0 x1 i n : ℕ)
    → test rects y x0 x1 i ≡ true
    → extend_match rects y x0 x1 i (suc n) ≡ some (extended rects y i)
match_here rects y x0 x1 i n h = ground (arith, h)

match_later :
    (rects : List DamageRect) (y x0 x1 i n : ℕ)
    → test rects y x0 x1 i ≡ false
    → extend_match rects y x0 x1 i (suc n) ≡ extend_match rects y x0 x1 (i + 1) n
match_later rects y x0 x1 i n h = ground (arith, h)

-- The first match of the loop, if there is one.
pub extend_match_lem :
    (rects : List DamageRect) (y x0 x1 i n : ℕ)
    → (extend_match rects y x0 x1 i n ≡ none)
      ⊎ ((k : ℕ) × (k < i + n)
          × IsMatch rects y x0 x1 k
          × (extend_match rects y x0 x1 i n ≡ some (extended rects y k)))
extend_match_lem rects y x0 x1 i zero = inl refl
extend_match_lem rects y x0 x1 i (suc n) = elim (Bool-cases (test rects y x0 x1 i)) [
  | inl h ↦ inr (
    i,
    omega arith,
    (ground (arith, h), ground (arith, h), ground (arith, h)),
    match_here rects y x0 x1 i n h,
  )
  | inr h ↦ elim (extend_match_lem rects y x0 x1 (i + 1) n) [
    | inl e ↦ inl (match_later rects y x0 x1 i n h ∙ e)
    | inr (k, b, m, e) ↦ inr (k, omega (arith, b), m, match_later rects y x0 x1 i n h ∙ e)
  ]
]
