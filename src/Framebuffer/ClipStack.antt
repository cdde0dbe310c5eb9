-- ===== src/Framebuffer/ClipStack.antt =====
-- The clip stack of src/core/zr_framebuffer.c and where the painter writes.
use zireael.Prelude.{
  ℕ, ◌+◌, ◌-◌, ◌%◌, ◌^◌, ◌≤◌, ◌<◌, ◌≡◌, refl, sym, ap, subst, ◌∙◌, true, ◌&&◌, ltb, arith, length,
  length-set, get_or, set, is_nil_lem,
}
use zireael.Prelude.Window.{get_or-set_self, get_or-set_ne}
use zireael.Result.{zr_ok}
use zireael.Framebuffer.{Rect, Fb, bounds_rect, rect_empty, rect_intersect, rect_contains}
use zireael.Framebuffer.Paint.{FbPainter, painter_clip_cur, clip_push, clip_pop, can_touch}
use zireael.Framebuffer.Clip.{IsRect, contains-intersect}

-- What zr_fb_clip_push does when the stack has room.
pushed :
    (p : FbPainter) (clip : Rect)
    → p.clip_len < p.clip_cap
    → p.clip_cap ≤ length p.clip_stack
    → clip_push p clip ≡ (
      zr_ok,
      record p {
        clip_stack =
            set p.clip_stack p.clip_len
              (rect_intersect (painter_clip_cur p) (rect_intersect (bounds_rect p.fb) clip));
        clip_len = (p.clip_len + 1) % 2 ^ 32;
      },
    )
unfolding clip_push
pushed p clip h k = ground (arith, h, k, is_nil_lem p.clip_stack)

-- The painter after a push, and what it then clips to.
abbrev pushed_on : FbPainter → Rect → FbPainter
pushed_on p next = record p {
  clip_stack = set p.clip_stack p.clip_len next;
  clip_len = (p.clip_len + 1) % 2 ^ 32;
}

-- A clip stack with room for one more.
pub record HasRoom (p : FbPainter) : Type 0 where
  pub begun : 0 < p.clip_len
  pub room : p.clip_len < p.clip_cap
  pub cap_word : p.clip_cap < 2 ^ 32
  pub held : p.clip_cap ≤ length p.clip_stack

clip_cur_lem :
    (p : FbPainter)
    → 0 < p.clip_len
    → 0 < length p.clip_stack
    → painter_clip_cur p ≡ get_or p.clip_stack (p.clip_len - 1) rect_empty
clip_cur_lem p h k = ground (arith, h, is_nil_lem p.clip_stack, k)

clip_cur-pushed :
    (p : FbPainter) (next : Rect) → HasRoom p → painter_clip_cur (pushed_on p next) ≡ next
clip_cur-pushed p next h =
    let last : (p.clip_len + 1) % 2 ^ 32 - 1 ≡ p.clip_len = omega (arith, h) in
    clip_cur_lem (pushed_on p next) (omega (arith, h))
      (omega (arith, h, length-set p.clip_stack p.clip_len next))
    ∙ ap (λ i. get_or (set p.clip_stack p.clip_len next) i rect_empty) last
    ∙ get_or-set_self rect_empty p.clip_stack p.clip_len next (omega (arith, h))

in_bounds :
    (fb : Fb) (x y : ℕ)
    → fb.cols < 2 ^ 31
    → fb.rows < 2 ^ 31
    → x < fb.cols
    → y < fb.rows
    → rect_contains (bounds_rect fb) x y ≡ true
unfolding rect_contains
in_bounds fb x y c r h k = ground (arith, c, r, h, k)

-- Where the painter writes, by its clip.
touch_lem :
    (p : FbPainter) (x y : ℕ)
    → p.fb.cols < 2 ^ 31
    → p.fb.rows < 2 ^ 31
    → can_touch p x y
      ≡ (ltb x p.fb.cols && ltb y p.fb.rows && rect_contains (painter_clip_cur p) x y)
unfolding can_touch
touch_lem p x y c r = ground (arith, c, r)

-- The painter after a push and a pop.
abbrev popped : FbPainter → Rect → FbPainter
popped p next = record (pushed_on p next) { clip_len = (p.clip_len + 1) % 2 ^ 32 - 1 }

pop_lem :
    (p : FbPainter) (next : Rect) → HasRoom p → clip_pop (pushed_on p next) ≡ (zr_ok, popped p next)
unfolding clip_pop
pop_lem p next h = ground (
  arith,
  h,
  is_nil_lem (set p.clip_stack p.clip_len next),
  length-set p.clip_stack p.clip_len next,
)

clip_cur-popped :
    (p : FbPainter) (next : Rect)
    → HasRoom p
    → painter_clip_cur (popped p next) ≡ painter_clip_cur p
clip_cur-popped p next h =
    let last : (p.clip_len + 1) % 2 ^ 32 - 1 ≡ p.clip_len = omega (arith, h) in
    let size = length-set p.clip_stack p.clip_len next in
    clip_cur_lem (popped p next) (omega (arith, h)) (omega (arith, h, size))
    ∙ ap (λ i. get_or (set p.clip_stack p.clip_len next) (i - 1) rect_empty) last
    ∙ get_or-set_ne rect_empty p.clip_stack p.clip_len (p.clip_len - 1) next (omega (arith, h))
    ∙ sym (clip_cur_lem p (omega (arith, h)) (omega (arith, h)))

-- Only the clip rectangle matters to where a painter writes.
same_clip :
    (p q : FbPainter) (x y : ℕ)
    → p.fb ≡ q.fb
    → painter_clip_cur p ≡ painter_clip_cur q
    → can_touch p x y ≡ can_touch q x y
unfolding can_touch
same_clip p q x y e f = ground (arith, ap (λ fb. fb.cols) e, ap (λ fb. fb.rows) e, f)

-- On a framebuffer of fewer than 2^31 columns and rows, a painter whose clip stack has room, and whose
-- current clip is of 32-bit numbers: after zr_fb_clip_push succeeds, a cell can be written when it
-- could be before and the new clip contains it; and zr_fb_clip_pop then succeeds and brings back
-- the cells that could be written before.
pub clip_push-touch :
    (p : FbPainter) (clip : Rect) (x y : ℕ)
    → p.fb.cols < 2 ^ 31
    → p.fb.rows < 2 ^ 31
    → HasRoom p
    → IsRect (painter_clip_cur p)
    → ((clip_push p clip).0 ≡ zr_ok)
      × (can_touch (clip_push p clip).1 x y ≡ (can_touch p x y && rect_contains clip x y))
      × ((clip_pop (clip_push p clip).1).0 ≡ zr_ok)
      × (can_touch (clip_pop (clip_push p clip).1).1 x y ≡ can_touch p x y)
clip_push-touch p clip x y c r h rect =
    let bounds = bounds_rect p.fb in
    let inside = rect_intersect bounds clip in
    let next = rect_intersect (painter_clip_cur p) inside in
    let q = pushed_on p next in
    let bounds-IsRect : IsRect bounds = record {
      x_word = omega arith;
      y_word = omega arith;
      w_word = omega (arith, c);
      h_word = omega (arith, r);
    } in
    let both = contains-intersect (painter_clip_cur p) inside x y rect in
    let here = contains-intersect bounds clip x y bounds-IsRect in
    let now = ap (λ s. rect_contains s x y) (clip_cur-pushed p next h) in
    let after : can_touch q x y ≡ (can_touch p x y && rect_contains clip x y) =
      ground (
        arith,
        touch_lem q x y c r,
        touch_lem p x y c r,
        both,
        here,
        now,
        in_bounds p.fb x y c r,
      ) in
    let back = same_clip (popped p next) p x y refl (clip_cur-popped p next h) in
    subst
      (λ s.
        (s.0 ≡ zr_ok)
        × (can_touch s.1 x y ≡ (can_touch p x y && rect_contains clip x y))
        × ((clip_pop s.1).0 ≡ zr_ok)
        × (can_touch (clip_pop s.1).1 x y ≡ can_touch p x y))
      (sym (pushed p clip h.room h.held))
      (
        refl,
        after,
        ap (λ s. s.0) (pop_lem p next h),
        ap (λ s. can_touch s.1 x y) (pop_lem p next h) ∙ back,
      )
