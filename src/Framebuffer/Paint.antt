-- ===== src/Framebuffer/Paint.antt =====
-- src/core/zr_framebuffer.c: the painter, its clip stack, and writing cells.
use zireael.Prelude.{
  ℕ, ◌+◌, ◌-◌, ◌%◌, ◌^◌, Bool, true, false, not, ◌&&◌, ◌||◌, List, [], ◌∷◌, Option, none, some,
  get_or, set, ltb, leb, ◌==◌, if◌then◌else◌, is_nil,
}
use zireael.Result.{ZrResult, zr_ok, zr_err_invalid_argument, zr_err_limit}
use zireael.Framebuffer.{
  Rect, Style, Fb, is_negative, rect_empty, bounds_rect, rect_intersect, rect_contains, fb_cell,
  space_cell, grapheme_cell, continuation_cell, cell_at, put_cell, is_continuation, is_wide_lead,
}

-- zr_fb_painter_t; the framebuffer that it points to is part of its state
pub record FbPainter : Type 0 where
  pub fb : Fb
  pub clip_stack : List Rect
  pub clip_cap : ℕ
  pub clip_len : ℕ

-- zr_fb_painter_begin, on given pointers
unfoldable pub painter_begin : Fb → List Rect → ℕ → ZrResult × Option FbPainter
painter_begin fb clip_stack clip_cap =
    if (clip_cap == 0) || is_nil clip_stack then (zr_err_invalid_argument, none) else (
      zr_ok,
      some (record {
        fb = fb;
        clip_stack = set clip_stack 0 (bounds_rect fb);
        clip_cap = clip_cap;
        clip_len = 1;
      }),
    )

-- zr_painter_clip_cur
abbrev pub painter_clip_cur : FbPainter → Rect
painter_clip_cur p =
    if is_nil (FbPainter.clip_stack p) || (FbPainter.clip_len p == 0)
    then rect_empty
    else get_or (FbPainter.clip_stack p) (FbPainter.clip_len p - 1) rect_empty

-- zr_fb_clip_push, on a given painter
unfoldable pub clip_push : FbPainter → Rect → ZrResult × FbPainter
clip_push p clip =
    let inside = rect_intersect (bounds_rect (FbPainter.fb p)) clip in
    let next = rect_intersect (painter_clip_cur p) inside in
    if is_nil (FbPainter.clip_stack p)
    then (zr_err_invalid_argument, p)
    else if leb (FbPainter.clip_cap p) (FbPainter.clip_len p)
    then (zr_err_limit, p)
    else (
      zr_ok,
      record p {
        clip_stack = set (FbPainter.clip_stack p) (FbPainter.clip_len p) next;
        clip_len = (FbPainter.clip_len p + 1) % 2 ^ 32;
      },
    )

-- zr_fb_clip_pop, on a given painter
unfoldable pub clip_pop : FbPainter → ZrResult × FbPainter
clip_pop p =
    if is_nil (FbPainter.clip_stack p)
    then (zr_err_invalid_argument, p)
    else if leb (FbPainter.clip_len p) 1
    then (zr_err_limit, p)
    else (zr_ok, record p { clip_len = FbPainter.clip_len p - 1 })

-- zr_painter_can_touch
unfoldable pub can_touch : FbPainter → ℕ → ℕ → Bool
can_touch p x y =
    if is_negative x || is_negative y
    then false
    else if leb (Fb.cols (FbPainter.fb p)) x || leb (Fb.rows (FbPainter.fb p)) y
    then false
    else rect_contains (painter_clip_cur p) x y

abbrev pub next_x : ℕ → ℕ
next_x x = (x + 1) % 2 ^ 32

-- zr_painter_can_write_width2
abbrev pub can_write_width2 : FbPainter → ℕ → ℕ → Bool
can_write_width2 p x y =
    if leb (Fb.cols (FbPainter.fb p)) (next_x x)
    then false
    else can_touch p x y && can_touch p (next_x x) y

-- The parts of zr_painter_write_width1, each with whether it goes on.
unfoldable pub clear_continuation : Fb → ℕ → ℕ → ℕ → Style → Bool × Fb
clear_continuation fb x y i style =
    if not (is_continuation (cell_at fb i))
    then (true, fb)
    else if x == 0
    then (false, fb)
    else (elim (fb_cell fb (x - 1) y) [
      | none ↦ (false, fb)
      | some lead ↦ (true, put_cell (put_cell fb lead (space_cell style)) i (space_cell style))
    ])

unfoldable pub clear_lead : Fb → ℕ → ℕ → ℕ → Style → Bool × Fb
clear_lead fb x y i style =
    if not (is_wide_lead (cell_at fb i))
    then (true, fb)
    else if leb (Fb.cols fb) (next_x x)
    then (false, fb)
    else (elim (fb_cell fb (next_x x) y) [
      | none ↦ (false, fb)
      | some cont ↦ (true, put_cell fb cont (space_cell style))
    ])

unfoldable pub clear_next : Fb → ℕ → ℕ → Style → Fb
clear_next fb x y style =
    if not (ltb (next_x x) (Fb.cols fb)) then fb else (elim (fb_cell fb (next_x x) y) [
      | none ↦ fb
      | some next ↦
          if is_continuation (cell_at fb next) then put_cell fb next (space_cell style) else fb
    ])

-- zr_painter_write_width1 from where its cell is found.
unfoldable pub write_cell : Fb → ℕ → ℕ → ℕ → List ℕ → ℕ → Style → Bool × Fb
write_cell fb x y i bytes len style =
    let a = clear_continuation fb x y i style in
    let b = clear_lead a.1 x y i style in
    if not (a.0)
    then (false, a.1)
    else if not (b.0)
    then (false, b.1)
    else (true, put_cell (clear_next b.1 x y style) i (grapheme_cell bytes len style))

-- zr_painter_write_width1
unfoldable pub write_width1 : FbPainter → ℕ → ℕ → List ℕ → ℕ → Style → Bool × FbPainter
write_width1 p x y bytes len style =
    if not (can_touch p x y) then (false, p) else (elim (fb_cell (FbPainter.fb p) x y) [
      | none ↦ (false, p)
      | some i ↦
          let r = write_cell (FbPainter.fb p) x y i bytes len style in (r.0, record p { fb = r.1 })
    ])

abbrev pub one_space : List ℕ
one_space = 32 ∷ []

-- The last writes of zr_painter_write_width2.
abbrev pub write_pair : Fb → ℕ → ℕ → List ℕ → ℕ → Style → Fb
write_pair fb c0 c1 bytes len style =
    put_cell (put_cell fb c0 (record (grapheme_cell bytes len style) { width = 2 })) c1
      (continuation_cell style)

-- zr_painter_write_width2
unfoldable pub write_width2 : FbPainter → ℕ → ℕ → List ℕ → ℕ → Style → Bool × FbPainter
write_width2 p x y bytes len style =
    let a = write_width1 p x y one_space 1 style in
    let b = write_width1 (a.1) (next_x x) y one_space 1 style in
    let fb = FbPainter.fb (b.1) in
    if not (can_write_width2 p x y)
    then (false, p)
    else if not (a.0)
    then (false, a.1)
    else if not (b.0)
    then (false, b.1)
    else (elim (fb_cell fb x y) [
      | none ↦ (false, b.1)
      | some c0 ↦ elim (fb_cell fb (next_x x) y) [
        | none ↦ (false, b.1)
        | some c1 ↦ (true, record (b.1) { fb = write_pair fb c0 c1 bytes len style })
      ]
    ])
