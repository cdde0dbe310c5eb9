-- ===== src/Wrap.antt =====
-- src/unicode/zr_wrap.c: measuring and wrapping UTF-8 text. The fuels of the loops are the bounds that
-- they are shown to stay under.
pub mod Step
pub mod Ends
pub mod Offsets
mod Tests
use zireael.Prelude.{
  ℕ, zero, suc, ◌+◌, ◌-◌, ◌*◌, ◌%◌, ◌^◌, Bool, true, false, not, ◌&&◌, ◌||◌, List, Option, none,
  some, drop, set, ltb, leb, ◌==◌, ◌!=◌, if◌then◌else◌, is_nil,
}
use zireael.Result.{ZrResult, zr_ok, zr_err_invalid_argument, size_max}
use zireael.Utf8.{Utf8DecodeResult, utf8_decode_one}
use zireael.Unicode.{UnicodeTables}
use zireael.Grapheme.{Grapheme, GraphemeIter, grapheme_iter_init, grapheme_next_given}
use zireael.Width.{WidthPolicy, width_grapheme_utf8}

-- ZR_WRAP_WS_BREAK_NONE
abbrev pub ws_break_none : ℕ
ws_break_none = size_max

-- zr_wrap_is_space_grapheme, with ZR_WRAP_SCALAR_SPACE
abbrev pub is_space_grapheme : List ℕ → ℕ → Bool
is_space_grapheme bytes len =
    let d = utf8_decode_one bytes len in
    (Utf8DecodeResult.valid d != 0) && (Utf8DecodeResult.scalar d == 0x20)

-- zr_wrap_is_tab_grapheme, with ZR_WRAP_SCALAR_TAB
abbrev pub is_tab_grapheme : List ℕ → ℕ → Bool
is_tab_grapheme bytes len =
    let d = utf8_decode_one bytes len in
    (Utf8DecodeResult.valid d != 0) && (Utf8DecodeResult.scalar d == 0x09)

-- zr_wrap_is_hard_break_grapheme, with ZR_WRAP_SCALAR_LF and ZR_WRAP_SCALAR_CR
abbrev pub is_hard_break_grapheme : List ℕ → ℕ → Bool
is_hard_break_grapheme bytes len =
    let d = utf8_decode_one bytes len in
    if Utf8DecodeResult.valid d == 0
    then false
    else (Utf8DecodeResult.scalar d == 0x0A) || (Utf8DecodeResult.scalar d == 0x0D)

-- zr_wrap_tab_advance
abbrev pub tab_advance : ℕ → ℕ → ℕ
tab_advance col tab_stop = let rem = col % tab_stop in if rem == 0 then tab_stop else tab_stop - rem

-- zr_measure_utf8_t
pub record MeasureUtf8 : Type 0 where
  pub lines : ℕ
  pub max_cols : ℕ

-- What zr_wrap_greedy_utf8 writes for its caller: `out_offsets`, `out_offsets_cap`, `*out_count` and
-- `*out_truncated`.
pub record WrapOut : Type 0 where
  pub offsets : List ℕ
  pub cap : ℕ
  pub count : ℕ
  pub truncated : Bool

-- zr_wrap_push_offset
abbrev pub push_offset : ℕ → WrapOut → WrapOut
push_offset off out =
    let idx = WrapOut.count out in
    if ltb idx (WrapOut.cap out)
    then record out { offsets = set (WrapOut.offsets out) idx off; count = (idx + 1) % 2 ^ 64 }
    else record out { truncated = true; count = (idx + 1) % 2 ^ 64 }

-- The locals of zr_wrap_greedy_utf8.
pub record WrapState : Type 0 where
  pub it : GraphemeIter
  pub line_start : ℕ
  pub col : ℕ
  pub last_ws_break_off : ℕ
  pub out : WrapOut

-- A new line: `line_start = start; col = 0; last_ws_break_off = NONE`, and the offset is pushed.
abbrev pub new_line : WrapState → ℕ → WrapState
new_line s start = record s {
  line_start = start;
  col = 0;
  last_ws_break_off = ws_break_none;
  out = push_offset start (WrapState.out s);
}

-- `it.off = off`
abbrev pub rewind : WrapState → ℕ → WrapState
rewind s off = record s { it = record (WrapState.it s) { off = off } }

-- The locals before the loop.
abbrev pub wrap_start : List ℕ → ℕ → WrapOut → WrapState
wrap_start bytes len out = record {
  it = grapheme_iter_init bytes len;
  line_start = 0;
  col = 0;
  last_ws_break_off = ws_break_none;
  out = out;
}

module _ (tables : UnicodeTables) (policy : WidthPolicy) (tab_stop : ℕ) where
  -- One round of the loop of zr_measure_utf8: the column and the result after a grapheme.
  unfoldable pub measure_one : List ℕ → ℕ × MeasureUtf8 → Grapheme → ℕ × MeasureUtf8
  measure_one bytes (col, out) g =
      let gb = drop (Grapheme.offset g) bytes in
      let gl = Grapheme.size g in
      if is_hard_break_grapheme gb gl
      then (
        0,
        record {
          lines = (MeasureUtf8.lines out + 1) % 2 ^ 32;
          max_cols = if ltb (MeasureUtf8.max_cols out) col then col else MeasureUtf8.max_cols out;
        },
      )
      else if is_tab_grapheme gb gl
      then ((col + tab_advance col tab_stop) % 2 ^ 32, out)
      else ((col + width_grapheme_utf8 tables gb gl policy) % 2 ^ 32, out)

  -- The loop of zr_measure_utf8.
  unfoldable pub measure_loop : ℕ → GraphemeIter → ℕ × MeasureUtf8 → ℕ × MeasureUtf8
  measure_loop zero it s = s
  measure_loop (suc fuel) it s =
      let r = grapheme_next_given tables it in
      elim r.0 [
        | none ↦ s
        | some g ↦ measure_loop fuel r.1 (measure_one (GraphemeIter.bytes it) s g)
      ]

  -- zr_measure_utf8; without `out` nothing is written
  unfoldable pub measure_utf8 : List ℕ → ℕ → Bool → ZrResult × Option MeasureUtf8
  measure_utf8 bytes len has_out =
      let start : MeasureUtf8 = record { lines = 1; max_cols = 0 } in
      let r = measure_loop (suc len) (grapheme_iter_init bytes len) (0, start) in
      let widest : MeasureUtf8 =
        if ltb (MeasureUtf8.max_cols r.1) r.0
        then record { lines = MeasureUtf8.lines r.1; max_cols = r.0 }
        else r.1 in
      if not has_out
      then (zr_err_invalid_argument, none)
      else if tab_stop == 0
      then (zr_err_invalid_argument, some start)
      else if len == 0
      then (zr_ok, some start)
      else if is_nil bytes
      then (zr_err_invalid_argument, some start)
      else (zr_ok, some widest)

  -- One round of the loop of zr_wrap_greedy_utf8, when the iterator is past the grapheme.
  unfoldable pub wrap_one : ℕ → WrapState → Grapheme → WrapState
  wrap_one max_cols s g =
      let gb = drop (Grapheme.offset g) (GraphemeIter.bytes (WrapState.it s)) in
      let gl = Grapheme.size g in
      let after = (Grapheme.offset g + Grapheme.size g) % 2 ^ 64 in
      let is_tab = is_tab_grapheme gb gl in
      let col = WrapState.col s in
      let adv =
        if is_tab then tab_advance col tab_stop else width_grapheme_utf8 tables gb gl policy in
      let is_ws_break = is_tab || is_space_grapheme gb gl in
      let reach = (col + adv) % 2 ^ 32 in
      let last = WrapState.last_ws_break_off s in
      if is_hard_break_grapheme gb gl
      then new_line s after
      else if adv == 0
      then s
      else if is_ws_break && ltb max_cols reach
      then new_line s after
      else if leb reach max_cols
      then record s { col = reach; last_ws_break_off = if is_ws_break then after else last }
      else if (last != ws_break_none) && ltb (WrapState.line_start s) last
      then new_line (rewind s last) last
      else if Grapheme.offset g == WrapState.line_start s
      then record s { col = adv }
      else new_line (rewind s (Grapheme.offset g)) (Grapheme.offset g)

  -- The loop of zr_wrap_greedy_utf8.
  unfoldable pub wrap_loop : ℕ → ℕ → WrapState → WrapState
  wrap_loop zero max_cols s = s
  wrap_loop (suc fuel) max_cols s =
      let r = grapheme_next_given tables (WrapState.it s) in
      elim r.0 [
        | none ↦ record s { it = r.1 }
        | some g ↦ wrap_loop fuel max_cols (wrap_one max_cols (record s { it = r.1 }) g)
      ]

  -- zr_wrap_greedy_utf8; without `out_count` or `out_truncated` nothing is written
  unfoldable pub wrap_greedy_utf8 :
      List ℕ → ℕ → ℕ → List ℕ → ℕ → Bool → Bool → ZrResult × Option WrapOut
  wrap_greedy_utf8 bytes len max_cols out_offsets out_offsets_cap has_count has_truncated =
      let none_yet : WrapOut = record {
        offsets = out_offsets;
        cap = out_offsets_cap;
        count = 0;
        truncated = false;
      } in
      let first = push_offset 0 none_yet in
      if not has_count || not has_truncated
      then (zr_err_invalid_argument, none)
      else if (tab_stop == 0) || (max_cols == 0)
      then (zr_err_invalid_argument, some none_yet)
      else if is_nil out_offsets && (out_offsets_cap != 0)
      then (zr_err_invalid_argument, some none_yet)
      else if is_nil bytes && (len != 0)
      then (zr_err_invalid_argument, some none_yet)
      else if len == 0
      then (zr_ok, some first)
      else (
        zr_ok,
        some (
            WrapState.out
              (wrap_loop ((len + 1) * (len + 1)) max_cols (wrap_start bytes len first))),
      )
