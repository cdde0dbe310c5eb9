-- ===== src/Grapheme.antt =====
-- src/unicode/zr_grapheme.c: iteration over grapheme clusters. The Unicode tables are a parameter.
pub mod Next
pub mod Clusters
pub mod Rules
pub mod History
mod Tests
use zireael.Prelude.{
  is_nil, ℕ, zero, suc, ◌+◌, ◌-◌, ◌%◌, ◌^◌, Bool, true, false, ◌&&◌, ◌||◌, List, Option, none, some,
  drop, leb, ltb, ◌==◌, if◌then◌else◌,
}
use zireael.Utf8.{Utf8DecodeResult, utf8_decode_one}
use zireael.Unicode.{
  GcbClass, gcb_cr, gcb_lf, gcb_control, gcb_prepend, gcb_spacingmark, gcb_extend, gcb_zwj,
  gcb_regional_indicator, gcb_l, gcb_v, gcb_t, gcb_lv, gcb_lvt, same_gcb, UnicodeTables,
  unicode_gcb_class, unicode_is_extended_pictographic,
}

-- zr_grapheme_t
pub record Grapheme : Type 0 where
  pub offset : ℕ
  pub size : ℕ

-- zr_grapheme_iter_t
pub record GraphemeIter : Type 0 where
  pub bytes : List ℕ
  pub len : ℕ
  pub off : ℕ

-- zr_grapheme_is_control
abbrev pub grapheme_is_control : GcbClass → Bool
grapheme_is_control c = same_gcb c gcb_control || same_gcb c gcb_cr || same_gcb c gcb_lf

-- zr_grapheme_should_break, with zr_grapheme_is_hangul_l, _v, _t, _lv and _lvt written out
unfoldable pub should_break : GcbClass → Bool → ℕ → GcbClass → Bool → Bool
should_break prev_class prev_zwj_after_ep ri_run next_class next_is_ep =
    if same_gcb prev_class gcb_cr && same_gcb next_class gcb_lf
    then false
    else if grapheme_is_control prev_class
    then true
    else if grapheme_is_control next_class
    then true
    else if same_gcb prev_class gcb_l
        && (same_gcb next_class gcb_l
            || same_gcb next_class gcb_v
            || same_gcb next_class gcb_lv
            || same_gcb next_class gcb_lvt)
    then false
    else if (same_gcb prev_class gcb_lv || same_gcb prev_class gcb_v)
        && (same_gcb next_class gcb_v || same_gcb next_class gcb_t)
    then false
    else if (same_gcb prev_class gcb_lvt || same_gcb prev_class gcb_t) && same_gcb next_class gcb_t
    then false
    else if same_gcb next_class gcb_extend
    then false
    else if same_gcb next_class gcb_spacingmark
    then false
    else if same_gcb prev_class gcb_prepend
    then false
    else if same_gcb next_class gcb_zwj
    then false
    else if same_gcb prev_class gcb_zwj && next_is_ep && prev_zwj_after_ep
    then false
    else if same_gcb prev_class gcb_regional_indicator && same_gcb next_class gcb_regional_indicator
    then ri_run % 2 == 0
    else true

-- zr_grapheme_cp_t
pub record GraphemeCp : Type 0 where
  pub size : ℕ
  pub gcb_class : GcbClass
  pub is_extended_pictographic : Bool

-- zr_grapheme_break_state_t
pub record BreakState : Type 0 where
  pub prev_class : GcbClass
  pub ri_run : ℕ
  pub last_non_extend_is_ep : Bool
  pub prev_zwj_after_ep : Bool

-- zr_grapheme_state_init, on given pointers
unfoldable pub state_init : GraphemeCp → BreakState
state_init first =
    let c = GraphemeCp.gcb_class first in
    let last_ep =
      if same_gcb c gcb_extend then false else GraphemeCp.is_extended_pictographic first in
    record {
      prev_class = c;
      ri_run = if same_gcb c gcb_regional_indicator then 1 else 0;
      last_non_extend_is_ep = last_ep;
      prev_zwj_after_ep = if same_gcb c gcb_zwj then last_ep else false;
    }

-- zr_grapheme_state_advance, on given pointers
unfoldable pub state_advance : BreakState → GraphemeCp → BreakState
state_advance state cp =
    let c = GraphemeCp.gcb_class cp in
    record {
      prev_class = c;
      ri_run =
          if same_gcb c gcb_regional_indicator then (BreakState.ri_run state + 1) % 2 ^ 32 else 0;
      last_non_extend_is_ep =
          if same_gcb c gcb_extend
          then BreakState.last_non_extend_is_ep state
          else GraphemeCp.is_extended_pictographic cp;
      prev_zwj_after_ep =
          if same_gcb c gcb_zwj && BreakState.last_non_extend_is_ep state
          then true
          else if same_gcb c gcb_extend
          then BreakState.prev_zwj_after_ep state
          else false;
    }

-- zr_grapheme_iter_init, on a given iterator
abbrev pub grapheme_iter_init : List ℕ → ℕ → GraphemeIter
grapheme_iter_init bytes len = record { bytes = bytes; len = len; off = 0 }

-- The test of the break state against the next scalar, as the loop of zr_grapheme_next makes it.
abbrev pub breaks_before : BreakState → GraphemeCp → Bool
breaks_before state cp =
    should_break (BreakState.prev_class state) (BreakState.prev_zwj_after_ep state)
      (BreakState.ri_run state) (GraphemeCp.gcb_class cp) (GraphemeCp.is_extended_pictographic cp)

abbrev pub forward : GraphemeIter → GraphemeCp → GraphemeIter
forward it cp = record it { off = (GraphemeIter.off it + GraphemeCp.size cp) % 2 ^ 64 }

module _ (tables : UnicodeTables) where
  -- zr_grapheme_decode_cp, on given pointers
  unfoldable pub grapheme_decode_cp : GraphemeIter → ℕ → Option GraphemeCp
  grapheme_decode_cp it off =
      let len = GraphemeIter.len it in
      let dec =
        utf8_decode_one (drop off (GraphemeIter.bytes it)) ((len + 2 ^ 64 - off) % 2 ^ 64) in
      if leb len off || is_nil (GraphemeIter.bytes it)
      then none
      else if Utf8DecodeResult.size dec == 0
      then none
      else some (record {
        size = Utf8DecodeResult.size dec;
        gcb_class = unicode_gcb_class tables (Utf8DecodeResult.scalar dec);
        is_extended_pictographic =
            unicode_is_extended_pictographic tables (Utf8DecodeResult.scalar dec);
      })

  -- The loop of zr_grapheme_next.
  unfoldable pub cluster_loop : ℕ → GraphemeIter → BreakState → GraphemeIter
  cluster_loop zero it state = it
  cluster_loop (suc fuel) it state = elim (ltb (GraphemeIter.off it) (GraphemeIter.len it)) [
    | false ↦ it
    | true ↦ elim (grapheme_decode_cp it (GraphemeIter.off it)) [
      | none ↦ it
      | some next_cp ↦ elim (breaks_before state next_cp) [
        | true ↦ it
        | false ↦ cluster_loop fuel (forward it next_cp) (state_advance state next_cp)
      ]
    ]
  ]

  -- zr_grapheme_next, on given pointers; the fuel is the bytes that are left
  unfoldable pub grapheme_next_given : GraphemeIter → Option Grapheme × GraphemeIter
  grapheme_next_given it =
      let start = GraphemeIter.off it in
      let len = GraphemeIter.len it in
      if leb len start
      then (none, it)
      else if is_nil (GraphemeIter.bytes it)
      then (none, it)
      else (elim (grapheme_decode_cp it start) [
        | none ↦ (none, it)
        | some first_cp ↦
            let it' = cluster_loop (len - start) (forward it first_cp) (state_init first_cp) in
            (
              some (record {
                offset = start;
                size = (GraphemeIter.off it' + 2 ^ 64 - start) % 2 ^ 64;
              }),
              it',
            )
      ])

  -- zr_grapheme_next: the result and the iterator after it; without `out` nothing changes
  unfoldable pub grapheme_next : Option GraphemeIter → Bool → Option Grapheme × Option GraphemeIter
  grapheme_next none has_out = (none, none)
  grapheme_next (some it) has_out =
      if has_out then (let r = grapheme_next_given it in (r.0, some r.1)) else (none, some it)
