-- ===== src/Width.antt =====
-- src/unicode/zr_width.c: terminal columns of code points and grapheme clusters.
pub mod Cluster
pub mod Policy
mod Tests
use zireael.Prelude.{
  is_nil, ℕ, zero, suc, ◌+◌, ◌-◌, ◌%◌, ◌^◌, Bool, true, false, not, ◌&&◌, ◌||◌, List, drop, ltb,
  leb, ◌==◌, if◌then◌else◌,
}
use zireael.Utf8.{Utf8DecodeResult, utf8_decode_one}
use zireael.Unicode.{
  GcbClass, gcb_control, gcb_cr, gcb_lf, gcb_extend, gcb_zwj, same_gcb, UnicodeTables,
  unicode_gcb_class, unicode_is_extended_pictographic, unicode_is_emoji_presentation,
  unicode_is_eaw_wide,
}

-- zr_width_policy_t
pub data WidthPolicy : Type 0 where
  emoji_narrow : WidthPolicy
  emoji_wide : WidthPolicy

abbrev pub emoji_width : WidthPolicy → ℕ
emoji_width emoji_wide = 2
emoji_width emoji_narrow = 1

-- ZR_WIDTH_VARIATION_SELECTOR_15, _16, ZR_WIDTH_COMBINING_ENCLOSING_KEYCAP
abbrev pub variation_selector_15 : ℕ
variation_selector_15 = 0xFE0E

abbrev pub variation_selector_16 : ℕ
variation_selector_16 = 0xFE0F

abbrev pub enclosing_keycap : ℕ
enclosing_keycap = 0x20E3

-- zr_width_is_ascii_control
abbrev pub is_ascii_control : ℕ → Bool
is_ascii_control scalar = ltb scalar 0x20 || (scalar == 0x7F)

-- zr_width_is_keycap_base
abbrev pub is_keycap_base : ℕ → Bool
is_keycap_base scalar =
    if (scalar == 0x23) || (scalar == 0x2A) then true else leb 0x30 scalar && leb scalar 0x39

-- zr_width_keycap_state_t
pub data KeycapState : Type 0 where
  keycap_start : KeycapState
  keycap_after_base : KeycapState
  keycap_after_base_vs16 : KeycapState
  keycap_matched : KeycapState
  keycap_invalid : KeycapState

-- zr_width_keycap_next
abbrev pub keycap_next : KeycapState → ℕ → KeycapState
keycap_next keycap_start scalar =
    if is_keycap_base scalar then keycap_after_base else keycap_invalid
keycap_next keycap_after_base scalar =
    if scalar == variation_selector_16
    then keycap_after_base_vs16
    else if scalar == enclosing_keycap
    then keycap_matched
    else keycap_invalid
keycap_next keycap_after_base_vs16 scalar =
    if scalar == enclosing_keycap then keycap_matched else keycap_invalid
keycap_next keycap_matched scalar = keycap_invalid
keycap_next keycap_invalid scalar = keycap_invalid

abbrev pub is_matched : KeycapState → Bool
is_matched keycap_matched = true
is_matched _ = false

-- zr_width_cluster_has_emoji_presentation
abbrev pub cluster_has_emoji_presentation : Bool → Bool → Bool → Bool → Bool → Bool → Bool
cluster_has_emoji_presentation keycap_emoji has_emoji_presentation has_extended_pictographic
      has_vs16 has_zwj has_vs15 =
    let has_emoji =
      if keycap_emoji
      then true
      else if has_emoji_presentation
      then true
      else has_extended_pictographic && (has_vs16 || has_zwj) in
    if has_vs15 && not has_vs16 && not has_emoji_presentation && not keycap_emoji
    then false
    else has_emoji

-- The locals of zr_width_grapheme_utf8 that its loop changes.
pub record WidthScan : Type 0 where
  pub off : ℕ
  pub width_text : ℕ
  pub width_emoji_norm : ℕ
  pub has_emoji_presentation : Bool
  pub has_extended_pictographic : Bool
  pub has_zwj : Bool
  pub has_vs15 : Bool
  pub has_vs16 : Bool
  pub keycap_state : KeycapState

abbrev pub scan_start : WidthScan
scan_start = record {
  off = 0;
  width_text = 0;
  width_emoji_norm = 0;
  has_emoji_presentation = false;
  has_extended_pictographic = false;
  has_zwj = false;
  has_vs15 = false;
  has_vs16 = false;
  keycap_state = keycap_start;
}

-- What zr_width_grapheme_utf8 makes of its locals after the loop.
unfoldable pub width_of_scan : WidthScan → WidthPolicy → ℕ
width_of_scan w policy =
    let has_emoji =
      cluster_has_emoji_presentation (is_matched (WidthScan.keycap_state w))
        (WidthScan.has_emoji_presentation w) (WidthScan.has_extended_pictographic w)
        (WidthScan.has_vs16 w) (WidthScan.has_zwj w) (WidthScan.has_vs15 w) in
    let width = if has_emoji then WidthScan.width_emoji_norm w else WidthScan.width_text w in
    let emoji_w = emoji_width policy in if has_emoji && ltb width emoji_w then emoji_w else width

module _ (tables : UnicodeTables) where
  -- zr_width_codepoint
  unfoldable pub width_codepoint : ℕ → ℕ
  width_codepoint scalar =
      let gcb = unicode_gcb_class tables scalar in
      if is_ascii_control scalar
      then 0
      else if same_gcb gcb gcb_control || same_gcb gcb gcb_cr || same_gcb gcb gcb_lf
      then 0
      else if same_gcb gcb gcb_extend || same_gcb gcb gcb_zwj
      then 0
      else if unicode_is_eaw_wide tables scalar
      then 2
      else 1

  -- One round of the loop of zr_width_grapheme_utf8.
  unfoldable pub scan_one : WidthScan → Utf8DecodeResult → WidthScan
  scan_one w d =
      let scalar = Utf8DecodeResult.scalar d in
      let is_emoji_presentation = unicode_is_emoji_presentation tables scalar in
      let is_extended_pictographic = unicode_is_extended_pictographic tables scalar in
      let w_text = width_codepoint scalar in
      let w_emoji = if is_emoji_presentation || is_extended_pictographic then 1 else w_text in
      record {
        off = (WidthScan.off w + Utf8DecodeResult.size d) % 2 ^ 64;
        width_text = if ltb (WidthScan.width_text w) w_text then w_text else WidthScan.width_text w;
        width_emoji_norm =
            if ltb (WidthScan.width_emoji_norm w) w_emoji
            then w_emoji
            else WidthScan.width_emoji_norm w;
        has_emoji_presentation = WidthScan.has_emoji_presentation w || is_emoji_presentation;
        has_extended_pictographic =
            WidthScan.has_extended_pictographic w || is_extended_pictographic;
        has_zwj = WidthScan.has_zwj w || same_gcb (unicode_gcb_class tables scalar) gcb_zwj;
        has_vs15 = WidthScan.has_vs15 w || (scalar == variation_selector_15);
        has_vs16 = WidthScan.has_vs16 w || (scalar == variation_selector_16);
        keycap_state = keycap_next (WidthScan.keycap_state w) scalar;
      }

  -- The loop of zr_width_grapheme_utf8.
  unfoldable pub width_loop : ℕ → List ℕ → ℕ → WidthScan → WidthScan
  width_loop zero bytes len w = w
  width_loop (suc fuel) bytes len w =
      let off = WidthScan.off w in
      let d = utf8_decode_one (drop off bytes) ((len + 2 ^ 64 - off) % 2 ^ 64) in
      elim (ltb off len) [
        | false ↦ w
        | true ↦ elim (Utf8DecodeResult.size d == 0) [
          | true ↦ w
          | false ↦ width_loop fuel bytes len (scan_one w d)
        ]
      ]

  -- zr_width_grapheme_utf8; the fuel is the length
  unfoldable pub width_grapheme_utf8 : List ℕ → ℕ → WidthPolicy → ℕ
  width_grapheme_utf8 bytes len policy =
      if (len == 0) || is_nil bytes
      then 0
      else width_of_scan (width_loop len bytes len scan_start) policy
