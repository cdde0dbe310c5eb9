-- ===== src/Framebuffer/Glyphs.antt =====
-- src/core/zr_framebuffer.c: zr_fb_put_grapheme and the choice of what it writes.
use zireael.Prelude.{
  ℕ, zero, suc, ◌+◌, ◌-◌, ◌%◌, ◌^◌, Bool, true, false, not, ◌&&◌, ◌||◌, List, [], ◌∷◌, Option, none,
  some, drop, ltb, leb, ◌==◌, ◌!=◌, if◌then◌else◌, is_nil,
}
use zireael.Result.{ZrResult, zr_ok, zr_err_invalid_argument}
use zireael.Utf8.{Utf8DecodeResult, utf8_decode_one}
use zireael.Framebuffer.{Style, Fb, is_negative, fb_has_backing, cell_glyph_max}
use zireael.Framebuffer.Paint.{FbPainter, write_width1, write_width2, one_space}

-- The loop of zr_fb_utf8_grapheme_bytes_safe_for_terminal.
unfoldable pub safe_loop : ℕ → List ℕ → ℕ → ℕ → Bool
safe_loop zero bytes len off = true
safe_loop (suc fuel) bytes len off =
    let d = utf8_decode_one (drop off bytes) ((len + 2 ^ 64 - off) % 2 ^ 64) in
    let s = Utf8DecodeResult.scalar d in
    let rest = safe_loop fuel bytes len ((off + Utf8DecodeResult.size d) % 2 ^ 64) in
    if not (ltb off len)
    then true
    else if Utf8DecodeResult.size d == 0
    then false
    else if Utf8DecodeResult.valid d == 0
    then false
    else if ltb s 0x20 || (s == 0x7F) || (leb 0x80 s && ltb s 0xA0)
    then false
    else rest

-- zr_fb_utf8_grapheme_bytes_safe_for_terminal
unfoldable pub bytes_safe_for_terminal : List ℕ → ℕ → Bool
bytes_safe_for_terminal bytes len =
    if is_nil bytes || (len == 0) then false else safe_loop (suc len) bytes len 0

-- ZR_UTF8_REPLACEMENT, of ZR_UTF8_REPLACEMENT_LEN bytes
abbrev pub utf8_replacement_bytes : List ℕ
utf8_replacement_bytes = 0xEF ∷ 0xBF ∷ 0xBD ∷ []

-- `out_bytes`, `out_len` and `try_wide` of zr_fb_put_grapheme.
pub record Glyph : Type 0 where
  pub bytes : List ℕ
  pub len : ℕ
  pub wide : Bool

abbrev pub replacement_glyph : Glyph
replacement_glyph = record { bytes = utf8_replacement_bytes; len = 3; wide = false }

unfoldable pub canonical_glyph : List ℕ → ℕ → ℕ → Glyph
canonical_glyph bytes len width =
    let given : Glyph =
      if len == 0
      then record { bytes = one_space; len = 1; wide = false }
      else record { bytes = bytes; len = len; wide = width == 2 } in
    let short = if ltb cell_glyph_max (Glyph.len given) then replacement_glyph else given in
    if not (bytes_safe_for_terminal (Glyph.bytes short) (Glyph.len short))
    then replacement_glyph
    else short

-- The end of zr_fb_put_grapheme, where a wide glyph that does not fit is replaced.
unfoldable pub put_glyph : FbPainter → ℕ → ℕ → Glyph → Style → FbPainter
put_glyph p x y g s =
    let wide = write_width2 p x y (Glyph.bytes g) (Glyph.len g) s in
    if Glyph.wide g
    then (if wide.0 then wide.1 else (write_width1 (wide.1) x y utf8_replacement_bytes 3 s).1)
    else (write_width1 p x y (Glyph.bytes g) (Glyph.len g) s).1

-- zr_fb_put_grapheme, on a given painter and framebuffer
unfoldable pub put_grapheme :
    FbPainter → ℕ → ℕ → List ℕ → ℕ → ℕ → Option Style → ZrResult × FbPainter
put_grapheme p x y bytes len width none = (zr_err_invalid_argument, p)
put_grapheme p x y bytes len width (some s) =
    let fb = FbPainter.fb p in
    if not (fb_has_backing fb)
    then (zr_ok, p)
    else if (width != 1) && (width != 2)
    then (zr_err_invalid_argument, p)
    else if ltb 0 len && is_nil bytes
    then (zr_err_invalid_argument, p)
    else if is_negative x || is_negative y
    then (zr_ok, p)
    else if leb (Fb.cols fb) x || leb (Fb.rows fb) y
    then (zr_ok, p)
    else (zr_ok, put_glyph p x y (canonical_glyph bytes len width) s)
