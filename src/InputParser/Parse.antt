-- ===== src/InputParser/Parse.antt =====
-- The parsing loop of src/core/zr_input_parser.c and its stops before incomplete input.
use zireael.Prelude.{
  ℕ, zero, suc, ◌+◌, ◌-◌, ◌%◌, ◌^◌, Bool, true, false, not, ◌&&◌, ◌||◌, List, Option, none, some,
  get_or, drop, bit_and, ltb, leb, ◌==◌, ◌!=◌, if◌then◌else◌, is_nil,
}
use zireael.Event.{Event}
use zireael.Utf8.{Utf8DecodeResult, utf8_decode_one}
use zireael.InputParser.{
  add_size, ascii_esc, key_escape, key_enter, key_tab, key_backspace, is_digit, key_event,
  text_event,
}
use zireael.InputParser.Csi.{
  KeyResult, parse_csi_tilde_key, parse_csi_simple_key, parse_csi_focus_key, parse_ss3_key,
}
use zireael.InputParser.Extended.{Emitted, parse_csi_u_key, parse_modify_other_keys_tilde}
use zireael.InputParser.Mouse.{parse_sgr_mouse}

-- The loop over continuation bytes of zr__is_incomplete_utf8_prefix: bytes j to avail - 1.
unfoldable pub all_cont : ℕ → List ℕ → ℕ → ℕ → Bool
all_cont zero bytes i j = true
all_cont (suc rounds) bytes i j =
    let rest = all_cont rounds bytes i (j + 1) in
    if bit_and (get_or bytes (add_size i j) 0) 0xC0 != 0x80 then false else rest

-- The `expect` of zr__is_incomplete_utf8_prefix, with 0 where it returns false.
abbrev pub expected_size : ℕ → ℕ
expected_size b0 =
    if leb 0xC2 b0 && leb b0 0xDF
    then 2
    else if leb 0xE0 b0 && leb b0 0xEF
    then 3
    else if leb 0xF0 b0 && leb b0 0xF4
    then 4
    else 0

-- zr__is_incomplete_utf8_prefix
unfoldable pub is_incomplete_utf8_prefix : List ℕ → ℕ → ℕ → Bool
is_incomplete_utf8_prefix bytes len i =
    let b0 = get_or bytes i 0 in
    let b1 = get_or bytes (add_size i 1) 0 in
    let expect = expected_size b0 in
    let avail = (len + 2 ^ 64 - i) % 2 ^ 64 in
    let cont = all_cont (avail - 1) bytes i 1 in
    if is_nil bytes || leb len i
    then false
    else if expect == 0
    then false
    else if leb expect avail
    then false
    else if not cont
    then false
    else if leb 2 avail && (expect == 3) && ((b0 == 0xE0) && ltb b1 0xA0)
    then false
    else if leb 2 avail && (expect == 3) && ((b0 == 0xED) && ltb 0x9F b1)
    then false
    else if leb 2 avail && (expect == 4) && ((b0 == 0xF0) && ltb b1 0x90)
    then false
    else if leb 2 avail && (expect == 4) && ((b0 == 0xF4) && ltb 0x8F b1)
    then false
    else true

-- The loops of zr__esc_is_incomplete_supported: no M or m, and only digits and ;, from j to the end.
unfoldable pub no_mouse_end : ℕ → List ℕ → ℕ → ℕ → Bool
no_mouse_end zero bytes len j = true
no_mouse_end (suc rounds) bytes len j =
    let rest = no_mouse_end rounds bytes len (add_size j 1) in
    if ltb j len
    then (if (get_or bytes j 0 == 77) || (get_or bytes j 0 == 109) then false else rest)
    else true

unfoldable pub only_params : ℕ → List ℕ → ℕ → ℕ → Bool
only_params zero bytes len j = true
only_params (suc rounds) bytes len j =
    let rest = only_params rounds bytes len (add_size j 1) in
    if ltb j len
    then (if is_digit (get_or bytes j 0) || (get_or bytes j 0 == 59) then rest else false)
    else true

-- zr__esc_is_incomplete_supported
unfoldable pub esc_is_incomplete_supported : List ℕ → ℕ → ℕ → Bool
esc_is_incomplete_supported bytes len i =
    let b1 = get_or bytes (add_size i 1) 0 in
    let b2 = get_or bytes (add_size i 2) 0 in
    let mouse_open = no_mouse_end (suc (len - i)) bytes len (add_size i 3) in
    let params_open = only_params (suc (len - i)) bytes len (add_size i 2) in
    if is_nil bytes || leb len i
    then false
    else if get_or bytes i 0 != ascii_esc
    then false
    else if leb len (add_size i 1)
    then true
    else if b1 == 91
    then (if leb len (add_size i 2) then true else if b2 == 60 then mouse_open else params_open)
    else if b1 == 79
    then leb len (add_size i 2)
    else false

module _ {Q : Type 0} (push : Q → Event → Q) where
  -- zr__consume_escape: the queue, and the bytes consumed
  unfoldable pub consume_escape : Q → List ℕ → ℕ → ℕ → ℕ → Q × ℕ
  consume_escape q bytes len i time_ms =
      let csi = ltb (add_size i 2) len && (get_or bytes (add_size i 1) 0 == 91) in
      let mouse = parse_sgr_mouse push bytes len i time_ms q in
      let focus = parse_csi_focus_key bytes len i in
      let csi_u = parse_csi_u_key push bytes len i time_ms q in
      let other = parse_modify_other_keys_tilde push bytes len i time_ms q in
      let simple = parse_csi_simple_key bytes len i in
      let tilde = parse_csi_tilde_key bytes len i in
      let ss3 = parse_ss3_key bytes len i in
      if is_nil bytes || leb len i
      then (q, 0)
      else if get_or bytes i 0 != ascii_esc
      then (q, 0)
      else if csi && (get_or bytes (add_size i 2) 0 == 60) && Emitted.ok mouse
      then (Emitted.queue mouse, Emitted.consumed mouse)
      else if csi && KeyResult.ok focus
      then (push q (key_event time_ms (KeyResult.key focus) 0), KeyResult.consumed focus)
      else if csi && Emitted.ok csi_u
      then (Emitted.queue csi_u, Emitted.consumed csi_u)
      else if csi && Emitted.ok other
      then (Emitted.queue other, Emitted.consumed other)
      else if csi && KeyResult.ok simple
      then (
        push q (key_event time_ms (KeyResult.key simple) (KeyResult.mods simple)),
        KeyResult.consumed simple,
      )
      else if csi && KeyResult.ok tilde
      then (
        push q (key_event time_ms (KeyResult.key tilde) (KeyResult.mods tilde)),
        KeyResult.consumed tilde,
      )
      else if KeyResult.ok ss3
      then (push q (key_event time_ms (KeyResult.key ss3) 0), KeyResult.consumed ss3)
      else (push q (key_event time_ms key_escape 0), 1)

  -- One round of the loop of zr_input_parse_bytes_internal: none where it breaks, and otherwise the
  -- queue and the position after it.
  unfoldable pub parse_one : Bool → List ℕ → ℕ → ℕ → Q → ℕ → Option (Q × ℕ)
  parse_one stop bytes len time_ms q i =
      let b = get_or bytes i 0 in
      let escape = consume_escape q bytes len i time_ms in
      let d = utf8_decode_one (drop i bytes) ((len + 2 ^ 64 - i) % 2 ^ 64) in
      let scalar = if Utf8DecodeResult.valid d != 0 then Utf8DecodeResult.scalar d else 0xFFFD in
      if b == ascii_esc
      then (if stop && esc_is_incomplete_supported bytes len i
          then none
          else some (escape.0, add_size i (escape.1)))
      else if (b == 13) || (b == 10)
      then some (push q (key_event time_ms key_enter 0), add_size i 1)
      else if b == 9
      then some (push q (key_event time_ms key_tab 0), add_size i 1)
      else if b == 0x7F
      then some (push q (key_event time_ms key_backspace 0), add_size i 1)
      else if stop && is_incomplete_utf8_prefix bytes len i
      then none
      else if Utf8DecodeResult.size d == 0
      then none
      else some (push q (text_event time_ms scalar), add_size i (Utf8DecodeResult.size d))

  -- The loop of zr_input_parse_bytes_internal; the fuel is the bytes left.
  unfoldable pub parse_loop : ℕ → Bool → List ℕ → ℕ → ℕ → Q → ℕ → Q × ℕ
  parse_loop zero stop bytes len time_ms q i = (q, i)
  parse_loop (suc fuel) stop bytes len time_ms q i = elim (ltb i len) [
    | false ↦ (q, i)
    | true ↦ elim (parse_one stop bytes len time_ms q i) [
      | none ↦ (q, i)
      | some r ↦ parse_loop fuel stop bytes len time_ms (r.0) (r.1)
    ]
  ]

  -- zr_input_parse_bytes_internal; without a queue nothing happens
  unfoldable pub input_parse_bytes_internal : Option Q → List ℕ → ℕ → ℕ → Bool → Option Q × ℕ
  input_parse_bytes_internal none bytes len time_ms stop = (none, 0)
  input_parse_bytes_internal (some q) bytes len time_ms stop =
      let r = parse_loop len stop bytes len time_ms q 0 in
      if is_nil bytes && (len != 0) then (some q, 0) else (some (r.0), r.1)

  -- zr_input_parse_bytes
  abbrev pub input_parse_bytes : Option Q → List ℕ → ℕ → ℕ → Option Q
  input_parse_bytes q bytes len time_ms = (input_parse_bytes_internal q bytes len time_ms false).0

  -- zr_input_parse_bytes_prefix
  abbrev pub input_parse_bytes_prefix : Option Q → List ℕ → ℕ → ℕ → Option Q × ℕ
  input_parse_bytes_prefix q bytes len time_ms = input_parse_bytes_internal q bytes len time_ms true
