-- ===== src/InputParser/Progress.antt =====
-- How far the parsers of src/core/zr_input_parser.c read: always forward, never past the end.
use zireael.Prelude.{
  ℕ, zero, suc, ◌+◌, ◌-◌, ◌*◌, ◌%◌, ◌^◌, ◌≤◌, ◌<◌, ◌≡◌, Bool, true, false, List, get_or,
  if◌then◌else◌, arith,
}
use zireael.Event.{Event}
use zireael.InputParser.{add_size, is_digit}
use zireael.InputParser.Numbers.{
  dec_loop, parse_u32_dec, extra_loop, parse_csi_extra_mod_param_until, Params, params_loop,
  params_read, Keys, keys_loop, keys_after, first_keys,
}
use zireael.InputParser.Csi.{
  parse_csi_tilde_key, parse_csi_simple_key, parse_csi_focus_key, parse_ss3_key,
}
use zireael.InputParser.Extended.{parse_csi_u_key, parse_modify_other_keys_tilde}
use zireael.InputParser.Mouse.{parse_sgr_mouse}

module _ (bytes : List ℕ) (len : ℕ) (small : len + 8 < 2 ^ 64) where
  dec_loop_range :
      (fuel i v : ℕ)
      → i ≤ len
      → (dec_loop fuel bytes len i v).ok ≡ true
      → (i ≤ (dec_loop fuel bytes len i v).i) × ((dec_loop fuel bytes len i v).i ≤ len)
  unfolding dec_loop
  dec_loop_range zero i v within e = ground arith
  dec_loop_range (suc fuel) i v within e =
      ground
        (arith, dec_loop_range fuel (add_size i 1) ((v * 10 + (get_or bytes i 0 - 48)) % 2 ^ 32))

  dec_loop_first :
      (fuel i v : ℕ)
      → i < len
      → is_digit (get_or bytes i 0) ≡ true
      → (dec_loop (suc fuel) bytes len i v).ok ≡ true
      → i < (dec_loop (suc fuel) bytes len i v).i
  unfolding dec_loop
  dec_loop_first fuel i v within digit e =
      ground
        (arith, dec_loop_range fuel (add_size i 1) ((v * 10 + (get_or bytes i 0 - 48)) % 2 ^ 32))

  pub dec_range :
      (i : ℕ)
      → (parse_u32_dec bytes len i).ok ≡ true
      → (i < (parse_u32_dec bytes len i).i) × ((parse_u32_dec bytes len i).i ≤ len)
  unfolding parse_u32_dec
  dec_range i e = ground (arith, dec_loop_range (suc (len - i)) i 0, dec_loop_first (len - i) i 0)

  extra_range :
      (fuel final i m : ℕ) (has : Bool)
      → i ≤ len
      → (extra_loop fuel bytes len final i m has).ok ≡ true
      → (i ≤ (extra_loop fuel bytes len final i m has).i)
        × ((extra_loop fuel bytes len final i m has).i ≤ len)
  unfolding extra_loop
  extra_range zero final i m has within e = ground arith
  extra_range (suc fuel) final i m has within e =
      let p = parse_u32_dec bytes len (add_size i 1) in
      ground (
        arith,
        dec_range (add_size i 1),
        extra_range fuel final p.i (if has then m else p.value) true,
      )

  params_range :
      (fuel : ℕ) (s : Params)
      → s.j ≤ len
      → (params_loop fuel bytes len s).ok ≡ true
      → (s.j ≤ (params_loop fuel bytes len s).j) × ((params_loop fuel bytes len s).j ≤ len)
  unfolding params_loop
  params_range zero s within e = ground arith
  params_range (suc fuel) s within e =
      let read = params_read bytes len s in
      ground (arith, dec_range s.j, params_range fuel (record read { j = add_size read.j 1 }))

  keys_range :
      (fuel : ℕ) (s : Keys)
      → s.j ≤ len
      → (keys_loop fuel bytes len s).ok ≡ true
      → (s.j ≤ (keys_loop fuel bytes len s).j) × ((keys_loop fuel bytes len s).j ≤ len)
  unfolding keys_loop
  keys_range zero s within e = ground arith
  keys_range (suc fuel) s within e =
      ground (arith, dec_range (add_size s.j 1), keys_range fuel (keys_after bytes len s))

  -- A parser that succeeds at `i` consumes at least one byte and none past the end.
  abbrev pub Takes : ℕ → Bool → ℕ → Type 0
  Takes i ok n = ok ≡ true → (1 ≤ n) × (i + n ≤ len)

  pub tilde-Takes :
      (i : ℕ)
      → i < len
      → Takes i (parse_csi_tilde_key bytes len i).ok (parse_csi_tilde_key bytes len i).consumed
  unfolding parse_csi_tilde_key parse_csi_extra_mod_param_until
  tilde-Takes i within e =
      let first = parse_u32_dec bytes len (add_size i 2) in
      ground
        (arith, dec_range (add_size i 2), extra_range (suc (len - first.i)) 126 first.i 0 false)

  pub simple-Takes :
      (i : ℕ)
      → i < len
      → Takes i (parse_csi_simple_key bytes len i).ok (parse_csi_simple_key bytes len i).consumed
  unfolding parse_csi_simple_key
  simple-Takes i within e =
      let j = add_size i 2 in
      ground (
        arith,
        params_range (suc (len - j))
            (record { ok = true; j = j; param_index = 0; codepoint = 0; mod_param = 0 }),
      )

  pub focus-Takes :
      (i : ℕ)
      → i < len
      → Takes i (parse_csi_focus_key bytes len i).ok (parse_csi_focus_key bytes len i).consumed
  unfolding parse_csi_focus_key
  focus-Takes i within e = ground arith

  pub ss3-Takes :
      (i : ℕ)
      → i < len
      → Takes i (parse_ss3_key bytes len i).ok (parse_ss3_key bytes len i).consumed
  unfolding parse_ss3_key
  ss3-Takes i within e = ground arith

  module _ {Q : Type 0} (push : Q → Event → Q) (q : Q) (time_ms : ℕ) where
    pub csi_u-Takes :
        (i : ℕ)
        → i < len
        → Takes i
            (parse_csi_u_key push bytes len i time_ms q).ok
            (parse_csi_u_key push bytes len i time_ms q).consumed
    unfolding parse_csi_u_key
    csi_u-Takes i within e =
        let j = add_size i 2 in
        ground (
          arith,
          params_range (suc (len - j))
              (record { ok = true; j = j; param_index = 0; codepoint = 0; mod_param = 0 }),
        )

    pub other-Takes :
        (i : ℕ)
        → i < len
        → Takes i
            (parse_modify_other_keys_tilde push bytes len i time_ms q).ok
            (parse_modify_other_keys_tilde push bytes len i time_ms q).consumed
    unfolding parse_modify_other_keys_tilde
    other-Takes i within e =
        let j = add_size i 2 in
        let first = first_keys bytes len j in
        ground (arith, dec_range j, keys_range (suc (len - first.j)) first)

    pub mouse-Takes :
        (i : ℕ)
        → i < len
        → Takes i
            (parse_sgr_mouse push bytes len i time_ms q).ok
            (parse_sgr_mouse push bytes len i time_ms q).consumed
    unfolding parse_sgr_mouse
    mouse-Takes i within e =
        let b = parse_u32_dec bytes len (add_size i 3) in
        let x = parse_u32_dec bytes len (add_size b.i 1) in
        ground
          (arith, dec_range (add_size i 3), dec_range (add_size b.i 1), dec_range (add_size x.i 1))
