-- ===== src/InputParser/Fuel.antt =====
-- The loops over parameters of src/core/zr_input_parser.c have rounds enough: with one round for each
-- byte left and one more, further rounds change nothing.
use zireael.Prelude.{ℕ, zero, suc, ◌+◌, ◌-◌, ◌^◌, ◌<◌, ◌≡◌, Bool, true, List, if◌then◌else◌, arith}
use zireael.InputParser.{add_size}
use zireael.InputParser.Numbers.{
  parse_u32_dec, extra_loop, Params, params_read, params_loop, Keys, keys_after, keys_loop,
}
use zireael.InputParser.Parse.{no_mouse_end, only_params}
use zireael.InputParser.Progress.{dec_range}

module _ (bytes : List ℕ) (len : ℕ) (small : len + 8 < 2 ^ 64) where
  extra_loop_fuel :
      (fuel final i m : ℕ) (has : Bool)
      → len - i < fuel
      → extra_loop (suc fuel) bytes len final i m has ≡ extra_loop fuel bytes len final i m has
  unfolding extra_loop
  extra_loop_fuel zero final i m has enough = absurd (omega arith)
  extra_loop_fuel (suc fuel) final i m has enough =
      let p = parse_u32_dec bytes len (add_size i 1) in
      ground (
        arith,
        dec_range bytes len small (add_size i 1),
        extra_loop_fuel fuel final p.i (if has then m else p.value) true,
      )

  params_loop_fuel :
      (fuel : ℕ) (s : Params)
      → len - s.j < fuel
      → params_loop (suc fuel) bytes len s ≡ params_loop fuel bytes len s
  unfolding params_loop
  params_loop_fuel zero s enough = absurd (omega arith)
  params_loop_fuel (suc fuel) s enough =
      let read = params_read bytes len s in
      ground (
        arith,
        dec_range bytes len small s.j,
        params_loop_fuel fuel (record read { j = add_size read.j 1 }),
      )

  keys_loop_fuel :
      (fuel : ℕ) (s : Keys)
      → len - s.j < fuel
      → keys_loop (suc fuel) bytes len s ≡ keys_loop fuel bytes len s
  unfolding keys_loop
  keys_loop_fuel zero s enough = absurd (omega arith)
  keys_loop_fuel (suc fuel) s enough = ground (
    arith,
    dec_range bytes len small (add_size s.j 1),
    keys_loop_fuel fuel (keys_after bytes len s),
  )

  no_mouse_end_fuel :
      (fuel j : ℕ)
      → len - j < fuel
      → no_mouse_end (suc fuel) bytes len j ≡ no_mouse_end fuel bytes len j
  unfolding no_mouse_end
  no_mouse_end_fuel zero j enough = absurd (omega arith)
  no_mouse_end_fuel (suc fuel) j enough = ground (arith, no_mouse_end_fuel fuel (add_size j 1))

  only_params_fuel :
      (fuel j : ℕ)
      → len - j < fuel
      → only_params (suc fuel) bytes len j ≡ only_params fuel bytes len j
  unfolding only_params
  only_params_fuel zero j enough = absurd (omega arith)
  only_params_fuel (suc fuel) j enough = ground (arith, only_params_fuel fuel (add_size j 1))
