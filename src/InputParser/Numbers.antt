-- ===== src/InputParser/Numbers.antt =====
-- The numeric parameters of escape sequences: zr__parse_u32_dec and the loops over parameters.
use zireael.Prelude.{
  ℕ, zero, suc, ◌+◌, ◌-◌, ◌*◌, ◌/◌, ◌%◌, ◌^◌, Bool, true, false, not, ◌&&◌, ◌||◌, List, get_or, ltb,
  leb, ◌==◌, ◌!=◌, if◌then◌else◌, is_nil,
}
use zireael.Result.{u32_max}
use zireael.InputParser.{add_size, is_digit}

-- What zr__parse_u32_dec returns and writes: on failure `*io_i` stays.
pub record DecResult : Type 0 where
  pub ok : Bool
  pub i : ℕ
  pub value : ℕ

-- The loop of zr__parse_u32_dec.
unfoldable pub dec_loop : ℕ → List ℕ → ℕ → ℕ → ℕ → DecResult
dec_loop zero bytes len i v = record { ok = false; i = i; value = 0 }
dec_loop (suc fuel) bytes len i v =
    let d = get_or bytes i 0 - 48 in
    let rest = dec_loop fuel bytes len (add_size i 1) ((v * 10 + d) % 2 ^ 32) in
    if ltb i len && is_digit (get_or bytes i 0)
    then (if ltb (u32_max / 10) v
        then record { ok = false; i = i; value = 0 }
        else if (v == u32_max / 10) && ltb (u32_max % 10) d
        then record { ok = false; i = i; value = 0 }
        else rest)
    else record { ok = true; i = i; value = v }

-- zr__parse_u32_dec
unfoldable pub parse_u32_dec : List ℕ → ℕ → ℕ → DecResult
parse_u32_dec bytes len i =
    let r = dec_loop (suc (len - i)) bytes len i 0 in
    if is_nil bytes
    then record { ok = false; i = i; value = 0 }
    else if leb len i || not (is_digit (get_or bytes i 0))
    then record { ok = false; i = i; value = 0 }
    else if DecResult.ok r
    then r
    else record { ok = false; i = i; value = 0 }

-- What zr__parse_csi_extra_mod_param_until returns and writes.
pub record ExtraResult : Type 0 where
  pub ok : Bool
  pub i : ℕ
  pub mod_param : ℕ
  pub has_mod : Bool

abbrev pub no_extra : ExtraResult
no_extra = record { ok = false; i = 0; mod_param = 0; has_mod = false }

-- The loop of zr__parse_csi_extra_mod_param_until; the fuel is the bytes left.
unfoldable pub extra_loop : ℕ → List ℕ → ℕ → ℕ → ℕ → ℕ → Bool → ExtraResult
extra_loop zero bytes len final_byte i mod_param has_mod = no_extra
extra_loop (suc fuel) bytes len final_byte i mod_param has_mod =
    let p = parse_u32_dec bytes len (add_size i 1) in
    let rest =
      extra_loop fuel bytes len final_byte (DecResult.i p)
        (if has_mod then mod_param else DecResult.value p) true in
    if ltb i len && (get_or bytes i 0 != final_byte)
    then (if get_or bytes i 0 != 59
        then no_extra
        else if not (DecResult.ok p)
        then no_extra
        else rest)
    else record { ok = true; i = i; mod_param = mod_param; has_mod = has_mod }

-- zr__parse_csi_extra_mod_param_until
unfoldable pub parse_csi_extra_mod_param_until : List ℕ → ℕ → ℕ → ℕ → ExtraResult
parse_csi_extra_mod_param_until bytes len i final_byte =
    if is_nil bytes then no_extra else extra_loop (suc (len - i)) bytes len final_byte i 0 false

-- The locals of the parameter loops of zr__parse_csi_u_key and zr__parse_csi_simple_key (which has no
-- `codepoint`); `ok` is false where the loop returns.
pub record Params : Type 0 where
  pub ok : Bool
  pub j : ℕ
  pub param_index : ℕ
  pub codepoint : ℕ
  pub mod_param : ℕ

-- The locals after one parameter, without the step over `;`.
abbrev pub params_read : List ℕ → ℕ → Params → Params
params_read bytes len s =
    let p = parse_u32_dec bytes len (Params.j s) in
    let index = (Params.param_index s + 1) % 2 ^ 32 in
    record {
      ok = true;
      j = DecResult.i p;
      param_index = index;
      codepoint = if index == 1 then DecResult.value p else Params.codepoint s;
      mod_param = if index == 2 then DecResult.value p else Params.mod_param s;
    }

-- The loop over parameters; the fuel is the bytes left.
unfoldable pub params_loop : ℕ → List ℕ → ℕ → Params → Params
params_loop zero bytes len s = record s { ok = false }
params_loop (suc fuel) bytes len s =
    let b = get_or bytes (Params.j s) 0 in
    let p = parse_u32_dec bytes len (Params.j s) in
    let read = params_read bytes len s in
    let rest = params_loop fuel bytes len (record read { j = add_size (Params.j read) 1 }) in
    if ltb (Params.j s) len && (is_digit b || (b == 59))
    then (if not (DecResult.ok p)
        then record s { ok = false }
        else if ltb (Params.j read) len && (get_or bytes (Params.j read) 0 == 59)
        then rest
        else read)
    else s

abbrev pub read_params : List ℕ → ℕ → ℕ → Params
read_params bytes len j =
    params_loop (suc (len - j)) bytes len
      (record { ok = true; j = j; param_index = 0; codepoint = 0; mod_param = 0 })

-- The locals of zr__parse_modify_other_keys_tilde: `params` and their count.
pub record Keys : Type 0 where
  pub ok : Bool
  pub j : ℕ
  pub first : ℕ
  pub second : ℕ
  pub third : ℕ
  pub param_count : ℕ

-- The locals after `;` and one parameter.
abbrev pub keys_after : List ℕ → ℕ → Keys → Keys
keys_after bytes len s =
    let p = parse_u32_dec bytes len (add_size (Keys.j s) 1) in
    let n = Keys.param_count s in
    record {
      ok = true;
      j = DecResult.i p;
      first = Keys.first s;
      second = if n == 1 then DecResult.value p else Keys.second s;
      third = if n == 2 then DecResult.value p else Keys.third s;
      param_count = (n + 1) % 2 ^ 32;
    }

-- The loop over parameters; the fuel is the bytes left.
unfoldable pub keys_loop : ℕ → List ℕ → ℕ → Keys → Keys
keys_loop zero bytes len s = record s { ok = false }
keys_loop (suc fuel) bytes len s =
    let b = get_or bytes (Keys.j s) 0 in
    let p = parse_u32_dec bytes len (add_size (Keys.j s) 1) in
    let rest = keys_loop fuel bytes len (keys_after bytes len s) in
    if ltb (Keys.j s) len && (b != 126)
    then (if b != 59
        then record s { ok = false }
        else if not (DecResult.ok p)
        then record s { ok = false }
        else rest)
    else s

-- The first parameter, before the loop over the others.
abbrev pub first_keys : List ℕ → ℕ → ℕ → Keys
first_keys bytes len j =
    let p = parse_u32_dec bytes len j in
    record {
      ok = DecResult.ok p;
      j = DecResult.i p;
      first = DecResult.value p;
      second = 0;
      third = 0;
      param_count = 1;
    }

abbrev pub read_keys : List ℕ → ℕ → ℕ → Keys
read_keys bytes len j =
    let p = parse_u32_dec bytes len j in
    let first = first_keys bytes len j in
    if DecResult.ok p then keys_loop (suc (len - DecResult.i p)) bytes len first else first
