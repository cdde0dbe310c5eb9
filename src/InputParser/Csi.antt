-- ===== src/InputParser/Csi.antt =====
-- The key sequences of src/core/zr_input_parser.c that give one key: CSI keys, focus, and SS3.
use zireael.Prelude.{
  ℕ, ◌+◌, ◌-◌, ◌%◌, ◌^◌, Bool, true, false, not, ◌&&◌, ◌||◌, List, get_or, leb, ◌==◌, ◌!=◌,
  if◌then◌else◌, is_nil,
}
use zireael.InputParser.{
  add_size, key_unknown, key_tab, mod_shift, mods_from_csi_param, has_csi_prefix, has_ss3_prefix,
}
use zireael.InputParser.Numbers.{
  DecResult, parse_u32_dec, ExtraResult, parse_csi_extra_mod_param_until, Params, read_params,
}

-- What the parsers of keys return and write.
pub record KeyResult : Type 0 where
  pub ok : Bool
  pub key : ℕ
  pub mods : ℕ
  pub consumed : ℕ

abbrev pub no_key : KeyResult
no_key = record { ok = false; key = key_unknown; mods = 0; consumed = 0 }

-- `(j + 1u) - i`
abbrev pub consumed_to : ℕ → ℕ → ℕ
consumed_to j i = (add_size j 1 + 2 ^ 64 - i) % 2 ^ 64

-- zr__csi_tilde_key_from_first: the key, or 0 (ZR_KEY_UNKNOWN, which the table does not hold) where
-- it returns false
unfoldable pub csi_tilde_key_from_first : ℕ → ℕ
csi_tilde_key_from_first first =
    if (first == 1) || (first == 7)
    then 12
    else if (first == 4) || (first == 8)
    then 13
    else if first == 15
    then 104
    else if leb 17 first && leb first 21
    then first + 88
    else if leb 23 first && leb first 24
    then first + 87
    else if first == 2
    then 10
    else if first == 3
    then 11
    else if first == 5
    then 14
    else if first == 6
    then 15
    else 0

-- zr__csi_simple_key_from_final, with 0 where it returns false
unfoldable pub csi_simple_key_from_final : ℕ → ℕ
csi_simple_key_from_final final_byte =
    if final_byte == 65
    then 20
    else if final_byte == 66
    then 21
    else if final_byte == 67
    then 23
    else if final_byte == 68
    then 22
    else if final_byte == 72
    then 12
    else if final_byte == 70
    then 13
    else 0

-- zr__parse_csi_tilde_key
unfoldable pub parse_csi_tilde_key : List ℕ → ℕ → ℕ → KeyResult
parse_csi_tilde_key bytes len i =
    let first = parse_u32_dec bytes len (add_size i 2) in
    let extra = parse_csi_extra_mod_param_until bytes len (DecResult.i first) 126 in
    let j = ExtraResult.i extra in
    let key = csi_tilde_key_from_first (DecResult.value first) in
    if is_nil bytes || leb len (add_size i 2) || not (has_csi_prefix bytes len i)
    then no_key
    else if not (DecResult.ok first)
    then no_key
    else if not (ExtraResult.ok extra)
    then no_key
    else if leb len j || (get_or bytes j 0 != 126)
    then no_key
    else if key == key_unknown
    then no_key
    else record {
      ok = true;
      key = key;
      mods =
          if ExtraResult.has_mod extra
          then mods_from_csi_param (ExtraResult.mod_param extra)
          else 0;
      consumed = consumed_to j i;
    }

-- zr__parse_csi_simple_key
unfoldable pub parse_csi_simple_key : List ℕ → ℕ → ℕ → KeyResult
parse_csi_simple_key bytes len i =
    let params = read_params bytes len (add_size i 2) in
    let j = Params.j params in
    let key = csi_simple_key_from_final (get_or bytes j 0) in
    let has_mod = leb 2 (Params.param_index params) in
    let mods = mods_from_csi_param (Params.mod_param params) in
    if is_nil bytes || leb len (add_size i 2) || not (has_csi_prefix bytes len i)
    then no_key
    else if not (Params.ok params)
    then no_key
    else if leb len j
    then no_key
    else if key == key_unknown
    then (if get_or bytes j 0 != 90 then no_key else record {
      ok = true;
      key = key_tab;
      mods = if has_mod then mods else mod_shift;
      consumed = consumed_to j i;
    })
    else record {
      ok = true;
      key = key;
      mods = if has_mod then mods else 0;
      consumed = consumed_to j i;
    }

-- zr__parse_csi_focus_key
unfoldable pub parse_csi_focus_key : List ℕ → ℕ → ℕ → KeyResult
parse_csi_focus_key bytes len i =
    let b = get_or bytes (add_size i 2) 0 in
    if is_nil bytes || leb len (add_size i 2) || not (has_csi_prefix bytes len i)
    then no_key
    else if b == 73
    then record { ok = true; key = 30; mods = 0; consumed = 3 }
    else if b == 79
    then record { ok = true; key = 31; mods = 0; consumed = 3 }
    else no_key

-- The switch of zr__parse_ss3_key, with 0 for its default.
unfoldable pub ss3_key_from_final : ℕ → ℕ
ss3_key_from_final b = if leb 80 b && leb b 83 then b + 20 else csi_simple_key_from_final b

-- zr__parse_ss3_key
unfoldable pub parse_ss3_key : List ℕ → ℕ → ℕ → KeyResult
parse_ss3_key bytes len i =
    let key = ss3_key_from_final (get_or bytes (add_size i 2) 0) in
    if is_nil bytes || leb len (add_size i 2) || not (has_ss3_prefix bytes len i)
    then no_key
    else if key == key_unknown
    then no_key
    else record { ok = true; key = key; mods = 0; consumed = 3 }
