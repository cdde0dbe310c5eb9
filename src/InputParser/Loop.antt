-- ===== src/InputParser/Loop.antt =====
-- The loop of zr_input_parse_bytes_internal: it ends, and where.
use zireael.Prelude.{
  ℕ, zero, suc, ◌+◌, ◌-◌, ◌%◌, ◌^◌, ◌≤◌, ◌<◌, ◌≡◌, ◌⊎◌, inl, inr, refl, sym, subst, Bool, true,
  false, List, Option, none, some, get_or, drop, length, ltb, arith, is_nil_lem, Option-cases,
  Bool-cases,
}
use zireael.Event.{Event}
use zireael.Utf8.Size.{utf8_size_lem}
use zireael.InputParser.{ascii_esc}
use zireael.InputParser.Parse.{
  is_incomplete_utf8_prefix, esc_is_incomplete_supported, consume_escape, parse_one, parse_loop,
}
use zireael.InputParser.Progress.{
  tilde-Takes, simple-Takes, focus-Takes, ss3-Takes, csi_u-Takes, other-Takes, mouse-Takes,
}

-- What stops the parser where incomplete input is kept back.
abbrev pub IsIncomplete : List ℕ → ℕ → ℕ → Type 0
IsIncomplete bytes len i =
    (esc_is_incomplete_supported bytes len i ≡ true)
    ⊎ (is_incomplete_utf8_prefix bytes len i ≡ true)

module _ {Q : Type 0} (push : Q → Event → Q) (bytes : List ℕ) (len : ℕ) (time_ms : ℕ)
    (fits : len ≤ length bytes) (small : len + 8 < 2 ^ 64) where
  consume_escape_takes :
      (q : Q) (i : ℕ)
      → i < len
      → get_or bytes i 0 ≡ ascii_esc
      → (1 ≤ (consume_escape push q bytes len i time_ms).1)
        × (i + (consume_escape push q bytes len i time_ms).1 ≤ len)
  unfolding consume_escape
  consume_escape_takes q i within e = ground (
    arith,
    is_nil_lem bytes,
    tilde-Takes bytes len small i,
    simple-Takes bytes len small i,
    focus-Takes bytes len small i,
    ss3-Takes bytes len small i,
    csi_u-Takes bytes len small push q time_ms i,
    other-Takes bytes len small push q time_ms i,
    mouse-Takes bytes len small push q time_ms i,
  )

  abbrev pub one : Bool → Q → ℕ → Option (Q × ℕ)
  one stop q i = parse_one push stop bytes len time_ms q i

  one_range :
      (stop : Bool) (q : Q) (i : ℕ) (r : Q × ℕ)
      → i < len
      → one stop q i ≡ some r
      → (i < r.1) × (r.1 ≤ len)
  unfolding parse_one
  one_range stop q i r within e =
      let wrap : (len + 2 ^ 64 - i) % 2 ^ 64 ≡ len - i = omega arith in
      ground (arith, wrap, consume_escape_takes q i, utf8_size_lem (drop i bytes) (len - i))

  one_stops :
      (stop : Bool) (q : Q) (i : ℕ)
      → i < len
      → one stop q i ≡ none
      → (stop ≡ true) × IsIncomplete bytes len i
  unfolding parse_one
  one_stops stop q i within e =
      let wrap : (len + 2 ^ 64 - i) % 2 ^ 64 ≡ len - i = omega arith in
      ground (arith, wrap, utf8_size_lem (drop i bytes) (len - i))

  abbrev pub loop : ℕ → Bool → Q → ℕ → Q × ℕ
  loop fuel stop q i = parse_loop push fuel stop bytes len time_ms q i

  pub loop_goes :
      (fuel : ℕ) (stop : Bool) (q : Q) (i : ℕ) (r : Q × ℕ)
      → i < len
      → one stop q i ≡ some r
      → loop (suc fuel) stop q i ≡ loop fuel stop r.0 r.1
  unfolding parse_loop
  loop_goes fuel stop q i r within e = ground (arith, e)

  pub loop_breaks :
      (fuel : ℕ) (stop : Bool) (q : Q) (i : ℕ) → one stop q i ≡ none → loop fuel stop q i ≡ (q, i)
  unfolding parse_loop
  loop_breaks zero stop q i e = refl
  loop_breaks (suc fuel) stop q i e = ground (arith, e)

  pub loop_ends : (fuel : ℕ) (stop : Bool) (q : Q) (i : ℕ) → len ≤ i → loop fuel stop q i ≡ (q, i)
  unfolding parse_loop
  loop_ends zero stop q i h = refl
  loop_ends (suc fuel) stop q i h = ground (arith, h)

  -- Where the loop stops: at the end, or with `stop` before incomplete input.
  loop_range :
      (fuel : ℕ) (stop : Bool) (q : Q) (i : ℕ)
      → i ≤ len
      → len - i ≤ fuel
      → (i ≤ (loop fuel stop q i).1)
        × ((loop fuel stop q i).1 ≤ len)
        × (((loop fuel stop q i).1 ≡ len)
            ⊎ ((stop ≡ true) × IsIncomplete bytes len (loop fuel stop q i).1))
  unfolding parse_loop
  loop_range zero stop q i within enough = (omega arith, within, inl (omega arith))
  loop_range (suc fuel) stop q i within enough =
      let Goal : Q × ℕ → Type 0 = λ r.
        (i ≤ r.1) × (r.1 ≤ len) × ((r.1 ≡ len) ⊎ ((stop ≡ true) × IsIncomplete bytes len r.1)) in
      elim (Bool-cases (ltb i len)) [
        | inr h ↦
            subst Goal (sym (loop_ends (suc fuel) stop q i (ground (arith, h))))
              (omega arith, within, inl (ground (arith, h, within)))
        | inl h ↦
            let inside : i < len = ground (arith, h) in
            elim (Option-cases (one stop q i)) [
              | inl e ↦
                  subst Goal (sym (loop_breaks (suc fuel) stop q i e))
                    (omega arith, within, inr (one_stops stop q i inside e))
              | inr (r, e) ↦
                  let range = one_range stop q i r inside e in
                  let rest = loop_range fuel stop r.0 r.1 range.1 (omega (arith, range, enough)) in
                  subst Goal (sym (loop_goes fuel stop q i r inside e))
                    (omega (arith, rest.0, range.0), rest.1, rest.2)
            ]
      ]

  -- Whatever the bytes (at least as many as stated, and 8 more than stated below 2^64), the parser
  -- ends after at most one round for each byte and has then consumed all of them; when it keeps back
  -- incomplete input it has consumed no more than there are, and all of them unless an incomplete
  -- escape sequence or UTF-8 sequence starts where it stopped.
  pub parse_loop_ends :
      (q : Q)
      → ((loop len false q 0).1 ≡ len)
        × ((loop len true q 0).1 ≤ len)
        × (((loop len true q 0).1 ≡ len) ⊎ IsIncomplete bytes len (loop len true q 0).1)
  parse_loop_ends q =
      let all = loop_range len false q 0 (omega arith) (omega arith) in
      let kept = loop_range len true q 0 (omega arith) (omega arith) in
      (
        (elim all.2 [ inl e ↦ e | inr (stop, h) ↦ absurd (ground (arith, stop)) ]),
        kept.1,
        (elim kept.2 [ inl e ↦ inl e | inr (stop, h) ↦ inr h ]),
      )
