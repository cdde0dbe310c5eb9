-- ===== src/InputParser/Cut.antt =====
-- zr_input_parse_bytes_prefix of src/core/zr_input_parser.c on text that is cut inside a character.
use zireael.Prelude.{
  take-append-drop, ℕ, zero, suc, ◌+◌, ◌-◌, ◌^◌, ◌≤◌, ◌<◌, ◌≡◌, ◌≢◌, refl, sym, ap, subst, ◌∙◌,
  true, false, List, ◌∷◌, ◌++◌, none, some, get_or, length, take, drop, arith, length-append,
  length-take, append_assoc,
}
use zireael.Prelude.Cells.{drop-drop}
use zireael.Event.{Event}
use zireael.Utf8.Scalar.{utf8_encode}
use zireael.InputParser.{text_event}
use zireael.InputParser.Parse.{is_incomplete_utf8_prefix, parse_one, parse_loop}
use zireael.InputParser.Loop.{loop_goes, loop_ends, loop_breaks}
use zireael.InputParser.Text.{
  IsText, AllText, none_left, and_text, encode_all, push_all, lead_lem, drop-append, one_text,
  parse_loop-text,
}
use zireael.InputParser.Incomplete.{get_or-take, first_byte, cut_held, whole_taken}

module _ {Q : Type 0} (push : Q → Event → Q) (bytes : List ℕ) (len : ℕ) (time_ms : ℕ)
    (fits : len ≤ length bytes) (small : len + 8 < 2 ^ 64) where
  both_modes :
      (q : Q) (i : ℕ)
      → get_or bytes i 0 ≢ 0x1B
      → is_incomplete_utf8_prefix bytes len i ≡ false
      → parse_one push true bytes len time_ms q i ≡ parse_one push false bytes len time_ms q i
  unfolding parse_one
  both_modes q i h e = ground (arith, h, e)

  held_back :
      (q : Q) (i : ℕ)
      → 0x80 ≤ get_or bytes i 0
      → is_incomplete_utf8_prefix bytes len i ≡ true
      → parse_one push true bytes len time_ms q i ≡ none
  unfolding parse_one
  held_back q i h e = ground (arith, h, e)

  one_taken :
      (q : Q) (i c : ℕ) (rest : List ℕ)
      → i < len
      → IsText c
      → i + length (utf8_encode c) ≤ len
      → drop i bytes ≡ utf8_encode c ++ rest
      → parse_one push true bytes len time_ms q i
        ≡ some (push q (text_event time_ms c), i + length (utf8_encode c))
  one_taken q i c rest within text inside here =
      let lead = first_byte bytes len i fits small (utf8_encode c ++ rest) here in
      let plain : get_or bytes i 0 ≢ 0x1B =
        ground (arith, lead, lead_lem c rest text, text.no_esc) in
      both_modes q i plain
        (whole_taken bytes len i fits small c rest text.scalar within here inside)
      ∙ one_text push bytes len time_ms fits small q i c rest within text inside here

  -- Text, up to a tail where the parser stops.
  loop_text_then :
      (tail : List ℕ)
      → ((fuel : ℕ) (q : Q) (i : ℕ)
          → drop i bytes ≡ tail
          → i + length tail ≡ len
          → parse_loop push fuel true bytes len time_ms q i ≡ (q, i))
      → (fuel : ℕ) (q : Q) (i : ℕ) (cs : List ℕ) → AllText cs
      → drop i bytes ≡ encode_all cs ++ tail
      → i + length (encode_all cs) + length tail ≡ len
      → len - i ≤ fuel
      → parse_loop push fuel true bytes len time_ms q i
        ≡ (push_all push time_ms q cs, i + length (encode_all cs))
  loop_text_then tail stops fuel q i _ none_left here ends enough =
      stops fuel q i here (omega (arith, ends)) ∙ ap (λ n. (q, n)) (omega arith)
  loop_text_then tail stops zero q i _ (and_text c cs text more) here ends enough = absurd (
      omega (
        arith,
        ends,
        enough,
        lead_lem c (encode_all cs) text,
        length-append (utf8_encode c) (encode_all cs),
      ))
  loop_text_then tail stops (suc fuel) q i _ (and_text c cs text more) here ends enough =
      let n = length (utf8_encode c) in
      let total = length-append (utf8_encode c) (encode_all cs) in
      let lead = lead_lem c (encode_all cs) text in
      let inside : i < len = omega (arith, ends, total, lead) in
      let fits_one : i + n ≤ len = omega (arith, ends, total) in
      let split = here ∙ append_assoc (utf8_encode c) (encode_all cs) tail in
      let next : drop (i + n) bytes ≡ encode_all cs ++ tail =
        sym (drop-drop n i bytes)
        ∙ ap (drop n) split
        ∙ drop-append (utf8_encode c) (encode_all cs ++ tail) in
      loop_goes push bytes len time_ms fits small fuel true q i
        (push q (text_event time_ms c), i + n) inside
        (one_taken q i c (encode_all cs ++ tail) inside text fits_one split)
      ∙ loop_text_then tail stops fuel (push q (text_event time_ms c)) (i + n) cs more next
          (omega (arith, ends, total)) (omega (arith, ends, total, enough, lead))
      ∙ ap (λ m. (push_all push time_ms q (c ∷ cs), m)) (omega (arith, total))

  -- The parser stops before some but not all bytes of a character.
  stops_in :
      (c n : ℕ)
      → IsText c
      → n < length (utf8_encode c)
      → (fuel : ℕ) (q : Q) (i : ℕ) → drop i bytes ≡ take n (utf8_encode c)
      → i + length (take n (utf8_encode c)) ≡ len
      → parse_loop push fuel true bytes len time_ms q i ≡ (q, i)
  stops_in c zero text h fuel q i here ends =
      loop_ends push bytes len time_ms fits small fuel true q i (omega (arith, ends))
  stops_in c (suc n) text h fuel q i here ends =
      let s = utf8_encode c in
      let size = length-take (suc n) s in
      let held =
        cut_held bytes len i fits small c (suc n) text.scalar (omega arith) h here
          (omega (arith, ends, size, h)) in
      let lead : get_or bytes i 0 ≡ get_or s 0 0 =
        first_byte bytes len i fits small (take (suc n) s) here
        ∙ get_or-take (suc n) 0 s (omega arith) in
      let high : 0x80 ≤ get_or s 0 0 = ground (arith, h) in
      loop_breaks push bytes len time_ms fits small fuel true q i
        (held_back q i (omega (arith, lead, high)) held)

-- A text of scalar values, none of them ESC, CR, LF, TAB or DEL, is cut before or inside the
-- encoding of one of them, c; the bytes up to the cut are fewer than 2^64 - 8, and so are those
-- from c on. zr_input_parse_bytes_prefix on the first part pushes one text event for each scalar
-- value before c and keeps back exactly the bytes of c; when they are put in front of the rest,
-- zr_input_parse_bytes pushes one for c and for each scalar value behind it and consumes all.
pub parse_loop-cut :
    {Q : Type 0} (push : Q → Event → Q) (time_ms later_ms : ℕ) (q : Q) (cs : List ℕ) (c n : ℕ)
    (ds : List ℕ)
    → AllText cs
    → IsText c
    → AllText ds
    → n < length (utf8_encode c)
    → length (encode_all cs ++ take n (utf8_encode c)) + 8 < 2 ^ 64
    → length (encode_all (c ∷ ds)) + 8 < 2 ^ 64
    → let first = encode_all cs ++ take n (utf8_encode c) in
      let r = parse_loop push (length first) true first (length first) time_ms q 0 in
      let again = drop r.1 first ++ drop n (utf8_encode c) ++ encode_all ds in
      (r ≡ (push_all push time_ms q cs, length (encode_all cs)))
      × (parse_loop push (length again) false again (length again) later_ms r.0 0
          ≡ (push_all push later_ms (push_all push time_ms q cs) (c ∷ ds), length again))
parse_loop-cut push time_ms later_ms q cs c n ds tcs tc tds h s s' =
    let first = encode_all cs ++ take n (utf8_encode c) in
    let total = length-append (encode_all cs) (take n (utf8_encode c)) in
    let done =
      loop_text_then push first (length first) time_ms (omega arith) s (take n (utf8_encode c))
        (stops_in push first (length first) time_ms (omega arith) s c n tc h) (length first) q 0 cs
        tcs refl (omega (arith, total)) (omega arith) in
    let whole : drop (length (encode_all cs)) first ++ drop n (utf8_encode c) ++ encode_all ds
        ≡ encode_all (c ∷ ds) =
      ap (λ l. l ++ drop n (utf8_encode c) ++ encode_all ds)
        (drop-append (encode_all cs) (take n (utf8_encode c)))
      ∙ ap (λ l. l ++ encode_all ds) (take-append-drop n (utf8_encode c)) in
    let Resumed : List ℕ → Type 0 = λ again.
      parse_loop push (length again) false again (length again) later_ms
        (push_all push time_ms q cs) 0
      ≡ (push_all push later_ms (push_all push time_ms q cs) (c ∷ ds), length again) in
    let resumed = subst Resumed (sym whole) (
      parse_loop-text push later_ms (push_all push time_ms q cs) (c ∷ ds) (and_text c ds tc tds)
        s') in
    let stopped = done ∙ ap (λ m. (push_all push time_ms q cs, m)) (omega arith) in
    (
      stopped,
      subst
          (λ r.
            (let again = drop r.1 first ++ drop n (utf8_encode c) ++ encode_all ds in
              parse_loop push (length again) false again (length again) later_ms r.0 0
              ≡ (push_all push later_ms (push_all push time_ms q cs) (c ∷ ds), length again)))
          (sym stopped) resumed,
    )
