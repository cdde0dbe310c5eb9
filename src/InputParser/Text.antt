-- ===== src/InputParser/Text.antt =====
-- The input parser on text: what it pushes for the encodings of scalar values.
use zireael.Prelude.{
  ℕ, zero, suc, ◌+◌, ◌-◌, ◌%◌, ◌^◌, ◌≤◌, ◌<◌, ◌≡◌, ◌≢◌, ◌⊎◌, refl, sym, ap, ◌∙◌, false, List, [],
  ◌∷◌, ◌++◌, some, get_or, length, drop, arith, length-append,
}
use zireael.Prelude.Cells.{drop-drop}
use zireael.Event.{Event}
use zireael.Utf8.{utf8_decode_one}
use zireael.Utf8.Scalar.{IsScalar, utf8_encode}
use zireael.Utf8.Decode.{utf8_accepted}
use zireael.Utf8.RoundTrip.{utf8_decode_one-encode}
use zireael.InputParser.{text_event}
use zireael.InputParser.Parse.{parse_one, parse_loop}
use zireael.InputParser.Loop.{loop_goes, loop_ends}

-- A scalar value that is no key of its own: not ESC, CR, LF, TAB or DEL.
pub record IsText (c : ℕ) : Type 0 where
  pub scalar : IsScalar c
  pub no_esc : c ≢ 0x1B
  pub no_cr : c ≢ 0x0D
  pub no_lf : c ≢ 0x0A
  pub no_tab : c ≢ 0x09
  pub no_del : c ≢ 0x7F

pub data AllText : List ℕ → Type 0 where
  none_left : AllText []
  and_text : (c : ℕ) (cs : List ℕ) → IsText c → AllText cs → AllText (c ∷ cs)

abbrev pub encode_all : List ℕ → List ℕ
encode_all [] = []
encode_all (c ∷ cs) = utf8_encode c ++ encode_all cs

-- One text event for each scalar value, in their order.
abbrev pub push_all : {Q : Type 0} → (Q → Event → Q) → ℕ → Q → List ℕ → Q
push_all push time_ms q [] = q
push_all push time_ms q (c ∷ cs) = push_all push time_ms (push q (text_event time_ms c)) cs

pub lead_lem :
    (c : ℕ) (rest : List ℕ)
    → IsText c
    → ((get_or (utf8_encode c ++ rest) 0 0 ≡ c) ⊎ (0x80 ≤ get_or (utf8_encode c ++ rest) 0 0))
      × (1 ≤ length (utf8_encode c))
lead_lem c rest text = ground arith

pub get_or-drop : (xs : List ℕ) (i : ℕ) → get_or xs i 0 ≡ get_or (drop i xs) 0 0
get_or-drop xs zero = refl
get_or-drop [] (suc i) = refl
get_or-drop (x ∷ xs) (suc i) = get_or-drop xs i

pub drop-append : (xs ys : List ℕ) → drop (length xs) (xs ++ ys) ≡ ys
drop-append [] ys = refl
drop-append (x ∷ xs) ys = drop-append xs ys

module _ {Q : Type 0} (push : Q → Event → Q) (bytes : List ℕ) (len : ℕ) (time_ms : ℕ)
    (fits : len ≤ length bytes) (small : len + 8 < 2 ^ 64) where
  pub one_text :
      (q : Q) (i c : ℕ) (rest : List ℕ)
      → i < len
      → IsText c
      → i + length (utf8_encode c) ≤ len
      → drop i bytes ≡ utf8_encode c ++ rest
      → parse_one push false bytes len time_ms q i
        ≡ some (push q (text_event time_ms c), i + length (utf8_encode c))
  unfolding parse_one
  one_text q i c rest within text inside here =
      let wrap : (len + 2 ^ 64 - i) % 2 ^ 64 ≡ len - i = omega arith in
      let decoded : utf8_decode_one (drop i bytes) (len - i) ≡ utf8_accepted c =
        ap (λ s. utf8_decode_one s (len - i)) here
        ∙ utf8_decode_one-encode c rest (len - i) text.scalar (omega (arith, inside)) in
      let lead = get_or-drop bytes i ∙ ap (λ s. get_or s 0 0) here in
      ground (arith, wrap, decoded, lead, lead_lem c rest text)

  loop_text :
      (fuel : ℕ) (q : Q) (i : ℕ) (cs : List ℕ)
      → AllText cs
      → drop i bytes ≡ encode_all cs
      → i + length (encode_all cs) ≡ len
      → len - i ≤ fuel
      → parse_loop push fuel false bytes len time_ms q i ≡ (push_all push time_ms q cs, len)
  loop_text fuel q i _ none_left here ends enough =
      loop_ends push bytes len time_ms fits small fuel false q i (omega (arith, ends))
      ∙ ap (λ n. (q, n)) (omega (arith, ends))
  loop_text zero q i _ (and_text c cs text rest) here ends enough = absurd (
      omega (
        arith,
        ends,
        enough,
        lead_lem c (encode_all cs) text,
        length-append (utf8_encode c) (encode_all cs),
      ))
  loop_text (suc fuel) q i _ (and_text c cs text rest) here ends enough =
      let n = length (utf8_encode c) in
      let total = length-append (utf8_encode c) (encode_all cs) in
      let lead = lead_lem c (encode_all cs) text in
      let inside : i < len = omega (arith, ends, total, lead) in
      let fits_one : i + n ≤ len = omega (arith, ends, total) in
      let next : drop (i + n) bytes ≡ encode_all cs =
        sym (drop-drop n i bytes)
        ∙ ap (drop n) here
        ∙ drop-append (utf8_encode c) (encode_all cs) in
      loop_goes push bytes len time_ms fits small fuel false q i
        (push q (text_event time_ms c), i + n) inside
        (one_text q i c (encode_all cs) inside text fits_one here)
      ∙ loop_text fuel (push q (text_event time_ms c)) (i + n) cs rest next
          (omega (arith, ends, total)) (omega (arith, ends, total, enough, lead))

-- Parsing the UTF-8 encodings of scalar values, none of them ESC, CR, LF, TAB or DEL, of fewer than
-- 2^64 - 8 bytes together, pushes one text event for each, with that scalar value and in their
-- order, and consumes all the bytes.
pub parse_loop-text :
    {Q : Type 0} (push : Q → Event → Q) (time_ms : ℕ) (q : Q) (cs : List ℕ)
    → AllText cs
    → length (encode_all cs) + 8 < 2 ^ 64
    → parse_loop push
        (length (encode_all cs))
        false
        (encode_all cs)
        (length (encode_all cs))
        time_ms
        q
        0
      ≡ (push_all push time_ms q cs, length (encode_all cs))
parse_loop-text push time_ms q cs text small =
    loop_text push (encode_all cs) (length (encode_all cs)) time_ms (omega arith) small
      (length (encode_all cs)) q 0 cs text refl (omega arith) (omega arith)
