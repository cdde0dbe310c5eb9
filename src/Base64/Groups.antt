-- ===== src/Base64/Groups.antt =====
-- The loop of zr_base64_encode and its tail: what they append to the output.
use zireael.Prelude.{
  ℕ, zero, suc, ◌+◌, ◌-◌, ◌*◌, ◌/◌, ◌%◌, ◌^◌, ◌<◌, ◌≡◌, ◌≤◌, ◌⊎◌, inl, inr, refl, sym, ap, ◌∙◌,
  true, List, [], ◌∷◌, ◌++◌, append_assoc, append-nil, get_or, take, drop, ltb, leb, arith, length,
  Bool-cases,
}
use zireael.Prelude.Buffer.{write_at, slice, length-write_at, take-write_at_append}
use zireael.Base64.{base64_encode_triplet, encode_groups, encode_tail}
use zireael.Base64.Rfc4648.{encode}

drop_step :
    (xs : List ℕ) (n i : ℕ)
    → i < n
    → n ≤ length xs
    → drop i (take n xs) ≡ get_or xs i 0 ∷ drop (suc i) (take n xs)
drop_step [] n i h p = absurd (omega arith)
drop_step (x ∷ xs) zero i h p = absurd (omega arith)
drop_step (x ∷ xs) (suc n) zero h p = refl
drop_step (x ∷ xs) (suc n) (suc i) h p = drop_step xs n i (omega arith) (omega arith)

drop_end : (xs : List ℕ) (n : ℕ) → n ≤ length xs → drop n (take n xs) ≡ []
drop_end xs zero h = refl
drop_end [] (suc n) h = absurd (omega arith)
drop_end (x ∷ xs) (suc n) h = drop_end xs n (omega arith)

length-triplet : (a b c : ℕ) → length (base64_encode_triplet a b c) ≡ 4
unfolding base64_encode_triplet
length-triplet a b c = refl

module _ (src : List ℕ) (in_len : ℕ) (given : in_len ≤ length src)
    (small : in_len + 3 < 2 ^ 64) where
  -- What is left to encode from `i` on.
  abbrev pub left : ℕ → List ℕ
  left i = drop i (take in_len src)

  left_three :
      (i : ℕ)
      → i + 3 ≤ in_len
      → left i ≡ get_or src i 0 ∷ get_or src (i + 1) 0 ∷ get_or src (i + 2) 0 ∷ left (i + 3)
  left_three i h =
      let e1 : i + 1 ≡ suc i = omega arith in
      let e2 : i + 2 ≡ suc (suc i) = omega arith in
      let e3 : i + 3 ≡ suc (suc (suc i)) = omega arith in
      rw (e1, e2, e3)
        (drop_step src in_len i (omega arith) given
          ∙ ap (λ l. get_or src i 0 ∷ l)
              (drop_step src in_len (suc i) (omega arith) given
                ∙ ap (λ l. get_or src (suc i) 0 ∷ l)
                    (drop_step src in_len (suc (suc i)) (omega arith) given)))

  -- The room that the encoding of what is left takes.
  abbrev pub room : ℕ → ℕ
  room i = (in_len - i + 2) / 3 * 4

  -- The loop has stopped in the last, short group.
  pub record Looped (out : List ℕ) (i j : ℕ) (r : List ℕ × ℕ × ℕ) : Type 0 where
    pub short : r.1 ≤ in_len
    pub shorter : in_len < r.1 + 3
    pub same_length : length r.0 ≡ length out
    pub place : r.2 + room r.1 ≡ j + room i
    pub bytes : take r.2 r.0 ++ encode (left r.1) ≡ take j out ++ encode (left i)

  pub encode_groups-Looped :
      (rounds : ℕ) (out : List ℕ) (i j : ℕ)
      → i ≤ in_len
      → in_len - i ≤ rounds
      → j + room i ≤ length out
      → Looped out i j (encode_groups rounds src in_len out i j)
  unfolding encode_groups
  encode_groups-Looped zero out i j h fuel fits = record {
    short = h;
    shorter = omega arith;
    same_length = refl;
    place = refl;
    bytes = refl;
  }
  encode_groups-Looped (suc rounds) out i j h fuel fits =
      elim (Bool-cases (leb ((i + 3) % 2 ^ 64) in_len)) [
        | inr stop ↦ rw stop (record {
          short = h;
          shorter = ground (arith, stop);
          same_length = refl;
          place = refl;
          bytes = refl;
        })
        | inl go ↦
            let three : i + 3 ≤ in_len = ground (arith, go) in
            let t =
              base64_encode_triplet (get_or src i 0) (get_or src (i + 1) 0)
                (get_or src (i + 2) 0) in
            let l4 : length t ≡ 4 =
              length-triplet (get_or src i 0) (get_or src (i + 1) 0) (get_or src (i + 2) 0) in
            let same = length-write_at out j t in
            let rest =
              encode_groups-Looped rounds (write_at out j t) (i + 3) (j + 4) three (omega arith)
                (omega (arith, same)) in
            rw go (record {
              short = rest.short;
              shorter = rest.shorter;
              same_length = rest.same_length ∙ same;
              place = omega (arith, rest.place);
              bytes =
                  rest.bytes
                  ∙ ap (λ l. l ++ encode (left (i + 3)))
                      (take-write_at_append out j t (j + 4) (omega (arith, l4)) (omega arith))
                  ∙ append_assoc (take j out) t (encode (left (i + 3)))
                  ∙ ap (λ l. take j out ++ encode l) (sym (left_three i three));
            })
      ]

  -- The last group is appended.
  pub record Finished (out : List ℕ) (i j : ℕ) (r : List ℕ × ℕ) : Type 0 where
    pub same_length : length r.0 ≡ length out
    pub place : r.1 ≡ j + room i
    pub bytes : take r.1 r.0 ≡ take j out ++ encode (left i)

  slice_one : (xs : List ℕ) (i : ℕ) → i < length xs → slice xs i 1 ≡ get_or xs i 0 ∷ []
  slice_one [] i h = absurd (omega arith)
  slice_one (x ∷ xs) zero h = refl
  slice_one (x ∷ xs) (suc i) h = slice_one xs i (omega arith)

  slice_two :
      (xs : List ℕ) (i : ℕ)
      → i + 1 < length xs
      → slice xs i 2 ≡ get_or xs i 0 ∷ get_or xs (suc i) 0 ∷ []
  slice_two [] i h = absurd (omega arith)
  slice_two (x ∷ []) i h = absurd (omega arith)
  slice_two (x ∷ y ∷ xs) zero h = refl
  slice_two (x ∷ y ∷ xs) (suc i) h = slice_two (y ∷ xs) i (omega arith)

  tail_none : (out : List ℕ) (i j : ℕ) → i ≡ in_len → encode_tail src in_len out i j ≡ (out, j)
  unfolding encode_tail
  tail_none out i j e = ground (arith, e)

  tail_one :
      (out : List ℕ) (i j : ℕ)
      → i + 1 ≡ in_len
      → encode_tail src in_len out i j ≡ (write_at out j (encode (get_or src i 0 ∷ [])), j + 4)
  unfolding encode_tail write_at
  tail_one out i j e =
      let t : ltb i in_len ≡ true = ground (arith, e) in
      let rem : in_len - i ≡ 1 = omega arith in rw (t, rem, slice_one src i (omega arith)) refl

  tail_two :
      (out : List ℕ) (i j : ℕ)
      → i + 2 ≡ in_len
      → encode_tail src in_len out i j
        ≡ (write_at out j (encode (get_or src i 0 ∷ get_or src (suc i) 0 ∷ [])), j + 4)
  unfolding encode_tail write_at
  tail_two out i j e =
      let t : ltb i in_len ≡ true = ground (arith, e) in
      let rem : in_len - i ≡ 2 = omega arith in rw (t, rem, slice_two src i (omega arith)) refl

  -- Four characters that encode what is left.
  finish :
      (out : List ℕ) (i j : ℕ) (xs : List ℕ)
      → left i ≡ xs
      → length (encode xs) ≡ 4
      → room i ≡ 4
      → j + 4 ≤ length out
      → Finished out i j (write_at out j (encode xs), j + 4)
  finish out i j xs e l r fits = record {
    same_length = length-write_at out j (encode xs);
    place = omega (arith, r);
    bytes =
        take-write_at_append out j (encode xs) (j + 4) (omega (arith, l)) fits
        ∙ ap (λ k. take j out ++ encode k) (sym e);
  }

  left_end : (i : ℕ) → i ≡ in_len → left i ≡ []
  left_end i e = rw e (drop_end src in_len given)

  left_one : (i : ℕ) → i + 1 ≡ in_len → left i ≡ get_or src i 0 ∷ []
  left_one i e =
      drop_step src in_len i (omega arith) given
      ∙ ap (λ l. get_or src i 0 ∷ l) (left_end (suc i) (omega arith))

  left_two : (i : ℕ) → i + 2 ≡ in_len → left i ≡ get_or src i 0 ∷ get_or src (suc i) 0 ∷ []
  left_two i e =
      drop_step src in_len i (omega arith) given
      ∙ ap (λ l. get_or src i 0 ∷ l) (left_one (suc i) (omega arith))

  tail_cases :
      (i : ℕ) → i ≤ in_len → in_len < i + 3 → (i ≡ in_len) ⊎ ((i + 1 ≡ in_len) ⊎ (i + 2 ≡ in_len))
  tail_cases i h k = ground arith

  pub encode_tail-Finished :
      (out : List ℕ) (i j : ℕ)
      → i ≤ in_len
      → in_len < i + 3
      → j + room i ≤ length out
      → Finished out i j (encode_tail src in_len out i j)
  encode_tail-Finished out i j h k fits = elim (tail_cases i h k) [
    | inl e ↦ rw (tail_none out i j e) (record {
      same_length = refl;
      place = omega arith;
      bytes = sym (append-nil (take j out)) ∙ ap (λ l. take j out ++ encode l) (sym (left_end i e));
    })
    | inr (inl e) ↦
        let a = get_or src i 0 in
        rw (tail_one out i j e)
          (finish out i j (a ∷ []) (left_one i e) refl (omega arith) (omega arith))
    | inr (inr e) ↦
        let a = get_or src i 0 in
        let b = get_or src (suc i) 0 in
        rw (tail_two out i j e)
          (finish out i j (a ∷ b ∷ []) (left_two i e) refl (omega arith) (omega arith))
  ]
