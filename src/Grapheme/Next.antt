-- ===== src/Grapheme/Next.antt =====
-- zr_grapheme_next: what one call takes, its progress and its bounds.
use zireael.Prelude.{
  is_nil_lem, ℕ, zero, suc, ◌+◌, ◌-◌, ◌%◌, ◌^◌, ◌≤◌, ◌<◌, ◌≡◌, ◌⊎◌, inl, inr, refl, sym, subst,
  true, false, Option, none, some, length, drop, arith, Bool-cases,
}
use zireael.Utf8.{utf8_decode_one, Utf8DecodeResult}
use zireael.Utf8.Size.{utf8_size_lem}
use zireael.Unicode.{UnicodeTables, unicode_gcb_class, unicode_is_extended_pictographic}
use zireael.Grapheme.{
  Grapheme, GraphemeIter, GraphemeCp, BreakState, state_init, state_advance, breaks_before, forward,
  grapheme_decode_cp, cluster_loop, grapheme_next_given,
}

-- The stated length lies within the buffer, and the position within the length.
pub record IsValid (it : GraphemeIter) : Type 0 where
  pub held : it.len ≤ length it.bytes
  pub size : it.len < 2 ^ 64
  pub within : it.off ≤ it.len

at_end : (it : GraphemeIter) → IsValid it → (it.off < it.len) ⊎ (it.off ≡ it.len)
at_end it valid = ground (arith, valid.within)

module _ (tables : UnicodeTables) where
  -- The code point at an offset.
  abbrev pub cp_at : GraphemeIter → ℕ → GraphemeCp
  cp_at it off =
      let dec = utf8_decode_one (drop off it.bytes) (it.len - off) in
      record {
        size = Utf8DecodeResult.size dec;
        gcb_class = unicode_gcb_class tables (Utf8DecodeResult.scalar dec);
        is_extended_pictographic =
            unicode_is_extended_pictographic tables (Utf8DecodeResult.scalar dec);
      }

  -- Within the length a code point is decoded, and it ends within the length.
  pub decode_lem :
      (it : GraphemeIter) (off : ℕ)
      → IsValid it
      → off < it.len
      → (grapheme_decode_cp tables it off ≡ some (cp_at it off))
        × (1 ≤ (cp_at it off).size)
        × (off + (cp_at it off).size ≤ it.len)
  unfolding grapheme_decode_cp
  decode_lem it off valid h =
      let held = valid.held in
      let small = valid.size in
      let wrap : (it.len + 2 ^ 64 - off) % 2 ^ 64 ≡ it.len - off = omega (arith, held, small) in
      let size = utf8_size_lem (drop off it.bytes) (it.len - off) (omega arith) in
      let bytes = is_nil_lem it.bytes (omega (arith, held)) in ground (arith, wrap, size, bytes)

  -- How a cluster grows: it ends at the end of the input, or before a code point that the state
  -- breaks before; any other code point joins it.
  pub data Grows : GraphemeIter → BreakState → GraphemeIter → Type 0 where
    ends : (it : GraphemeIter) (state : BreakState) → it.off ≡ it.len → Grows it state it
    breaks :
        (it : GraphemeIter) (state : BreakState)
        → it.off < it.len
        → breaks_before state (cp_at it it.off) ≡ true
        → Grows it state it
    joins :
        (it : GraphemeIter) (state : BreakState) (last : GraphemeIter)
        → it.off < it.len
        → breaks_before state (cp_at it it.off) ≡ false
        → Grows (forward it (cp_at it it.off)) (state_advance state (cp_at it it.off)) last
        → Grows it state last

  pub record Grown (it : GraphemeIter) (state : BreakState) (last : GraphemeIter) : Type 0 where
    pub grows : Grows it state last
    pub above : it.off ≤ last.off
    pub valid : IsValid last
    pub same_bytes : last.bytes ≡ it.bytes
    pub same_len : last.len ≡ it.len

  forward-IsValid :
      (it : GraphemeIter)
      → IsValid it
      → it.off < it.len
      → IsValid (forward it (cp_at it it.off))
        × ((forward it (cp_at it it.off)).off ≡ it.off + (cp_at it it.off).size)
        × (it.off < (forward it (cp_at it it.off)).off)
  forward-IsValid it valid h =
      let d = decode_lem it it.off valid h in
      let small = valid.size in
      let wrap : (it.off + (cp_at it it.off).size) % 2 ^ 64 ≡ it.off + (cp_at it it.off).size =
        omega (arith, d, small) in
      (
        record { held = valid.held; size = small; within = omega (arith, wrap, d) },
        wrap,
        omega (arith, wrap, d),
      )

  module _ (fuel : ℕ) (it : GraphemeIter) (state : BreakState) (valid : IsValid it) where
    abbrev cp : GraphemeCp
    cp = cp_at it it.off

    loop_ends : it.off ≡ it.len → cluster_loop tables (suc fuel) it state ≡ it
    unfolding cluster_loop
    loop_ends e = ground arith

    loop_breaks :
        it.off < it.len
        → breaks_before state cp ≡ true
        → cluster_loop tables (suc fuel) it state ≡ it
    unfolding cluster_loop
    loop_breaks h e = ground (arith, (decode_lem it it.off valid h).0)

    loop_joins :
        it.off < it.len
        → breaks_before state cp ≡ false
        → cluster_loop tables (suc fuel) it state
          ≡ cluster_loop tables fuel (forward it cp) (state_advance state cp)
    unfolding cluster_loop
    loop_joins h e = ground (arith, (decode_lem it it.off valid h).0)

  stays :
      (it : GraphemeIter) (state : BreakState) → IsValid it → Grows it state it → Grown it state it
  stays it state valid grows = record {
    grows = grows;
    above = omega arith;
    valid = valid;
    same_bytes = refl;
    same_len = refl;
  }

  cluster_loop-Grown :
      (fuel : ℕ) (it : GraphemeIter) (state : BreakState)
      → IsValid it
      → it.len - it.off ≤ fuel
      → Grown it state (cluster_loop tables fuel it state)
  unfolding cluster_loop
  cluster_loop-Grown zero it state valid enough =
      stays it state valid (ends it state (omega (arith, valid.within, enough)))
  cluster_loop-Grown (suc fuel) it state valid enough =
      let Goal : GraphemeIter → Type 0 = Grown it state in
      elim (at_end it valid) [
        | inr e ↦
            subst Goal (sym (loop_ends fuel it state valid e))
              (stays it state valid (ends it state e))
        | inl h ↦ elim (Bool-cases (breaks_before state (cp_at it it.off))) [
          | inl b ↦
              subst Goal (sym (loop_breaks fuel it state valid h b))
                (stays it state valid (breaks it state h b))
          | inr b ↦
              let moved = forward-IsValid it valid h in
              let rest =
                cluster_loop-Grown fuel (forward it (cp_at it it.off))
                  (state_advance state (cp_at it it.off)) moved.0 (omega (arith, moved, enough)) in
              subst Goal (sym (loop_joins fuel it state valid h b)) (record {
                grows = joins it state _ h b rest.grows;
                above = omega (arith, rest.above, moved);
                valid = rest.valid;
                same_bytes = rest.same_bytes;
                same_len = rest.same_len;
              })
        ]
      ]

  -- What one call gives: nothing at the end of the input, and otherwise the cluster that starts at
  -- the position and is as long as the break rules let it grow.
  pub data NextOutcome (it : GraphemeIter) : Option Grapheme × GraphemeIter → Type 0 where
    exhausted : it.off ≡ it.len → NextOutcome it (none, it)
    cluster :
        (it' : GraphemeIter)
        → Grows (forward it (cp_at it it.off)) (state_init (cp_at it it.off)) it'
        → it.off < it'.off
        → IsValid it'
        → it'.bytes ≡ it.bytes
        → it'.len ≡ it.len
        → NextOutcome it (some (record { offset = it.off; size = it'.off - it.off }), it')

  next_ends : (it : GraphemeIter) → it.off ≡ it.len → grapheme_next_given tables it ≡ (none, it)
  unfolding grapheme_next_given
  next_ends it e = ground arith

  abbrev grown : GraphemeIter → GraphemeIter
  grown it =
      cluster_loop tables (it.len - it.off) (forward it (cp_at it it.off))
        (state_init (cp_at it it.off))

  next_given_lem :
      (it : GraphemeIter)
      → IsValid it
      → it.off < it.len
      → it.off ≤ (grown it).off
      → (grown it).off < 2 ^ 64
      → grapheme_next_given tables it
        ≡ (some (record { offset = it.off; size = (grown it).off - it.off }), grown it)
  unfolding grapheme_next_given
  next_given_lem it valid h above small =
      let bytes = is_nil_lem it.bytes (omega (arith, valid.held)) in
      let wrap : ((grown it).off + 2 ^ 64 - it.off) % 2 ^ 64 ≡ (grown it).off - it.off =
        omega (arith, above, small) in
      ground (arith, (decode_lem it it.off valid h).0, bytes, wrap)

  -- On an iterator whose position is within the stated length, and that within the buffer and below
  -- 2^64, zr_grapheme_next fails exactly at the end of the input, without a change; otherwise it
  -- gives the cluster from the position on, of at least one byte and within the input, that the code
  -- points join one after another for as long as zr_grapheme_should_break refuses a break, and moves
  -- the position to its end.
  pub grapheme_next_given-NextOutcome :
      (it : GraphemeIter) → IsValid it → NextOutcome it (grapheme_next_given tables it)
  grapheme_next_given-NextOutcome it valid = elim (at_end it valid) [
    | inr e ↦ subst (NextOutcome it) (sym (next_ends it e)) (exhausted e)
    | inl h ↦
        let moved = forward-IsValid it valid h in
        let g =
          cluster_loop-Grown (it.len - it.off) (forward it (cp_at it it.off))
            (state_init (cp_at it it.off)) moved.0 (omega (arith, moved)) in
        let below : (grown it).off < 2 ^ 64 = omega (arith, g.valid.within, g.valid.size) in
        subst (NextOutcome it)
          (sym (next_given_lem it valid h (omega (arith, g.above, moved)) below))
          (cluster (grown it) g.grows (omega (arith, g.above, moved)) g.valid g.same_bytes
            g.same_len)
  ]
