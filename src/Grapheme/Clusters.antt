-- ===== src/Grapheme/Clusters.antt =====
-- The loop `while (zr_grapheme_next(&it, &g))` that the callers of src/unicode/zr_grapheme.c write.
use zireael.Prelude.{
  ℕ, zero, suc, ◌+◌, ◌-◌, ◌≤◌, ◌<◌, ◌≡◌, subst, List, [], ◌∷◌, Option, none, some, arith,
}
use zireael.Unicode.{UnicodeTables}
use zireael.Grapheme.{Grapheme, GraphemeIter, grapheme_next_given}
use zireael.Grapheme.Next.{
  IsValid, NextOutcome, exhausted, cluster, grapheme_next_given-NextOutcome,
}

-- The clusters lie side by side from an offset to the length, none of them empty.
pub data Tiles : ℕ → ℕ → List Grapheme → Type 0 where
  covered : (off len : ℕ) → off ≡ len → Tiles off len []
  next_tile :
      (g : Grapheme) (gs : List Grapheme) (len : ℕ)
      → 1 ≤ g.size
      → Tiles (g.offset + g.size) len gs
      → Tiles g.offset len (g ∷ gs)

module _ (tables : UnicodeTables) where
  unfoldable pub clusters : ℕ → GraphemeIter → List Grapheme
  clusters zero it = []
  clusters (suc fuel) it =
      let r = grapheme_next_given tables it in
      elim r.0 [ none ↦ [] | some g ↦ g ∷ clusters fuel r.1 ]

  one_more :
      (fuel : ℕ) (it : GraphemeIter)
      → IsValid it
      → it.len - it.off < suc fuel
      → ((it' : GraphemeIter)
          → IsValid it'
          → it'.len - it'.off < fuel
          → Tiles it'.off it'.len (clusters fuel it'))
      → (r : Option Grapheme × GraphemeIter) → NextOutcome tables it r
      → Tiles it.off it.len (elim r.0 [ none ↦ [] | some g ↦ g ∷ clusters fuel r.1 ])
  one_more fuel it valid enough rest _ (exhausted e) = covered it.off it.len e
  one_more fuel it valid enough rest _ (cluster it' grows above valid' bytes same) =
      next_tile (record { offset = it.off; size = it'.off - it.off }) (clusters fuel it') it.len
        (omega arith)
        (subst (λ o. Tiles o it.len (clusters fuel it')) (omega (arith, above))
          (subst (λ n. Tiles it'.off n (clusters fuel it')) same
            (rest it' valid' (omega (arith, above, same, enough, valid.within)))))

  -- Called until it fails, zr_grapheme_next ends after at most one call more than there are bytes
  -- left (on an iterator whose position is within the stated length, and that within the buffer and
  -- below 2^64), and its clusters, none empty, lie side by side from the position to the end.
  pub clusters-Tiles :
      (fuel : ℕ) (it : GraphemeIter)
      → IsValid it
      → it.len - it.off < fuel
      → Tiles it.off it.len (clusters fuel it)
  unfolding clusters
  clusters-Tiles zero it valid enough = absurd (omega (arith, enough))
  clusters-Tiles (suc fuel) it valid enough =
      one_more fuel it valid enough (clusters-Tiles fuel) (grapheme_next_given tables it)
        (grapheme_next_given-NextOutcome tables it valid)
