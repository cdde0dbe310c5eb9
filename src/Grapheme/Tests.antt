-- ===== src/Grapheme/Tests.antt =====
-- Runs of the cluster iteration, and its theorems at concrete texts.
use zireael.Prelude.{◌↔◌, Bool, ℕ, ◌≡◌, refl, true, false, List, [], ◌∷◌, arith}
use zireael.Utf8.{
  utf8_decode_one, utf8_decode_two_bytes, utf8_decode_three_bytes, utf8_decode_four_bytes,
  utf8_is_cont, utf8_join_payloads_2, utf8_join_payloads_3, utf8_join_payloads_4,
}
use zireael.Unicode.{
  GcbClass, gcb_other, gcb_zwj, gcb_extend, in_ranges, in_ranges_loop, ranges8_lookup,
  ranges8_lookup_loop, unicode_gcb_class, unicode_is_extended_pictographic,
}
use zireael.Unicode.Rows.{few_rows}
use zireael.Grapheme.{
  GraphemeIter, GraphemeCp, grapheme_iter_init, should_break, state_init, state_advance,
  breaks_before, grapheme_decode_cp, cluster_loop, grapheme_next_given,
}
use zireael.Grapheme.Next.{IsValid, NextOutcome, grapheme_next_given-NextOutcome}
use zireael.Grapheme.Clusters.{Tiles, clusters, clusters-Tiles}
use zireael.Grapheme.Rules.{NoBreak, should_break-NoBreak}
use zireael.Grapheme.History.{replay, breaks_before-NoBreak}

runs : Unit {0}
unfolding utf8_decode_one utf8_decode_two_bytes utf8_decode_three_bytes utf8_decode_four_bytes
    utf8_is_cont utf8_join_payloads_2 utf8_join_payloads_3 utf8_join_payloads_4 in_ranges
    in_ranges_loop ranges8_lookup ranges8_lookup_loop unicode_gcb_class
    unicode_is_extended_pictographic should_break state_init state_advance grapheme_decode_cp
    cluster_loop grapheme_next_given clusters
runs = tt

-- An e with an acute accent, then CR LF.
abbrev text : List ℕ
text = 0x65 ∷ 0xCC ∷ 0x81 ∷ 0x0D ∷ 0x0A ∷ []

abbrev text_iter : GraphemeIter
text_iter = grapheme_iter_init text 5

text_clusters :
    clusters few_rows 6 text_iter
    ≡ record { offset = 0; size = 3 } ∷ record { offset = 3; size = 2 } ∷ []
unfolding runs
text_clusters = refl

text-IsValid : IsValid text_iter
text-IsValid = record { held = omega arith; size = omega arith; within = omega arith }

grapheme_next_given-NextOutcome_example :
    NextOutcome few_rows text_iter (grapheme_next_given few_rows text_iter)
grapheme_next_given-NextOutcome_example =
    grapheme_next_given-NextOutcome few_rows text_iter text-IsValid

clusters-Tiles_example : Tiles 0 5 (clusters few_rows 6 text_iter)
clusters-Tiles_example = clusters-Tiles few_rows 6 text_iter text-IsValid (omega arith)

should_break-NoBreak_example :
    (should_break gcb_other false 0 gcb_extend false ≡ false)
    ↔ NoBreak false 0 false gcb_other gcb_extend
should_break-NoBreak_example = should_break-NoBreak false 0 false gcb_other gcb_extend

abbrev code_point : GcbClass → Bool → GraphemeCp
code_point c ep = record { size = 3; gcb_class = c; is_extended_pictographic = ep }

-- An emoji, an extension and a ZWJ, before another emoji.
breaks_before-NoBreak_example :
    (breaks_before
        (replay
          (code_point gcb_other true)
          (code_point gcb_zwj false ∷ code_point gcb_extend false ∷ []))
        (code_point gcb_other true)
      ≡ false)
    ↔ NoBreak true 0 true gcb_zwj gcb_other
breaks_before-NoBreak_example =
    breaks_before-NoBreak (code_point gcb_other true)
      (code_point gcb_zwj false ∷ code_point gcb_extend false ∷ []) (code_point gcb_other true)
      (λ e. ground (arith, e)) (omega arith)

emoji_joined :
    breaks_before
      (replay
        (code_point gcb_other true)
        (code_point gcb_zwj false ∷ code_point gcb_extend false ∷ []))
      (code_point gcb_other true)
    ≡ false
unfolding runs
emoji_joined = refl
