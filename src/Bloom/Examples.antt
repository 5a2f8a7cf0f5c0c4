-- ===== src/Bloom/Examples.antt =====
-- A filter of two words.
use lightkv.Prelude.{◌≡◌, refl, arith, true, false, some, [], ◌∷◌, ◌++◌}
use lightkv.Slice.{slice_hash, hash_loop}
use lightkv.Bloom.{
  BloomFilter, total_bits, add_all, may_match, match_loop, is_set, new_filter, clamp_k,
}
use lightkv.Bloom.Matches.{HasBits, added_matches}

abbrev two_words : BloomFilter
two_words = record { k = 7; bits = 0 ∷ 0 ∷ [] }

two_words_bits : HasBits two_words.bits
unfolding total_bits
two_words_bits = omega arith

-- More than 30 probes are cut to 30.
thirty_probes : (new_filter (λ n. 69) 100).k ≡ 30
unfolding new_filter clamp_k
thirty_probes = refl

nothing_added : may_match (5 ∷ []) two_words ≡ some false
unfolding may_match match_loop is_set total_bits slice_hash hash_loop
nothing_added = refl

added_matches_example :
    (g : BloomFilter) × (add_all (((1 ∷ 2 ∷ []) ∷ []) ++ (5 ∷ []) ∷ ((7 ∷ []) ∷ [])) two_words
      ≡ some g)
    × (may_match (5 ∷ []) g ≡ some true)
added_matches_example =
    added_matches ((1 ∷ 2 ∷ []) ∷ []) ((7 ∷ []) ∷ []) (5 ∷ []) two_words two_words_bits
