-- ===== src/Cache/Examples.antt =====
-- Caches of numbers, and blocks of a file.
use lightkv.Prelude.{
  ℕ, ◌≤◌, ◌==◌, ==_iff, ◌≡◌, refl, arith, none, List, [], ◌∷◌, ◌++◌, if◌then◌else◌,
}
use lightkv.Cache.{
  KeyEq, LruCache, find, erase_key, back, pop_back, drop_entry, evict_one, evict_loop, erase,
  push_front, insert, lookup, prune, new_cache,
}
use lightkv.Cache.Counts.{count_key, count_entry, total}
use lightkv.Cache.Blocks.{BlockCache, insert_block, lookup_block, erase_file}
use lightkv.Cache.Blocks.Index.{IsIndexed, blocks-IsIndexed, lookup_block-erase_file}
use lightkv.Cache.Operations.{IsConsistent, operations-IsConsistent, insert-IsConsistent}
use lightkv.Cache.Found.{insert_evicts_oldest}

instance abbrev numbers : KeyEq ℕ
numbers = record { same = λ a b. a == b; same_iff = ==_iff }

abbrev empty : LruCache ℕ ℕ
empty = new_cache 10

empty-IsConsistent : IsConsistent empty
unfolding new_cache count_key count_entry total
empty-IsConsistent = record {
  linked = record { summed = refl; listed = λ k. refl; once = λ k. omega arith };
  bounded = omega arith;
}

-- Block 1 takes 4 and block 2 takes 5.
abbrev two : LruCache ℕ ℕ
two = insert 2 22 5 (insert 1 11 4 empty)

two-IsConsistent : IsConsistent two
two-IsConsistent =
    insert-IsConsistent 2 22 5 (insert 1 11 4 empty)
      (insert-IsConsistent 1 11 4 empty empty-IsConsistent)

-- The use of block 1 leaves block 2 the oldest, so it goes when block 3 comes.
oldest_goes : (insert 3 33 6 (lookup 1 two).1).lru_list ≡ 3 ∷ 1 ∷ []
unfolding insert lookup push_front evict_loop erase find new_cache erase_key evict_one back
    drop_entry pop_back
oldest_goes = refl

two_capacity : two.capacity ≡ 10
unfolding insert push_front evict_loop erase find new_cache erase_key evict_one back drop_entry
    pop_back
two_capacity = refl

operations-IsConsistent_example :
    IsConsistent (insert 3 33 6 two)
    × IsConsistent (lookup 3 two).1
    × IsConsistent (erase 3 two)
    × IsConsistent (prune two)
operations-IsConsistent_example = operations-IsConsistent 3 33 6 two two-IsConsistent

insert_evicts_oldest_example :
    (kept gone : List ℕ) × ((erase 3 two).lru_list ≡ kept ++ gone)
    × ((insert 3 33 6 two).lru_list ≡ 3 ∷ kept)
    × ((j : ℕ)
        → 1 ≤ count_key j kept
        → find j (insert 3 33 6 two).table ≡ find j (erase 3 two).table)
insert_evicts_oldest_example =
    insert_evicts_oldest 3 33 6 two two-IsConsistent (omega (arith, two_capacity))

abbrev no_blocks : BlockCache
no_blocks = record { cache = new_cache 10; file_index = [] }

no_blocks-IsIndexed : IsIndexed no_blocks
unfolding new_cache count_key count_entry total
no_blocks-IsIndexed = record {
  consistent = record {
    linked = record { summed = refl; listed = λ k. refl; once = λ k. omega arith };
    bounded = omega arith;
  };
  indexed = λ f o h. absurd (omega arith);
}

-- Two blocks of file 7 and one of file 8.
abbrev three_blocks : BlockCache
three_blocks =
    insert_block 7 64 (1 ∷ 2 ∷ []) (insert_block 8 0 (3 ∷ []) (insert_block 7 0 (4 ∷ []) no_blocks))

three_blocks-IsIndexed : IsIndexed three_blocks
three_blocks-IsIndexed =
    (blocks-IsIndexed 7 64 (1 ∷ 2 ∷ [])
      (insert_block 8 0 (3 ∷ []) (insert_block 7 0 (4 ∷ []) no_blocks))
      (blocks-IsIndexed 8 0 (3 ∷ []) (insert_block 7 0 (4 ∷ []) no_blocks)
        (blocks-IsIndexed 7 0 (4 ∷ []) no_blocks no_blocks-IsIndexed).0).0).0

lookup_block-erase_file_example :
    (lookup_block 8 0 (erase_file 7 three_blocks)).0
    ≡ (if 7 == 8 then none else (lookup_block 8 0 three_blocks).0)
lookup_block-erase_file_example = lookup_block-erase_file 7 8 0 three_blocks three_blocks-IsIndexed
