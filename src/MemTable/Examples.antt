-- ===== src/MemTable/Examples.antt =====
-- Small memtables.
use lightkv.Prelude.{
  ℕ, ◌+◌, ◌%◌, ◌≤◌, ◌≡◌, refl, arith, List, [], ◌∷◌, if◌then◌else◌, bytes_eq, leb, ◌&&◌,
}
use lightkv.Slice.{compare_sizes, less, memcmp, slice_compare}
use lightkv.SkipList
use lightkv.SkipList.{new_list}
use lightkv.MemTable.{
  MemTable, deleted, found, note_seq, insert, insert_deletion, insert_range_deletion, shadows,
  is_range_deleted, newest_visible, report, find, new_table,
}
use lightkv.MemTable.Find.{find_after, bury}
use lightkv.MemTable.Content.{
  call, call_all, IsMemTable, call_all-IsMemTable, new_table-IsMemTable, snapshot_stable,
}
use lightkv.Wal.Replay.{MemCall}

-- Heights 1, 2, 3, 1, 2, 3 and so on.
abbrev heights : ℕ → ℕ
heights n = 1 + n % 3

heights_pos : (n : ℕ) → 1 ≤ heights n
heights_pos n = omega arith

-- Keys 5 and 6 put, 5 deleted, then the range from 6 to 7.
abbrev four_calls : List MemCall
four_calls =
    MemCall.insert 1 (5 ∷ []) (50 ∷ [])
    ∷ MemCall.insert 2 (6 ∷ []) (60 ∷ [])
    ∷ MemCall.insert_deletion 3 (5 ∷ [])
    ∷ MemCall.insert_range_deletion 4 (6 ∷ []) (7 ∷ [])
    ∷ []

abbrev small : MemTable
small = call_all heights four_calls new_table

small-IsMemTable : IsMemTable small
small-IsMemTable = call_all-IsMemTable heights four_calls new_table heights_pos new_table-IsMemTable

seen_at_2 : find (5 ∷ []) 2 small ≡ found (50 ∷ []) 1
unfolding call_all find report newest_visible SkipList.find SkipList.if_equal SkipList.descend call
    insert_range_deletion note_seq insert_deletion SkipList.insert_deletion SkipList.insert_node
    SkipList.link_levels insert SkipList.insert new_table new_list is_range_deleted shadows
    SkipList.behind SkipList.find_prevs SkipList.link SkipList.walk compare_sizes less memcmp
    slice_compare
seen_at_2 = refl

call_all-IsMemTable_example : IsMemTable (call_all heights four_calls new_table)
call_all-IsMemTable_example =
    call_all-IsMemTable heights four_calls new_table heights_pos new_table-IsMemTable

find_after_example :
    (find (5 ∷ []) 9 (insert 2 5 (5 ∷ []) (51 ∷ []) small) ≡ (
      if bytes_eq (5 ∷ []) (5 ∷ []) && leb 5 9
      then if is_range_deleted (5 ∷ []) 5 9 small.range_tombstones
        then deleted 5
        else found (51 ∷ []) 5
      else find (5 ∷ []) 9 small))
    × (find (5 ∷ []) 9 (insert_deletion 2 5 (5 ∷ []) small)
        ≡ (if bytes_eq (5 ∷ []) (5 ∷ []) && leb 5 9 then deleted 5 else find (5 ∷ []) 9 small))
    × (find (5 ∷ []) 9 (insert_range_deletion 5 (5 ∷ []) (6 ∷ []) small)
        ≡ bury
            (5 ∷ [])
            9
            (record { begin_key = 5 ∷ []; end_key = 6 ∷ []; tombstone_seq = 5 })
            (find (5 ∷ []) 9 small))
find_after_example =
    find_after (5 ∷ []) 9 small small-IsMemTable.list (5 ∷ []) (51 ∷ []) (6 ∷ []) 5 2 (omega arith)

snapshot_stable_example :
    find (5 ∷ []) 4 (call_all heights (MemCall.insert 5 (5 ∷ []) (52 ∷ []) ∷ []) small)
    ≡ find (5 ∷ []) 4 small
snapshot_stable_example =
    snapshot_stable heights (5 ∷ []) 4 (MemCall.insert 5 (5 ∷ []) (52 ∷ []) ∷ []) small heights_pos
      small-IsMemTable (omega arith, tt)
