-- ===== src/MemTable.antt =====
-- src/memtable.cpp and include/lightkv/memtable.h: the memtable over the skip list. A call of NoteSeq is
-- one step, as its loop of compare_exchange makes it. Locks are left out: a method is one function.
pub mod Find
pub mod Content
pub mod Later
pub mod Examples
use lightkv.Prelude.{
  ℕ, zero, suc, ◌+◌, ◌-◌, ◌≡◌, Bool, true, false, not, Option, none, some, List, [], ◌∷◌, ◌++◌,
  length, bytes_eq, ltb, leb, ◌==◌, if◌then◌else◌, ◌&&◌, ◌||◌,
}
use lightkv.Slice.{less}
use lightkv.SkipList
use lightkv.SkipList.{Node, SkipList, new_list, seek_to_first}

-- MemTable::RangeTombstone
pub record RangeTombstone : Type 0 where
  pub begin_key : List ℕ
  pub end_key : List ℕ
  pub tombstone_seq : ℕ

pub record MemTable : Type 0 where
  pub table : SkipList
  pub range_tombstones : List RangeTombstone
  pub max_seq : ℕ

-- MemTable::Lookup, with what Find stores through its pointers: the version's number, and the value.
pub data Lookup : Type 0 where
  not_found : Lookup
  deleted : ℕ → Lookup
  found : List ℕ → ℕ → Lookup

-- MemTable::NoteSeq
unfoldable pub note_seq : ℕ → MemTable → MemTable
note_seq seq m = record m { max_seq = if ltb m.max_seq seq then seq else m.max_seq }

-- MemTable::Insert; `height` is what the skip list draws.
unfoldable pub insert : ℕ → ℕ → List ℕ → List ℕ → MemTable → MemTable
insert height seq key value m =
    note_seq seq (record m { table = SkipList.insert key value seq height m.table })

-- MemTable::InsertDeletion
unfoldable pub insert_deletion : ℕ → ℕ → List ℕ → MemTable → MemTable
insert_deletion height seq key m =
    note_seq seq (record m { table = SkipList.insert_deletion key seq height m.table })

-- MemTable::InsertRangeDeletion
unfoldable pub insert_range_deletion : ℕ → List ℕ → List ℕ → MemTable → MemTable
insert_range_deletion seq begin_key end_key m = note_seq seq (record m {
  range_tombstones =
      m.range_tombstones
      ++ (record { begin_key = begin_key; end_key = end_key; tombstone_seq = seq }) ∷ [];
})

-- The test in the loop of MemTable::IsRangeDeleted and of DBImpl::CoveredByRangeTombstone.
unfoldable pub shadows : List ℕ → ℕ → ℕ → RangeTombstone → Bool
shadows key version_seq snapshot t =
    ltb version_seq t.tombstone_seq
    && (leb t.tombstone_seq snapshot && (not (less key t.begin_key) && less key t.end_key))

-- MemTable::IsRangeDeleted
unfoldable pub is_range_deleted : List ℕ → ℕ → ℕ → List RangeTombstone → Bool
is_range_deleted key version_seq snapshot [] = false
is_range_deleted key version_seq snapshot (t ∷ tombstones) =
    shadows key version_seq snapshot t || is_range_deleted key version_seq snapshot tombstones

-- The loop of MemTable::Find over the iterator.
pub newest_visible : List ℕ → ℕ → List Node → Option Node
newest_visible key snapshot [] = none
newest_visible key snapshot (n ∷ rest) =
    if bytes_eq n.key key
    then if leb n.seq snapshot then some n else newest_visible key snapshot rest
    else none

-- MemTable::Find behind the loop.
pub report : List ℕ → ℕ → List RangeTombstone → Option Node → Lookup
report key snapshot tombstones none = not_found
report key snapshot tombstones (some n) =
    if n.is_deleted
    then deleted n.seq
    else if is_range_deleted key n.seq snapshot tombstones
    then deleted n.seq
    else found n.value n.seq

-- MemTable::Find
unfoldable pub find : List ℕ → ℕ → MemTable → Lookup
find key snapshot m =
    report key snapshot m.range_tombstones (newest_visible key snapshot (SkipList.find key m.table))

-- MemTable::empty
pub empty : MemTable → Bool
empty m = elim (seek_to_first m.table) [ [] ↦ true | n ∷ rest ↦ false ]

-- MemTable::HasContent
pub has_content : MemTable → Bool
has_content m = if not (empty m) then true else not (length m.range_tombstones == 0)

-- MemTable::MemTable
unfoldable pub new_table : MemTable
new_table = record { table = new_list; range_tombstones = []; max_seq = 0 }
