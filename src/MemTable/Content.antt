-- ===== src/MemTable/Content.antt =====
-- The calls on a memtable in a row, as its writers and the replay of a log make them, and what holds
-- after any of them.
use lightkv.Prelude.{
  ℕ, ◌≤◌, ◌<◌, ◌≡◌, inl, inr, refl, ◌∙◌, arith, Bool, true, false, Bool-cases, List, [], ◌∷◌, All,
  All-append, bytes_eq, ltb, leb, if◌then◌else◌, ◌&&◌,
}
use lightkv.Slice.{less}
use lightkv.SkipList
use lightkv.SkipList.{Node, SkipList, bottom, new_list, insert_node, seek_to_first}
use lightkv.SkipList.Level.{place}
use lightkv.SkipList.Insert.{
  IsSkipList, new_node, insert-IsSkipList, bottom-insert, new_list-IsSkipList,
}
use lightkv.Wal.Replay.{MemCall}
use lightkv.MemTable.{
  RangeTombstone, MemTable, Lookup, not_found, deleted, found, note_seq, insert, insert_deletion,
  insert_range_deletion, shadows, find, new_table,
}
use lightkv.MemTable.Find.{find_after, bury}

-- One call. `draw` is what the skip list draws for its nodes, by the number of the node. What a
-- `register_tombstone` adds is not the memtable's.
unfoldable pub call : (ℕ → ℕ) → MemCall → MemTable → MemTable
call draw (MemCall.insert seq key value) m = insert (draw m.table.allocated) seq key value m
call draw (MemCall.insert_deletion seq key) m = insert_deletion (draw m.table.allocated) seq key m
call draw (MemCall.insert_range_deletion seq begin_key end_key) m =
    insert_range_deletion seq begin_key end_key m
call draw (MemCall.register_tombstone seq begin_key end_key) m = m

unfoldable pub call_all : (ℕ → ℕ) → List MemCall → MemTable → MemTable
call_all draw [] m = m
call_all draw (c ∷ calls) m = call_all draw calls (call draw c m)

abbrev pub call_seq : MemCall → ℕ
call_seq (MemCall.insert seq key value) = seq
call_seq (MemCall.insert_deletion seq key) = seq
call_seq (MemCall.insert_range_deletion seq begin_key end_key) = seq
call_seq (MemCall.register_tombstone seq begin_key end_key) = seq

-- A memtable between two calls: its skip list is well formed, and `max_seq` is at or above the number
-- of every version and tombstone.
pub record IsMemTable (m : MemTable) : Type 0 where
  pub list : IsSkipList m.table
  pub versions : All (λ (n : Node). n.seq ≤ m.max_seq) (bottom m.table.levels)
  pub tombstones : All (λ (t : RangeTombstone). t.tombstone_seq ≤ m.max_seq) m.range_tombstones

raise_versions :
    (a b : ℕ) (level : List Node)
    → a ≤ b
    → All (λ (n : Node). n.seq ≤ a) level
    → All (λ (n : Node). n.seq ≤ b) level
raise_versions a b [] h k = tt
raise_versions a b (n ∷ level) h k = (omega (arith, k.0), raise_versions a b level h k.1)

raise_tombstones :
    (a b : ℕ) (ts : List RangeTombstone)
    → a ≤ b
    → All (λ (t : RangeTombstone). t.tombstone_seq ≤ a) ts
    → All (λ (t : RangeTombstone). t.tombstone_seq ≤ b) ts
raise_tombstones a b [] h k = tt
raise_tombstones a b (t ∷ ts) h k = (omega (arith, k.0), raise_tombstones a b ts h k.1)

place-versions :
    (b : ℕ) (node : Node) (level : List Node)
    → node.seq ≤ b
    → All (λ (n : Node). n.seq ≤ b) level
    → All (λ (n : Node). n.seq ≤ b) (place node level)
unfolding place
place-versions b node [] h k = (h, tt)
place-versions b node (n ∷ level) h k = elim (Bool-cases (less n.key node.key)) [
  | inl e ↦ rw e (k.0, place-versions b node level h k.1)
  | inr e ↦ rw e (h, k)
]

module _ (key value : List ℕ) (seq height : ℕ) (is_deleted : Bool) (m : MemTable)
    (ok : IsMemTable m) (tall : 1 ≤ height) where
  insert_node-IsMemTable :
      IsMemTable
        (note_seq seq (record m { table = insert_node key value seq height is_deleted m.table }))
  unfolding note_seq
  insert_node-IsMemTable =
      let last = if ltb m.max_seq seq then seq else m.max_seq in
      let up : m.max_seq ≤ last = ground arith in
      let own : seq ≤ last = ground arith in
      record {
        list = insert-IsSkipList key value seq height is_deleted m.table ok.list tall;
        versions = rw (bottom-insert key value seq height is_deleted m.table ok.list tall) (
            place-versions last (new_node key value seq height is_deleted m.table)
              (bottom m.table.levels) own
              (raise_versions m.max_seq last (bottom m.table.levels) up ok.versions));
        tombstones = raise_tombstones m.max_seq last m.range_tombstones up ok.tombstones;
      }

range-IsMemTable :
    (seq : ℕ) (b e : List ℕ) (m : MemTable)
    → IsMemTable m
    → IsMemTable (insert_range_deletion seq b e m)
unfolding insert_range_deletion note_seq
range-IsMemTable seq b e m ok =
    let last = if ltb m.max_seq seq then seq else m.max_seq in
    let up : m.max_seq ≤ last = ground arith in
    let own : seq ≤ last = ground arith in
    record {
      list = ok.list;
      versions = raise_versions m.max_seq last (bottom m.table.levels) up ok.versions;
      tombstones =
          All-append (λ (t : RangeTombstone). t.tombstone_seq ≤ last) m.range_tombstones _
            (raise_tombstones m.max_seq last m.range_tombstones up ok.tombstones) (own, tt);
    }

pub call-IsMemTable :
    (draw : ℕ → ℕ) (c : MemCall) (m : MemTable)
    → ((n : ℕ) → 1 ≤ draw n)
    → IsMemTable m
    → IsMemTable (call draw c m)
unfolding call insert insert_deletion SkipList.insert SkipList.insert_deletion
call-IsMemTable draw (MemCall.insert seq key value) m tall ok =
    insert_node-IsMemTable key value seq (draw m.table.allocated) false m ok
      (tall m.table.allocated)
call-IsMemTable draw (MemCall.insert_deletion seq key) m tall ok =
    insert_node-IsMemTable key [] seq (draw m.table.allocated) true m ok (tall m.table.allocated)
call-IsMemTable draw (MemCall.insert_range_deletion seq b e) m tall ok =
    range-IsMemTable seq b e m ok
call-IsMemTable draw (MemCall.register_tombstone seq b e) m tall ok = ok

-- Any calls leave a memtable well formed: on every level of its skip list the nodes are sorted by key
-- and each stands once, a node of a level is on the level below, and MaxSeq is at or above the number
-- of every version and tombstone.
pub call_all-IsMemTable :
    (draw : ℕ → ℕ) (calls : List MemCall) (m : MemTable)
    → ((n : ℕ) → 1 ≤ draw n)
    → IsMemTable m
    → IsMemTable (call_all draw calls m)
unfolding call_all
call_all-IsMemTable draw [] m tall ok = ok
call_all-IsMemTable draw (c ∷ calls) m tall ok =
    call_all-IsMemTable draw calls (call draw c m) tall (call-IsMemTable draw c m tall ok)

pub new_table-IsMemTable : IsMemTable new_table
unfolding new_table new_list bottom
new_table-IsMemTable = record { list = new_list-IsSkipList; versions = tt; tombstones = tt }

unseen_test : (test : Bool) (seq snapshot : ℕ) → snapshot < seq → (test && leb seq snapshot) ≡ false
unseen_test true seq snapshot h = ground arith
unseen_test false seq snapshot h = refl

bury_unseen :
    (key : List ℕ) (snapshot : ℕ) (t : RangeTombstone) (l : Lookup)
    → snapshot < t.tombstone_seq
    → bury key snapshot t l ≡ l
unfolding shadows
bury_unseen key snapshot t not_found h = refl
bury_unseen key snapshot t (deleted s) h = refl
bury_unseen key snapshot t (found v s) h = ground arith

call_unseen :
    (draw : ℕ → ℕ) (key : List ℕ) (snapshot : ℕ) (c : MemCall) (m : MemTable)
    → ((n : ℕ) → 1 ≤ draw n)
    → IsMemTable m
    → snapshot < call_seq c
    → find key snapshot (call draw c m) ≡ find key snapshot m
unfolding call
call_unseen draw key snapshot (MemCall.insert seq k v) m tall ok h =
    (find_after key snapshot m ok.list k v [] seq (draw m.table.allocated)
      (tall m.table.allocated)).0
    ∙ rw (unseen_test (bytes_eq k key) seq snapshot h) refl
call_unseen draw key snapshot (MemCall.insert_deletion seq k) m tall ok h =
    (find_after key snapshot m ok.list k [] [] seq (draw m.table.allocated)
      (tall m.table.allocated)).1
    ∙ rw (unseen_test (bytes_eq k key) seq snapshot h) refl
call_unseen draw key snapshot (MemCall.insert_range_deletion seq b e) m tall ok h =
    (find_after key snapshot m ok.list b [] e seq (draw m.table.allocated)
      (tall m.table.allocated)).2
    ∙ bury_unseen key snapshot _ (find key snapshot m) h
call_unseen draw key snapshot (MemCall.register_tombstone seq b e) m tall ok h = refl

-- A snapshot is stable: calls with numbers above it change nothing of what Find answers it, for any key.
pub snapshot_stable :
    (draw : ℕ → ℕ) (key : List ℕ) (snapshot : ℕ) (calls : List MemCall) (m : MemTable)
    → ((n : ℕ) → 1 ≤ draw n)
    → IsMemTable m
    → All (λ c. snapshot < call_seq c) calls
    → find key snapshot (call_all draw calls m) ≡ find key snapshot m
unfolding call_all
snapshot_stable draw key snapshot [] m tall ok h = refl
snapshot_stable draw key snapshot (c ∷ calls) m tall ok h =
    snapshot_stable draw key snapshot calls (call draw c m) tall (call-IsMemTable draw c m tall ok)
      h.1
    ∙ call_unseen draw key snapshot c m tall ok h.0
