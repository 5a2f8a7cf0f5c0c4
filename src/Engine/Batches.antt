-- ===== src/Engine/Batches.antt =====
-- The operations of one batch share a number: what the memtable answers after them, and how
-- DBImpl::WriteLevel0Table orders their versions in a table file.
use lightkv.Prelude.{
  ℕ, ◌^◌, ◌≤◌, ◌<◌, ◌≡◌, refl, ap, ◌∙◌, arith, Ordering, Bool, true, false, List, [], ◌∷◌, length,
  ltb, leb, if◌then◌else◌, ◌&&◌, bytes_eq, bytes_eq_iff,
}
use lightkv.Slice.Order.{slice_order}
use lightkv.InternalKey.{make_internal_key, compare_internal_keys, type_deletion, type_value}
use lightkv.InternalKey.Order.{internal_key_order}
use lightkv.Wal.{BatchOp, value_type, deletion_type, range_deletion_type}
use lightkv.Wal.Replay.{MemCall}
use lightkv.MemTable
use lightkv.MemTable.{MemTable, RangeTombstone, Lookup, shadows, is_range_deleted, note_seq}
use lightkv.MemTable.Find.{find_after, bury}
use lightkv.MemTable.Content.{IsMemTable, call, call-IsMemTable}
use lightkv.Engine.{Env, batch_mem}

-- The internal key of a version in WriteLevel0Table.
pub flush_key : List ℕ → ℕ → Bool → List ℕ
flush_key key seq is_deleted =
    make_internal_key key seq (if is_deleted then type_deletion else type_value)

abbrev pub put_op : List ℕ → List ℕ → BatchOp
put_op key value = record {
  type = value_type;
  key = key;
  value = value;
  begin_key = [];
  end_key = [];
}

abbrev pub delete_op : List ℕ → BatchOp
delete_op key = record { type = deletion_type; key = key; value = []; begin_key = []; end_key = [] }

abbrev pub range_op : List ℕ → List ℕ → BatchOp
range_op b e = record {
  type = range_deletion_type;
  key = [];
  value = [];
  begin_key = b;
  end_key = e;
}

module _ (env : Env) (key value : List ℕ) (seq snapshot : ℕ) (m : MemTable)
    (tall : (n : ℕ) → 1 ≤ env.draw n) (ok : IsMemTable m) where
  after_put : MemTable
  after_put = MemTable.insert (env.draw m.table.allocated) seq key value m

  after_put-IsMemTable : IsMemTable after_put
  unfolding after_put call
  after_put-IsMemTable = call-IsMemTable env.draw (MemCall.insert seq key value) m tall ok

  own : seq ≤ snapshot → (bytes_eq key key && leb seq snapshot) ≡ true
  own seen =
      let same : bytes_eq key key ≡ true = (bytes_eq_iff key key).1 refl in
      let low : leb seq snapshot ≡ true = ground arith in rw same low

  -- In a batch that puts a key and then deletes it, the memtable answers deleted; in the order of a
  -- table file the put stands in front of the deletion.
  pub batch_put_delete :
      seq ≤ snapshot
      → seq < 2 ^ 56
      → 0 < length key
      → (MemTable.find key snapshot (batch_mem env seq (put_op key value ∷ delete_op key ∷ []) m)
          ≡ Lookup.deleted seq)
        × (compare_internal_keys (flush_key key seq false) (flush_key key seq true) ≡ Ordering.lt)
  unfolding batch_mem flush_key after_put
  batch_put_delete seen small some_byte = (
    (find_after key snapshot after_put after_put-IsMemTable.list key [] [] seq
          (env.draw after_put.table.allocated) (tall after_put.table.allocated)).1
        ∙ rw (own seen) refl,
    internal_key_order key seq type_value key seq type_deletion small (omega arith) small
          (omega arith) (omega arith)
        ∙ rw ((slice_order key key).0.1 refl) (ground arith),
  )

  -- In a batch that puts a key and then deletes a range with it, the key stays: the tombstone has the
  -- number of the put and shadows older versions only.
  pub batch_put_range :
      (b e : List ℕ)
      → seq ≤ snapshot
      → is_range_deleted key seq snapshot m.range_tombstones ≡ false
      → MemTable.find key snapshot (batch_mem env seq (put_op key value ∷ range_op b e ∷ []) m)
        ≡ Lookup.found value seq
  unfolding batch_mem after_put shadows
  batch_put_range b e seen live =
      let same_number : ltb seq seq ≡ false = ground arith in
      let first : MemTable.find key snapshot after_put ≡ Lookup.found value seq =
        (find_after key snapshot m ok.list key value [] seq (env.draw m.table.allocated)
          (tall m.table.allocated)).0
        ∙ rw (own seen) (rw live refl) in
      (find_after key snapshot after_put after_put-IsMemTable.list b [] e seq 1 (omega arith)).2
      ∙ ap (bury key snapshot (record { begin_key = b; end_key = e; tombstone_seq = seq })) first
      ∙ rw same_number refl
