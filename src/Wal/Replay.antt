-- ===== src/Wal/Replay.antt =====
-- The replay of the log in src/db_impl.cpp (DBImpl::Initialize): the records of one file become calls
-- on the memtable.
use lightkv.Prelude.{
  ℕ, zero, suc, ◌+◌, ◌%◌, ◌^◌, max, none, some, List, [], ◌∷◌, ◌++◌, length, ◌==◌, if◌then◌else◌,
}
use lightkv.Wal.{deletion_type, range_deletion_type, batch_type, BatchOp, WalRecord, read_record}

-- The calls that the replay makes on the memtable and on the range tombstones.
pub data MemCall : Type 0 where
  insert : ℕ → List ℕ → List ℕ → MemCall
  insert_deletion : ℕ → List ℕ → MemCall
  insert_range_deletion : ℕ → List ℕ → List ℕ → MemCall
  register_tombstone : ℕ → List ℕ → List ℕ → MemCall

unfoldable pub replay_op : ℕ → BatchOp → List MemCall
replay_op seq op =
    if op.type == deletion_type
    then insert_deletion seq op.key ∷ []
    else if op.type == range_deletion_type
    then insert_range_deletion seq op.begin_key op.end_key
      ∷ register_tombstone seq op.begin_key op.end_key
      ∷ []
    else insert seq op.key op.value ∷ []

unfoldable pub replay_ops : ℕ → List BatchOp → List MemCall
replay_ops seq [] = []
replay_ops seq (op ∷ ops) = replay_op seq op ++ replay_ops seq ops

unfoldable pub replay : WalRecord → List MemCall
replay r =
    if r.type == deletion_type
    then insert_deletion r.seq r.key ∷ []
    else if r.type == range_deletion_type
    then insert_range_deletion r.seq r.begin_key r.end_key
      ∷ register_tombstone r.seq r.begin_key r.end_key
      ∷ []
    else if r.type == batch_type
    then replay_ops r.seq r.batch_ops
    else insert r.seq r.key r.value ∷ []

-- The loop of the replay over a file. A record takes eight bytes at least, so that the file's
-- length is enough fuel; `last_seq` is raised to the number behind the record's.
unfoldable pub recover_loop : ℕ → WalRecord → List ℕ → ℕ → List MemCall × ℕ
recover_loop zero old file last_seq = ([], last_seq)
recover_loop (suc fuel) old file last_seq = elim (read_record old file) [
  | none ↦ ([], last_seq)
  | some (r, rest) ↦
      let (calls, last) = recover_loop fuel r rest (max last_seq ((r.seq + 1) % 2 ^ 64)) in
      (replay r ++ calls, last)
]

unfoldable pub recover : List ℕ → ℕ → List MemCall × ℕ
unfolding recover_loop
recover file last_seq =
    recover_loop (length file + 1)
      (record {
        seq = 0;
        type = 0;
        key = [];
        value = [];
        begin_key = [];
        end_key = [];
        batch_ops = [];
      })
      file last_seq
