-- ===== src/Transaction/Examples.antt =====
-- A transaction of a put and a deletion on a new database.
use lightkv.Prelude.{ℕ, ◌≤◌, ◌≡◌, ◌⊎◌, refl, arith, true, false, some, [], ◌∷◌}
use lightkv.Encoding.{varint_loop, varint_length, length_loop, fixed_bytes}
use lightkv.Crc.{crc_extend, crc_loop, crc_table}
use lightkv.Wal
use lightkv.VLog
use lightkv.MemTable.{new_table}
use lightkv.MemTable.Content.{new_table-IsMemTable}
use lightkv.Engine
use lightkv.Engine.{
  Status, Env, Db, write_impl, store_value, claim_seq, write_stored, put_mem, logged, finish_write,
  check_size, trigger_flush, rotate_with, pointer_bytes,
}
use lightkv.Engine.Lookup
use lightkv.Engine.Lookup.{search_tables, search_level0, search_levels}
use lightkv.Engine.Others.{IsBehind}
use lightkv.Engine.Examples.{always, env, new_db, large, new_db-IsDb, new_db-HasRoom, one_pos}
use lightkv.Transaction.{
  Store, put_op, delete_op, Transaction, last_write, get_with, get, apply, commit_loop, commit,
}
use lightkv.Transaction.Commit.{FitAll, StopsAt, commit_stops}
use lightkv.Transaction.Database.{
  db_store, IsReady, HasRoomFor, db_store-IsStore, commit-get_database,
}

abbrev each : ℕ → Env
each n = env

abbrev ready : ℕ → Status
ready n = Status.ok

abbrev store : Store Db
store = db_store each always ready [] []

new_db-IsReady : IsReady 1 new_db
unfolding IsReady new_table
new_db-IsReady = (
  new_db-IsDb,
  record { lower = omega arith; mem_seen = (new_table-IsMemTable, omega arith); imm_seen = tt },
)

no_files : IsBehind 1 [] []
unfolding search_tables search_level0 search_levels
no_files key n le = refl

tall : (i n : ℕ) → 1 ≤ (each i).draw n
tall i n = one_pos n

-- Key 5 is put and key 6 deleted.
abbrev two_writes : Transaction
two_writes = record {
  snapshot_seq = 1;
  committed = false;
  write_buf = put_op (5 ∷ []) large ∷ delete_op (6 ∷ []) ∷ [];
}

two_writes_fit :
    FitAll store
      (db_store-IsStore each always ready [] [] 1 no_files tall)
      two_writes.write_buf
      new_db
unfolding FitAll HasRoomFor db_store-IsStore apply db_store Engine.put write_impl store_value
    claim_seq write_stored put_mem logged finish_write check_size trigger_flush rotate_with
    pointer_bytes VLog.append VLog.append_with VLog.append_active VLog.append_log VLog.store
    Wal.append Wal.append_record Wal.store Wal.frame Wal.entry_body Wal.entry_length Wal.sized
    Wal.sized_length varint_loop varint_length length_loop fixed_bytes crc_extend crc_loop crc_table
two_writes_fit = (new_db-HasRoom, (omega arith, tt))

two_writes_ok : (commit store two_writes new_db).0.0 ≡ Status.ok
unfolding commit commit_loop apply db_store Engine.put Engine.delete write_impl store_value
    claim_seq write_stored put_mem logged finish_write check_size trigger_flush rotate_with
    pointer_bytes VLog.append VLog.append_with VLog.append_active VLog.append_log VLog.store
    Wal.append Wal.append_record Wal.store Wal.frame Wal.entry_body Wal.entry_length Wal.sized
    Wal.sized_length varint_loop varint_length length_loop fixed_bytes crc_extend crc_loop crc_table
two_writes_ok = refl

own_write : (get store (5 ∷ []) two_writes new_db).0 ≡ (Status.ok, large)
unfolding get get_with last_write
own_write = refl

commit-get_database_example :
    (Engine.Lookup.get always 0 (5 ∷ []) [] [] (commit store two_writes new_db).1).0
    ≡ (Status.ok, large)
commit-get_database_example =
    commit-get_database each always ready [] [] 1 no_files tall two_writes new_db (5 ∷ [])
      (some large) new_db-IsReady two_writes_fit refl refl two_writes_ok own_write

commit_stops_example :
    ((commit store two_writes new_db).0.1 ≡ record two_writes { committed = true; write_buf = [] })
    × (((commit store two_writes new_db).0.0 ≡ Status.ok)
        ⊎ StopsAt store two_writes.write_buf new_db
            ((commit store two_writes new_db).0.0, (commit store two_writes new_db).1))
commit_stops_example = commit_stops store two_writes new_db refl
