-- ===== src/Engine/Examples.antt =====
-- A new database with a small threshold of the value log.
use lightkv.Prelude.{
  ℕ, ◌≤◌, ◌==◌, ◌≡◌, refl, subst, inl, inr, arith, Bool, true, false, Bool-cases, Ordering, none,
  some, List, [], ◌∷◌, ◌++◌,
}
use lightkv.Encoding.{varint_loop, varint_length, length_loop, fixed_bytes}
use lightkv.Crc.{crc_extend, crc_loop, crc_table}
use lightkv.Slice.{less, slice_compare, memcmp, compare_sizes}
use lightkv.InternalKey.{compare_internal_keys}
use lightkv.Wal
use lightkv.Wal.{deletion_type, value_type, read_record}
use lightkv.Wal.Recovery.{entry, range, IsLoggable, all_calls, write_all, Stops}
use lightkv.VLog
use lightkv.VLog.{VLogManager}
use lightkv.VLog.Pointers.{contents, contents_with}
use lightkv.MemTable
use lightkv.MemTable.{Lookup, new_table, is_range_deleted}
use lightkv.MemTable.Content.{new_table-IsMemTable, call_all}
use lightkv.Engine.{
  Status, Env, Db, new_writer, put, write_impl, store_value, claim_seq, write_stored, put_mem,
  logged, finish_write, check_size, trigger_flush, rotate_with, pointer_bytes, delete, delete_range,
  batch_mem,
}
use lightkv.Engine.Lookup.{
  hit, Table, best, get, search_tables, search_level0, search_levels, first_reaching, consider,
  better, is_last,
}
use lightkv.Engine.Newest.{held, held_all, held_answer, IsNewest}
use lightkv.Engine.Files.{held_levels, search_tables-IsNewest}
use lightkv.Engine.Writes.{IsDb, HasRoom, ok_eq, put-get}
use lightkv.Engine.Deletes.{delete-get}
use lightkv.Engine.Invariant.{writes-IsDb}
use lightkv.Engine.Batches.{flush_key, put_op, delete_op, batch_put_delete}
use lightkv.Engine.Recovery.{initialize, InStep, writes-InStep}
use lightkv.Engine.Restart.{initialize-InStep}

abbrev pub always : ℕ → Bool
always size = true

abbrev pub one : ℕ → ℕ
one n = 1

pub one_pos : (n : ℕ) → 1 ≤ one n
one_pos n = omega arith

-- The memtable is over its size at this write, so that the write rotates.
abbrev pub env : Env
env = record {
  can_grow = always;
  can_map = always;
  draw = one;
  sync = Status.ok;
  every_1024th = true;
  disk_space = Status.ok;
  over_size = true;
  flush_gave_up = false;
  log_opens = true;
}

abbrev pub new_db : Db
new_db = record {
  last_seq = 1;
  wal = new_writer;
  imm_wal = none;
  mem = new_table;
  imm = none;
  range_tombstones = [];
  vlog = record {
    file_size_limit = 1000;
    active = some (record { file_id = 1; file = []; file_size = 8192; mapped = true });
    next_file_id = 2;
    disk = [];
    read_cache = [];
  };
  value_threshold = 2;
}

pub new_db-IsDb : IsDb new_db
unfolding new_table
new_db-IsDb = record {
  table = new_table-IsMemTable;
  open_vlog = record {
    log = record { file_id = 1; file = []; file_size = 8192; mapped = true };
    active = refl;
    newest = omega arith;
    mapped = refl;
    older = tt;
    cached = tt;
  };
  own_tombstones = tt;
  all_tombstones = tt;
}

-- A value of three bytes goes to the value log.
abbrev pub large : List ℕ
large = 7 ∷ 8 ∷ 9 ∷ []

pub new_db-HasRoom : HasRoom env large new_db
unfolding VLog.append VLog.append_with VLog.append_active VLog.append_log VLog.store contents
    contents_with VLog.file_bytes
new_db-HasRoom = record {
  tall = one_pos;
  can_map = λ n. refl;
  seq_room = omega arith;
  file_room = λ i. elim (Bool-cases (1 == i)) [
    | inl this ↦ rw this (omega arith)
    | inr other ↦ rw other (omega arith)
  ];
  id_room = omega arith;
}

put_ok : (put env Status.ok true (5 ∷ []) large new_db).0 ≡ Status.ok
unfolding put write_impl store_value claim_seq write_stored put_mem logged finish_write check_size
    trigger_flush rotate_with pointer_bytes VLog.append VLog.append_with VLog.append_active
    VLog.append_log VLog.store Wal.append Wal.append_record Wal.store Wal.frame Wal.entry_body
    Wal.entry_length Wal.sized Wal.sized_length varint_loop varint_length length_loop fixed_bytes
    crc_extend crc_loop crc_table
put_ok = refl

delete_ok : (delete env true (5 ∷ []) new_db).0 ≡ Status.ok
unfolding delete claim_seq logged finish_write check_size trigger_flush rotate_with Wal.append
    Wal.append_record Wal.store Wal.frame Wal.entry_body Wal.entry_length Wal.sized Wal.sized_length
    varint_loop varint_length length_loop fixed_bytes crc_extend crc_loop crc_table
delete_ok = refl

put-get_example :
    (get always 0 (5 ∷ []) [] [] (put env Status.ok true (5 ∷ []) large new_db).1).0
    ≡ (Status.ok, large)
put-get_example =
    put-get env Status.ok true (5 ∷ []) large [] [] new_db new_db-IsDb new_db-HasRoom put_ok

delete-get_example :
    (get always 0 (5 ∷ []) [] [] (delete env true (5 ∷ []) new_db).1).0 ≡ (Status.not_found, [])
delete-get_example =
    delete-get env true (5 ∷ []) [] [] new_db new_db-IsDb one_pos (omega arith) delete_ok

writes-IsDb_example :
    ((put env Status.ok true (5 ∷ []) large new_db).0 ≡ Status.ok
      → IsDb (put env Status.ok true (5 ∷ []) large new_db).1)
    × IsDb (delete env true (5 ∷ []) new_db).1
    × IsDb (delete_range env true (5 ∷ []) (6 ∷ []) new_db).1
writes-IsDb_example = writes-IsDb env true (5 ∷ []) large (6 ∷ []) new_db new_db-IsDb new_db-HasRoom

-- Two files on level 0 and one below.
abbrev file : ℕ → ℕ → Table
file seq byte = record {
  may_match = λ k. true;
  get = λ k s. hit (byte ∷ []) seq 1;
  smallest_key = 4 ∷ [];
  largest_key = 6 ∷ [];
}

newest_of_three :
    search_tables (5 ∷ []) 9 9 (file 3 30 ∷ file 7 70 ∷ []) ((file 2 20 ∷ []) ∷ [])
    ≡ best (some (70 ∷ [], 7, 1))
unfolding search_tables search_level0 search_levels first_reaching consider better is_last less
    slice_compare memcmp compare_sizes
newest_of_three = refl

search_tables-IsNewest_example : IsNewest (some (70 ∷ [], 7, 1)) (
    none
    ∷ (held_all (5 ∷ []) 9 (file 3 30 ∷ file 7 70 ∷ [])
        ++ held_levels (5 ∷ []) 9 ((file 2 20 ∷ []) ∷ [])))
unfolding held held_answer less slice_compare memcmp compare_sizes
search_tables-IsNewest_example =
    search_tables-IsNewest (5 ∷ []) 9 9 (file 3 30 ∷ file 7 70 ∷ []) ((file 2 20 ∷ []) ∷ [])
      (some (70 ∷ [], 7, 1)) (omega arith, (omega arith, tt))
      (((tt, tt), (inr (refl, refl), tt)), tt) newest_of_three

batch_put_delete_example :
    (MemTable.find
        (5 ∷ [])
        9
        (batch_mem env 3 (put_op (5 ∷ []) (50 ∷ []) ∷ delete_op (5 ∷ []) ∷ []) new_table)
      ≡ Lookup.deleted 3)
    × (compare_internal_keys (flush_key (5 ∷ []) 3 false) (flush_key (5 ∷ []) 3 true) ≡ Ordering.lt)
batch_put_delete_example =
    batch_put_delete env (5 ∷ []) (50 ∷ []) 3 9 new_table one_pos new_table-IsMemTable (omega arith)
      (omega arith) (omega arith)

new_db-InStep : InStep env new_db
unfolding write_all call_all all_calls new_table
new_db-InStep = record { writes = []; loggable = tt; logged_all = refl; applied = refl }

nothing_read : Stops []
unfolding read_record
nothing_read old = refl

-- No rotation.
abbrev calm : Env
calm = record env { over_size = false }

calm-InStep : InStep calm new_db
unfolding write_all call_all all_calls new_table
calm-InStep = record { writes = []; loggable = tt; logged_all = refl; applied = refl }

abbrev pointer : List ℕ
pointer = 1 ∷ (fixed_bytes 8 1 ++ (fixed_bytes 8 0 ++ fixed_bytes 8 3))

put-IsLoggable : IsLoggable (entry 1 value_type (5 ∷ []) pointer)
unfolding Wal.entry_body Wal.sized varint_loop fixed_bytes
put-IsLoggable = record {
  seq_size = omega arith;
  total_size = omega arith;
  contents =
      (omega arith, λ e. absurd (omega arith), λ e. absurd (omega arith), omega arith, omega arith);
}

stored_pointer :
    (stored : List ℕ)
    → (store_value calm large new_db).0 ≡ VLog.ok stored
    → IsLoggable (entry 1 value_type (5 ∷ []) stored)
unfolding store_value pointer_bytes VLog.append VLog.append_with VLog.append_active VLog.append_log
    VLog.store
stored_pointer stored e =
    subst (λ v. IsLoggable (entry 1 value_type (5 ∷ []) v)) (ok_eq pointer stored e) put-IsLoggable

delete-IsLoggable : IsLoggable (entry 1 deletion_type (5 ∷ []) [])
unfolding Wal.entry_body Wal.sized varint_loop fixed_bytes
delete-IsLoggable = record {
  seq_size = omega arith;
  total_size = omega arith;
  contents =
      (omega arith, λ e. absurd (omega arith), λ e. absurd (omega arith), omega arith, omega arith);
}

range-IsLoggable : IsLoggable (range 1 (5 ∷ []) (6 ∷ []))
unfolding Wal.range_body Wal.sized varint_loop fixed_bytes
range-IsLoggable = record {
  seq_size = omega arith;
  total_size = omega arith;
  contents = (omega arith, omega arith);
}

writes-InStep_example :
    ((put calm Status.ok true (5 ∷ []) large new_db).0 ≡ Status.ok
      → InStep calm (put calm Status.ok true (5 ∷ []) large new_db).1)
    × ((delete calm true (5 ∷ []) new_db).0 ≡ Status.ok
        → InStep calm (delete calm true (5 ∷ []) new_db).1)
    × ((delete_range calm true (5 ∷ []) (6 ∷ []) new_db).0 ≡ Status.ok
        → InStep calm (delete_range calm true (5 ∷ []) (6 ∷ []) new_db).1)
writes-InStep_example =
    writes-InStep calm refl true (5 ∷ []) large (6 ∷ []) new_db calm-InStep stored_pointer
      delete-IsLoggable range-IsLoggable

calm_ok : (put calm Status.ok true (5 ∷ []) large new_db).0 ≡ Status.ok
unfolding put write_impl store_value claim_seq write_stored put_mem logged finish_write check_size
    trigger_flush rotate_with pointer_bytes VLog.append VLog.append_with VLog.append_active
    VLog.append_log VLog.store Wal.append Wal.append_record Wal.store Wal.frame Wal.entry_body
    Wal.entry_length Wal.sized Wal.sized_length varint_loop varint_length length_loop fixed_bytes
    crc_extend crc_loop crc_table
calm_ok = refl

after_put-InStep : InStep calm (put calm Status.ok true (5 ∷ []) large new_db).1
after_put-InStep =
    (writes-InStep calm refl true (5 ∷ []) large (6 ∷ []) new_db calm-InStep stored_pointer
        delete-IsLoggable range-IsLoggable).0
      calm_ok

-- The new skip list draws other heights.
abbrev two : ℕ → ℕ
two n = 2

two_pos : (n : ℕ) → 1 ≤ two n
two_pos n = omega arith

initialize-InStep_example :
    MemTable.find
      (5 ∷ [])
      1
      (initialize two
        (((put calm Status.ok true (5 ∷ []) large new_db).1.wal.file ++ []) ∷ [])
        0).boot_mem
    ≡ MemTable.find (5 ∷ []) 1 (put calm Status.ok true (5 ∷ []) large new_db).1.mem
initialize-InStep_example =
    initialize-InStep calm two (put calm Status.ok true (5 ∷ []) large new_db).1 [] 0
      after_put-InStep one_pos two_pos nothing_read (5 ∷ []) 1
