-- ===== src/Engine.antt =====
-- src/db_impl.cpp: the writes of the database and the change of memtables. A call that holds the write
-- lock is one function; what runs between two such calls is a sequence of them. `Env` holds what the
-- platform answers. The counters of statistics are left out.
pub mod Lookup
pub mod Newest
pub mod Files
pub mod Reads
pub mod Writes
pub mod Deletes
pub mod Frame
pub mod Others
pub mod Counted
pub mod Invariant
pub mod Batches
pub mod Recovery
pub mod Restart
pub mod Examples
use lightkv.Prelude.{
  ℕ, zero, suc, ◌+◌, ◌-◌, ◌*◌, ◌%◌, ◌^◌, ◌≡◌, Bool, true, false, not, Option, none, some, List, [],
  ◌∷◌, ◌++◌, length, take, drop, ltb, leb, ◌==◌, if◌then◌else◌, ◌&&◌,
}
use lightkv.Slice.{less}
use lightkv.Encoding.{fixed_bytes}
use lightkv.Wal.{
  Writer, Outcome, done, failed, fault, BatchOp, value_type, deletion_type, range_deletion_type,
}
use lightkv.Wal
use lightkv.VLog
use lightkv.VLog.{VLogManager}
use lightkv.MemTable
use lightkv.MemTable.{MemTable, RangeTombstone, new_table}

-- Status, by its code. `crash` is an access outside a mapping, which no caller sees return.
pub data Status : Type 0 where
  ok not_found corruption not_supported invalid_argument io_error crash : Status

abbrev pub is_ok : Status → Bool
is_ok Status.ok = true
is_ok _ = false

-- What the platform answers: growth of the log's file, mapping of the value log's, the skip list's
-- heights, and in FinishWrite the sync of the log, whether this is a 1024th write, the check of the
-- disk, whether the memtable is over its size, whether flushes have given up, and whether a new log
-- file can be opened.
pub record Env : Type 0 where
  pub can_grow : ℕ → Bool
  pub can_map : ℕ → Bool
  pub draw : ℕ → ℕ
  pub sync : Status
  pub every_1024th : Bool
  pub disk_space : Status
  pub over_size : Bool
  pub flush_gave_up : Bool
  pub log_opens : Bool

-- DBImpl; the WAL that belongs to `imm` is `imm_wal`.
pub record Db : Type 0 where
  pub last_seq : ℕ
  pub wal : Writer
  pub imm_wal : Option Writer
  pub mem : MemTable
  pub imm : Option MemTable
  pub range_tombstones : List RangeTombstone
  pub vlog : VLogManager
  pub value_threshold : ℕ

-- The size of a new log file.
abbrev pub new_writer : Writer
new_writer = record { file = []; file_size = 67108864; mapped = true }

-- DBImpl::TriggerFlush, by the immutable memtable that is there.
unfoldable pub rotate_with : Option MemTable → Bool → Db → Db
rotate_with (some table) log_opens db = db
rotate_with none log_opens db = record db {
  imm = some db.mem;
  mem = new_table;
  imm_wal = if log_opens then some db.wal else db.imm_wal;
  wal = if log_opens then new_writer else db.wal;
}

-- DBImpl::TriggerFlush
unfoldable pub trigger_flush : Bool → Db → Db
trigger_flush log_opens db = rotate_with db.imm log_opens db

abbrev pub is_some : Option MemTable → Bool
is_some none = false
is_some (some table) = true

-- The part of DBImpl::FinishWrite behind the sync.
unfoldable pub check_size : Env → Db → Status × Db
check_size env db =
    if not env.every_1024th
    then (Status.ok, db)
    else if not (is_ok env.disk_space)
    then (env.disk_space, db)
    else if not env.over_size
    then (Status.ok, db)
    else if is_some db.imm && env.flush_gave_up
    then (Status.io_error, db)
    else (Status.ok, trigger_flush env.log_opens db)

-- DBImpl::FinishWrite
unfoldable pub finish_write : Env → Bool → Db → Status × Db
finish_write env need_sync db =
    if need_sync && not (is_ok env.sync) then (env.sync, db) else check_size env db

-- A pointer into the value log as it is stored: the tag, then file, offset and length.
unfoldable pub pointer_bytes : ℕ → ℕ → ℕ → List ℕ
pointer_bytes file_id offset len =
    1 ∷ (fixed_bytes 8 file_id ++ (fixed_bytes 8 offset ++ fixed_bytes 8 len))

-- How a value is stored: a large one goes to the value log.
unfoldable pub store_value : Env → List ℕ → Db → VLog.Result (List ℕ) × VLogManager
store_value env value db =
    if ltb db.value_threshold (length value)
    then (let (result, vlog) = VLog.append env.can_map value db.vlog in
        (
          elim result [
            | VLog.ok (file_id, offset, len) ↦ VLog.ok (pointer_bytes file_id offset len)
            | VLog.io_error ↦ VLog.io_error
            | VLog.fault ↦ VLog.fault
          ],
          vlog,
        ))
    else (VLog.ok (0 ∷ value), db.vlog)

-- A write behind the append to the log: the memtable, then FinishWrite.
unfoldable pub logged : Env → Bool → Outcome → (Db → Db) → Db → Status × Db
logged env need_sync (done w) change db =
    finish_write env need_sync (change (record db { wal = w }))
logged env need_sync (failed w) change db = (Status.io_error, record db { wal = w })
logged env need_sync fault change db = (Status.crash, db)

-- `last_seq_.fetch_add(1)`
unfoldable pub claim_seq : Db → Db
claim_seq db = record db { last_seq = (db.last_seq + 1) % 2 ^ 64 }

unfoldable pub put_mem : Env → ℕ → List ℕ → List ℕ → Db → Db
put_mem env seq key stored db = record db {
  mem = MemTable.insert (env.draw db.mem.table.allocated) seq key stored db.mem;
}

-- DBImpl::WriteImpl behind the choice of how the value is stored.
unfoldable pub write_stored : Env → Bool → ℕ → List ℕ → VLog.Result (List ℕ) → Db → Status × Db
write_stored env need_sync seq key (VLog.ok stored) db =
    logged env need_sync (Wal.append env.can_grow seq value_type key stored db.wal)
      (put_mem env seq key stored) db
write_stored env need_sync seq key VLog.io_error db = (Status.io_error, db)
write_stored env need_sync seq key VLog.fault db = (Status.crash, db)

-- DBImpl::WriteImpl
unfoldable pub write_impl : Env → Bool → List ℕ → List ℕ → Db → Status × Db
write_impl env need_sync key value db =
    let (result, vlog) = store_value env value db in
    write_stored env need_sync db.last_seq key result (record (claim_seq db) { vlog = vlog })

-- DBImpl::Put; `catch_up` is what WaitForCompactionCatchUp answers.
unfoldable pub put : Env → Status → Bool → List ℕ → List ℕ → Db → Status × Db
put env catch_up need_sync key value db =
    if is_ok catch_up then write_impl env need_sync key value db else (catch_up, db)

-- DBImpl::Delete
unfoldable pub delete : Env → Bool → List ℕ → Db → Status × Db
delete env need_sync key db =
    logged env need_sync (Wal.append env.can_grow db.last_seq deletion_type key [] db.wal)
      (λ d. record d {
        mem = MemTable.insert_deletion (env.draw d.mem.table.allocated) db.last_seq key d.mem;
      })
      (claim_seq db)

-- DBImpl::RegisterRangeTombstone
pub register_tombstone : ℕ → List ℕ → List ℕ → Db → Db
register_tombstone seq begin_key end_key db = record db {
  range_tombstones =
      db.range_tombstones
      ++ (record { begin_key = begin_key; end_key = end_key; tombstone_seq = seq }) ∷ [];
}

-- DBImpl::DeleteRange. The count of the keys, which changes nothing, is left out.
pub delete_range : Env → Bool → List ℕ → List ℕ → Db → Status × Db
delete_range env need_sync begin_key end_key db =
    if not (less begin_key end_key)
    then (Status.invalid_argument, db)
    else logged env need_sync
        (Wal.append_range_delete env.can_grow db.last_seq begin_key end_key db.wal)
        (λ d.
          register_tombstone db.last_seq begin_key end_key
            (record d { mem = MemTable.insert_range_deletion db.last_seq begin_key end_key d.mem }))
        (claim_seq db)

pub prepend : BatchOp → VLog.Result (List BatchOp) → VLog.Result (List BatchOp)
prepend op (VLog.ok ops) = VLog.ok (op ∷ ops)
prepend op VLog.io_error = VLog.io_error
prepend op VLog.fault = VLog.fault

-- The loop of BatchWrite that moves large values to the value log and tags the others.
pub prepare : Env → List BatchOp → Db → VLog.Result (List BatchOp) × VLogManager
prepare env [] db = (VLog.ok [], db.vlog)
prepare env (op ∷ ops) db =
    if op.type == value_type
    then (let (stored, vlog) = store_value env op.value db in
        let (rest, last) = prepare env ops (record db { vlog = vlog }) in
        elim stored [
          | VLog.ok value ↦ (prepend (record op { value = value }) rest, last)
          | VLog.io_error ↦ (VLog.io_error, vlog)
          | VLog.fault ↦ (VLog.fault, vlog)
        ])
    else (let (rest, last) = prepare env ops db in (prepend op rest, last))

-- The loop of BatchWrite over the memtable.
pub batch_mem : Env → ℕ → List BatchOp → MemTable → MemTable
batch_mem env seq [] m = m
batch_mem env seq (op ∷ ops) m = batch_mem env seq ops (
    if op.type == value_type
    then MemTable.insert (env.draw m.table.allocated) seq op.key op.value m
    else if op.type == deletion_type
    then MemTable.insert_deletion (env.draw m.table.allocated) seq op.key m
    else if op.type == range_deletion_type
    then MemTable.insert_range_deletion seq op.begin_key op.end_key m
    else m)

-- The loop of BatchWrite over the range deletions.
pub batch_tombstones : ℕ → List BatchOp → Db → Db
batch_tombstones seq [] db = db
batch_tombstones seq (op ∷ ops) db = batch_tombstones seq ops (
    if op.type == range_deletion_type
    then register_tombstone seq op.begin_key op.end_key db
    else db)

-- DBImpl::BatchWrite behind the first loop.
pub batch_prepared : Env → Bool → ℕ → VLog.Result (List BatchOp) → Db → Status × Db
batch_prepared env need_sync seq (VLog.ok ops) db =
    logged env need_sync (Wal.append_batch env.can_grow seq ops db.wal)
      (λ d. batch_tombstones seq ops (record d { mem = batch_mem env seq ops d.mem })) db
batch_prepared env need_sync seq VLog.io_error db = (Status.io_error, db)
batch_prepared env need_sync seq VLog.fault db = (Status.crash, db)

-- DBImpl::BatchWrite
pub batch_write : Env → Bool → List BatchOp → Db → Status × Db
batch_write env need_sync [] db = (Status.ok, db)
batch_write env need_sync (op ∷ ops) db =
    let (prepared, vlog) = prepare env (op ∷ ops) db in
    batch_prepared env need_sync db.last_seq prepared (record (claim_seq db) { vlog = vlog })
