-- ===== src/Engine/Counted.antt =====
-- The writes keep the numbers of the memtables below the counter.
use lightkv.Prelude.{
  ℕ, ◌+◌, ◌%◌, ◌^◌, ◌≤◌, ◌<◌, ◌≡◌, refl, arith, Bool, true, false, not, Option, none, some, List,
  [], ◌∷◌, All, if◌then◌else◌, ◌&&◌,
}
use lightkv.Wal.{Writer, Outcome, done, failed, fault}
use lightkv.Wal.Replay.{MemCall}
use lightkv.VLog
use lightkv.VLog.{VLogManager}
use lightkv.MemTable
use lightkv.MemTable.{MemTable, note_seq, new_table}
use lightkv.MemTable.Content.{call, call-IsMemTable, new_table-IsMemTable}
use lightkv.Engine.{
  Status, Env, Db, is_ok, is_some, rotate_with, trigger_flush, check_size, finish_write,
  store_value, logged, claim_seq, put_mem, write_stored, write_impl, put, delete,
}
use lightkv.Engine.Lookup.{if_there}
use lightkv.Engine.Others.{IsSeen, IsCounted}

raise-IsSeen :
    (a b : ℕ) (tables : List MemTable) → a ≤ b → All (IsSeen a) tables → All (IsSeen b) tables
raise-IsSeen a b [] le h = tt
raise-IsSeen a b (m ∷ tables) le h = ((h.0.0, omega (arith, h.0.1)), raise-IsSeen a b tables le h.1)

module _ (bound : ℕ) where
  rotate-IsCounted :
      (o : Option MemTable) (opens : Bool) (db : Db)
      → db.imm ≡ o
      → IsCounted bound db
      → IsCounted bound (rotate_with o opens db)
  unfolding rotate_with new_table
  rotate-IsCounted (some table) opens db e c = c
  rotate-IsCounted none opens db e c = record {
    lower = c.lower;
    mem_seen = (new_table-IsMemTable, omega arith);
    imm_seen = (c.mem_seen, tt);
  }

  if-IsCounted :
      (test : Bool) (a b : Status × Db)
      → IsCounted bound a.1
      → IsCounted bound b.1
      → IsCounted bound (if test then a else b).1
  if-IsCounted true a b h k = h
  if-IsCounted false a b h k = k

  finish_write-IsCounted :
      (env : Env) (sync : Bool) (db : Db)
      → IsCounted bound db
      → IsCounted bound (finish_write env sync db).1
  unfolding finish_write check_size trigger_flush
  finish_write-IsCounted env sync db c = if-IsCounted (sync && not (is_ok env.sync)) _ _ c (
      if-IsCounted (not env.every_1024th) _ _ c (
        if-IsCounted (not (is_ok env.disk_space)) _ _ c (
          if-IsCounted (not env.over_size) _ _ c (
            if-IsCounted (is_some db.imm && env.flush_gave_up) (Status.io_error, db)
              (Status.ok, trigger_flush env.log_opens db) c
              (rotate-IsCounted db.imm env.log_opens db refl c)))))

  -- A memtable call with the number that was claimed.
  called-IsCounted :
      (env : Env) (c : MemCall) (db : Db) (wal : Writer) (vlog : VLogManager)
      → ((n : ℕ) → 1 ≤ env.draw n)
      → db.last_seq + 1 < 2 ^ 64
      → (call env.draw c db.mem).max_seq ≤ db.last_seq
      → IsCounted bound db
      → IsCounted bound
          (record (claim_seq db) { wal = wal; vlog = vlog; mem = call env.draw c db.mem })
  unfolding claim_seq
  called-IsCounted env c db wal vlog tall room most count =
      let next = (db.last_seq + 1) % 2 ^ 64 in
      let up : db.last_seq ≤ next = omega arith in
      record {
        lower = omega (arith, count.lower);
        mem_seen = (call-IsMemTable env.draw c db.mem tall count.mem_seen.0, omega arith);
        imm_seen = raise-IsSeen db.last_seq next (if_there db.imm) up count.imm_seen;
      }

  logged-IsCounted :
      (env : Env) (sync : Bool) (out : Outcome) (change : Db → Db) (db : Db)
      → IsCounted bound db
      → ((w : Writer) → IsCounted bound (change (record db { wal = w })))
      → IsCounted bound (logged env sync out change db).1
  unfolding logged
  logged-IsCounted env sync (done w) change db count changed =
      finish_write-IsCounted env sync (change (record db { wal = w })) (changed w)
  logged-IsCounted env sync (failed w) change db count changed = record {
    lower = count.lower;
    mem_seen = count.mem_seen;
    imm_seen = count.imm_seen;
  }
  logged-IsCounted env sync fault change db count changed = count

  claimed-IsCounted :
      (db : Db) (vlog : VLogManager)
      → db.last_seq + 1 < 2 ^ 64
      → IsCounted bound db
      → IsCounted bound (record (claim_seq db) { vlog = vlog })
  unfolding claim_seq
  claimed-IsCounted db vlog room count =
      let next = (db.last_seq + 1) % 2 ^ 64 in
      record {
        lower = omega (arith, count.lower);
        mem_seen = (count.mem_seen.0, omega (arith, count.mem_seen.1));
        imm_seen = raise-IsSeen db.last_seq next (if_there db.imm) (omega arith) count.imm_seen;
      }

  pub delete-IsCounted :
      (env : Env) (sync : Bool) (key : List ℕ) (db : Db)
      → ((n : ℕ) → 1 ≤ env.draw n)
      → db.last_seq + 1 < 2 ^ 64
      → IsCounted bound db
      → IsCounted bound (delete env sync key db).1
  unfolding delete call MemTable.insert_deletion note_seq claim_seq
  delete-IsCounted env sync key db tall room count =
      let most = count.mem_seen.1 in
      logged-IsCounted env sync _ _ (claim_seq db) (claimed-IsCounted db db.vlog room count) (λ w.
        called-IsCounted env (MemCall.insert_deletion db.last_seq key) db w db.vlog tall room
          (ground arith) count)

  stored-IsCounted :
      (env : Env) (sync : Bool) (key : List ℕ) (vlog : VLogManager) (db : Db)
      → ((n : ℕ) → 1 ≤ env.draw n)
      → db.last_seq + 1 < 2 ^ 64
      → IsCounted bound db
      → (r : VLog.Result (List ℕ))
      → IsCounted bound
          (write_stored env sync db.last_seq key r (record (claim_seq db) { vlog = vlog })).1
  unfolding write_stored put_mem call MemTable.insert note_seq claim_seq
  stored-IsCounted env sync key vlog db tall room count (VLog.ok v) =
      let most = count.mem_seen.1 in
      logged-IsCounted env sync _ (put_mem env db.last_seq key v) _
        (claimed-IsCounted db vlog room count)
        (λ w.
          called-IsCounted env (MemCall.insert db.last_seq key v) db w vlog tall room (ground arith)
            count)
  stored-IsCounted env sync key vlog db tall room count VLog.io_error =
      claimed-IsCounted db vlog room count
  stored-IsCounted env sync key vlog db tall room count VLog.fault =
      claimed-IsCounted db vlog room count

  pub put-IsCounted :
      (env : Env) (catch_up : Status) (sync : Bool) (key value : List ℕ) (db : Db)
      → ((n : ℕ) → 1 ≤ env.draw n)
      → db.last_seq + 1 < 2 ^ 64
      → IsCounted bound db
      → IsCounted bound (put env catch_up sync key value db).1
  unfolding put write_impl
  put-IsCounted env catch_up sync key value db tall room count =
      if-IsCounted (is_ok catch_up) _ _
        (stored-IsCounted env sync key (store_value env value db).1 db tall room count
          (store_value env value db).0)
        count
