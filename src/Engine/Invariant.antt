-- ===== src/Engine/Invariant.antt =====
-- The writes keep a database well formed.
use lightkv.Prelude.{
  ℕ, ◌+◌, ◌%◌, ◌^◌, ◌≤◌, ◌<◌, ◌≡◌, inl, inr, arith, Bool, true, false, Bool-cases, not, Option,
  none, some, List, [], ◌∷◌, All-append, length, ltb, if◌then◌else◌, ◌&&◌,
}
use lightkv.Slice.{less}
use lightkv.Wal.{Writer, Outcome, done, failed, fault}
use lightkv.Wal.Replay.{MemCall}
use lightkv.VLog
use lightkv.VLog.{VLogManager}
use lightkv.VLog.Pointers.{IsOpen}
use lightkv.VLog.Appends.{append_pointer}
use lightkv.MemTable
use lightkv.MemTable.{MemTable, RangeTombstone, note_seq, new_table}
use lightkv.MemTable.Content.{call, call-IsMemTable, new_table-IsMemTable}
use lightkv.Engine.{
  Status, Env, Db, is_ok, is_some, rotate_with, trigger_flush, check_size, finish_write,
  store_value, logged, claim_seq, put_mem, write_stored, write_impl, put, delete,
  register_tombstone, delete_range,
}
use lightkv.Engine.Reads.{NotNewer}
use lightkv.Engine.Writes.{
  IsDb, HasRoom, Stored-cases, Result-cases, no_error, no_fault, not_ok, no_crash, not_ready,
}

raise_NotNewer : (a b : ℕ) (ts : List RangeTombstone) → a ≤ b → NotNewer a ts → NotNewer b ts
raise_NotNewer a b [] h k = tt
raise_NotNewer a b (t ∷ ts) h k = (omega (arith, k.0), raise_NotNewer a b ts h k.1)

rotate-IsDb :
    (o : Option MemTable) (opens : Bool) (db : Db) → IsDb db → IsDb (rotate_with o opens db)
unfolding rotate_with new_table
rotate-IsDb (some table) opens db ok = ok
rotate-IsDb none opens db ok = record {
  table = new_table-IsMemTable;
  open_vlog = ok.open_vlog;
  own_tombstones = tt;
  all_tombstones = ok.all_tombstones;
}

if-IsDb : (test : Bool) (a b : Status × Db) → IsDb a.1 → IsDb b.1 → IsDb (if test then a else b).1
if-IsDb true a b h k = h
if-IsDb false a b h k = k

finish_write-IsDb :
    (env : Env) (sync : Bool) (db : Db) → IsDb db → IsDb (finish_write env sync db).1
unfolding finish_write check_size trigger_flush
finish_write-IsDb env sync db ok = if-IsDb (sync && not (is_ok env.sync)) _ _ ok (
    if-IsDb (not env.every_1024th) _ _ ok (
      if-IsDb (not (is_ok env.disk_space)) _ _ ok (
        if-IsDb (not env.over_size) _ _ ok (
          if-IsDb (is_some db.imm && env.flush_gave_up) (Status.io_error, db)
            (Status.ok, trigger_flush env.log_opens db) ok
            (rotate-IsDb db.imm env.log_opens db ok)))))

with_wal : (w : Writer) (db : Db) → IsDb db → IsDb (record db { wal = w })
with_wal w db ok = record {
  table = ok.table;
  open_vlog = ok.open_vlog;
  own_tombstones = ok.own_tombstones;
  all_tombstones = ok.all_tombstones;
}

logged-IsDb :
    (env : Env) (sync : Bool) (out : Outcome) (change : Db → Db) (db : Db)
    → IsDb db
    → ((w : Writer) → IsDb (change (record db { wal = w })))
    → IsDb (logged env sync out change db).1
unfolding logged
logged-IsDb env sync (done w) change db ok changed =
    finish_write-IsDb env sync (change (record db { wal = w })) (changed w)
logged-IsDb env sync (failed w) change db ok changed = with_wal w db ok
logged-IsDb env sync fault change db ok changed = ok

claim_seq-IsDb : (db : Db) → db.last_seq + 1 < 2 ^ 64 → IsDb db → IsDb (claim_seq db)
unfolding claim_seq
claim_seq-IsDb db room ok = record {
  table = ok.table;
  open_vlog = ok.open_vlog;
  own_tombstones =
      raise_NotNewer db.last_seq _ db.mem.range_tombstones (omega arith) ok.own_tombstones;
  all_tombstones = raise_NotNewer db.last_seq _ db.range_tombstones (omega arith) ok.all_tombstones;
}

module _ (env : Env) (tall : (n : ℕ) → 1 ≤ env.draw n) where
  pub delete-IsDb :
      (sync : Bool) (key : List ℕ) (db : Db)
      → IsDb db
      → db.last_seq + 1 < 2 ^ 64
      → IsDb (delete env sync key db).1
  unfolding delete call MemTable.insert_deletion note_seq claim_seq
  delete-IsDb sync key db ok room =
      let claimed = claim_seq-IsDb db room ok in
      logged-IsDb env sync _ _ (claim_seq db) claimed (λ w. record {
        table =
            call-IsMemTable env.draw (MemCall.insert_deletion db.last_seq key) db.mem tall ok.table;
        open_vlog = ok.open_vlog;
        own_tombstones = claimed.own_tombstones;
        all_tombstones = claimed.all_tombstones;
      })

  delete_range-IsDb :
      (sync : Bool) (b e : List ℕ) (db : Db)
      → IsDb db
      → db.last_seq + 1 < 2 ^ 64
      → IsDb (delete_range env sync b e db).1
  unfolding delete_range call MemTable.insert_range_deletion note_seq claim_seq register_tombstone
  delete_range-IsDb sync b e db ok room =
      let claimed = claim_seq-IsDb db room ok in
      let next = (db.last_seq + 1) % 2 ^ 64 in
      let own : db.last_seq ≤ next = omega arith in
      if-IsDb (not (less b e)) _ _ ok (
        logged-IsDb env sync _ _ (claim_seq db) claimed (λ w. record {
          table =
              call-IsMemTable env.draw (MemCall.insert_range_deletion db.last_seq b e) db.mem tall
                ok.table;
          open_vlog = ok.open_vlog;
          own_tombstones =
              All-append (λ (t : RangeTombstone). t.tombstone_seq ≤ next) db.mem.range_tombstones _
                claimed.own_tombstones (own, tt);
          all_tombstones =
              All-append (λ (t : RangeTombstone). t.tombstone_seq ≤ next) db.range_tombstones _
                claimed.all_tombstones (own, tt);
        }))

store_value-IsOpen :
    (env : Env) (value stored : List ℕ) (db : Db)
    → IsOpen db.vlog
    → HasRoom env value db
    → (store_value env value db).0 ≡ VLog.ok stored
    → IsOpen (store_value env value db).1
unfolding store_value
store_value-IsOpen env value stored db opened room e =
    elim (Bool-cases (ltb db.value_threshold (length value))) [
      | inr small ↦ rw small opened
      | inl large ↦ elim (Result-cases (VLog.append env.can_map value db.vlog).0) [
        | inr (inl bad) ↦ absurd (no_error stored (rw bad at (rw large at e)))
        | inr (inr bad) ↦ absurd (no_fault stored (rw bad at (rw large at e)))
        | inl (id, offset, len, went) ↦
            rw large
              (append_pointer env.can_map room.can_map value db.vlog id offset len opened went
                room.file_room).0
      ]
    ]

write_impl-IsDb :
    (env : Env) (sync : Bool) (key value : List ℕ) (db : Db)
    → IsDb db
    → HasRoom env value db
    → (write_impl env sync key value db).0 ≡ Status.ok
    → IsDb (write_impl env sync key value db).1
unfolding write_impl write_stored put_mem call MemTable.insert note_seq claim_seq
write_impl-IsDb env sync key value db ok room e =
    let claimed = claim_seq-IsDb db room.seq_room ok in
    elim (Stored-cases (store_value env value db).0) [
      | inr (inl bad) ↦ absurd (not_ok (rw (bad, write_stored) at e))
      | inr (inr bad) ↦ absurd (no_crash (rw (bad, write_stored) at e))
      | inl (stored, went) ↦
          let opened = store_value-IsOpen env value stored db ok.open_vlog room went in
          let db0 = record (claim_seq db) { vlog = (store_value env value db).1 } in
          rw (went, write_stored)
            (logged-IsDb env sync _ (put_mem env db.last_seq key stored) db0
              (record {
                table = ok.table;
                open_vlog = opened;
                own_tombstones = claimed.own_tombstones;
                all_tombstones = claimed.all_tombstones;
              })
              (λ w. record {
                table =
                    call-IsMemTable env.draw (MemCall.insert db.last_seq key stored) db.mem
                      room.tall ok.table;
                open_vlog = opened;
                own_tombstones = claimed.own_tombstones;
                all_tombstones = claimed.all_tombstones;
              }))
    ]

pub put-IsDb :
    (env : Env) (catch_up : Status) (sync : Bool) (key value : List ℕ) (db : Db)
    → IsDb db
    → HasRoom env value db
    → (put env catch_up sync key value db).0 ≡ Status.ok
    → IsDb (put env catch_up sync key value db).1
unfolding put
put-IsDb env catch_up sync key value db ok room e = elim (Bool-cases (is_ok catch_up)) [
  | inl ready ↦ rw ready (write_impl-IsDb env sync key value db ok room (rw ready at e))
  | inr waits ↦ absurd (not_ready catch_up waits (rw waits at e))
]

-- A Put that answers ok, a Delete and a DeleteRange keep a database well formed: the skip list of the
-- memtable, the value log, and the numbers of the tombstones.
pub writes-IsDb :
    (env : Env) (sync : Bool) (key value end_key : List ℕ) (db : Db)
    → IsDb db
    → HasRoom env value db
    → ((put env Status.ok sync key value db).0 ≡ Status.ok
        → IsDb (put env Status.ok sync key value db).1)
      × IsDb (delete env sync key db).1
      × IsDb (delete_range env sync key end_key db).1
writes-IsDb env sync key value end_key db ok room = (
  put-IsDb env Status.ok sync key value db ok room,
  delete-IsDb env room.tall sync key db ok room.seq_room,
  delete_range-IsDb env room.tall sync key end_key db ok room.seq_room,
)
