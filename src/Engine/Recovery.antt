-- ===== src/Engine/Recovery.antt =====
-- The log and the memtable: the writes keep them in step, and DBImpl::Initialize makes of the log a
-- memtable that answers as the lost one did.
use lightkv.Prelude.{
  ℕ, ◌≡◌, inl, inr, refl, sym, ap, ◌∙◌, subst, Bool, true, false, Bool-cases, not, max, Option,
  none, some, List, [], ◌∷◌, ◌++◌, append-nil, append_assoc, All, All-append, if◌then◌else◌, ◌&&◌,
}
use lightkv.Slice.{less}
use lightkv.Wal.{Writer, Outcome, done, failed, fault, deletion_type, value_type}
use lightkv.Wal.Replay.{MemCall, recover}
use lightkv.Wal.Recovery.{LogWrite, entry, range, write, write_all, IsLoggable, calls_of, all_calls}
use lightkv.VLog
use lightkv.MemTable.{MemTable, RangeTombstone, new_table}
use lightkv.MemTable.Content.{call, call_all}
use lightkv.Engine.{
  Status, Env, Db, is_ok, is_some, new_writer, rotate_with, trigger_flush, check_size, finish_write,
  store_value, logged, claim_seq, put_mem, write_stored, write_impl, put, delete,
  register_tombstone, delete_range,
}
use lightkv.Engine.Writes.{Outcome-cases, Stored-cases, not_ok, no_crash}

-- DBImpl::Initialize: the replay of the log files, in the order of their names.
unfoldable pub replay_files : List (List ℕ) → ℕ → List MemCall × ℕ
replay_files [] last = ([], last)
replay_files (file ∷ files) last =
    let (calls, seen) = recover file last in
    let (more, highest) = replay_files files seen in (calls ++ more, highest)

-- RegisterRangeTombstone in the replay.
pub registered : List MemCall → List RangeTombstone
registered [] = []
registered (MemCall.register_tombstone seq b e ∷ calls) =
    (record { begin_key = b; end_key = e; tombstone_seq = seq }) ∷ registered calls
registered (MemCall.insert seq k v ∷ calls) = registered calls
registered (MemCall.insert_deletion seq k ∷ calls) = registered calls
registered (MemCall.insert_range_deletion seq b e ∷ calls) = registered calls

-- What Initialize leaves: the memtable, the tombstones, the counter, and the log files on disk, which
-- are removed once they are replayed, but for the new one.
pub record Booted : Type 0 where
  pub boot_mem : MemTable
  pub boot_tombstones : List RangeTombstone
  pub boot_seq : ℕ
  pub log_files : List (List ℕ)

unfoldable pub initialize : (ℕ → ℕ) → List (List ℕ) → ℕ → Booted
initialize draw files manifest_seq =
    let (calls, highest) = replay_files files 0 in
    record {
      boot_mem = call_all draw calls new_table;
      boot_tombstones = registered calls;
      boot_seq = max manifest_seq highest;
      log_files = [] ∷ [];
    }

-- The log holds what the memtable does.
pub record InStep (env : Env) (db : Db) : Type 0 where
  pub writes : List LogWrite
  pub loggable : All IsLoggable writes
  pub logged_all : write_all env.can_grow writes new_writer ≡ done db.wal
  pub applied : db.mem ≡ call_all env.draw (all_calls writes) new_table

done_eq : (a b : Writer) → done a ≡ done b → a ≡ b
done_eq a b h = cc

failed_done : (a b : Writer) → failed a ≡ done b → ⊥
failed_done a b h = cc

not_valid : Status.invalid_argument ≡ Status.ok → ⊥
not_valid h = cc

fault_done : (b : Writer) → fault ≡ done b → ⊥
fault_done b h = cc

write_all-snoc :
    (can_grow : ℕ → Bool) (xs : List LogWrite) (x : LogWrite) (w m m' : Writer)
    → write_all can_grow xs w ≡ done m
    → write can_grow x m ≡ done m'
    → write_all can_grow (xs ++ x ∷ []) w ≡ done m'
unfolding write_all
write_all-snoc can_grow [] x w m m' e f =
    let same : w ≡ m = done_eq w m e in rw (ap (write can_grow x) same ∙ f, write_all) refl
write_all-snoc can_grow (y ∷ xs) x w m m' e f = elim (Outcome-cases (write can_grow y w)) [
  | inl (v, went) ↦
      rw (went, write_all) (write_all-snoc can_grow xs x v m m' (rw (went, write_all) at e) f)
  | inr (inl (v, went)) ↦ absurd (failed_done v m (rw (went, write_all) at e))
  | inr (inr went) ↦ absurd (fault_done m (rw (went, write_all) at e))
]

all_calls-snoc :
    (xs : List LogWrite) (x : LogWrite) → all_calls (xs ++ x ∷ []) ≡ all_calls xs ++ calls_of x
unfolding all_calls
all_calls-snoc [] x = append-nil (calls_of x)
all_calls-snoc (y ∷ xs) x =
    ap (λ l. calls_of y ++ l) (all_calls-snoc xs x)
    ∙ sym (append_assoc (calls_of y) (all_calls xs) (calls_of x))

call_all-append :
    (draw : ℕ → ℕ) (cs ds : List MemCall) (m : MemTable)
    → call_all draw (cs ++ ds) m ≡ call_all draw ds (call_all draw cs m)
unfolding call_all
call_all-append draw [] ds m = refl
call_all-append draw (c ∷ cs) ds m = call_all-append draw cs ds (call draw c m)

-- One more write.
module _ (env : Env) where
  pub step-InStep :
      (db db' : Db) (x : LogWrite)
      → InStep env db
      → IsLoggable x
      → write env.can_grow x db.wal ≡ done db'.wal
      → db'.mem ≡ call_all env.draw (calls_of x) db.mem
      → InStep env db'
  step-InStep db db' x s fits wrote called = record {
    writes = s.writes ++ x ∷ [];
    loggable = All-append IsLoggable s.writes (x ∷ []) s.loggable (fits, tt);
    logged_all =
        write_all-snoc env.can_grow s.writes x new_writer db.wal db'.wal s.logged_all wrote;
    applied =
        called
        ∙ ap (call_all env.draw (calls_of x)) s.applied
        ∙ sym (call_all-append env.draw (all_calls s.writes) (calls_of x) new_table)
        ∙ ap (λ cs. call_all env.draw cs new_table) (sym (all_calls-snoc s.writes x));
  }

  new-InStep : (db : Db) → db.wal ≡ new_writer → db.mem ≡ new_table → InStep env db
  unfolding write_all call_all all_calls
  new-InStep db w m = record {
    writes = [];
    loggable = tt;
    logged_all = ap done (sym w);
    applied = m;
  }

  if-InStep :
      (test : Bool) (a b : Status × Db)
      → InStep env a.1
      → InStep env b.1
      → InStep env (if test then a else b).1
  if-InStep true a b h k = h
  if-InStep false a b h k = k

  rotate-InStep :
      (o : Option MemTable) (db : Db) → InStep env db → InStep env (rotate_with o true db)
  unfolding rotate_with
  rotate-InStep (some table) db s = s
  rotate-InStep none db s = new-InStep _ refl refl

  pub finish_write-InStep :
      env.log_opens ≡ true
      → (sync : Bool) (db : Db) → InStep env db
      → InStep env (finish_write env sync db).1
  unfolding finish_write check_size trigger_flush
  finish_write-InStep opens sync db s = if-InStep (sync && not (is_ok env.sync)) _ _ s (
      if-InStep (not env.every_1024th) _ _ s (
        if-InStep (not (is_ok env.disk_space)) _ _ s (
          if-InStep (not env.over_size) _ _ s (
            if-InStep (is_some db.imm && env.flush_gave_up) (Status.io_error, db)
              (Status.ok, trigger_flush env.log_opens db) s
              (subst (λ o. InStep env (rotate_with db.imm o db)) (sym opens)
                (rotate-InStep db.imm db s))))))

-- The writes that answer ok keep the log and the memtable in step.
module _ (env : Env) (opens : env.log_opens ≡ true) (sync : Bool) where
  logged-InStep :
      (x : LogWrite) (out : Outcome) (change : Db → Db) (db : Db)
      → InStep env db
      → IsLoggable x
      → write env.can_grow x db.wal ≡ out
      → ((w : Writer) → (change (record db { wal = w })).wal ≡ w)
      → ((w : Writer)
          → (change (record db { wal = w })).mem ≡ call_all env.draw (calls_of x) db.mem)
      → (logged env sync out change db).0 ≡ Status.ok
      → InStep env (logged env sync out change db).1
  unfolding logged
  logged-InStep x (done w) change db s fits wrote same_wal called e =
      finish_write-InStep env opens sync (change (record db { wal = w })) (
        step-InStep env db (change (record db { wal = w })) x s fits
          (wrote ∙ ap done (sym (same_wal w))) (called w))
  logged-InStep x (failed w) change db s fits wrote same_wal called e = absurd (not_ok e)
  logged-InStep x fault change db s fits wrote same_wal called e = absurd (no_crash e)

  claimed : (db : Db) → InStep env db → InStep env (claim_seq db)
  unfolding claim_seq
  claimed db s = record {
    writes = s.writes;
    loggable = s.loggable;
    logged_all = s.logged_all;
    applied = s.applied;
  }

  delete-InStep :
      (key : List ℕ) (db : Db)
      → InStep env db
      → IsLoggable (entry db.last_seq deletion_type key [])
      → (delete env sync key db).0 ≡ Status.ok
      → InStep env (delete env sync key db).1
  unfolding delete write calls_of call call_all claim_seq
  delete-InStep key db s fits e =
      logged-InStep (entry db.last_seq deletion_type key []) _ _ (claim_seq db) (claimed db s) fits
        refl (λ w. refl) (λ w. refl) e

  delete_range-InStep :
      (b e : List ℕ) (db : Db)
      → InStep env db
      → IsLoggable (range db.last_seq b e)
      → (delete_range env sync b e db).0 ≡ Status.ok
      → InStep env (delete_range env sync b e db).1
  unfolding delete_range write calls_of call call_all claim_seq register_tombstone
  delete_range-InStep b e db s fits done_ok = elim (Bool-cases (not (less b e))) [
    | inl bad ↦ absurd (not_valid (rw bad at done_ok))
    | inr good ↦ rw good (
        logged-InStep (range db.last_seq b e) _ _ (claim_seq db) (claimed db s) fits refl
          (λ w. refl) (λ w. refl) (rw good at done_ok))
  ]

  write_impl-InStep :
      (key value : List ℕ) (db : Db)
      → InStep env db
      → ((stored : List ℕ)
          → (store_value env value db).0 ≡ VLog.ok stored
          → IsLoggable (entry db.last_seq value_type key stored))
      → (write_impl env sync key value db).0 ≡ Status.ok
      → InStep env (write_impl env sync key value db).1
  unfolding write_impl write_stored put_mem write calls_of call call_all claim_seq
  write_impl-InStep key value db s fits e =
      let db0 = record (claim_seq db) { vlog = (store_value env value db).1 } in
      elim (Stored-cases (store_value env value db).0) [
        | inr (inl bad) ↦ absurd (not_ok (rw (bad, write_stored) at e))
        | inr (inr bad) ↦ absurd (no_crash (rw (bad, write_stored) at e))
        | inl (stored, went) ↦
            rw (went, write_stored)
              (logged-InStep (entry db.last_seq value_type key stored) _
                (put_mem env db.last_seq key stored) db0
                (record {
                  writes = s.writes;
                  loggable = s.loggable;
                  logged_all = s.logged_all;
                  applied = s.applied;
                })
                (fits stored went) refl (λ w. refl) (λ w. refl) (rw (went, write_stored) at e))
      ]

  -- A Put, a Delete or a DeleteRange that answers ok keeps the log and the memtable in step, also when it
  -- rotates both: the memtable is what the calls of the log's records make of an empty one. The records
  -- have the sizes that the log's format can hold, and a new log file can be opened.
  pub writes-InStep :
      (key value end_key : List ℕ) (db : Db)
      → InStep env db
      → ((stored : List ℕ)
          → (store_value env value db).0 ≡ VLog.ok stored
          → IsLoggable (entry db.last_seq value_type key stored))
      → IsLoggable (entry db.last_seq deletion_type key [])
      → IsLoggable (range db.last_seq key end_key)
      → ((put env Status.ok sync key value db).0 ≡ Status.ok
          → InStep env (put env Status.ok sync key value db).1)
        × ((delete env sync key db).0 ≡ Status.ok → InStep env (delete env sync key db).1)
        × ((delete_range env sync key end_key db).0 ≡ Status.ok
            → InStep env (delete_range env sync key end_key db).1)
  unfolding put
  writes-InStep key value end_key db s put_fits delete_fits range_fits = (
    write_impl-InStep key value db s put_fits,
    delete-InStep key db s delete_fits,
    delete_range-InStep key end_key db s range_fits,
  )
