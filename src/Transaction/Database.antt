-- ===== src/Transaction/Database.antt =====
-- The database as the store of transactions: what Engine proves of its writes and reads is what a store
-- promises.
use lightkv.Prelude.{
  ℕ, ◌+◌, ◌^◌, ◌≤◌, ◌<◌, ◌≡◌, inl, inr, refl, sym, ap, ◌∙◌, Bool, true, false, Bool-cases, Option,
  none, some, List, bytes_eq, ltb,
}
use lightkv.Engine
use lightkv.Engine.{Status, Env, Db, is_ok, write_impl, put}
use lightkv.Engine.Lookup
use lightkv.Engine.Lookup.{Table}
use lightkv.Engine.Writes.{IsDb, HasRoom, put-get}
use lightkv.Engine.Deletes.{delete-get}
use lightkv.Engine.Invariant.{put-IsDb, delete-IsDb}
use lightkv.Engine.Frame.{reply, Answers, KeepsKey-Answers}
use lightkv.Engine.Others.{IsBehind, IsCounted, put-KeepsKey, delete-KeepsKey}
use lightkv.Engine.Counted.{put-IsCounted, delete-IsCounted}
use lightkv.Transaction
use lightkv.Transaction.{
  Store, WriteOp, put_op, delete_op, op_key, op_value, buffered, apply, Transaction, commit,
}
use lightkv.Transaction.Commit.{IsStore, FitAll, commit-get}

-- What the platform answers to the write with a number; mapping the value log's files is the same for all.
abbrev pub env_at : (ℕ → Env) → (ℕ → Bool) → ℕ → Env
env_at answers can_map n = record (answers n) { can_map = can_map }

-- DBImpl's Put, Delete and Get, as Transaction calls them.
unfoldable pub db_store :
    (ℕ → Env) → (ℕ → Bool) → (ℕ → Status) → List Table → List (List Table) → Store Db
db_store answers can_map catch_up level0 levels = record {
  put = λ key value db.
      put (env_at answers can_map db.last_seq) (catch_up db.last_seq) true key value db;
  delete = λ key db. Engine.delete (env_at answers can_map db.last_seq) true key db;
  get = λ snapshot key db. Engine.Lookup.get can_map snapshot key level0 levels db;
}

reply-buffered : (r : Option (List ℕ)) → reply r ≡ buffered r
reply-buffered none = refl
reply-buffered (some v) = refl

-- The database in a state between two calls whose numbers are below its counter.
unfoldable pub IsReady : ℕ → Db → Type 0
IsReady bound db = IsDb db × IsCounted bound db

module _ (answers : ℕ → Env) (can_map : ℕ → Bool) (catch_up : ℕ → Status) (level0 : List Table)
    (levels : List (List Table)) (bound : ℕ) (behind : IsBehind bound level0 levels)
    (tall : (i n : ℕ) → 1 ≤ (answers i).draw n) where
  -- There is room for a write: the counters and the files do not reach 2^64.
  unfoldable pub HasRoomFor : WriteOp → Db → Type 0
  HasRoomFor (put_op key value) db = HasRoom (env_at answers can_map db.last_seq) value db
  HasRoomFor (delete_op key) db = db.last_seq + 1 < 2 ^ 64

  pub apply-IsReady :
      (op : WriteOp) (db : Db)
      → IsReady bound db
      → HasRoomFor op db
      → (apply (db_store answers can_map catch_up level0 levels) op db).0 ≡ Status.ok
      → IsReady bound (apply (db_store answers can_map catch_up level0 levels) op db).1
  unfolding apply db_store IsReady HasRoomFor
  apply-IsReady (put_op key value) db (ok, count) room e = (
    put-IsDb (env_at answers can_map db.last_seq) (catch_up db.last_seq) true key value db ok room
        e,
    put-IsCounted bound (env_at answers can_map db.last_seq) (catch_up db.last_seq) true key value
        db room.tall room.seq_room count,
  )
  apply-IsReady (delete_op key) db (ok, count) room e = (
    delete-IsDb (env_at answers can_map db.last_seq) (tall db.last_seq) true key db ok room,
    delete-IsCounted bound (env_at answers can_map db.last_seq) true key db (tall db.last_seq) room
        count,
  )

  pub apply_own_key :
      (op : WriteOp) (db : Db)
      → IsReady bound db
      → HasRoomFor op db
      → (apply (db_store answers can_map catch_up level0 levels) op db).0 ≡ Status.ok
      → ((db_store answers can_map catch_up level0 levels).get 0
          (op_key op)
          (apply (db_store answers can_map catch_up level0 levels) op db).1).0
        ≡ buffered (op_value op)
  unfolding apply db_store IsReady HasRoomFor
  apply_own_key (put_op key value) db (ok, count) room e =
      put-get (env_at answers can_map db.last_seq) (catch_up db.last_seq) true key value level0
        levels db ok room e
  apply_own_key (delete_op key) db (ok, count) room e =
      delete-get (env_at answers can_map db.last_seq) true key level0 levels db ok
        (tall db.last_seq) room e

  pub apply_other_key :
      (op : WriteOp) (db : Db) (key : List ℕ) (r : Option (List ℕ))
      → IsReady bound db
      → HasRoomFor op db
      → (apply (db_store answers can_map catch_up level0 levels) op db).0 ≡ Status.ok
      → bytes_eq (op_key op) key ≡ false
      → ((db_store answers can_map catch_up level0 levels).get 0 key db).0 ≡ buffered r
      → ((db_store answers can_map catch_up level0 levels).get 0 key
          (apply (db_store answers can_map catch_up level0 levels) op db).1).0
        ≡ buffered r
  unfolding apply db_store IsReady HasRoomFor Answers
  apply_other_key (put_op k value) db key r (ok, count) room e differs before =
      KeepsKey-Answers can_map level0 levels key r db _
        (put-KeepsKey (env_at answers can_map db.last_seq) level0 levels bound behind
          (tall db.last_seq) k key differs (catch_up db.last_seq) true value db ok count room e)
        (before ∙ sym (reply-buffered r))
      ∙ reply-buffered r
  apply_other_key (delete_op k) db key r (ok, count) room e differs before =
      KeepsKey-Answers can_map level0 levels key r db _
        (delete-KeepsKey (env_at answers can_map db.last_seq) level0 levels bound behind
          (tall db.last_seq) k key differs true db ok count room e)
        (before ∙ sym (reply-buffered r))
      ∙ reply-buffered r

  -- The database keeps a store's promises.
  unfoldable pub db_store-IsStore : IsStore (db_store answers can_map catch_up level0 levels)
  db_store-IsStore = record {
    IsGood = IsReady bound;
    Fits = HasRoomFor;
    apply_good = apply-IsReady;
    apply_own = apply_own_key;
    apply_other = apply_other_key;
  }

  same_snapshot :
      (db : Db) (key : List ℕ)
      → ((db_store answers can_map catch_up level0 levels).get db.last_seq key db).0
        ≡ ((db_store answers can_map catch_up level0 levels).get 0 key db).0
  unfolding db_store Engine.Lookup.get
  same_snapshot db key = elim (Bool-cases (ltb 0 db.last_seq)) [
    | inl some_write ↦ rw some_write refl
    | inr no_write ↦ rw no_write refl
  ]

  -- After a Commit that answers ok on the database it began on, at its newest snapshot, Get answers each
  -- key as the transaction's own Get did before the Commit: the values of its buffer, not found where it
  -- deleted, and what was there before for every other key. The state is well formed, the counters and
  -- files have room for each write, and the table files hold only versions below the counter.
  pub commit-get_database :
      (t : Transaction) (db : Db) (key : List ℕ) (r : Option (List ℕ))
      → IsReady bound db
      → FitAll (db_store answers can_map catch_up level0 levels) db_store-IsStore t.write_buf db
      → t.committed ≡ false
      → t.snapshot_seq ≡ db.last_seq
      → (commit (db_store answers can_map catch_up level0 levels) t db).0.0 ≡ Status.ok
      → (Transaction.get (db_store answers can_map catch_up level0 levels) key t db).0 ≡ buffered r
      → (Engine.Lookup.get can_map 0 key level0 levels
          (commit (db_store answers can_map catch_up level0 levels) t db).1).0
        ≡ buffered r
  unfolding db_store db_store-IsStore
  commit-get_database t db key r ready fit active newest ok e =
      commit-get (db_store answers can_map catch_up level0 levels) db_store-IsStore t db key r ready
        fit active
        (ap (λ n. ((db_store answers can_map catch_up level0 levels).get n key db).0) newest
          ∙ same_snapshot db key)
        ok e
