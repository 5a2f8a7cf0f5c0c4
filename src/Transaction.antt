-- ===== src/Transaction.antt =====
-- src/transaction.cpp: a transaction that buffers its writes and applies them in Commit. The database
-- is an interface; Transaction/Database fills it with Engine's operations.
pub mod Commit
pub mod Database
pub mod Examples
use lightkv.Prelude.{
  ℕ, ◌+◌, ◌≡◌, Bool, true, false, Option, none, some, List, [], ◌∷◌, ◌++◌, bytes_eq, if◌then◌else◌,
}
use lightkv.Engine.{Status, is_ok}

-- What a transaction calls of DBImpl, with `wo.sync` set: Put, Delete, and Get at a snapshot.
pub record Store (S : Type 0) : Type 0 where
  pub put : List ℕ → List ℕ → S → Status × S
  pub delete : List ℕ → S → Status × S
  pub get : ℕ → List ℕ → S → (Status × List ℕ) × S

-- Transaction::WriteOp
pub data WriteOp : Type 0 where
  put_op : List ℕ → List ℕ → WriteOp
  delete_op : List ℕ → WriteOp

pub record Transaction : Type 0 where
  pub snapshot_seq : ℕ
  pub committed : Bool
  pub write_buf : List WriteOp

-- Transaction::Transaction
pub begin : ℕ → Transaction
begin snapshot = record { snapshot_seq = snapshot; committed = false; write_buf = [] }

-- Transaction::Put
unfoldable pub put : List ℕ → List ℕ → Transaction → Status × Transaction
put key value t =
    if t.committed
    then (Status.invalid_argument, t)
    else (Status.ok, record t { write_buf = t.write_buf ++ put_op key value ∷ [] })

-- Transaction::Delete
unfoldable pub delete : List ℕ → Transaction → Status × Transaction
delete key t =
    if t.committed
    then (Status.invalid_argument, t)
    else (Status.ok, record t { write_buf = t.write_buf ++ delete_op key ∷ [] })

abbrev pub op_key : WriteOp → List ℕ
op_key (put_op key value) = key
op_key (delete_op key) = key

-- The answer that an entry of the buffer gives.
abbrev pub op_value : WriteOp → Option (List ℕ)
op_value (put_op key value) = some value
op_value (delete_op key) = none

-- The loop of Transaction::Get from the back of the buffer: what the last write of the key left.
pub last_write : List ℕ → List WriteOp → Option (Option (List ℕ))
last_write key [] = none
last_write key (op ∷ ops) =
    let later = last_write key ops in
    elim later [
      | some r ↦ some r
      | none ↦ if bytes_eq (op_key op) key then some (op_value op) else none
    ]

-- The result of Get for what the buffer has.
abbrev pub buffered : Option (List ℕ) → Status × List ℕ
buffered none = (Status.not_found, [])
buffered (some value) = (Status.ok, value)

-- Behind the loop of Transaction::Get.
pub get_with :
    {S : Type 0} → Store S → ℕ → List ℕ → Option (Option (List ℕ)) → S → (Status × List ℕ) × S
get_with store snapshot key (some r) s = (buffered r, s)
get_with store snapshot key none s = store.get snapshot key s

-- Transaction::Get
unfoldable pub get : {S : Type 0} → Store S → List ℕ → Transaction → S → (Status × List ℕ) × S
get store key t s =
    if t.committed
    then ((Status.invalid_argument, []), s)
    else get_with store t.snapshot_seq key (last_write key t.write_buf) s

-- One write of Commit.
pub apply : {S : Type 0} → Store S → WriteOp → S → Status × S
apply store (put_op key value) s = store.put key value s
apply store (delete_op key) s = store.delete key s

-- The loop of Transaction::Commit: it stops at the first write that fails.
pub commit_loop : {S : Type 0} → Store S → List WriteOp → S → Status × S
commit_loop store [] s = (Status.ok, s)
commit_loop store (op ∷ ops) s =
    let (status, s') = apply store op s in
    let rest = commit_loop store ops s' in if is_ok status then rest else (status, s')

-- Transaction::Commit; an empty buffer takes no round of the loop.
pub commit : {S : Type 0} → Store S → Transaction → S → (Status × Transaction) × S
commit store t s =
    if t.committed
    then ((Status.invalid_argument, t), s)
    else (let (status, s') = commit_loop store t.write_buf s in
        ((status, record t { committed = true; write_buf = [] }), s'))

-- Transaction::Rollback
pub rollback : Transaction → Transaction
rollback t = record t { committed = true; write_buf = [] }

-- Transaction::~Transaction
pub destroy : Transaction → Transaction
destroy t = if t.committed then t else rollback t
