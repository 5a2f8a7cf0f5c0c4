-- ===== src/Engine/Writes.antt =====
-- A Put that succeeds, and the Get that follows it.
use lightkv.Prelude.{
  ℕ, ◌+◌, ◌^◌, ◌≤◌, ◌<◌, ◌≡◌, ◌⊎◌, inl, inr, refl, sym, ap, ◌∙◌, subst, arith, Bool, true, false,
  Bool-cases, List, [], ◌∷◌, length, ltb, leb, ◌&&◌, bytes_eq, bytes_eq_iff,
}
use lightkv.Wal
use lightkv.Wal.{Writer, Outcome, done, failed, fault, value_type, deletion_type}
use lightkv.VLog
use lightkv.VLog.{VLogManager}
use lightkv.VLog.Pointers.{CanMap, IsOpen, contents}
use lightkv.VLog.Appends.{append_pointer}
use lightkv.MemTable
use lightkv.MemTable.{MemTable, RangeTombstone, Lookup, note_seq, is_range_deleted, new_table}
use lightkv.MemTable.Find.{find_after}
use lightkv.MemTable.Content.{IsMemTable}
use lightkv.Engine.{
  Status, Env, Db, is_ok, pointer_bytes, store_value, logged, claim_seq, put_mem, write_stored,
  write_impl, put,
}
use lightkv.Engine.Lookup.{Table, covered_by_tombstone, unwrap, memtables, get}
use lightkv.Engine.Reads.{
  first_found, NotNewer, not_covered, not_deleted, SameReads, finish_write-SameReads,
  get_tables-found, unwrap-pointer,
}

-- A database between two calls, as a Put needs it: the memtable is well formed, the value log is open,
-- and no tombstone has a number that is not handed out.
pub record IsDb (db : Db) : Type 0 where
  pub table : IsMemTable db.mem
  pub open_vlog : IsOpen db.vlog
  pub own_tombstones : NotNewer db.last_seq db.mem.range_tombstones
  pub all_tombstones : NotNewer db.last_seq db.range_tombstones

-- What the platform gives, and room left in the counters.
pub record HasRoom (env : Env) (value : List ℕ) (db : Db) : Type 0 where
  pub tall : (n : ℕ) → 1 ≤ env.draw n
  pub can_map : CanMap env.can_map
  pub seq_room : db.last_seq + 1 < 2 ^ 64
  pub file_room : (i : ℕ) → length (contents i (VLog.append env.can_map value db.vlog).1) < 2 ^ 64
  pub id_room : (VLog.append env.can_map value db.vlog).1.next_file_id < 2 ^ 64

pub Result-cases :
    (r : VLog.Result (ℕ × ℕ × ℕ))
    → ((id : ℕ) × (offset : ℕ) × (len : ℕ) × (r ≡ VLog.ok (id, offset, len)))
      ⊎ ((r ≡ VLog.io_error) ⊎ (r ≡ VLog.fault))
Result-cases (VLog.ok (id, offset, len)) = inl (id, offset, len, refl)
Result-cases VLog.io_error = inr (inl refl)
Result-cases VLog.fault = inr (inr refl)

pub ok_eq : (a b : List ℕ) → ◌≡◌ {A = VLog.Result (List ℕ)} (VLog.ok a) (VLog.ok b) → a ≡ b
ok_eq a b h = cc

pub no_error : (b : List ℕ) → ◌≡◌ {A = VLog.Result (List ℕ)} VLog.io_error (VLog.ok b) → ⊥
no_error b h = cc

pub no_fault : (b : List ℕ) → ◌≡◌ {A = VLog.Result (List ℕ)} VLog.fault (VLog.ok b) → ⊥
no_fault b h = cc

-- What store_value stores is read back as the value.
store_value-unwrap :
    (env : Env) (value stored : List ℕ) (db : Db)
    → IsOpen db.vlog
    → HasRoom env value db
    → (store_value env value db).0 ≡ VLog.ok stored
    → (unwrap env.can_map stored (store_value env value db).1).0 ≡ (Status.ok, value)
unfolding store_value
store_value-unwrap env value stored db opened room e =
    elim (Bool-cases (ltb db.value_threshold (length value))) [
      | inr small ↦
          let inline : 0 ∷ value ≡ stored = ok_eq (0 ∷ value) stored (rw small at e) in
          rw small (
            subst (λ s. (unwrap env.can_map s db.vlog).0 ≡ (Status.ok, value)) inline
              (unfold unwrap in refl))
      | inl large ↦ elim (Result-cases (VLog.append env.can_map value db.vlog).0) [
        | inr (inl bad) ↦ absurd (no_error stored (rw bad at (rw large at e)))
        | inr (inr bad) ↦ absurd (no_fault stored (rw bad at (rw large at e)))
        | inl (id, offset, len, went) ↦
            let (still, reads, numbered, inside, others) =
              append_pointer env.can_map room.can_map value db.vlog id offset len opened went
                room.file_room in
            let pointer : pointer_bytes id offset len ≡ stored =
              ok_eq (pointer_bytes id offset len) stored (rw went at (rw large at e)) in
            let size = room.file_room id in
            rw large (
              subst
                (λ s.
                  (unwrap env.can_map s (VLog.append env.can_map value db.vlog).1).0
                  ≡ (Status.ok, value))
                pointer
                (unwrap-pointer env.can_map id offset len value
                  (VLog.append env.can_map value db.vlog).1 (omega (arith, numbered, room.id_room))
                  (omega (arith, inside, size)) (omega (arith, inside, size)) reads))
      ]
    ]

pub Outcome-cases :
    (o : Outcome) → ((w : Writer) × (o ≡ done w)) ⊎ (((w : Writer) × (o ≡ failed w)) ⊎ (o ≡ fault))
Outcome-cases (done w) = inl (w, refl)
Outcome-cases (failed w) = inr (inl (w, refl))
Outcome-cases fault = inr (inr refl)

pub not_ok : Status.io_error ≡ Status.ok → ⊥
not_ok h = cc

pub no_crash : Status.crash ≡ Status.ok → ⊥
no_crash h = cc

-- A logged write that succeeded changed the memtable; the rest leaves reads as they are.
pub logged-ok :
    (env : Env) (sync : Bool) (out : Outcome) (change : Db → Db) (db : Db)
    → (logged env sync out change db).0 ≡ Status.ok
    → (w : Writer) × (out ≡ done w)
      × SameReads (change (record db { wal = w })) (logged env sync out change db).1
unfolding logged
logged-ok env sync (done w) change db e =
    (w, refl, finish_write-SameReads env sync (change (record db { wal = w })))
logged-ok env sync (failed w) change db e = absurd (not_ok e)
logged-ok env sync fault change db e = absurd (no_crash e)

-- A read at the newest snapshot, where the memtables decide.
pub get-found :
    (can_map : ℕ → Bool) (key : List ℕ) (level0 : List Table) (levels : List (List Table))
    (a b : Db) (v value : List ℕ) (s : ℕ)
    → SameReads a b
    → 0 < a.last_seq
    → first_found key a.last_seq (memtables a) ≡ Lookup.found v s
    → NotNewer s a.range_tombstones
    → (unwrap can_map v a.vlog).0 ≡ (Status.ok, value)
    → (get can_map 0 key level0 levels b).0 ≡ (Status.ok, value)
unfolding get
get-found can_map key level0 levels a b v value s same pos found old e =
    let there : first_found key b.last_seq (memtables b) ≡ Lookup.found v s =
      same.same_found key b.last_seq
      ∙ ap (λ n. first_found key n (memtables a)) same.same_seq
      ∙ found in
    let free : covered_by_tombstone key s b.last_seq b.range_tombstones ≡ false =
      not_covered key s b.last_seq b.range_tombstones
        (subst (NotNewer s) (sym same.same_tombstones) old) in
    ap (λ r. r.0) (get_tables-found can_map key b.last_seq b (memtables b) _ v s there free)
    ∙ ap (λ vlog. (unwrap can_map v vlog).0) same.same_vlog
    ∙ e

pub Stored-cases :
    (r : VLog.Result (List ℕ))
    → ((v : List ℕ) × (r ≡ VLog.ok v)) ⊎ ((r ≡ VLog.io_error) ⊎ (r ≡ VLog.fault))
Stored-cases (VLog.ok v) = inl (v, refl)
Stored-cases VLog.io_error = inr (inl refl)
Stored-cases VLog.fault = inr (inr refl)

decide :
    (key : List ℕ) (snapshot : ℕ) (m : MemTable) (tables : List MemTable) (v : List ℕ) (s : ℕ)
    → MemTable.find key snapshot m ≡ Lookup.found v s
    → first_found key snapshot (m ∷ tables) ≡ Lookup.found v s
unfolding first_found
decide key snapshot m tables v s e = rw (e, first_found) refl

pub next_seq : (db : Db) → db.last_seq + 1 < 2 ^ 64 → (claim_seq db).last_seq ≡ db.last_seq + 1
unfolding claim_seq
next_seq db h = omega arith

pub seen_now :
    (db : Db) (key : List ℕ)
    → db.last_seq + 1 < 2 ^ 64
    → (bytes_eq key key && leb db.last_seq (claim_seq db).last_seq) ≡ true
seen_now db key h =
    let same : bytes_eq key key ≡ true = (bytes_eq_iff key key).1 refl in
    let seen : leb db.last_seq (claim_seq db).last_seq ≡ true = ground (arith, next_seq db h) in
    rw same seen

-- The memtable finds what was just inserted.
insert_found :
    (env : Env) (key stored : List ℕ) (db : Db)
    → IsDb db
    → ((n : ℕ) → 1 ≤ env.draw n)
    → db.last_seq + 1 < 2 ^ 64
    → MemTable.find key
        (claim_seq db).last_seq
        (MemTable.insert (env.draw db.mem.table.allocated) db.last_seq key stored db.mem)
      ≡ Lookup.found stored db.last_seq
insert_found env key stored db ok tall room =
    let seq = db.last_seq in
    let snapshot = (claim_seq db).last_seq in
    (find_after key snapshot db.mem ok.table.list key stored [] seq
      (env.draw db.mem.table.allocated) (tall db.mem.table.allocated)).0
    ∙ rw (seen_now db key room)
        (rw (not_deleted key seq snapshot db.mem.range_tombstones ok.own_tombstones) refl)

write_impl-get :
    (env : Env) (sync : Bool) (key value : List ℕ) (level0 : List Table)
    (levels : List (List Table)) (db : Db)
    → IsDb db
    → HasRoom env value db
    → (write_impl env sync key value db).0 ≡ Status.ok
    → (get env.can_map 0 key level0 levels (write_impl env sync key value db).1).0
      ≡ (Status.ok, value)
unfolding write_impl put_mem write_stored claim_seq
write_impl-get env sync key value level0 levels db ok room e =
    let db0 = record (claim_seq db) { vlog = (store_value env value db).1 } in
    elim (Stored-cases (store_value env value db).0) [
      | inr (inl bad) ↦ absurd (not_ok (rw (bad, write_stored) at e))
      | inr (inr bad) ↦ absurd (no_crash (rw (bad, write_stored) at e))
      | inl (stored, went) ↦
          let change = put_mem env db.last_seq key stored in
          let (w, logged_w, same) =
            logged-ok env sync (Wal.append env.can_grow db.last_seq value_type key stored db.wal)
              change db0 (rw (went, write_stored) at e) in
          let a = change (record db0 { wal = w }) in
          rw (went, write_stored)
            (get-found env.can_map key level0 levels a _ stored value db.last_seq same
              (omega (arith, next_seq db room.seq_room))
              (decide key (claim_seq db).last_seq _ _ stored db.last_seq
                (insert_found env key stored db ok room.tall room.seq_room))
              ok.all_tombstones (store_value-unwrap env value stored db ok.open_vlog room went))
    ]

pub not_ready : (s : Status) → is_ok s ≡ false → s ≡ Status.ok → ⊥
not_ready s h e = ground arith

-- A Put that answers ok is read back: Get at the newest snapshot gives the value, whether it was stored
-- inline or in the value log, and also when the write rotated the memtables.
pub put-get :
    (env : Env) (catch_up : Status) (sync : Bool) (key value : List ℕ) (level0 : List Table)
    (levels : List (List Table)) (db : Db)
    → IsDb db
    → HasRoom env value db
    → (put env catch_up sync key value db).0 ≡ Status.ok
    → (get env.can_map 0 key level0 levels (put env catch_up sync key value db).1).0
      ≡ (Status.ok, value)
unfolding put
put-get env catch_up sync key value level0 levels db ok room e =
    elim (Bool-cases (is_ok catch_up)) [
      | inl ready ↦
          rw ready (write_impl-get env sync key value level0 levels db ok room (rw ready at e))
      | inr waits ↦ absurd (not_ready catch_up waits (rw waits at e))
    ]
