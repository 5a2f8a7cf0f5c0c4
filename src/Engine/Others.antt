-- ===== src/Engine/Others.antt =====
-- A write leaves the answers to other keys as they were.
use lightkv.Prelude.{
  ℕ, ◌+◌, ◌^◌, ◌≤◌, ◌<◌, ◌≡◌, inl, inr, refl, sym, ap, ◌∙◌, arith, Bool, false, Bool-cases, List,
  [], ◌∷◌, All, length, drop, ltb, ◌==◌, ◌&&◌, bytes_eq,
}
use lightkv.Encoding.{decode_fixed64}
use lightkv.Wal
use lightkv.Wal.{Writer, Outcome, done, failed, fault, value_type, deletion_type}
use lightkv.VLog
use lightkv.VLog.{VLogManager}
use lightkv.VLog.Pointers.{IsOpen}
use lightkv.VLog.Kept.{read-append}
use lightkv.MemTable
use lightkv.MemTable.{MemTable, RangeTombstone, Lookup, is_range_deleted}
use lightkv.MemTable.Find.{find_after}
use lightkv.MemTable.Content.{IsMemTable}
use lightkv.MemTable.Later.{find_later}
use lightkv.Engine.{
  Status, Env, Db, is_ok, store_value, claim_seq, put_mem, write_stored, write_impl, put, delete,
}
use lightkv.Engine.Lookup.{Table, covered_by_tombstone, unwrap, if_there, memtables, search_tables}
use lightkv.Engine.Reads.{first_found, NotNewer, SameReads, Lookup-cases}
use lightkv.Engine.Writes.{
  IsDb, HasRoom, Result-cases, Stored-cases, no_error, no_fault, not_ok, no_crash, logged-ok,
  next_seq, not_ready,
}
use lightkv.Engine.Frame.{KeepsKey}

-- Every table's numbers are up to `n`.
abbrev pub IsSeen : ℕ → MemTable → Type 0
IsSeen n m = IsMemTable m × (m.max_seq ≤ n)

-- Table files hold only versions that a snapshot from `bound` on sees.
abbrev pub IsBehind : ℕ → List Table → List (List Table) → Type 0
IsBehind bound level0 levels =
    (key : List ℕ) (n : ℕ)
    → bound ≤ n
    → search_tables key n n level0 levels ≡ search_tables key bound bound level0 levels

-- The numbers of the memtables are up to the counter, which is not below `bound`.
pub record IsCounted (bound : ℕ) (db : Db) : Type 0 where
  pub lower : bound ≤ db.last_seq
  pub mem_seen : IsSeen db.last_seq db.mem
  pub imm_seen : All (IsSeen db.last_seq) (if_there db.imm)

abbrev or_else : Lookup → Lookup → Lookup
or_else Lookup.not_found l = l
or_else (Lookup.deleted seq) l = Lookup.deleted seq
or_else (Lookup.found value seq) l = Lookup.found value seq

found_first :
    (key : List ℕ) (s : ℕ) (m : MemTable) (tables : List MemTable)
    → first_found key s (m ∷ tables) ≡ or_else (MemTable.find key s m) (first_found key s tables)
unfolding first_found
found_first key s m tables = elim (Lookup-cases (MemTable.find key s m)) [
  | inl (inl f) ↦ rw (f, first_found) refl
  | inl (inr (q, f)) ↦ rw (f, first_found) refl
  | inr (w, q, f) ↦ rw (f, first_found) refl
]

found_later :
    (key : List ℕ) (s t : ℕ) (tables : List MemTable)
    → All (IsSeen s) tables
    → s ≤ t
    → first_found key t tables ≡ first_found key s tables
unfolding first_found
found_later key s t [] h le = refl
found_later key s t (m ∷ tables) h le =
    found_first key t m tables
    ∙ ap (λ l. or_else l (first_found key t tables))
        (find_later key t s m h.0.0 (omega (arith, h.0.1)) h.0.1)
    ∙ ap (or_else (MemTable.find key s m)) (found_later key s t tables h.1 le)
    ∙ sym (found_first key s m tables)

found_front :
    (key : List ℕ) (s : ℕ) (m n : MemTable) (tables : List MemTable)
    → MemTable.find key s m ≡ MemTable.find key s n
    → first_found key s (m ∷ tables) ≡ first_found key s (n ∷ tables)
found_front key s m n tables e =
    found_first key s m tables
    ∙ ap (λ l. or_else l (first_found key s tables)) e
    ∙ sym (found_first key s n tables)

covered_later :
    (key : List ℕ) (seq s t : ℕ) (ts : List RangeTombstone)
    → NotNewer s ts
    → s ≤ t
    → covered_by_tombstone key seq t ts ≡ covered_by_tombstone key seq s ts
unfolding covered_by_tombstone
covered_later key seq s t [] h le = refl
covered_later key seq s t (x ∷ ts) h le =
    let here : ltb s x.tombstone_seq ≡ false = ground (arith, h.0) in
    let there : ltb t x.tombstone_seq ≡ false = ground (arith, h.0) in
    rw here (rw there (rw (covered_later key seq s t ts h.1 le) refl))

-- What `unwrap` makes of what a read of the value log gave.
abbrev unread : ℕ → List ℕ → VLog.Result (List ℕ) → Status × List ℕ
unread tag v (VLog.ok raw) = (Status.ok, raw)
unread tag v VLog.io_error = (Status.io_error, tag ∷ v)
unread tag v VLog.fault = (Status.crash, [])

read_back :
    (r q : VLog.Result (List ℕ)) (tag : ℕ) (v x : List ℕ)
    → ((y : List ℕ) → r ≡ VLog.ok y → q ≡ VLog.ok y)
    → unread tag v r ≡ (Status.ok, x)
    → unread tag v q ≡ (Status.ok, x)
read_back (VLog.ok y) q tag v x h e = rw (h y refl) e
read_back VLog.io_error q tag v x h e = absurd (ground arith)
read_back VLog.fault q tag v x h e = absurd (ground arith)

-- A stored value reads alike after an Append to the value log.
module _ (env : Env) (value : List ℕ) (db : Db) (opened : IsOpen db.vlog)
    (room : HasRoom env value db) where
  unwrap-append :
      (id offset len : ℕ) (v x : List ℕ)
      → (VLog.append env.can_map value db.vlog).0 ≡ VLog.ok (id, offset, len)
      → (unwrap env.can_map v db.vlog).0 ≡ (Status.ok, x)
      → (unwrap env.can_map v (VLog.append env.can_map value db.vlog).1).0 ≡ (Status.ok, x)
  unfolding unwrap
  unwrap-append id offset len [] x went e = e
  unwrap-append id offset len (tag ∷ v) x went e = elim (Bool-cases (tag == 0)) [
    | inl inline ↦ rw inline (rw inline at e)
    | inr other ↦ elim (Bool-cases (tag == 1 && length v == 24)) [
      | inr plain ↦ rw other (rw plain (rw plain at (rw other at e)))
      | inl pointer ↦
          let i = decode_fixed64 v in
          let at = decode_fixed64 (drop 8 v) in
          let l = decode_fixed64 (drop 16 v) in
          let before = VLog.read env.can_map i at l db.vlog in
          rw other (
            rw pointer (
              read_back (VLog.read env.can_map i at l db.vlog).0
                (VLog.read env.can_map i at l (VLog.append env.can_map value db.vlog).1).0 tag v x
                (λ y same.
                  read-append env.can_map room.can_map value db.vlog id offset len i at l y opened
                    went room.file_room same)
                (rw pointer at (rw other at e))))
    ]
  ]

  pub unwrap-store_value :
      (stored v x : List ℕ)
      → (store_value env value db).0 ≡ VLog.ok stored
      → (unwrap env.can_map v db.vlog).0 ≡ (Status.ok, x)
      → (unwrap env.can_map v (store_value env value db).1).0 ≡ (Status.ok, x)
  unfolding store_value
  unwrap-store_value stored v x went e = elim (Bool-cases (ltb db.value_threshold (length value))) [
    | inr small ↦ rw small e
    | inl large ↦ elim (Result-cases (VLog.append env.can_map value db.vlog).0) [
      | inr (inl bad) ↦ absurd (no_error stored (rw bad at (rw large at went)))
      | inr (inr bad) ↦ absurd (no_fault stored (rw bad at (rw large at went)))
      | inl (id, offset, len, appended) ↦ rw large (unwrap-append id offset len v x appended e)
    ]
  ]

-- A write of one key keeps another.
module _ (env : Env) (level0 : List Table) (levels : List (List Table)) (bound : ℕ)
    (behind : IsBehind bound level0 levels) (tall : (n : ℕ) → 1 ≤ env.draw n) (key other : List ℕ)
    (differs : bytes_eq key other ≡ false) where
  SameReads-KeepsKey :
      (db a b : Db)
      → KeepsKey env.can_map level0 levels other db a
      → SameReads a b
      → KeepsKey env.can_map level0 levels other db b
  SameReads-KeepsKey db a b k same = record {
    same_found =
        same.same_found other b.last_seq
        ∙ ap (λ n. first_found other n (memtables a)) same.same_seq
        ∙ k.same_found;
    same_cover = λ seq.
        ap (λ n. covered_by_tombstone other seq n b.range_tombstones) same.same_seq
        ∙ ap (covered_by_tombstone other seq a.last_seq) same.same_tombstones
        ∙ k.same_cover seq;
    same_reads =
        λ v x e. ap (λ vlog. (unwrap env.can_map v vlog).0) same.same_vlog ∙ k.same_reads v x e;
    same_files = ap (λ n. search_tables other n n level0 levels) same.same_seq ∙ k.same_files;
  }

  -- The state behind the change of the memtable.
  changed-KeepsKey :
      (db a : Db)
      → IsDb db
      → IsCounted bound db
      → db.last_seq ≤ a.last_seq
      → a.imm ≡ db.imm
      → a.range_tombstones ≡ db.range_tombstones
      → MemTable.find other a.last_seq a.mem ≡ MemTable.find other a.last_seq db.mem
      → ((v x : List ℕ)
          → (unwrap env.can_map v db.vlog).0 ≡ (Status.ok, x)
          → (unwrap env.can_map v a.vlog).0 ≡ (Status.ok, x))
      → KeepsKey env.can_map level0 levels other db a
  changed-KeepsKey db a ok count later imm ts found reads = record {
    same_found =
        found_front other a.last_seq a.mem db.mem (if_there a.imm) found
        ∙ ap (λ o. first_found other a.last_seq (db.mem ∷ if_there o)) imm
        ∙ found_later other db.last_seq a.last_seq (memtables db) (count.mem_seen, count.imm_seen)
            later;
    same_cover = λ seq.
        ap (covered_by_tombstone other seq a.last_seq) ts
        ∙ covered_later other seq db.last_seq a.last_seq db.range_tombstones ok.all_tombstones
            later;
    same_reads = reads;
    same_files =
        behind other a.last_seq (omega (arith, count.lower))
        ∙ sym (behind other db.last_seq count.lower);
  }

  -- A Put that answers ok keeps what Get answers to another key.
  pub put-KeepsKey :
      (catch_up : Status) (sync : Bool) (value : List ℕ) (db : Db)
      → IsDb db
      → IsCounted bound db
      → HasRoom env value db
      → (put env catch_up sync key value db).0 ≡ Status.ok
      → KeepsKey env.can_map level0 levels other db (put env catch_up sync key value db).1
  unfolding put write_impl put_mem write_stored claim_seq
  put-KeepsKey catch_up sync value db ok count room e =
      let db0 = record (claim_seq db) { vlog = (store_value env value db).1 } in
      elim (Bool-cases (is_ok catch_up)) [
        | inr waits ↦ absurd (not_ready catch_up waits (rw waits at e))
        | inl ready ↦ elim (Stored-cases (store_value env value db).0) [
          | inr (inl bad) ↦ absurd (not_ok (rw (bad, write_stored) at (rw ready at e)))
          | inr (inr bad) ↦ absurd (no_crash (rw (bad, write_stored) at (rw ready at e)))
          | inl (stored, went) ↦
              let change = put_mem env db.last_seq key stored in
              let (w, logged_w, same) =
                logged-ok env sync
                  (Wal.append env.can_grow db.last_seq value_type key stored db.wal) change db0
                  (rw (went, write_stored) at (rw ready at e)) in
              let a = change (record db0 { wal = w }) in
              let found : MemTable.find other a.last_seq a.mem
                  ≡ MemTable.find other a.last_seq db.mem =
                (find_after other a.last_seq db.mem ok.table.list key stored [] db.last_seq
                  (env.draw db.mem.table.allocated) (tall db.mem.table.allocated)).0
                ∙ rw differs refl in
              rw ready (
                rw (went, write_stored)
                  (SameReads-KeepsKey db a _
                    (changed-KeepsKey db a ok count (omega (arith, next_seq db room.seq_room)) refl
                      refl found
                      (λ v x read.
                        unwrap-store_value env value db ok.open_vlog room stored v x went read))
                    same))
        ]
      ]

  -- A Delete that answers ok does, too.
  pub delete-KeepsKey :
      (sync : Bool) (db : Db)
      → IsDb db
      → IsCounted bound db
      → db.last_seq + 1 < 2 ^ 64
      → (delete env sync key db).0 ≡ Status.ok
      → KeepsKey env.can_map level0 levels other db (delete env sync key db).1
  unfolding delete claim_seq
  delete-KeepsKey sync db ok count room e =
      let change = λ (d : Db). record d {
        mem = MemTable.insert_deletion (env.draw d.mem.table.allocated) db.last_seq key d.mem;
      } in
      let (w, logged_w, same) =
        logged-ok env sync (Wal.append env.can_grow db.last_seq deletion_type key [] db.wal) change
          (claim_seq db) e in
      let a = change (record (claim_seq db) { wal = w }) in
      let found : MemTable.find other a.last_seq a.mem ≡ MemTable.find other a.last_seq db.mem =
        (find_after other a.last_seq db.mem ok.table.list key [] [] db.last_seq
          (env.draw db.mem.table.allocated) (tall db.mem.table.allocated)).1
        ∙ rw differs refl in
      SameReads-KeepsKey db a _
        (changed-KeepsKey db a ok count (omega (arith, next_seq db room)) refl refl found
          (λ v x read. read))
        same
