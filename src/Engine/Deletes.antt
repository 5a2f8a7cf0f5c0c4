-- ===== src/Engine/Deletes.antt =====
-- A Delete that succeeds, and the Get that follows it.
use lightkv.Prelude.{
  ℕ, ◌+◌, ◌^◌, ◌≤◌, ◌<◌, ◌≡◌, inl, inr, refl, ap, ◌∙◌, arith, Bool, List, [], ◌∷◌,
}
use lightkv.Wal
use lightkv.Wal.{Writer, Outcome, done, failed, fault, deletion_type}
use lightkv.MemTable
use lightkv.MemTable.{MemTable, RangeTombstone, Lookup, note_seq, new_table}
use lightkv.MemTable.Find.{find_after}
use lightkv.Engine.{Status, Env, Db, claim_seq, delete}
use lightkv.Engine.Lookup.{Table, memtables, get_tables, get}
use lightkv.Engine.Reads.{first_found, Lookup-cases}
use lightkv.Engine.Writes.{IsDb, logged-ok, seen_now}

found-deleted : (v : List ℕ) (s q : ℕ) → Lookup.found v s ≡ Lookup.deleted q → ⊥
found-deleted v s q e = cc

get_tables-deleted :
    (can_map : ℕ → Bool) (key : List ℕ) (snapshot : ℕ) (db : Db) (tables : List MemTable)
    (below : (Status × List ℕ) × Db) (s : ℕ)
    → first_found key snapshot tables ≡ Lookup.deleted s
    → get_tables can_map key snapshot db tables below ≡ ((Status.not_found, []), db)
unfolding get_tables first_found
get_tables-deleted can_map key snapshot db [] below s e = absurd (ground arith)
get_tables-deleted can_map key snapshot db (table ∷ tables) below s e =
    elim (Lookup-cases (MemTable.find key snapshot table)) [
      | inl (inl f) ↦
          rw (f, get_tables)
            (get_tables-deleted can_map key snapshot db tables below s (rw (f, first_found) at e))
      | inl (inr (q, f)) ↦ rw (f, get_tables) refl
      | inr (w, q, f) ↦ absurd (found-deleted w q s (rw (f, first_found) at e))
    ]

decide :
    (key : List ℕ) (snapshot : ℕ) (m : MemTable) (tables : List MemTable) (s : ℕ)
    → MemTable.find key snapshot m ≡ Lookup.deleted s
    → first_found key snapshot (m ∷ tables) ≡ Lookup.deleted s
unfolding first_found
decide key snapshot m tables s e = rw (e, first_found) refl

-- After a Delete that answers ok, Get at the newest snapshot answers not found, whatever the table files
-- hold, and also when the write rotated the memtables.
pub delete-get :
    (env : Env) (sync : Bool) (key : List ℕ) (level0 : List Table) (levels : List (List Table))
    (db : Db)
    → IsDb db
    → ((n : ℕ) → 1 ≤ env.draw n)
    → db.last_seq + 1 < 2 ^ 64
    → (delete env sync key db).0 ≡ Status.ok
    → (get env.can_map 0 key level0 levels (delete env sync key db).1).0 ≡ (Status.not_found, [])
unfolding delete get claim_seq
delete-get env sync key level0 levels db ok tall room e =
    let change = λ (d : Db). record d {
      mem = MemTable.insert_deletion (env.draw d.mem.table.allocated) db.last_seq key d.mem;
    } in
    let (w, logged_w, same) =
      logged-ok env sync (Wal.append env.can_grow db.last_seq deletion_type key [] db.wal) change
        (claim_seq db) e in
    let a = change (record (claim_seq db) { wal = w }) in
    let db' = (delete env sync key db).1 in
    let seq = db.last_seq in
    let found : MemTable.find key (claim_seq db).last_seq a.mem ≡ Lookup.deleted seq =
      (find_after key (claim_seq db).last_seq db.mem ok.table.list key [] [] seq
        (env.draw db.mem.table.allocated) (tall db.mem.table.allocated)).1
      ∙ rw (seen_now db key room) refl in
    let there : first_found key db'.last_seq (memtables db') ≡ Lookup.deleted seq =
      same.same_found key db'.last_seq
      ∙ ap (λ n. first_found key n (memtables a)) same.same_seq
      ∙ decide key (claim_seq db).last_seq a.mem _ seq found in
    ap (λ r. r.0) (get_tables-deleted env.can_map key db'.last_seq db' (memtables db') _ seq there)
