-- ===== src/Engine/Restart.antt =====
-- A restart: what the replay of the log makes answers as the lost memtable did, whatever heights the new
-- skip list draws; and what the files hold afterwards.
use lightkv.Prelude.{
  ℕ, ◌≤◌, ◌≡◌, refl, sym, ap, ◌∙◌, true, List, [], ◌∷◌, ◌++◌, append-nil, if◌then◌else◌, ◌&&◌, leb,
  bytes_eq,
}
use lightkv.Wal.Replay.{MemCall, recover}
use lightkv.Wal.Recovery.{write_all, all_calls, last_of, Stops, recover-write_all}
use lightkv.MemTable
use lightkv.MemTable.{MemTable, RangeTombstone, Lookup, note_seq, is_range_deleted, new_table}
use lightkv.MemTable.Find.{find_after, bury}
use lightkv.MemTable.Content.{IsMemTable, call, call_all, call-IsMemTable, new_table-IsMemTable}
use lightkv.Engine.{Env, Db, new_writer}
use lightkv.Engine.Recovery.{replay_files, initialize, InStep}

-- Two memtables that answer alike.
record Alike (m n : MemTable) : Type 0 where
  first : IsMemTable m
  second : IsMemTable n
  same_tombstones : m.range_tombstones ≡ n.range_tombstones
  same_answers :
      (key : List ℕ) (snapshot : ℕ) → MemTable.find key snapshot m ≡ MemTable.find key snapshot n

call-Alike :
    (d e : ℕ → ℕ) (c : MemCall) (m n : MemTable)
    → ((i : ℕ) → 1 ≤ d i)
    → ((i : ℕ) → 1 ≤ e i)
    → Alike m n
    → Alike (call d c m) (call e c n)
unfolding call
call-Alike d e (MemCall.insert seq k v) m n td te a = record {
  first = call-IsMemTable d (MemCall.insert seq k v) m td a.first;
  second = call-IsMemTable e (MemCall.insert seq k v) n te a.second;
  same_tombstones = unfold MemTable.insert note_seq in a.same_tombstones;
  same_answers = λ key snapshot.
      (find_after key snapshot m a.first.list k v [] seq (d m.table.allocated)
        (td m.table.allocated)).0
      ∙ ap
          (λ ts.
            if bytes_eq k key && leb seq snapshot
            then if is_range_deleted key seq snapshot ts
              then Lookup.deleted seq
              else Lookup.found v seq
            else MemTable.find key snapshot m)
          a.same_tombstones
      ∙ ap
          (λ old.
            if bytes_eq k key && leb seq snapshot
            then if is_range_deleted key seq snapshot n.range_tombstones
              then Lookup.deleted seq
              else Lookup.found v seq
            else old)
          (a.same_answers key snapshot)
      ∙ sym
          (find_after key snapshot n a.second.list k v [] seq (e n.table.allocated)
            (te n.table.allocated)).0;
}
call-Alike d e (MemCall.insert_deletion seq k) m n td te a = record {
  first = call-IsMemTable d (MemCall.insert_deletion seq k) m td a.first;
  second = call-IsMemTable e (MemCall.insert_deletion seq k) n te a.second;
  same_tombstones = unfold MemTable.insert_deletion note_seq in a.same_tombstones;
  same_answers = λ key snapshot.
      (find_after key snapshot m a.first.list k [] [] seq (d m.table.allocated)
        (td m.table.allocated)).1
      ∙ ap (λ old. if bytes_eq k key && leb seq snapshot then Lookup.deleted seq else old)
          (a.same_answers key snapshot)
      ∙ sym
          (find_after key snapshot n a.second.list k [] [] seq (e n.table.allocated)
            (te n.table.allocated)).1;
}
call-Alike d e (MemCall.insert_range_deletion seq b to) m n td te a = record {
  first = call-IsMemTable d (MemCall.insert_range_deletion seq b to) m td a.first;
  second = call-IsMemTable e (MemCall.insert_range_deletion seq b to) n te a.second;
  same_tombstones =
      unfold MemTable.insert_range_deletion note_seq in
      ap (λ ts. ts ++ (record { begin_key = b; end_key = to; tombstone_seq = seq }) ∷ [])
        a.same_tombstones;
  same_answers = λ key snapshot.
      (find_after key snapshot m a.first.list b [] to seq (d m.table.allocated)
        (td m.table.allocated)).2
      ∙ ap (bury key snapshot _) (a.same_answers key snapshot)
      ∙ sym
          (find_after key snapshot n a.second.list b [] to seq (e n.table.allocated)
            (te n.table.allocated)).2;
}
call-Alike d e (MemCall.register_tombstone seq b to) m n td te a = a

call_all-Alike :
    (d e : ℕ → ℕ) (cs : List MemCall) (m n : MemTable)
    → ((i : ℕ) → 1 ≤ d i)
    → ((i : ℕ) → 1 ≤ e i)
    → Alike m n
    → Alike (call_all d cs m) (call_all e cs n)
unfolding call_all
call_all-Alike d e [] m n td te a = a
call_all-Alike d e (c ∷ cs) m n td te a =
    call_all-Alike d e cs (call d c m) (call e c n) td te (call-Alike d e c m n td te a)

new-Alike : Alike new_table new_table
new-Alike = record {
  first = new_table-IsMemTable;
  second = new_table-IsMemTable;
  same_tombstones = refl;
  same_answers = λ k s. refl;
}

replayed :
    (env : Env) (db : Db) (s : InStep env db) (tail : List ℕ) (last : ℕ)
    → Stops tail
    → (replay_files ((db.wal.file ++ tail) ∷ []) last).0 ≡ all_calls s.writes
unfolding replay_files
replayed env db s tail last stop =
    append-nil (recover (db.wal.file ++ tail) last).0
    ∙ ap (λ r. r.0)
        (recover-write_all env.can_grow s.writes db.wal 67108864 last tail s.loggable s.logged_all
          stop)

-- After a crash of a database whose log and memtable are in step, Initialize makes from the log file,
-- with whatever follows the last record in it, a memtable that answers every key at every snapshot as
-- the lost one did, whatever heights are drawn.
pub initialize-InStep :
    (env : Env) (draw : ℕ → ℕ) (db : Db) (tail : List ℕ) (manifest_seq : ℕ)
    → InStep env db
    → ((n : ℕ) → 1 ≤ env.draw n)
    → ((n : ℕ) → 1 ≤ draw n)
    → Stops tail
    → (key : List ℕ) (snapshot : ℕ)
    → MemTable.find key snapshot
        (initialize draw ((db.wal.file ++ tail) ∷ []) manifest_seq).boot_mem
      ≡ MemTable.find key snapshot db.mem
unfolding initialize
initialize-InStep env draw db tail manifest_seq s tall td stop key snapshot =
    ap (λ cs. MemTable.find key snapshot (call_all draw cs new_table))
      (replayed env db s tail 0 stop)
    ∙ (call_all-Alike draw env.draw (all_calls s.writes) new_table new_table td tall
          new-Alike).same_answers
        key snapshot
    ∙ ap (MemTable.find key snapshot) (sym s.applied)

nothing_replayed : (tail : List ℕ) → Stops tail → recover tail 0 ≡ ([], 0)
unfolding write_all all_calls last_of
nothing_replayed tail stop =
    recover-write_all (λ n. true) [] new_writer 67108864 0 tail tt refl stop

abbrev pub padded : List ℕ → List (List ℕ) → List (List ℕ)
padded tail [] = []
padded tail (file ∷ files) = (file ++ tail) ∷ padded tail files

-- Initialize removes the log files whose records it has put into the memtable. If the process stops
-- again before that memtable is flushed, the next Initialize finds none of them: its memtable is empty.
pub second_restart_loses :
    (draw again : ℕ → ℕ) (files : List (List ℕ)) (manifest_seq later_seq : ℕ) (tail : List ℕ)
    → Stops tail
    → (initialize again
        (padded tail (initialize draw files manifest_seq).log_files)
        later_seq).boot_mem
      ≡ new_table
unfolding initialize replay_files call_all
second_restart_loses draw again files manifest_seq later_seq tail stop =
    ap (λ r. call_all again (r.0 ++ []) new_table) (nothing_replayed tail stop)
