-- ===== src/MemTable/Find.antt =====
-- What Find answers after each operation of the memtable.
use lightkv.Prelude.{
  ℕ, ◌≤◌, ◌≡◌, inl, inr, refl, sym, ap, ◌∙◌, Bool, true, false, Bool-cases, Option, none, some,
  List, [], ◌∷◌, ◌++◌, bytes_eq, ltb, leb, if◌then◌else◌, ◌&&◌, ◌||◌,
}
use lightkv.SkipList
use lightkv.SkipList.{Node, SkipList, bottom, new_list, insert_node}
use lightkv.SkipList.Insert.{IsSkipList, new_node, insert-IsSkipList}
use lightkv.SkipList.Versions.{visible, visible_run, visible-find, visible-insert}
use lightkv.MemTable.{
  RangeTombstone, MemTable, Lookup, not_found, deleted, found, note_seq, insert, insert_deletion,
  insert_range_deletion, shadows, is_range_deleted, newest_visible, report, find, new_table,
}

or_false : (b : Bool) → (b || false) ≡ b
or_false true = refl
or_false false = refl

or_assoc : (a b c : Bool) → (a || (b || c)) ≡ ((a || b) || c)
or_assoc true b c = refl
or_assoc false b c = refl

run_same :
    (key : List ℕ) (snapshot : ℕ) (level : List Node)
    → newest_visible key snapshot level ≡ visible_run key snapshot level
unfolding newest_visible visible_run
run_same key snapshot [] = refl
run_same key snapshot (n ∷ level) = rw (run_same key snapshot level) refl

-- Find reports what the snapshot sees on level 0.
pub find-visible :
    (key : List ℕ) (snapshot : ℕ) (m : MemTable)
    → IsSkipList m.table
    → find key snapshot m
      ≡ report key snapshot m.range_tombstones (visible key snapshot (bottom m.table.levels))
unfolding find
find-visible key snapshot m ok =
    ap (report key snapshot m.range_tombstones)
      (run_same key snapshot (SkipList.find key m.table) ∙ visible-find key snapshot m.table ok)

is_range_deleted-append :
    (key : List ℕ) (seq snapshot : ℕ) (ts : List RangeTombstone) (t : RangeTombstone)
    → is_range_deleted key seq snapshot (ts ++ t ∷ [])
      ≡ (is_range_deleted key seq snapshot ts || shadows key seq snapshot t)
unfolding is_range_deleted
is_range_deleted-append key seq snapshot [] t = or_false (shadows key seq snapshot t)
is_range_deleted-append key seq snapshot (x ∷ ts) t =
    rw (is_range_deleted-append key seq snapshot ts t) (
      or_assoc (shadows key seq snapshot x) (is_range_deleted key seq snapshot ts)
        (shadows key seq snapshot t))

-- A tombstone on what was found.
abbrev pub bury : List ℕ → ℕ → RangeTombstone → Lookup → Lookup
bury key snapshot t not_found = not_found
bury key snapshot t (deleted s) = deleted s
bury key snapshot t (found v s) = if shadows key s snapshot t then deleted s else found v s

report-bury :
    (key : List ℕ) (snapshot : ℕ) (ts : List RangeTombstone) (t : RangeTombstone) (o : Option Node)
    → report key snapshot (ts ++ t ∷ []) o ≡ bury key snapshot t (report key snapshot ts o)
unfolding report
report-bury key snapshot ts t none = refl
report-bury key snapshot ts t (some n) = elim (Bool-cases n.is_deleted) [
  | inl gone ↦ rw gone refl
  | inr live ↦ elim (Bool-cases (is_range_deleted key n.seq snapshot ts)) [
    | inl e ↦ rw live (rw (is_range_deleted-append key n.seq snapshot ts t) (rw e refl))
    | inr e ↦ rw live (rw (is_range_deleted-append key n.seq snapshot ts t) (rw e refl))
  ]
]

abbrev pub see : Bool → Lookup → Lookup → Lookup
see test new old = if test then new else old

report-if :
    (key : List ℕ) (snapshot : ℕ) (ts : List RangeTombstone) (test : Bool) (n : Node)
    (o : Option Node)
    → report key snapshot ts (if test then some n else o)
      ≡ (if test then report key snapshot ts (some n) else report key snapshot ts o)
report-if key snapshot ts true n o = refl
report-if key snapshot ts false n o = refl

module _ (key : List ℕ) (snapshot : ℕ) (m : MemTable) (ok : IsSkipList m.table) where
  find-insert_node :
      (k value : List ℕ) (seq height : ℕ) (is_deleted : Bool) (n : ℕ)
      → 1 ≤ height
      → find key snapshot
          (record m { table = insert_node k value seq height is_deleted m.table; max_seq = n })
        ≡ (if bytes_eq k key && leb seq snapshot
            then report key snapshot m.range_tombstones
                (some (new_node k value seq height is_deleted m.table))
            else find key snapshot m)
  find-insert_node k value seq height is_deleted n tall =
      find-visible key snapshot
        (record m { table = insert_node k value seq height is_deleted m.table; max_seq = n })
        (insert-IsSkipList k value seq height is_deleted m.table ok tall)
      ∙ ap (report key snapshot m.range_tombstones)
          (visible-insert key snapshot k value seq height is_deleted m.table ok tall)
      ∙ report-if key snapshot m.range_tombstones (bytes_eq k key && leb seq snapshot)
          (new_node k value seq height is_deleted m.table)
          (visible key snapshot (bottom m.table.levels))
      ∙ ap
          (λ old.
            if bytes_eq k key && leb seq snapshot
            then report key snapshot m.range_tombstones
                (some (new_node k value seq height is_deleted m.table))
            else old)
          (sym (find-visible key snapshot m ok))

  -- What a snapshot finds after each operation is a function of the operation and of what it found
  -- before: an Insert or InsertDeletion of the key with a number up to the snapshot's is what it finds,
  -- unless a newer tombstone that it sees covers the key; a range deletion turns a value that it
  -- shadows into a deletion; nothing else changes what is found.
  pub find_after :
      (k value end_key : List ℕ) (seq height : ℕ)
      → 1 ≤ height
      → (find key snapshot (insert height seq k value m) ≡ (
          if bytes_eq k key && leb seq snapshot
          then if is_range_deleted key seq snapshot m.range_tombstones
            then deleted seq
            else found value seq
          else find key snapshot m))
        × (find key snapshot (insert_deletion height seq k m)
            ≡ (if bytes_eq k key && leb seq snapshot then deleted seq else find key snapshot m))
        × (find key snapshot (insert_range_deletion seq k end_key m)
            ≡ bury key snapshot
                (record { begin_key = k; end_key = end_key; tombstone_seq = seq })
                (find key snapshot m))
  unfolding insert insert_deletion insert_range_deletion note_seq SkipList.insert
      SkipList.insert_deletion report
  find_after k value end_key seq height tall =
      let last = if ltb m.max_seq seq then seq else m.max_seq in
      let t : RangeTombstone = record { begin_key = k; end_key = end_key; tombstone_seq = seq } in
      (
        find-insert_node k value seq height false last tall,
        find-insert_node k [] seq height true last tall,
        find-visible key snapshot
              (record m { range_tombstones = m.range_tombstones ++ t ∷ []; max_seq = last }) ok
            ∙ report-bury key snapshot m.range_tombstones t
                (visible key snapshot (bottom m.table.levels))
            ∙ ap (bury key snapshot t) (sym (find-visible key snapshot m ok)),
      )

pub find-new_table : (key : List ℕ) (snapshot : ℕ) → find key snapshot new_table ≡ not_found
unfolding find new_table new_list SkipList.find SkipList.descend SkipList.walk SkipList.behind
    SkipList.if_equal newest_visible report
find-new_table key snapshot = refl
