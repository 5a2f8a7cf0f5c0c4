-- ===== src/MemTable/Later.antt =====
-- Snapshots at or above all numbers of a memtable find the same in it.
use lightkv.Prelude.{
  ℕ, ◌≤◌, ◌≡◌, refl, sym, ap, ◌∙◌, arith, true, Option, none, some, List, [], ◌∷◌, All, leb,
}
use lightkv.SkipList.{Node, bottom}
use lightkv.SkipList.Versions.{visible}
use lightkv.MemTable.{RangeTombstone, MemTable, shadows, is_range_deleted, report, find}
use lightkv.MemTable.Find.{find-visible}
use lightkv.MemTable.Content.{IsMemTable}

module _ (s t b : ℕ) (low : b ≤ s) (high : b ≤ t) where
  visible_same :
      (key : List ℕ) (level : List Node)
      → All (λ (n : Node). n.seq ≤ b) level
      → visible key s level ≡ visible key t level
  unfolding visible
  visible_same key [] h = refl
  visible_same key (n ∷ level) h =
      let here : leb n.seq s ≡ true = ground (arith, h.0) in
      let there : leb n.seq t ≡ true = ground (arith, h.0) in
      rw here (rw there (rw (visible_same key level h.1) refl))

  is_range_deleted_same :
      (key : List ℕ) (seq : ℕ) (ts : List RangeTombstone)
      → All (λ (x : RangeTombstone). x.tombstone_seq ≤ b) ts
      → is_range_deleted key seq s ts ≡ is_range_deleted key seq t ts
  unfolding is_range_deleted shadows
  is_range_deleted_same key seq [] h = refl
  is_range_deleted_same key seq (x ∷ ts) h =
      let here : leb x.tombstone_seq s ≡ true = ground (arith, h.0) in
      let there : leb x.tombstone_seq t ≡ true = ground (arith, h.0) in
      rw here (rw there (rw (is_range_deleted_same key seq ts h.1) refl))

  report_same :
      (key : List ℕ) (ts : List RangeTombstone) (o : Option Node)
      → All (λ (x : RangeTombstone). x.tombstone_seq ≤ b) ts
      → report key s ts o ≡ report key t ts o
  unfolding report
  report_same key ts none h = refl
  report_same key ts (some n) h = rw (is_range_deleted_same key n.seq ts h) refl

-- The answer of a snapshot that sees the whole memtable.
pub find_later :
    (key : List ℕ) (s t : ℕ) (m : MemTable)
    → IsMemTable m
    → m.max_seq ≤ s
    → m.max_seq ≤ t
    → find key s m ≡ find key t m
find_later key s t m ok low high =
    find-visible key s m ok.list
    ∙ ap (report key s m.range_tombstones)
        (visible_same s t m.max_seq low high key (bottom m.table.levels) ok.versions)
    ∙ report_same s t m.max_seq low high key m.range_tombstones
        (visible key t (bottom m.table.levels)) ok.tombstones
    ∙ sym (find-visible key t m ok.list)
