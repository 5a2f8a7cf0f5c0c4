-- ===== src/Engine/Frame.antt =====
-- What Get answers, by what the memtables and the table files find, and when another state of the
-- database answers the same.
use lightkv.Prelude.{
  ℕ, ◌≡◌, inl, inr, refl, sym, ap, ◌∙◌, arith, Bool, Bool-cases, Option, none, some, List, [], ◌∷◌,
  ◌==◌, if◌then◌else◌,
}
use lightkv.InternalKey.{type_deletion}
use lightkv.VLog.{VLogManager}
use lightkv.MemTable
use lightkv.MemTable.{MemTable, RangeTombstone, Lookup}
use lightkv.Engine.{Status, Db}
use lightkv.Engine.Lookup.{
  Table, Search, best, broken, covered_by_tombstone, unwrap, memtables, get_tables, get_found,
  search_tables, get,
}
use lightkv.Engine.Reads.{first_found, Lookup-cases}

-- A version that was found: its value, if no tombstone covers it.
abbrev pub settle : (ℕ → Bool) → List ℕ → ℕ → ℕ → Db → List ℕ → Status × List ℕ
settle can_map key snapshot seq db v =
    if covered_by_tombstone key seq snapshot db.range_tombstones
    then (Status.not_found, [])
    else (unwrap can_map v db.vlog).0

abbrev pub below : (ℕ → Bool) → List ℕ → ℕ → Db → Search → Status × List ℕ
below can_map key snapshot db (broken s) = (s, [])
below can_map key snapshot db (best none) = (Status.not_found, [])
below can_map key snapshot db (best (some (v, s, t))) =
    if t == type_deletion then (Status.not_found, []) else settle can_map key snapshot s db v

abbrev pub outcome : (ℕ → Bool) → List ℕ → ℕ → Db → Lookup → Search → Status × List ℕ
outcome can_map key snapshot db Lookup.not_found r = below can_map key snapshot db r
outcome can_map key snapshot db (Lookup.deleted s) r = (Status.not_found, [])
outcome can_map key snapshot db (Lookup.found v s) r = settle can_map key snapshot s db v

get_found-below :
    (can_map : ℕ → Bool) (key : List ℕ) (snapshot : ℕ) (db : Db) (r : Search)
    → (get_found can_map key snapshot db r).0 ≡ below can_map key snapshot db r
unfolding get_found
get_found-below can_map key snapshot db (broken s) = refl
get_found-below can_map key snapshot db (best none) = refl
get_found-below can_map key snapshot db (best (some (v, s, t))) =
    elim (Bool-cases (t == type_deletion)) [
      | inl gone ↦ rw gone refl
      | inr live ↦
          rw live (elim (Bool-cases (covered_by_tombstone key s snapshot db.range_tombstones)) [
            | inl over ↦ rw over refl
            | inr free ↦ rw free refl
          ])
    ]

get_tables-outcome :
    (can_map : ℕ → Bool) (key : List ℕ) (snapshot : ℕ) (db : Db) (tables : List MemTable)
    (r : Search)
    → (get_tables can_map key snapshot db tables (get_found can_map key snapshot db r)).0
      ≡ outcome can_map key snapshot db (first_found key snapshot tables) r
unfolding get_tables first_found
get_tables-outcome can_map key snapshot db [] r = get_found-below can_map key snapshot db r
get_tables-outcome can_map key snapshot db (table ∷ tables) r =
    elim (Lookup-cases (MemTable.find key snapshot table)) [
      | inl (inl f) ↦
          rw (f, get_tables)
            (rw (f, first_found) (get_tables-outcome can_map key snapshot db tables r))
      | inl (inr (q, f)) ↦ rw (f, get_tables) (rw (f, first_found) refl)
      | inr (w, q, f) ↦
          rw (f, get_tables)
            (rw (f, first_found)
              (elim (Bool-cases (covered_by_tombstone key q snapshot db.range_tombstones)) [
                | inl over ↦ rw over refl
                | inr free ↦ rw free refl
              ]))
    ]

-- An answer of Get to a key: its value, or that it is not there.
abbrev pub reply : Option (List ℕ) → Status × List ℕ
reply none = (Status.not_found, [])
reply (some v) = (Status.ok, v)

unfoldable pub Answers :
    (ℕ → Bool) → List Table → List (List Table) → List ℕ → Option (List ℕ) → Db → Type 0
Answers can_map level0 levels key r db = (get can_map 0 key level0 levels db).0 ≡ reply r

-- What a stored value is read as is never "not found".
unwrap_found :
    (can_map : ℕ → Bool) (v : List ℕ) (vlog : VLogManager)
    → (unwrap can_map v vlog).0 ≡ (Status.not_found, [])
    → ⊥
unfolding unwrap
unwrap_found can_map [] vlog e = ground arith
unwrap_found can_map (tag ∷ v) vlog e = ground arith

-- A key for which two states of the database find the same: every successful read of a stored value in
-- the first succeeds alike in the second.
pub record KeepsKey (can_map : ℕ → Bool) (level0 : List Table) (levels : List (List Table))
    (key : List ℕ) (a b : Db) : Type 0 where
  pub same_found :
      first_found key b.last_seq (memtables b) ≡ first_found key a.last_seq (memtables a)
  pub same_cover :
      (seq : ℕ)
      → covered_by_tombstone key seq b.last_seq b.range_tombstones
        ≡ covered_by_tombstone key seq a.last_seq a.range_tombstones
  pub same_reads :
      (v x : List ℕ)
      → (unwrap can_map v a.vlog).0 ≡ (Status.ok, x)
      → (unwrap can_map v b.vlog).0 ≡ (Status.ok, x)
  pub same_files :
      search_tables key b.last_seq b.last_seq level0 levels
      ≡ search_tables key a.last_seq a.last_seq level0 levels

module _ (can_map : ℕ → Bool) (level0 : List Table) (levels : List (List Table))
    (key : List ℕ) where
  settle-reply :
      (s : ℕ) (v : List ℕ) (r : Option (List ℕ)) (a b : Db)
      → KeepsKey can_map level0 levels key a b
      → settle can_map key a.last_seq s a v ≡ reply r
      → settle can_map key b.last_seq s b v ≡ reply r
  settle-reply s v r a b k e =
      elim (Bool-cases (covered_by_tombstone key s a.last_seq a.range_tombstones)) [
        | inl over ↦ rw (k.same_cover s) (rw over (rw over at e))
        | inr free ↦ rw (k.same_cover s) (rw free (kept v r a b k (rw free at e)))
      ]
    where
      kept :
          (v : List ℕ) (r : Option (List ℕ)) (a b : Db)
          → KeepsKey can_map level0 levels key a b
          → (unwrap can_map v a.vlog).0 ≡ reply r
          → (unwrap can_map v b.vlog).0 ≡ reply r
      kept v none a b k e = absurd (unwrap_found can_map v a.vlog e)
      kept v (some x) a b k e = k.same_reads v x e

  below-reply :
      (f : Search) (r : Option (List ℕ)) (a b : Db)
      → KeepsKey can_map level0 levels key a b
      → below can_map key a.last_seq a f ≡ reply r
      → below can_map key b.last_seq b f ≡ reply r
  below-reply (broken s) r a b k e = e
  below-reply (best none) r a b k e = e
  below-reply (best (some (v, s, t))) r a b k e = elim (Bool-cases (t == type_deletion)) [
    | inl gone ↦ rw gone (rw gone at e)
    | inr live ↦ rw live (settle-reply s v r a b k (rw live at e))
  ]

  outcome-reply :
      (l : Lookup) (f : Search) (r : Option (List ℕ)) (a b : Db)
      → KeepsKey can_map level0 levels key a b
      → outcome can_map key a.last_seq a l f ≡ reply r
      → outcome can_map key b.last_seq b l f ≡ reply r
  outcome-reply Lookup.not_found f r a b k e = below-reply f r a b k e
  outcome-reply (Lookup.deleted s) f r a b k e = e
  outcome-reply (Lookup.found v s) f r a b k e = settle-reply s v r a b k e

  get-outcome :
      (db : Db)
      → (get can_map 0 key level0 levels db).0
        ≡ outcome can_map key db.last_seq db
            (first_found key db.last_seq (memtables db))
            (search_tables key db.last_seq db.last_seq level0 levels)
  unfolding get
  get-outcome db =
      get_tables-outcome can_map key db.last_seq db (memtables db)
        (search_tables key db.last_seq db.last_seq level0 levels)

  -- Such states answer the key alike.
  pub KeepsKey-Answers :
      (r : Option (List ℕ)) (a b : Db)
      → KeepsKey can_map level0 levels key a b
      → Answers can_map level0 levels key r a
      → Answers can_map level0 levels key r b
  unfolding Answers
  KeepsKey-Answers r a b k e =
      get-outcome b
      ∙ ap
          (λ l.
            outcome can_map key b.last_seq b l
              (search_tables key b.last_seq b.last_seq level0 levels))
          k.same_found
      ∙ ap (outcome can_map key b.last_seq b (first_found key a.last_seq (memtables a)))
          k.same_files
      ∙ outcome-reply (first_found key a.last_seq (memtables a))
          (search_tables key a.last_seq a.last_seq level0 levels) r a b k (sym (get-outcome a) ∙ e)
