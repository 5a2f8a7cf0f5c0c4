-- ===== src/Engine/Files.antt =====
-- The sorted levels of table files: one file at most holds a key, and the search finds it.
use lightkv.Prelude.{
  ℕ, ◌≡◌, ◌⊎◌, inl, inr, refl, sym, ap, ◌∙◌, subst, arith, Bool, true, false, Bool-cases, Option,
  none, some, List, [], ◌∷◌, ◌++◌, All, Option-cases,
}
use lightkv.Slice.{less}
use lightkv.Slice.Order.{le_less_trans}
use lightkv.Engine.Lookup.{
  Table, best, consider, search_level0, first_reaching, search_levels, search_tables,
}
use lightkv.Engine.Newest.{
  Version, held, held_all, Covers, AnyOf, IsNewest, UpTo, Found, Found-append, consider-Found,
  search_level0-Found, best_eq, no_best, Search-cases, Covers-refl,
}

-- A level from 1 on: the files' key ranges ascend and do not meet, and a file holds only keys of its
-- range.
abbrev pub Ascending : List Table → Type 0
Ascending [] = Unit
Ascending (t ∷ tables) =
    All (λ u. less t.largest_key u.smallest_key ≡ true) tables × Ascending tables

abbrev pub InRange : List ℕ → ℕ → Table → Type 0
InRange key snapshot t =
    (held key snapshot t ≡ none)
    ⊎ ((less key t.smallest_key ≡ false) × (less t.largest_key key ≡ false))

abbrev pub IsSortedLevel : List ℕ → ℕ → List Table → Type 0
IsSortedLevel key snapshot tables = Ascending tables × All (InRange key snapshot) tables

-- All files but one hold nothing.
abbrev OnlyOf : Option Version → List (Option Version) → Type 0
OnlyOf r os = All (λ o. (o ≡ none) ⊎ (o ≡ r)) os

true-ne-false : ◌≡◌ {A = Bool} true false → ⊥
true-ne-false h = cc

some_eq : (a b : Table) → some a ≡ some b → a ≡ b
some_eq a b h = cc

none-some : (a : Table) → some a ≡ none → ⊥
none-some a h = cc

alone : (r o : Option Version) → AnyOf r (o ∷ []) → r ≡ o
alone r o (inl e) = e
alone r o (inr h) = absurd h

before_none :
    (key : List ℕ) (snapshot : ℕ) (t : Table)
    → less key t.smallest_key ≡ true
    → InRange key snapshot t
    → held key snapshot t ≡ none
before_none key snapshot t h (inl nothing) = nothing
before_none key snapshot t h (inr (from, to)) = absurd (true-ne-false (sym h ∙ from))

later_none :
    (key : List ℕ) (snapshot : ℕ) (t : Table) (tables : List Table)
    → less t.largest_key key ≡ false
    → All (λ u. less t.largest_key u.smallest_key ≡ true) tables
    → All (InRange key snapshot) tables
    → OnlyOf none (held_all key snapshot tables)
later_none key snapshot t [] h a ranges = tt
later_none key snapshot t (u ∷ tables) h a ranges = (
  elim ranges.0 [
    | inl nothing ↦ inl nothing
    | inr (from, to) ↦
        absurd (true-ne-false (sym (le_less_trans key t.largest_key u.smallest_key h a.0) ∙ from))
  ],
  later_none key snapshot t tables h a.1 ranges.1,
)

raise_only : (r : Option Version) (os : List (Option Version)) → OnlyOf none os → OnlyOf r os
raise_only r [] h = tt
raise_only r (o ∷ os) h = (elim h.0 [ inl e ↦ inl e | inr e ↦ inl e ], raise_only r os h.1)

-- A file below the key holds nothing of it.
below_none :
    (key : List ℕ) (snapshot : ℕ) (t : Table)
    → less t.largest_key key ≡ true
    → InRange key snapshot t
    → held key snapshot t ≡ none
below_none key snapshot t h (inl nothing) = nothing
below_none key snapshot t h (inr (from, to)) = absurd (true-ne-false (sym h ∙ to))

reaching_only :
    (key : List ℕ) (snapshot : ℕ) (tables : List Table) (t : Table)
    → IsSortedLevel key snapshot tables
    → first_reaching key tables ≡ some t
    → OnlyOf (held key snapshot t) (held_all key snapshot tables)
      × AnyOf (held key snapshot t) (held_all key snapshot tables)
      × InRange key snapshot t
unfolding first_reaching
reaching_only key snapshot [] t ok e = absurd (ground arith)
reaching_only key snapshot (u ∷ tables) t ok e = elim (Bool-cases (less u.largest_key key)) [
  | inl small ↦
      let (only, any, range) =
        reaching_only key snapshot tables t (ok.0.1, ok.1.1) (rw small at e) in
      ((inl (below_none key snapshot u small ok.1.0), only), inr any, range)
  | inr reached ↦
      let this : u ≡ t = some_eq u t (rw reached at e) in
      let held_this = ap (held key snapshot) this in
      (
        (
          inr held_this,
          raise_only (held key snapshot t) (held_all key snapshot tables)
              (later_none key snapshot u tables reached ok.0.0 ok.1.1),
        ),
        inl (sym held_this),
        subst (InRange key snapshot) this ok.1.0,
      )
]

reaching_none :
    (key : List ℕ) (snapshot : ℕ) (tables : List Table)
    → All (InRange key snapshot) tables
    → first_reaching key tables ≡ none
    → OnlyOf none (held_all key snapshot tables)
unfolding first_reaching
reaching_none key snapshot [] ok e = tt
reaching_none key snapshot (u ∷ tables) ok e = elim (Bool-cases (less u.largest_key key)) [
  | inl small ↦ (
    inl (below_none key snapshot u small ok.0),
    reaching_none key snapshot tables ok.1 (rw small at e),
  )
  | inr reached ↦ absurd (none-some u (rw reached at e))
]

only-Covers :
    (r o : Option Version) (os : List (Option Version))
    → Covers r o
    → OnlyOf o os
    → All (Covers r) os
only-Covers r o [] h k = tt
only-Covers r o (p ∷ os) h k = (
  elim k.0 [ inl e ↦ subst (Covers r) (sym e) tt | inr e ↦ subst (Covers r) (sym e) h ],
  only-Covers r o os h k.1,
)

idle-Found : (r : Option Version) (os : List (Option Version)) → OnlyOf none os → Found r r os
idle-Found r os only = record {
  kept = Covers-refl r;
  all = only-Covers r none os tt only;
  source = inl refl;
}

-- One level.
level-Found :
    (key : List ℕ) (snapshot : ℕ) (tables : List Table) (t : Table) (so_far now : Option Version)
    → IsSortedLevel key snapshot tables
    → first_reaching key tables ≡ some t
    → consider key snapshot t so_far ≡ best now
    → Found so_far now (held_all key snapshot tables)
level-Found key snapshot tables t so_far now ok e step =
    let (only, any, range) = reaching_only key snapshot tables t ok e in
    let f = consider-Found key snapshot t so_far now step in
    record {
      kept = f.kept;
      all = only-Covers now (held key snapshot t) (held_all key snapshot tables) f.all.0 only;
      source = elim f.source [
        | inl same ↦ inl same
        | inr there ↦ inr (
            subst (λ x. AnyOf x (held_all key snapshot tables))
              (sym (alone now (held key snapshot t) there)) any)
      ];
    }

abbrev pub held_levels : List ℕ → ℕ → List (List Table) → List (Option Version)
held_levels key snapshot [] = []
held_levels key snapshot (files ∷ levels) =
    held_all key snapshot files ++ held_levels key snapshot levels

search_levels-Found :
    (key : List ℕ) (snapshot : ℕ) (levels : List (List Table)) (so_far r : Option Version)
    → All (IsSortedLevel key snapshot) levels
    → search_levels key snapshot levels so_far ≡ best r
    → Found so_far r (held_levels key snapshot levels)
unfolding search_levels
search_levels-Found key snapshot [] so_far r ok e =
    let same = best_eq so_far r e in
    record {
      kept = subst (λ x. Covers x so_far) same (Covers-refl so_far);
      all = tt;
      source = inl (sym same);
    }
search_levels-Found key snapshot (files ∷ levels) so_far r ok e =
    elim (Option-cases (first_reaching key files)) [
      | inl nothing ↦
          Found-append so_far so_far r (held_all key snapshot files)
            (held_levels key snapshot levels)
            (idle-Found so_far (held_all key snapshot files)
              (reaching_none key snapshot files ok.0.1 nothing))
            (search_levels-Found key snapshot levels so_far r ok.1
              (rw (nothing, search_levels) at e))
      | inr (t, reached) ↦ elim (Bool-cases (less key t.smallest_key)) [
        | inl before ↦
            let (only, any, range) = reaching_only key snapshot files t ok.0 reached in
            let holds_none : held key snapshot t ≡ none = before_none key snapshot t before range in
            Found-append so_far so_far r (held_all key snapshot files)
              (held_levels key snapshot levels)
              (idle-Found so_far (held_all key snapshot files)
                (subst (λ o. OnlyOf o (held_all key snapshot files)) holds_none only))
              (search_levels-Found key snapshot levels so_far r ok.1
                (rw before at (rw (reached, search_levels) at e)))
        | inr inside ↦ elim (Search-cases (consider key snapshot t so_far)) [
          | inl (x, stop) ↦
              absurd (no_best x r (rw stop at (rw inside at (rw (reached, search_levels) at e))))
          | inr (now, step) ↦
              Found-append so_far now r (held_all key snapshot files)
                (held_levels key snapshot levels)
                (level-Found key snapshot files t so_far now ok.0 reached step)
                (search_levels-Found key snapshot levels now r ok.1
                  (rw step at (rw inside at (rw (reached, search_levels) at e))))
        ]
      ]
    ]

-- Where the files of each level from 1 on have ascending key ranges that do not meet, a file holds only
-- keys of its range, and no version is numbered above the counter, a search that meets no damage ends
-- with the newest version that any file of any level holds for the key at the snapshot, or with nothing
-- if none holds one.
pub search_tables-IsNewest :
    (key : List ℕ) (snapshot last_seq : ℕ) (level0 : List Table) (levels : List (List Table))
    (r : Option Version)
    → All (UpTo last_seq) (held_all key snapshot level0)
    → All (IsSortedLevel key snapshot) levels
    → search_tables key snapshot last_seq level0 levels ≡ best r
    → IsNewest r (none ∷ (held_all key snapshot level0 ++ held_levels key snapshot levels))
unfolding search_tables
search_tables-IsNewest key snapshot last_seq level0 levels r up ok e =
    elim (Search-cases (search_level0 key snapshot last_seq level0 none)) [
      | inl (x, stop) ↦ absurd (no_best x r (rw (stop, search_tables) at e))
      | inr (now, step) ↦
          let f =
            Found-append none now r (held_all key snapshot level0) (held_levels key snapshot levels)
              (search_level0-Found key snapshot last_seq level0 none now up step)
              (search_levels-Found key snapshot levels now r ok (rw (step, search_tables) at e)) in
          record { newest = (tt, f.all); one_of = elim f.source [ inl s ↦ inl s | inr s ↦ inr s ] }
    ]
