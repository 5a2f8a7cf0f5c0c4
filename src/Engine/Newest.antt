-- ===== src/Engine/Newest.antt =====
-- The search over the table files finds the newest version that any of them holds for the snapshot.
use lightkv.Prelude.{
  ℕ, ◌≤◌, ◌≡◌, ◌⊎◌, inl, inr, refl, sym, ◌∙◌, subst, arith, true, Bool-cases, Option, none, some,
  List, [], ◌∷◌, ◌++◌, All, leb, if◌then◌else◌,
}
use lightkv.Engine.{Status}
use lightkv.Engine.Lookup.{
  TableAnswer, hit, miss, damaged, Table, Search, best, broken, better, consider, is_last,
  search_level0,
}

abbrev pub Version : Type 0
Version = List ℕ × ℕ × ℕ

-- The version in an answer.
unfoldable pub held_answer : TableAnswer → Option Version
held_answer (hit v s t) = some (v, s, t)
held_answer miss = none
held_answer (damaged s) = none

-- What a table file holds for a key at a snapshot.
unfoldable pub held : List ℕ → ℕ → Table → Option Version
held key snapshot table = if table.may_match key then held_answer (table.get key snapshot) else none

-- No older than.
abbrev pub Covers : Option Version → Option Version → Type 0
Covers r none = Unit
Covers none (some x) = ⊥
Covers (some (v, s, t)) (some (w, q, u)) = q ≤ s

pub Covers-refl : (r : Option Version) → Covers r r
Covers-refl none = tt
Covers-refl (some (v, s, t)) = omega arith

Covers-trans : (a b c : Option Version) → Covers a b → Covers b c → Covers a c
Covers-trans a b none h k = tt
Covers-trans a none (some x) h k = absurd k
Covers-trans none (some x) (some y) h k = absurd h
Covers-trans (some (v, s, t)) (some (w, q, u)) (some (x, r, z)) h k = omega arith

-- What a search gives: no older than any of these, and one of them.
abbrev pub AnyOf : Option Version → List (Option Version) → Type 0
AnyOf r [] = ⊥
AnyOf r (o ∷ os) = (r ≡ o) ⊎ AnyOf r os

pub record IsNewest (r : Option Version) (os : List (Option Version)) : Type 0 where
  pub newest : All (Covers r) os
  pub one_of : AnyOf r os

merge : Option Version → Option Version → Option Version
merge none so_far = so_far
merge (some (v, s, t)) so_far = better v s t so_far

merge-Covers :
    (o so_far : Option Version) → Covers (merge o so_far) so_far × Covers (merge o so_far) o
unfolding merge better
merge-Covers none so_far = (Covers-refl so_far, tt)
merge-Covers (some (v, s, t)) none = (tt, omega arith)
merge-Covers (some (v, s, t)) (some (w, q, u)) = elim (Bool-cases (leb s q)) [
  | inl old ↦ rw old (omega arith, ground arith)
  | inr new ↦ rw new (ground arith, omega arith)
]

merge_one : (o so_far : Option Version) → (merge o so_far ≡ so_far) ⊎ (merge o so_far ≡ o)
unfolding merge better
merge_one none so_far = inl refl
merge_one (some (v, s, t)) none = inr refl
merge_one (some (v, s, t)) (some (w, q, u)) = elim (Bool-cases (leb s q)) [
  | inl old ↦ rw old (inl refl)
  | inr new ↦ rw new (inr refl)
]

pub best_eq : (a b : Option Version) → best a ≡ best b → a ≡ b
best_eq a b h = cc

answer :
    (a : TableAnswer) (so_far now : Option Version)
    → ◌≡◌ {A = Search}
        (elim a [
          | hit v s t ↦ best (better v s t so_far)
          | miss ↦ best so_far
          | damaged s ↦ broken s
        ])
        (best now)
    → now ≡ merge (held_answer a) so_far
unfolding merge held_answer
answer (hit v s t) so_far now e = sym (best_eq _ _ e)
answer miss so_far now e = sym (best_eq _ _ e)
answer (damaged s) so_far now e = absurd (ground arith)

-- One file.
consider-merge :
    (key : List ℕ) (snapshot : ℕ) (table : Table) (so_far now : Option Version)
    → consider key snapshot table so_far ≡ best now
    → now ≡ merge (held key snapshot table) so_far
unfolding consider held merge
consider-merge key snapshot table so_far now e = elim (Bool-cases (table.may_match key)) [
  | inr never ↦ sym (best_eq _ _ (rw never at e)) ∙ rw never refl
  | inl may ↦ answer (table.get key snapshot) so_far now (rw may at e) ∙ rw may refl
]

abbrev pub held_all : List ℕ → ℕ → List Table → List (Option Version)
held_all key snapshot [] = []
held_all key snapshot (t ∷ tables) = held key snapshot t ∷ held_all key snapshot tables

AnyOf-append :
    (r : Option Version) (os ps : List (Option Version))
    → AnyOf r os ⊎ AnyOf r ps
    → AnyOf r (os ++ ps)
AnyOf-append r [] ps (inl h) = absurd h
AnyOf-append r [] ps (inr h) = h
AnyOf-append r (o ∷ os) ps (inl (inl h)) = inl h
AnyOf-append r (o ∷ os) ps (inl (inr h)) = inr (AnyOf-append r os ps (inl h))
AnyOf-append r (o ∷ os) ps (inr h) = inr (AnyOf-append r os ps (inr h))

Covers-append :
    (r : Option Version) (os ps : List (Option Version))
    → All (Covers r) os
    → All (Covers r) ps
    → All (Covers r) (os ++ ps)
Covers-append r [] ps h k = k
Covers-append r (o ∷ os) ps h k = (h.0, Covers-append r os ps h.1 k)

Covers-raise :
    (a b : Option Version) (os : List (Option Version))
    → Covers a b
    → All (Covers b) os
    → All (Covers a) os
Covers-raise a b [] h k = tt
Covers-raise a b (o ∷ os) h k = (Covers-trans a b o h k.0, Covers-raise a b os h k.1)

-- A step of a search from `so_far` over some files.
pub record Found (so_far r : Option Version) (os : List (Option Version)) : Type 0 where
  pub kept : Covers r so_far
  pub all : All (Covers r) os
  pub source : (r ≡ so_far) ⊎ AnyOf r os

pub Found-append :
    (a b r : Option Version) (os ps : List (Option Version))
    → Found a b os
    → Found b r ps
    → Found a r (os ++ ps)
Found-append a b r os ps f g = record {
  kept = Covers-trans r b a g.kept f.kept;
  all = Covers-append r os ps (Covers-raise r b os g.kept f.all) g.all;
  source = elim g.source [
    | inl same ↦ elim f.source [
      | inl start ↦ inl (same ∙ start)
      | inr there ↦ inr (AnyOf-append r os ps (inl (subst (λ x. AnyOf x os) (sym same) there)))
    ]
    | inr there ↦ inr (AnyOf-append r os ps (inr there))
  ];
}

merge-Found : (o so_far : Option Version) → Found so_far (merge o so_far) (o ∷ [])
merge-Found o so_far =
    let (kept, all) = merge-Covers o so_far in
    record {
      kept = kept;
      all = (all, tt);
      source = elim (merge_one o so_far) [ inl e ↦ inl e | inr e ↦ inr (inl e) ];
    }

pub consider-Found :
    (key : List ℕ) (snapshot : ℕ) (table : Table) (so_far now : Option Version)
    → consider key snapshot table so_far ≡ best now
    → Found so_far now (held key snapshot table ∷ [])
consider-Found key snapshot table so_far now e =
    subst (λ r. Found so_far r (held key snapshot table ∷ []))
      (sym (consider-merge key snapshot table so_far now e))
      (merge-Found (held key snapshot table) so_far)

-- No version is numbered above the counter.
abbrev pub UpTo : ℕ → Option Version → Type 0
UpTo last none = Unit
UpTo last (some (v, s, t)) = s ≤ last

UpTo-Covers :
    (last : ℕ) (now : Option Version) (os : List (Option Version))
    → is_last last now ≡ true
    → All (UpTo last) os
    → All (Covers now) os
unfolding is_last
UpTo-Covers last now [] h k = tt
UpTo-Covers last none (o ∷ os) h k = absurd (ground arith)
UpTo-Covers last (some (v, s, t)) (none ∷ os) h k = (tt, UpTo-Covers last (some (v, s, t)) os h k.1)
UpTo-Covers last (some (v, s, t)) (some (w, q, u) ∷ os) h k =
    (ground (arith, k.0), UpTo-Covers last (some (v, s, t)) os h k.1)

pub Search-cases :
    (s : Search) → ((x : Status) × (s ≡ broken x)) ⊎ ((r : Option Version) × (s ≡ best r))
Search-cases (broken x) = inl (x, refl)
Search-cases (best r) = inr (r, refl)

pub no_best : (x : Status) (r : Option Version) → broken x ≡ best r → ⊥
no_best x r e = cc

one : (r o : Option Version) (os : List (Option Version)) → AnyOf r (o ∷ []) → AnyOf r (o ∷ os)
one r o os (inl e) = inl e
one r o os (inr h) = absurd h

pub search_level0-Found :
    (key : List ℕ) (snapshot last : ℕ) (tables : List Table) (so_far r : Option Version)
    → All (UpTo last) (held_all key snapshot tables)
    → search_level0 key snapshot last tables so_far ≡ best r
    → Found so_far r (held_all key snapshot tables)
unfolding search_level0
search_level0-Found key snapshot last [] so_far r up e =
    let same = best_eq _ _ e in
    record {
      kept = subst (λ x. Covers x so_far) same (Covers-refl so_far);
      all = tt;
      source = inl (sym same);
    }
search_level0-Found key snapshot last (table ∷ tables) so_far r up e =
    elim (Search-cases (consider key snapshot table so_far)) [
      | inl (x, stop) ↦ absurd (no_best x r (rw (stop, search_level0) at e))
      | inr (now, step) ↦
          let f = consider-Found key snapshot table so_far now step in
          elim (Bool-cases (is_last last now)) [
            | inl newest ↦
                let same : now ≡ r = best_eq _ _ (rw newest at (rw (step, search_level0) at e)) in
                let others = UpTo-Covers last now (held_all key snapshot tables) newest up.1 in
                subst (λ x. Found so_far x (held_all key snapshot (table ∷ tables))) same
                  (record {
                    kept = f.kept;
                    all = (f.all.0, others);
                    source = elim f.source [
                      | inl s ↦ inl s
                      | inr s ↦
                          inr (one now (held key snapshot table) (held_all key snapshot tables) s)
                    ];
                  })
            | inr more ↦
                Found-append so_far now r (held key snapshot table ∷ [])
                  (held_all key snapshot tables) f
                  (search_level0-Found key snapshot last tables now r up.1
                    (rw more at (rw (step, search_level0) at e)))
          ]
    ]
