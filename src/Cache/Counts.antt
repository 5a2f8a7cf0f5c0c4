-- ===== src/Cache/Counts.antt =====
-- How often a key stands in the table and in the recency list, and the charges of the table.
use lightkv.Prelude.{
  ℕ, ◌+◌, ◌≤◌, true, false, none, some, List, [], ◌∷◌, ◌++◌, length, if◌then◌else◌, ◌≡◌, refl, ap,
  ◌∙◌, arith, Bool-cases, inl, inr,
}
use lightkv.Cache.{KeyEq, Entry, find, erase_entry, erase_key, back, pop_back}

pub some_eq : {A : Type 0} (a b : A) → some a ≡ some b → a ≡ b
some_eq a b h = cc

module _ {K : Type 0} ⦃e : KeyEq K⦄ where
  abbrev pub hit : K → K → ℕ
  hit x k = if e.same x k then 1 else 0

  unfoldable pub count_key : K → List K → ℕ
  count_key k [] = 0
  count_key k (x ∷ keys) = hit x k + count_key k keys

  pub hit_self : (k : K) → hit k k ≡ 1
  hit_self k = rw ((e.same_iff k k).1 refl) refl

  pub hit_eq : (a b k : K) → e.same a b ≡ true → hit a k ≡ hit b k
  hit_eq a b k h = ap (λ x. hit x k) ((e.same_iff a b).0 h)

  pub count_key-erase_key :
      (k j : K) (keys : List K)
      → 1 ≤ count_key k keys
      → count_key j (erase_key k keys) + hit k j ≡ count_key j keys
  unfolding count_key erase_key
  count_key-erase_key k j [] h = absurd (omega arith)
  count_key-erase_key k j (x ∷ keys) h = elim (Bool-cases (e.same x k)) [
    | inl this ↦ rw this (omega (arith, hit_eq x k j this))
    | inr other ↦
        let later : 1 ≤ count_key k keys = omega (arith, rw other at h) in
        rw other (omega (arith, count_key-erase_key k j keys later))
  ]

  pub count_key-pop_back :
      (k j : K) (keys : List K)
      → back keys ≡ some k
      → count_key j (pop_back keys) + hit k j ≡ count_key j keys
  unfolding count_key back pop_back
  count_key-pop_back k j [] h = absurd (ground arith)
  count_key-pop_back k j (x ∷ []) h = omega (arith, ap (λ t. hit t j) (some_eq x k h))
  count_key-pop_back k j (x ∷ y ∷ keys) h = omega (arith, count_key-pop_back k j (y ∷ keys) h)

  pub count_key-back : (k : K) (keys : List K) → back keys ≡ some k → 1 ≤ count_key k keys
  count_key-back k keys h = omega (arith, count_key-pop_back k k keys h, hit_self k)

  pub no_keys : (keys : List K) → length keys ≡ 0 → (k : K) → count_key k keys ≡ 0
  unfolding count_key
  no_keys [] h k = refl
  no_keys (x ∷ keys) h k = absurd (omega arith)

  pub count_key-append :
      (k : K) (xs ys : List K) → count_key k (xs ++ ys) ≡ count_key k xs + count_key k ys
  unfolding count_key
  count_key-append k [] ys = omega arith
  count_key-append k (x ∷ xs) ys = omega (arith, count_key-append k xs ys)

module _ {K V : Type 0} ⦃e : KeyEq K⦄ where
  unfoldable pub count_entry : K → List (Entry K V) → ℕ
  count_entry k [] = 0
  count_entry k (x ∷ table) = hit x.key k + count_entry k table

  unfoldable pub total : List (Entry K V) → ℕ
  total [] = 0
  total (x ∷ table) = x.charge + total table

  pub find-none : (k : K) (table : List (Entry K V)) → count_entry k table ≡ 0 → find k table ≡ none
  unfolding count_entry find
  find-none k [] h = refl
  find-none k (x ∷ table) h = elim (Bool-cases (e.same x.key k)) [
    | inl this ↦ absurd (omega (arith, rw this at h))
    | inr other ↦
        let later : count_entry k table ≡ 0 = omega (arith, rw other at h) in
        rw other (find-none k table later)
  ]

  pub find-some :
      (k : K) (table : List (Entry K V)) (x : Entry K V)
      → find k table ≡ some x
      → (1 ≤ count_entry k table)
        × (total (erase_entry k table) + x.charge ≡ total table)
        × ((j : K) → count_entry j (erase_entry k table) + hit k j ≡ count_entry j table)
  unfolding count_entry find erase_entry total
  find-some k [] x h = absurd (ground arith)
  find-some k (y ∷ table) x h = elim (Bool-cases (e.same y.key k)) [
    | inl this ↦
        let charges : y.charge ≡ x.charge =
          ap (λ (z : Entry K V). z.charge) (some_eq y x (rw this at h)) in
        (
          rw this (omega arith),
          rw this (omega (arith, charges)),
          λ j. rw this (omega (arith, hit_eq y.key k j this)),
        )
    | inr other ↦
        let (more, sum, counts) = find-some k table x (rw other at h) in
        rw other (omega (arith, more), omega (arith, sum), λ j. omega (arith, counts j))
  ]

  pub count_entry_absent :
      (k : K) (table : List (Entry K V)) → find k table ≡ none → count_entry k table ≡ 0
  unfolding count_entry find
  count_entry_absent k [] h = refl
  count_entry_absent k (x ∷ table) h = elim (Bool-cases (e.same x.key k)) [
    | inl this ↦ absurd (ground arith)
    | inr other ↦ rw other (omega (arith, count_entry_absent k table (rw other at h)))
  ]

  -- Another key is found as before.
  pub find-erase_entry :
      (k j : K) (table : List (Entry K V))
      → e.same k j ≡ false
      → find j (erase_entry k table) ≡ find j table
  unfolding find erase_entry
  find-erase_entry k j [] h = refl
  find-erase_entry k j (x ∷ table) h = elim (Bool-cases (e.same x.key k)) [
    | inl this ↦
        let differs : e.same x.key j ≡ false =
          ap (λ y. e.same y j) ((e.same_iff x.key k).0 this) ∙ h in
        rw this (rw differs refl)
    | inr other ↦ elim (Bool-cases (e.same x.key j)) [
      | inl found ↦ rw other (rw found refl)
      | inr further ↦ rw other (rw further (find-erase_entry k j table h))
    ]
  ]

  -- A table in which no key is counted is empty.
  pub total_empty :
      (table : List (Entry K V)) → ((k : K) → count_entry k table ≡ 0) → total table ≡ 0
  unfolding count_entry total
  total_empty [] h = refl
  total_empty (x ∷ table) h = absurd (omega (arith, h x.key, hit_self x.key))
