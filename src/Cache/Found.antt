-- ===== src/Cache/Found.antt =====
-- The keys of the LRU cache after its operations, and what Lookup finds for them.
use lightkv.Prelude.{
  ℕ, ◌+◌, ◌≤◌, true, false, none, some, List, ◌∷◌, ◌++◌, ltb, if◌then◌else◌, ◌≡◌, refl, sym, ap,
  ◌∙◌, arith, Bool-cases, Option-cases, inl, inr,
}
use lightkv.Cache.{KeyEq, Entry, LruCache, find, erase, push_front, insert, lookup}
use lightkv.Cache.Counts.{
  hit, count_key, count_key-erase_key, count_key-append, find-none, find-erase_entry,
}
use lightkv.Cache.Eviction.{IsLinked, found_listed}
use lightkv.Cache.Operations.{IsConsistent, erase-IsLinked, cleared, cleared-Evicts, cleared_absent}

module _ {K V : Type 0} ⦃e : KeyEq K⦄ where
  -- Erase takes no key but its own.
  pub erase_keys :
      (k j : K) (c : LruCache K V)
      → IsLinked c
      → count_key j (erase k c).lru_list ≤ count_key j c.lru_list
  unfolding erase
  erase_keys k j c ok = elim (Option-cases (find k c.table)) [
    | inl missing ↦ rw (missing, erase) (omega arith)
    | inr (x, there) ↦
        let present = found_listed k x c ok there in
        rw (there, erase) (omega (arith, count_key-erase_key k j c.lru_list present))
  ]

  pub erase_gone : (k : K) (c : LruCache K V) → IsLinked c → count_key k (erase k c).lru_list ≡ 0
  erase_gone k c ok = (erase-IsLinked k c ok).1

  -- What is found under another key stays.
  pub erase_other :
      (k j : K) (c : LruCache K V) → e.same k j ≡ false → find j (erase k c).table ≡ find j c.table
  unfolding erase
  erase_other k j c h = elim (Option-cases (find k c.table)) [
    | inl missing ↦ rw (missing, erase) refl
    | inr (x, there) ↦ rw (there, erase) (find-erase_entry k j c.table h)
  ]

  pub lookup_keys :
      (k j : K) (c : LruCache K V)
      → IsLinked c
      → count_key j (lookup k c).1.lru_list ≡ count_key j c.lru_list
  unfolding lookup count_key
  lookup_keys k j c ok = elim (Option-cases (find k c.table)) [
    | inl missing ↦ rw (missing, lookup) refl
    | inr (x, there) ↦
        let present = found_listed k x c ok there in
        rw (there, lookup) (omega (arith, count_key-erase_key k j c.lru_list present))
  ]

  pub lookup_absent : (k : K) (c : LruCache K V) → find k c.table ≡ none → (lookup k c).0 ≡ none
  unfolding lookup
  lookup_absent k c h = rw (h, lookup) refl

  pub lookup_same :
      (k : K) (c d : LruCache K V)
      → find k c.table ≡ find k d.table
      → (lookup k c).0 ≡ (lookup k d).0
  unfolding lookup
  lookup_same k c d h = elim (Option-cases (find k d.table)) [
    | inl missing ↦ lookup_absent k c (h ∙ missing) ∙ sym (lookup_absent k d missing)
    | inr (x, there) ↦ let found = h ∙ there in rw (found, lookup) (rw (there, lookup) refl)
  ]

  -- A key after Insert is the new one or was there before.
  pub insert_keys :
      (k : K) (v : V) (charge : ℕ) (j : K) (c : LruCache K V)
      → IsLinked c
      → count_key j (insert k v charge c).lru_list ≤ hit k j + count_key j c.lru_list
  unfolding insert cleared push_front count_key
  insert_keys k v charge j c ok =
      let ev = cleared-Evicts k charge c ok in
      let before : count_key j (cleared k charge c).lru_list ≤ count_key j c.lru_list = omega (
        arith,
        ap (count_key j) ev.front,
        count_key-append j (cleared k charge c).lru_list ev.gone,
        erase_keys k j c ok,
      ) in
      elim (Bool-cases (ltb (cleared k charge c).capacity charge)) [
        | inl too_big ↦ rw too_big (omega arith)
        | inr small ↦ rw small (omega arith)
      ]

  find_front :
      (k : K) (v : V) (charge : ℕ) (table : List (Entry K V))
      → find k ((record { key = k; value = v; charge = charge }) ∷ table)
        ≡ some (record { key = k; value = v; charge = charge })
  unfolding find
  find_front k v charge table = rw ((e.same_iff k k).1 refl) refl

  -- Lookup of the key that was just inserted finds its value, unless its charge alone is above the
  -- capacity: then it finds nothing, not even an older value.
  pub lookup-insert :
      (k : K) (v : V) (charge : ℕ) (c : LruCache K V)
      → IsConsistent c
      → (lookup k (insert k v charge c)).0 ≡ (if ltb c.capacity charge then none else some v)
  unfolding lookup insert push_front cleared
  lookup-insert k v charge c ok =
      let ev = cleared-Evicts k charge c ok.linked in
      let size : (cleared k charge c).capacity ≡ c.capacity =
        ev.same_capacity ∙ (erase-IsLinked k c ok.linked).3 in
      elim (Bool-cases (ltb c.capacity charge)) [
        | inl too_big ↦
            let big : ltb (cleared k charge c).capacity charge ≡ true =
              ap (λ n. ltb n charge) size ∙ too_big in
            let linked = ev.linked in
            let missing =
              find-none k (cleared k charge c).table
                (sym (linked.listed k) ∙ cleared_absent k charge c ok.linked) in
            rw too_big (rw big (rw (missing, lookup) refl))
        | inr fits ↦
            let small : ltb (cleared k charge c).capacity charge ≡ false =
              ap (λ n. ltb n charge) size ∙ fits in
            rw fits (rw small (rw (find_front k v charge (cleared k charge c).table, lookup) refl))
      ]

  -- Insert of a charge within the capacity puts the key in front of the recency list and removes keys
  -- from its back only; the entries of the keys that stay are as they were.
  pub insert_evicts_oldest :
      (k : K) (v : V) (charge : ℕ) (c : LruCache K V)
      → IsConsistent c
      → charge ≤ c.capacity
      → (kept gone : List K) × ((erase k c).lru_list ≡ kept ++ gone)
        × ((insert k v charge c).lru_list ≡ k ∷ kept)
        × ((j : K)
            → 1 ≤ count_key j kept
            → find j (insert k v charge c).table ≡ find j (erase k c).table)
  unfolding insert push_front cleared
  insert_evicts_oldest k v charge c ok small =
      let ev = cleared-Evicts k charge c ok.linked in
      let room : ltb (cleared k charge c).capacity charge ≡ false =
        ground (arith, ev.same_capacity, (erase-IsLinked k c ok.linked).3) in
      (
        (cleared k charge c).lru_list,
        ev.gone,
        ev.front,
        rw room refl,
        λ j h. rw room (elim (Bool-cases (e.same k j)) [
          | inl this ↦ absurd (
              omega (
                arith,
                h,
                cleared_absent k charge c ok.linked,
                ap (λ x. count_key x (cleared k charge c).lru_list) ((e.same_iff k j).0 this),
              ))
          | inr other ↦ unfold find in rw other (ev.found j h)
        ]),
      )
