-- ===== src/Cache/Operations.antt =====
-- The operations of the LRU cache keep it consistent.
use lightkv.Prelude.{
  ℕ, ◌+◌, ◌≤◌, length, ltb, ◌≡◌, refl, ap, ◌∙◌, arith, Bool-cases, Option-cases, inl, inr,
}
use lightkv.Cache.{KeyEq, LruCache, find, evict_loop, erase, push_front, insert, lookup, prune}
use lightkv.Cache.Counts.{
  count_key, hit_self, count_key-erase_key, count_key-append, count_entry, total, find-some,
  count_entry_absent,
}
use lightkv.Cache.Eviction.{IsLinked, found_listed, Evicts, evict_loop-Evicts, evict_loop_fits}

-- A cache between two calls.
pub record IsConsistent {K V : Type 0} ⦃e : KeyEq K⦄ (c : LruCache K V) : Type 0 where
  pub linked : IsLinked c
  pub bounded : c.usage ≤ c.capacity

module _ {K V : Type 0} ⦃e : KeyEq K⦄ where
  -- The key is gone, and the usage has not grown.
  pub erase-IsLinked :
      (k : K) (c : LruCache K V)
      → IsLinked c
      → IsLinked (erase k c)
        × (count_key k (erase k c).lru_list ≡ 0)
        × ((erase k c).usage ≤ c.usage)
        × ((erase k c).capacity ≡ c.capacity)
  unfolding erase
  erase-IsLinked k c ok = elim (Option-cases (find k c.table)) [
    | inl missing ↦
        rw (missing, erase)
          (ok, ok.listed k ∙ count_entry_absent k c.table missing, omega arith, refl)
    | inr (x, there) ↦
        let (some_there, sum, counts) = find-some k c.table x there in
        let present = found_listed k x c ok there in
        rw (there, erase)
          (
            record {
              summed = omega (arith, ok.summed, sum);
              listed = λ j.
                  omega (arith, ok.listed j, counts j, count_key-erase_key k j c.lru_list present);
              once = λ j. omega (arith, ok.once j, count_key-erase_key k j c.lru_list present);
            },
            omega (arith, ok.once k, count_key-erase_key k k c.lru_list present, hit_self k),
            omega arith,
            refl,
          )
  ]

  push_front-IsConsistent :
      (k : K) (v : V) (charge : ℕ) (c : LruCache K V)
      → IsLinked c
      → count_key k c.lru_list ≡ 0
      → c.usage ≤ c.capacity
      → (charge ≤ c.capacity → c.usage + charge ≤ c.capacity)
      → IsConsistent (push_front k v charge c)
  unfolding push_front count_key count_entry total
  push_front-IsConsistent k v charge c ok fresh bound fits =
      elim (Bool-cases (ltb c.capacity charge)) [
        | inl too_big ↦ rw too_big (record { linked = ok; bounded = bound })
        | inr small ↦ rw small (record {
          linked = record {
            summed = omega (arith, ok.summed);
            listed = λ j. omega (arith, ok.listed j);
            once = λ j. elim (Bool-cases (e.same k j)) [
              | inl this ↦
                  let other_name = ap (λ x. count_key x c.lru_list) ((e.same_iff k j).0 this) in
                  rw this (omega (arith, other_name))
              | inr other ↦ rw other (omega (arith, ok.once j))
            ];
          };
          bounded = fits (ground arith);
        })
      ]

  -- The cache that Insert pushes the new entry on.
  unfoldable pub cleared : K → ℕ → LruCache K V → LruCache K V
  cleared k charge c = evict_loop (length (erase k c).lru_list) charge (erase k c)

  pub cleared-Evicts :
      (k : K) (charge : ℕ) (c : LruCache K V) → IsLinked c → Evicts (erase k c) (cleared k charge c)
  unfolding cleared
  cleared-Evicts k charge c ok =
      evict_loop-Evicts (length (erase k c).lru_list) charge (erase k c) (erase-IsLinked k c ok).0

  pub cleared_absent :
      (k : K) (charge : ℕ) (c : LruCache K V)
      → IsLinked c
      → count_key k (cleared k charge c).lru_list ≡ 0
  cleared_absent k charge c ok =
      let ev = cleared-Evicts k charge c ok in
      omega (
        arith,
        (erase-IsLinked k c ok).1,
        ap (count_key k) ev.front,
        count_key-append k (cleared k charge c).lru_list ev.gone,
      )

  pub insert-IsConsistent :
      (k : K) (v : V) (charge : ℕ) (c : LruCache K V)
      → IsConsistent c
      → IsConsistent (insert k v charge c)
  unfolding insert cleared
  insert-IsConsistent k v charge c ok =
      let (linked, absent, usage, capacity) = erase-IsLinked k c ok.linked in
      let ev = cleared-Evicts k charge c ok.linked in
      push_front-IsConsistent k v charge (cleared k charge c) ev.linked
        (cleared_absent k charge c ok.linked)
        (omega (arith, ev.less_usage, ev.same_capacity, usage, capacity, ok.bounded))
        (λ small. omega (
          arith,
          ev.same_capacity,
          evict_loop_fits (length (erase k c).lru_list) charge (erase k c) linked (omega arith)
              (omega (arith, small, ev.same_capacity)),
        ))

  pub lookup-IsConsistent :
      (k : K) (c : LruCache K V) → IsConsistent c → IsConsistent (lookup k c).1
  unfolding lookup count_key
  lookup-IsConsistent k c ok = elim (Option-cases (find k c.table)) [
    | inl missing ↦ rw (missing, lookup) ok
    | inr (x, there) ↦
        let linked = ok.linked in
        let present = found_listed k x c linked there in
        rw (there, lookup)
          (record {
            linked = record {
              summed = linked.summed;
              listed =
                  λ j. omega (arith, linked.listed j, count_key-erase_key k j c.lru_list present);
              once = λ j. omega (arith, linked.once j, count_key-erase_key k j c.lru_list present);
            };
            bounded = ok.bounded;
          })
  ]

  prune-IsConsistent : (c : LruCache K V) → IsConsistent c → IsConsistent (prune c)
  unfolding prune
  prune-IsConsistent c ok =
      let ev = evict_loop-Evicts (length c.lru_list) 0 c ok.linked in
      record {
        linked = ev.linked;
        bounded = omega (arith, ev.less_usage, ev.same_capacity, ok.bounded);
      }

  pub erase-IsConsistent : (k : K) (c : LruCache K V) → IsConsistent c → IsConsistent (erase k c)
  erase-IsConsistent k c ok =
      let (linked, absent, usage, capacity) = erase-IsLinked k c ok.linked in
      record { linked = linked; bounded = omega (arith, usage, capacity, ok.bounded) }

  -- Insert, Lookup, Erase and Prune keep a cache consistent: the table and the recency list hold the
  -- same keys, each once, the usage is the sum of the charges, and it is within the capacity.
  pub operations-IsConsistent :
      (k : K) (v : V) (charge : ℕ) (c : LruCache K V)
      → IsConsistent c
      → IsConsistent (insert k v charge c)
        × IsConsistent (lookup k c).1
        × IsConsistent (erase k c)
        × IsConsistent (prune c)
  operations-IsConsistent k v charge c ok = (
    insert-IsConsistent k v charge c ok,
    lookup-IsConsistent k c ok,
    erase-IsConsistent k c ok,
    prune-IsConsistent c ok,
  )
