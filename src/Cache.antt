-- ===== src/Cache.antt =====
-- include/lightkv/cache.h and src/cache.cpp: the LRU cache and the block cache over it. The hash table
-- is an association list. An iterator into the recency list that a table entry holds is the place of
-- the entry's key in that list, and erasing through it removes the key. Charges are sizes of data in
-- memory, whose sum is below 2^64. The mutexes are left out: each method holds them while it works.
pub mod Counts
pub mod Eviction
pub mod Operations
pub mod Found
pub mod Blocks
pub mod Examples
use lightkv.Prelude.{
  ℕ, zero, suc, ◌+◌, ◌-◌, Bool, true, false, Option, none, some, List, [], ◌∷◌, ◌++◌, length, ltb,
  leb, ◌==◌, if◌then◌else◌, not, ◌&&◌, ◌≡◌, ◌↔◌,
}

-- Equality of keys.
pub record KeyEq (K : Type 0) : Type 0 where
  pub same : K → K → Bool
  pub same_iff : (a b : K) → (same a b ≡ true) ↔ (a ≡ b)

-- LRUCache::Entry
pub record Entry (K V : Type 0) : Type 0 where
  pub key : K
  pub value : V
  pub charge : ℕ

pub record LruCache (K V : Type 0) : Type 0 where
  pub capacity : ℕ
  pub usage : ℕ
  pub table : List (Entry K V)
  pub lru_list : List K

-- `table_.find(key)`
pub find : {K V : Type 0} ⦃e : KeyEq K⦄ → K → List (Entry K V) → Option (Entry K V)
find ⦃e⦄ k [] = none
find ⦃e⦄ k (x ∷ table) = if e.same x.key k then some x else find k table

-- `table_.erase(it)`
pub erase_entry : {K V : Type 0} ⦃e : KeyEq K⦄ → K → List (Entry K V) → List (Entry K V)
erase_entry ⦃e⦄ k [] = []
erase_entry ⦃e⦄ k (x ∷ table) = if e.same x.key k then table else x ∷ erase_entry k table

-- `lru_list_.erase(it->second.lru_it)`
pub erase_key : {K : Type 0} ⦃e : KeyEq K⦄ → K → List K → List K
erase_key ⦃e⦄ k [] = []
erase_key ⦃e⦄ k (x ∷ keys) = if e.same x k then keys else x ∷ erase_key k keys

-- `lru_list_.back()` and `pop_back()`
pub back : {K : Type 0} → List K → Option K
back [] = none
back (x ∷ []) = some x
back (x ∷ y ∷ keys) = back (y ∷ keys)

pub pop_back : {K : Type 0} → List K → List K
pop_back [] = []
pop_back (x ∷ []) = []
pop_back (x ∷ y ∷ keys) = x ∷ pop_back (y ∷ keys)

-- An entry leaves the table, and its charge the usage.
pub drop_entry : {K V : Type 0} ⦃e : KeyEq K⦄ → K → LruCache K V → LruCache K V
drop_entry k c = elim (find k c.table) [
  | none ↦ c
  | some x ↦ record c { usage = c.usage - x.charge; table = erase_entry k c.table }
]

-- LRUCache::EvictOne
pub evict_one : {K V : Type 0} ⦃e : KeyEq K⦄ → LruCache K V → LruCache K V
evict_one c = elim (back c.lru_list) [
  | none ↦ c
  | some k ↦ record (drop_entry k c) { lru_list = pop_back c.lru_list }
]

-- `while (usage_ + charge > capacity_ && !lru_list_.empty()) EvictOne();`, for the keys left.
pub evict_loop : {K V : Type 0} ⦃e : KeyEq K⦄ → ℕ → ℕ → LruCache K V → LruCache K V
evict_loop zero charge c = c
evict_loop (suc rounds) charge c =
    let fewer = evict_loop rounds charge (evict_one c) in
    if ltb c.capacity (c.usage + charge) && ltb 0 (length c.lru_list) then fewer else c

-- LRUCache::Erase, which is also how Insert begins.
pub erase : {K V : Type 0} ⦃e : KeyEq K⦄ → K → LruCache K V → LruCache K V
erase k c = elim (find k c.table) [
  | none ↦ c
  | some x ↦ record c {
    usage = c.usage - x.charge;
    table = erase_entry k c.table;
    lru_list = erase_key k c.lru_list;
  }
]

-- The end of Insert: the key is in neither the table nor the list.
pub push_front : {K V : Type 0} → K → V → ℕ → LruCache K V → LruCache K V
push_front k value charge c = if ltb c.capacity charge then c else record c {
  usage = c.usage + charge;
  table = (record { key = k; value = value; charge = charge }) ∷ c.table;
  lru_list = k ∷ c.lru_list;
}

-- LRUCache::Insert
pub insert : {K V : Type 0} ⦃e : KeyEq K⦄ → K → V → ℕ → LruCache K V → LruCache K V
insert k value charge c =
    let cleared = erase k c in
    push_front k value charge (evict_loop (length cleared.lru_list) charge cleared)

-- LRUCache::Lookup, with the value where it returns true.
pub lookup : {K V : Type 0} ⦃e : KeyEq K⦄ → K → LruCache K V → Option V × LruCache K V
lookup k c = elim (find k c.table) [
  | none ↦ (none, c)
  | some x ↦ (some x.value, record c { lru_list = k ∷ erase_key k c.lru_list })
]

-- LRUCache::Prune
pub prune : {K V : Type 0} ⦃e : KeyEq K⦄ → LruCache K V → LruCache K V
prune c = evict_loop (length c.lru_list) 0 c

-- LRUCache::LRUCache
pub new_cache : {K V : Type 0} → ℕ → LruCache K V
new_cache capacity = record { capacity = capacity; usage = 0; table = []; lru_list = [] }
