-- ===== src/Cache/Eviction.antt =====
-- Eviction takes the least recently used keys, and stops when the new charge fits.
use lightkv.Prelude.{
  ℕ, zero, suc, ◌+◌, ◌-◌, ◌≤◌, ◌<◌, none, some, List, [], ◌∷◌, ◌++◌, length, ltb, if◌then◌else◌,
  ◌&&◌, ◌≡◌, refl, sym, ap, ◌∙◌, arith, Bool-cases, Option-cases, inl, inr, append-nil,
  append_assoc,
}
use lightkv.Cache.{
  KeyEq, Entry, LruCache, find, erase_entry, back, pop_back, drop_entry, evict_one, evict_loop,
}
use lightkv.Cache.Counts.{
  count_key, count_key-pop_back, count_key-back, count_key-append, no_keys, count_entry, total,
  find-some, count_entry_absent, find-erase_entry, total_empty, some_eq,
}

-- The table and the recency list hold the same keys, each once, and the usage is the sum of the
-- charges.
pub record IsLinked {K V : Type 0} ⦃e : KeyEq K⦄ (c : LruCache K V) : Type 0 where
  pub summed : c.usage ≡ total c.table
  pub listed : (k : K) → count_key k c.lru_list ≡ count_entry k c.table
  pub once : (k : K) → count_key k c.lru_list ≤ 1

-- A key that the table has is in the recency list.
pub found_listed :
    {K V : Type 0} ⦃e : KeyEq K⦄
    → (k : K) (x : Entry K V) (c : LruCache K V) → IsLinked c
    → find k c.table ≡ some x
    → 1 ≤ count_key k c.lru_list
found_listed k x c ok there = omega (arith, ok.listed k, (find-some k c.table x there).0)

-- What eviction leaves: the front of the recency list, with the entries of its keys.
pub record Evicts {K V : Type 0} ⦃e : KeyEq K⦄ (c c' : LruCache K V) : Type 0 where
  pub linked : IsLinked c'
  pub same_capacity : c'.capacity ≡ c.capacity
  pub less_usage : c'.usage ≤ c.usage
  pub gone : List K
  pub front : c.lru_list ≡ c'.lru_list ++ gone
  pub found : (j : K) → 1 ≤ count_key j c'.lru_list → find j c'.table ≡ find j c.table

module _ {K : Type 0} where
  pop_back_front : (k : K) (keys : List K) → back keys ≡ some k → keys ≡ pop_back keys ++ k ∷ []
  unfolding back pop_back
  pop_back_front k [] h = absurd (ground arith)
  pop_back_front k (x ∷ []) h = ap (λ y. y ∷ []) (some_eq x k h)
  pop_back_front k (x ∷ y ∷ keys) h = ap (λ l. x ∷ l) (pop_back_front k (y ∷ keys) h)

  back-none : (keys : List K) → back keys ≡ none → keys ≡ []
  unfolding back
  back-none [] h = refl
  back-none (x ∷ []) h = absurd (ground arith)
  back-none (x ∷ y ∷ keys) h = absurd (ground (arith, back-none (y ∷ keys) h))

  length-pop_back : (keys : List K) → length (pop_back keys) ≡ length keys - 1
  unfolding pop_back
  length-pop_back [] = omega arith
  length-pop_back (x ∷ []) = omega arith
  length-pop_back (x ∷ y ∷ keys) = omega (arith, length-pop_back (y ∷ keys))

module _ {K V : Type 0} ⦃e : KeyEq K⦄ where
  pub Evicts-refl : (c : LruCache K V) → IsLinked c → Evicts c c
  Evicts-refl c ok = record {
    linked = ok;
    same_capacity = refl;
    less_usage = omega arith;
    gone = [];
    front = sym (append-nil c.lru_list);
    found = λ j h. refl;
  }

  evict_back :
      (k : K) (x : Entry K V) (c : LruCache K V)
      → IsLinked c
      → back c.lru_list ≡ some k
      → find k c.table ≡ some x
      → Evicts c (record c {
        usage = c.usage - x.charge;
        table = erase_entry k c.table;
        lru_list = pop_back c.lru_list;
      })
  evict_back k x c ok last there =
      let (some_there, sum, counts) = find-some k c.table x there in
      record {
        linked = record {
          summed = omega (arith, ok.summed, sum);
          listed =
              λ j. omega (arith, ok.listed j, counts j, count_key-pop_back k j c.lru_list last);
          once = λ j. omega (arith, ok.once j, count_key-pop_back k j c.lru_list last);
        };
        same_capacity = refl;
        less_usage = omega arith;
        gone = k ∷ [];
        front = pop_back_front k c.lru_list last;
        found = λ j h. elim (Bool-cases (e.same k j)) [
          | inl this ↦ absurd (
              omega (
                arith,
                h,
                ok.once j,
                count_key-pop_back k j c.lru_list last,
                ap {B = ℕ} (λ b. if b then 1 else 0) this,
              ))
          | inr other ↦ find-erase_entry k j c.table other
        ];
      }

  evict_one-Evicts : (c : LruCache K V) → IsLinked c → Evicts c (evict_one c)
  unfolding evict_one drop_entry
  evict_one-Evicts c ok = elim (Option-cases (back c.lru_list)) [
    | inl empty ↦ rw (empty, evict_one) (Evicts-refl c ok)
    | inr (k, last) ↦ elim (Option-cases (find k c.table)) [
      | inl missing ↦ absurd (
          omega (
            arith,
            count_entry_absent k c.table missing,
            ok.listed k,
            count_key-back k c.lru_list last,
          ))
      | inr (x, there) ↦
          rw (last, evict_one) (rw (there, drop_entry) (evict_back k x c ok last there))
    ]
  ]

  Evicts-trans : (c d f : LruCache K V) → Evicts c d → Evicts d f → Evicts c f
  Evicts-trans c d f one two = record {
    linked = two.linked;
    same_capacity = two.same_capacity ∙ one.same_capacity;
    less_usage = omega (arith, one.less_usage, two.less_usage);
    gone = two.gone ++ one.gone;
    front =
        one.front ∙ ap (λ l. l ++ one.gone) two.front ∙ append_assoc f.lru_list two.gone one.gone;
    found = λ j h.
        two.found j h
        ∙ one.found j
            (omega (arith, h, count_key-append j f.lru_list two.gone, ap (count_key j) two.front));
  }

  empty_fits :
      (c : LruCache K V) (charge : ℕ)
      → IsLinked c
      → length c.lru_list ≡ 0
      → charge ≤ c.capacity
      → c.usage + charge ≤ c.capacity
  empty_fits c charge ok h k =
      omega
        (arith, ok.summed, total_empty c.table (λ j. sym (ok.listed j) ∙ no_keys c.lru_list h j))

  -- Eviction ends with room for the charge, or with an empty cache.
  pub evict_loop-Evicts :
      (rounds charge : ℕ) (c : LruCache K V) → IsLinked c → Evicts c (evict_loop rounds charge c)
  unfolding evict_loop
  evict_loop-Evicts zero charge c ok = Evicts-refl c ok
  evict_loop-Evicts (suc rounds) charge c ok =
      let one = evict_one-Evicts c ok in
      elim (Bool-cases (ltb c.capacity (c.usage + charge) && ltb 0 (length c.lru_list))) [
        | inl more ↦ rw more (
            Evicts-trans c (evict_one c) _ one
              (evict_loop-Evicts rounds charge (evict_one c) one.linked))
        | inr done ↦ rw done (Evicts-refl c ok)
      ]

  evict_one_shorter :
      (c : LruCache K V) → 0 < length c.lru_list → length (evict_one c).lru_list < length c.lru_list
  unfolding evict_one drop_entry
  evict_one_shorter c h = elim (Option-cases (back c.lru_list)) [
    | inl empty ↦ absurd (omega (arith, ap (length {A = K}) (back-none c.lru_list empty)))
    | inr (k, last) ↦ rw (last, evict_one) (omega (arith, length-pop_back c.lru_list))
  ]

  pub evict_loop_fits :
      (rounds charge : ℕ) (c : LruCache K V)
      → IsLinked c
      → length c.lru_list ≤ rounds
      → charge ≤ c.capacity
      → (evict_loop rounds charge c).usage + charge ≤ c.capacity
  unfolding evict_loop
  evict_loop_fits zero charge c ok h k = empty_fits c charge ok (omega arith) k
  evict_loop_fits (suc rounds) charge c ok h k =
      let one = evict_one-Evicts c ok in
      elim (Bool-cases (ltb c.capacity (c.usage + charge) && ltb 0 (length c.lru_list))) [
        | inl more ↦
            let rest =
              evict_loop_fits rounds charge (evict_one c) one.linked
                (omega (arith, evict_one_shorter c (ground arith)))
                (omega (arith, one.same_capacity)) in
            rw more (omega (arith, rest, one.same_capacity))
        | inr done ↦ rw done (elim (Bool-cases (ltb 0 (length c.lru_list))) [
          | inl some_left ↦ ground arith
          | inr empty ↦ empty_fits c charge ok (ground arith) k
        ])
      ]
