-- ===== src/Cache/Blocks/Index.antt =====
-- The index of the block cache: Erase finds every cached block of a file in it.
use lightkv.Prelude.{
  ℕ, ◌≤◌, false, none, List, [], ◌∷◌, length, ltb, ◌==◌, ==_iff, if◌then◌else◌, ◌≡◌, refl, sym,
  subst, ap, ◌∙◌, arith, Bool-cases, inl, inr,
}
use lightkv.Cache.{LruCache, find, erase, lookup}
use lightkv.Cache.Counts.{hit, count_key, find-none}
use lightkv.Cache.Eviction.{IsLinked}
use lightkv.Cache.Operations.{
  IsConsistent, lookup-IsConsistent, operations-IsConsistent, erase-IsConsistent,
}
use lightkv.Cache.Blocks.Offsets.{count_offset, pushed_offset, kept_offset, offsets_of-erase_index}
use lightkv.Cache.Found.{
  lookup_absent, lookup_same, insert_keys, erase_keys, erase_gone, erase_other, lookup_keys,
}
use lightkv.Cache.Blocks.{
  CacheKey, same_block, same_block_iff, block_eq, BlockCache, offsets_of, push_offset, insert_block,
  lookup_block, erase_offsets, erase_file,
}

abbrev pub block : ℕ → ℕ → CacheKey
block file offset = record { file_id = file; block_offset = offset }

-- Every cached block is in the index.
pub record IsIndexed (b : BlockCache) : Type 0 where
  pub consistent : IsConsistent b.cache
  pub indexed :
      (file offset : ℕ)
      → 1 ≤ count_key (block file offset) b.cache.lru_list
      → 1 ≤ count_offset offset (offsets_of file b.file_index)

-- What Lookup finds is what the table holds.
lookup_missing :
    (k : CacheKey) (c : LruCache CacheKey (List ℕ))
    → IsLinked c
    → count_key k c.lru_list ≡ 0
    → (lookup k c).0 ≡ none
lookup_missing k c ok h = lookup_absent k c (find-none k c.table (sym (ok.listed k) ∙ h))

miss : (a b : CacheKey) → same_block a b ≡ false → hit a b ≡ 0
miss a b h = rw h refl

zero_count : {n : ℕ} → ltb 0 n ≡ false → n ≡ 0
zero_count h = ground arith

another_file :
    (file offset : ℕ) (k : CacheKey)
    → (file == k.file_id) ≡ false
    → same_block (block file offset) k ≡ false
unfolding same_block
another_file file offset k h = rw h refl

-- What the loop of Erase does to the cache.
record Erased (file : ℕ) (offsets : List ℕ) (c c' : LruCache CacheKey (List ℕ)) : Type 0 where
  still : IsConsistent c'
  fewer : (k : CacheKey) → count_key k c'.lru_list ≤ count_key k c.lru_list
  gone : (o : ℕ) → 1 ≤ count_offset o offsets → count_key (block file o) c'.lru_list ≡ 0
  others : (k : CacheKey) → (file == k.file_id) ≡ false → find k c'.table ≡ find k c.table

erase_offsets-Erased :
    (file : ℕ) (offsets : List ℕ) (c : LruCache CacheKey (List ℕ))
    → IsConsistent c
    → Erased file offsets c (erase_offsets file offsets c)
unfolding erase_offsets count_offset
erase_offsets-Erased file [] c ok = record {
  still = ok;
  fewer = λ k. omega arith;
  gone = λ o h. absurd (omega arith);
  others = λ k h. refl;
}
erase_offsets-Erased file (x ∷ offsets) c ok =
    let one = erase (block file x) c in
    let rest = erase_offsets-Erased file offsets one (erase-IsConsistent (block file x) c ok) in
    record {
      still = rest.still;
      fewer = λ k. omega (arith, rest.fewer k, erase_keys (block file x) k c ok.linked);
      gone = λ o h. elim (Bool-cases (x == o)) [
        | inl this ↦ omega (
          arith,
          rest.fewer (block file o),
          erase_gone (block file x) c ok.linked,
          ap (λ y. count_key (block file y) one.lru_list) ((==_iff x o).0 this),
        )
        | inr other ↦ rest.gone o (omega (arith, rw other at h))
      ];
      others = λ k h. rest.others k h ∙ erase_other (block file x) k c (another_file file x k h);
    }

erase_all :
    (file : ℕ) (b : BlockCache)
    → IsIndexed b
    → Erased file (offsets_of file b.file_index) b.cache (erase_file file b).cache
unfolding erase_file
erase_all file b ok = erase_offsets-Erased file (offsets_of file b.file_index) b.cache ok.consistent

-- No key of the file is left.
erase_all_gone :
    (file offset : ℕ) (b : BlockCache)
    → IsIndexed b
    → count_key (block file offset) (erase_file file b).cache.lru_list ≡ 0
erase_all_gone file offset b ok =
    let all = erase_all file b ok in
    elim (Bool-cases (ltb 0 (count_key (block file offset) b.cache.lru_list))) [
      | inl cached ↦ all.gone offset (ok.indexed file offset (ground arith))
      | inr absent ↦ omega (arith, all.fewer (block file offset), zero_count absent)
    ]

insert_block-IsIndexed :
    (file offset : ℕ) (contents : List ℕ) (b : BlockCache)
    → IsIndexed b
    → IsIndexed (insert_block file offset contents b)
unfolding insert_block
insert_block-IsIndexed file offset contents b ok = record {
  consistent =
      (operations-IsConsistent (block file offset) contents (length contents) b.cache
        ok.consistent).0;
  indexed = λ f o h. elim (Bool-cases (same_block (block file offset) (block f o))) [
    | inl this ↦
        let same = (same_block_iff (block file offset) (block f o)).0 this in
        subst
          (λ (k : CacheKey).
            1
            ≤ count_offset k.block_offset
                (offsets_of k.file_id (push_offset file offset b.file_index)))
          same (pushed_offset file offset b.file_index)
    | inr other ↦ omega (
      arith,
      kept_offset f o file offset b.file_index,
      ok.indexed f o (
          omega (
            arith,
            h,
            insert_keys (block file offset) contents (length contents) (block f o) b.cache
                ok.consistent.linked,
            miss (block file offset) (block f o) other,
          )),
    )
  ];
}

lookup_block-IsIndexed :
    (file offset : ℕ) (b : BlockCache) → IsIndexed b → IsIndexed (lookup_block file offset b).1
unfolding lookup_block
lookup_block-IsIndexed file offset b ok = record {
  consistent = lookup-IsConsistent (block file offset) b.cache ok.consistent;
  indexed = λ f o h.
      ok.indexed f o
        (omega (arith, lookup_keys (block file offset) (block f o) b.cache ok.consistent.linked));
}

erase_file-IsIndexed : (file : ℕ) (b : BlockCache) → IsIndexed b → IsIndexed (erase_file file b)
erase_file-IsIndexed file b ok =
    let all = erase_all file b ok in
    record {
      consistent = all.still;
      indexed = λ f o h. elim (Bool-cases (f == file)) [
        | inl this ↦ absurd (
            omega (
              arith,
              h,
              erase_all_gone file o b ok,
              ap (λ x. count_key (block x o) (erase_file file b).cache.lru_list)
                  ((==_iff f file).0 this),
            ))
        | inr other ↦
            unfold erase_file in
            rw (offsets_of-erase_index f file b.file_index other)
              (ok.indexed f o (omega (arith, h, all.fewer (block f o))))
      ];
    }

-- Insert, Lookup and Erase of the block cache keep the LRU cache consistent and every cached block in
-- the index.
pub blocks-IsIndexed :
    (file offset : ℕ) (contents : List ℕ) (b : BlockCache)
    → IsIndexed b
    → IsIndexed (insert_block file offset contents b)
      × IsIndexed (lookup_block file offset b).1
      × IsIndexed (erase_file file b)
blocks-IsIndexed file offset contents b ok = (
  insert_block-IsIndexed file offset contents b ok,
  lookup_block-IsIndexed file offset b ok,
  erase_file-IsIndexed file b ok,
)

-- After Erase of a file no block of it is found, at any offset, and a Lookup in another file finds what
-- it found before.
pub lookup_block-erase_file :
    (file f offset : ℕ) (b : BlockCache)
    → IsIndexed b
    → (lookup_block f offset (erase_file file b)).0
      ≡ (if file == f then none else (lookup_block f offset b).0)
unfolding lookup_block
lookup_block-erase_file file f offset b ok =
    let all = erase_all file b ok in
    elim (Bool-cases (file == f)) [
      | inl this ↦ rw this (
          rw (sym ((==_iff file f).0 this)) (
            lookup_missing (block file offset) (erase_file file b).cache all.still.linked
              (erase_all_gone file offset b ok)))
      | inr other ↦ rw other (
          lookup_same (block f offset) (erase_file file b).cache b.cache
            (all.others (block f offset) other))
    ]
