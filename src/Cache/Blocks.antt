-- ===== src/Cache/Blocks.antt =====
-- The block cache: blocks by file and offset, with an index of the offsets inserted for each file.
pub mod Offsets
pub mod Index
use lightkv.Prelude.{
  ℕ, zero, suc, ◌+◌, ◌-◌, ◌≤◌, ◌<◌, Bool, true, false, Option, none, some, List, [], ◌∷◌, ◌++◌,
  length, ltb, leb, ◌==◌, ==_iff, if◌then◌else◌, ◌&&◌, ◌≡◌, ◌↔◌, refl, sym, ap, ◌∙◌, arith,
  Bool-cases, Option-cases, inl, inr,
}
use lightkv.Cache.{
  KeyEq, Entry, LruCache, find, erase_entry, erase_key, evict_loop, erase, push_front, insert,
  lookup, new_cache,
}

-- BlockCache::CacheKey and its operator==
pub record CacheKey : Type 0 where
  pub file_id : ℕ
  pub block_offset : ℕ

pub same_block : CacheKey → CacheKey → Bool
same_block a b = a.file_id == b.file_id && a.block_offset == b.block_offset

pub same_block_iff : (a b : CacheKey) → (same_block a b ≡ true) ↔ (a ≡ b)
unfolding same_block
same_block_iff a b = (
  λ h.
      let file : a.file_id ≡ b.file_id = ground arith in
      let offset : a.block_offset ≡ b.block_offset = ground arith in
      λ i. record { file_id = file i; block_offset = offset i },
  λ h.
      let file : a.file_id ≡ b.file_id = ap (λ (k : CacheKey). k.file_id) h in
      let offset : a.block_offset ≡ b.block_offset = ap (λ (k : CacheKey). k.block_offset) h in
      ground arith,
)

instance abbrev pub block_eq : KeyEq CacheKey
block_eq = record { same = same_block; same_iff = same_block_iff }

-- BlockCache, with `file_index_` as an association list.
pub record BlockCache : Type 0 where
  pub cache : LruCache CacheKey (List ℕ)
  pub file_index : List (ℕ × List ℕ)

-- `file_index_.find(file_id)`
pub offsets_of : ℕ → List (ℕ × List ℕ) → List ℕ
offsets_of file [] = []
offsets_of file ((f, offsets) ∷ index) = if f == file then offsets else offsets_of file index

-- `file_index_[file_id].push_back(block_offset)`
pub push_offset : ℕ → ℕ → List (ℕ × List ℕ) → List (ℕ × List ℕ)
push_offset file offset [] = (file, offset ∷ []) ∷ []
push_offset file offset ((f, offsets) ∷ index) =
    if f == file
    then (f, offsets ++ offset ∷ []) ∷ index
    else (f, offsets) ∷ push_offset file offset index

-- `file_index_.erase(it)`
pub erase_index : ℕ → List (ℕ × List ℕ) → List (ℕ × List ℕ)
erase_index file [] = []
erase_index file ((f, offsets) ∷ index) =
    if f == file then index else (f, offsets) ∷ erase_index file index

-- BlockCache::Insert
pub insert_block : ℕ → ℕ → List ℕ → BlockCache → BlockCache
insert_block file offset contents b = record {
  cache =
      insert (record { file_id = file; block_offset = offset }) contents (length contents) b.cache;
  file_index = push_offset file offset b.file_index;
}

-- BlockCache::Lookup
pub lookup_block : ℕ → ℕ → BlockCache → Option (List ℕ) × BlockCache
lookup_block file offset b =
    let (found, cache) = lookup (record { file_id = file; block_offset = offset }) b.cache in
    (found, record b { cache = cache })

-- The loop of BlockCache::Erase.
pub erase_offsets : ℕ → List ℕ → LruCache CacheKey (List ℕ) → LruCache CacheKey (List ℕ)
erase_offsets file [] c = c
erase_offsets file (offset ∷ offsets) c =
    erase_offsets file offsets (erase (record { file_id = file; block_offset = offset }) c)

-- BlockCache::Erase. A file that the index lacks has no offsets to erase.
pub erase_file : ℕ → BlockCache → BlockCache
erase_file file b = record {
  cache = erase_offsets file (offsets_of file b.file_index) b.cache;
  file_index = erase_index file b.file_index;
}
