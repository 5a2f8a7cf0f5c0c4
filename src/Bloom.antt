-- ===== src/Bloom.antt =====
-- src/bloom_filter.cpp: the Bloom filter of a table file. `floor_069` is the floating-point product of
-- the number of bits by 0.69, rounded down. A read or write outside the words, and `%` by zero, is `none`.
pub mod Positions
pub mod Matches
pub mod Examples
use lightkv.Prelude.{
  ℕ, zero, suc, ◌+◌, ◌*◌, ◌/◌, ◌%◌, ◌^◌, bit_and, bit_or, Bool, true, false, not, Option, none,
  some, List, [], ◌∷◌, length, get_elem?, replicate, ltb, ◌==◌, if◌then◌else◌,
}
use lightkv.Slice.{slice_hash}

pub record BloomFilter : Type 0 where
  pub k : ℕ
  pub bits : List ℕ

-- The bounds of k_.
pub clamp_k : ℕ → ℕ
clamp_k k = let low = if ltb k 1 then 1 else k in if ltb 30 low then 30 else low

-- BloomFilter::BloomFilter(int)
pub new_filter : (ℕ → ℕ) → ℕ → BloomFilter
new_filter floor_069 bits_per_key = record {
  k = clamp_k (floor_069 bits_per_key);
  bits = replicate 1024 0;
}

-- BloomFilter::BloomFilter(const uint32_t*, size_t, int)
pub load_filter : (ℕ → ℕ) → List ℕ → ℕ → BloomFilter
load_filter floor_069 words bits_per_key = record {
  k = clamp_k (floor_069 bits_per_key);
  bits = words;
}

-- `(h >> 17) | (h << 15)`
pub hash_step : ℕ → ℕ
hash_step h = bit_or (h / 2 ^ 17) (h * 2 ^ 15 % 2 ^ 32)

-- `static_cast<uint32_t>(bits_.size() * 32)`
pub total_bits : List ℕ → ℕ
total_bits bits = length bits * 32 % 2 ^ 32

-- `bits_[i] |= mask`
pub or_word : ℕ → ℕ → List ℕ → Option (List ℕ)
or_word i mask [] = none
or_word zero mask (w ∷ bits) = some (bit_or w mask ∷ bits)
or_word (suc i) mask (w ∷ bits) = elim (or_word i mask bits) [
  | none ↦ none
  | some changed ↦ some (w ∷ changed)
]

-- The loop of BloomFilter::Add; `k` counts the rounds that are left.
pub add_loop : ℕ → ℕ → ℕ → List ℕ → Option (List ℕ)
add_loop zero h delta bits = some bits
add_loop (suc k) h delta bits =
    if total_bits bits == 0
    then none
    else (let pos = h % total_bits bits in
        elim (or_word (pos / 32) (2 ^ (pos % 32)) bits) [
          | none ↦ none
          | some changed ↦ add_loop k ((h + delta) % 2 ^ 32) delta changed
        ])

-- BloomFilter::Add
pub add : List ℕ → BloomFilter → Option BloomFilter
add key f = elim (add_loop f.k (slice_hash key) (hash_step (slice_hash key)) f.bits) [
  | none ↦ none
  | some changed ↦ some (record f { bits = changed })
]

-- The test of one position in BloomFilter::MayMatch.
pub is_set : ℕ → List ℕ → Bool
is_set pos bits = elim (get_elem? bits (pos / 32)) [
  | none ↦ false
  | some w ↦ not (bit_and w (2 ^ (pos % 32)) == 0)
]

-- The loop of BloomFilter::MayMatch.
pub match_loop : ℕ → ℕ → ℕ → List ℕ → Option Bool
match_loop zero h delta bits = some true
match_loop (suc k) h delta bits =
    let rest = match_loop k ((h + delta) % 2 ^ 32) delta bits in
    if total_bits bits == 0
    then none
    else if not (is_set (h % total_bits bits) bits)
    then some false
    else rest

-- BloomFilter::MayMatch
pub may_match : List ℕ → BloomFilter → Option Bool
may_match key f =
    if length f.bits == 0
    then some true
    else match_loop f.k (slice_hash key) (hash_step (slice_hash key)) f.bits

-- The keys of a table, as its builder adds them.
pub add_all : List (List ℕ) → BloomFilter → Option BloomFilter
add_all [] f = some f
add_all (key ∷ keys) f = elim (add key f) [ none ↦ none | some changed ↦ add_all keys changed ]
