-- ===== src/Bloom/Matches.antt =====
-- A key that was added matches, whatever else was added.
use lightkv.Prelude.{
  ℕ, zero, suc, ◌+◌, ◌*◌, ◌%◌, ◌^◌, ◌<◌, ◌≡◌, inl, inr, refl, ap, ◌∙◌, arith, true, false,
  Bool-cases, some, List, [], ◌∷◌, ◌++◌, length, ◌==◌,
}
use native.Mathlib.Nat.{mod-lt}
use lightkv.Slice.{slice_hash}
use lightkv.Bloom.{
  BloomFilter, hash_step, total_bits, add_loop, add, is_set, match_loop, may_match, add_all,
}
use lightkv.Bloom.Positions.{set_position}

-- The number of bits, as 32 bits hold it, is not 0.
abbrev pub HasBits : List ℕ → Type 0
HasBits bits = 0 < total_bits bits

-- The second filter has at least the bits of the first.
pub record IsMore (bits more : List ℕ) : Type 0 where
  pub same_length : length more ≡ length bits
  pub keeps : (pos : ℕ) → is_set pos bits ≡ true → is_set pos more ≡ true

same_total : (bits more : List ℕ) → length more ≡ length bits → total_bits more ≡ total_bits bits
unfolding total_bits
same_total bits more h = ap (λ n. n * 32 % 2 ^ 32) h

has_words : (bits : List ℕ) → HasBits bits → (length bits == 0) ≡ false
unfolding total_bits
has_words bits h = ground arith

position_inside : (h : ℕ) (bits : List ℕ) → HasBits bits → h % total_bits bits < length bits * 32
unfolding total_bits
position_inside h bits some_bits =
    let low = mod-lt h {m = total_bits bits} some_bits in omega (arith, low)

IsMore-match :
    (k h delta : ℕ) (bits more : List ℕ)
    → HasBits bits
    → IsMore bits more
    → match_loop k h delta bits ≡ some true
    → match_loop k h delta more ≡ some true
unfolding match_loop
IsMore-match zero h delta bits more has m e = refl
IsMore-match (suc k) h delta bits more has m e =
    let there : (total_bits bits == 0) ≡ false = ground arith in
    let total = same_total bits more m.same_length in
    elim (Bool-cases (is_set (h % total_bits bits) bits)) [
      | inl hit ↦ rw total (
          rw there (
            rw (m.keeps (h % total_bits bits) hit) (
              IsMore-match k ((h + delta) % 2 ^ 32) delta bits more has m
                (rw hit at (rw there at e)))))
      | inr lost ↦ absurd (ground (arith, rw lost at (rw there at e)))
    ]

add_loop-match :
    (k h delta : ℕ) (bits : List ℕ)
    → HasBits bits
    → (more : List ℕ) × (add_loop k h delta bits ≡ some more)
      × IsMore bits more
      × (match_loop k h delta more ≡ some true)
unfolding add_loop match_loop
add_loop-match zero h delta bits has =
    (bits, refl, record { same_length = refl; keeps = λ p e. e }, refl)
add_loop-match (suc k) h delta bits has =
    let there : (total_bits bits == 0) ≡ false = ground arith in
    let pos = h % total_bits bits in
    let (changed, e, size, own, keeps) = set_position pos bits (position_inside h bits has) in
    let total = same_total bits changed size in
    let (more, f, m, matches) =
      add_loop-match k ((h + delta) % 2 ^ 32) delta changed (omega (arith, total)) in
    let last = same_total changed more m.same_length ∙ total in
    (
      more,
      rw there (rw e f),
      record { same_length = m.same_length ∙ size; keeps = λ p h. m.keeps p (keeps p h) },
      rw last (rw there (rw (m.keeps pos own) matches)),
    )

-- Add of a key to a filter that has bits: it comes back, the key matches, and what matched still does.
add-match :
    (key : List ℕ) (f : BloomFilter)
    → HasBits f.bits
    → (g : BloomFilter) × (add key f ≡ some g)
      × HasBits g.bits
      × (may_match key g ≡ some true)
      × ((other : List ℕ) → may_match other f ≡ some true → may_match other g ≡ some true)
unfolding add may_match
add-match key f has =
    let (more, e, m, matches) =
      add_loop-match f.k (slice_hash key) (hash_step (slice_hash key)) f.bits has in
    let has_more : HasBits more = omega (arith, same_total f.bits more m.same_length) in
    let filled : (length f.bits == 0) ≡ false = has_words f.bits has in
    let filled_more : (length more == 0) ≡ false = has_words more has_more in
    (
      record f { bits = more },
      rw (e, add) refl,
      has_more,
      rw filled_more matches,
      λ other h. rw filled_more (
          IsMore-match f.k (slice_hash other) (hash_step (slice_hash other)) f.bits more has m
            (rw filled at h)),
    )

add_all-match :
    (keys : List (List ℕ)) (key : List ℕ) (f : BloomFilter)
    → HasBits f.bits
    → may_match key f ≡ some true
    → (g : BloomFilter) × (add_all keys f ≡ some g) × (may_match key g ≡ some true)
unfolding add_all
add_all-match [] key f has e = (f, refl, e)
add_all-match (k ∷ keys) key f has e =
    let (g, added, has_g, own, keeps) = add-match k f has in
    let (last, rest, matches) = add_all-match keys key g has_g (keeps key e) in
    (last, rw (added, add_all) rest, matches)

-- No false negatives: a filter that has bits takes any keys, without a store outside its words, and
-- afterwards each of them may match.
pub added_matches :
    (before after : List (List ℕ)) (key : List ℕ) (f : BloomFilter)
    → HasBits f.bits
    → (g : BloomFilter) × (add_all (before ++ key ∷ after) f ≡ some g)
      × (may_match key g ≡ some true)
unfolding add_all
added_matches [] after key f has =
    let (g, added, has_g, own, keeps) = add-match key f has in
    let (last, rest, matches) = add_all-match after key g has_g own in
    (last, rw (added, add_all) rest, matches)
added_matches (k ∷ before) after key f has =
    let (g, added, has_g, own, keeps) = add-match k f has in
    let (last, rest, matches) = added_matches before after key g has_g in
    (last, rw (added, add_all) rest, matches)
