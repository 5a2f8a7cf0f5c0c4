-- ===== src/Cache/Blocks/Offsets.antt =====
-- The index of the block cache: the offsets of each file.
use lightkv.Prelude.{
  ℕ, ◌+◌, ◌≤◌, false, List, [], ◌∷◌, ◌++◌, ◌==◌, ==_iff, if◌then◌else◌, ◌≡◌, refl, arith,
  Bool-cases, inl, inr,
}
use lightkv.Cache.Blocks.{block_eq, offsets_of, push_offset, erase_index}

-- How often an offset stands among a file's offsets.
unfoldable pub count_offset : ℕ → List ℕ → ℕ
count_offset o [] = 0
count_offset o (x ∷ offsets) = (if x == o then 1 else 0) + count_offset o offsets

count_offset-append :
    (o : ℕ) (xs ys : List ℕ) → count_offset o (xs ++ ys) ≡ count_offset o xs + count_offset o ys
unfolding count_offset
count_offset-append o [] ys = omega arith
count_offset-append o (x ∷ xs) ys = omega (arith, count_offset-append o xs ys)

count_last : (o : ℕ) → count_offset o (o ∷ []) ≡ 1
unfolding count_offset
count_last o = rw ((==_iff o o).1 refl) refl

pub pushed_offset :
    (file offset : ℕ) (index : List (ℕ × List ℕ))
    → 1 ≤ count_offset offset (offsets_of file (push_offset file offset index))
unfolding offsets_of push_offset count_offset
pushed_offset file offset [] = ground arith
pushed_offset file offset ((f, offsets) ∷ index) = elim (Bool-cases (f == file)) [
  | inl this ↦
      rw this (
        rw this
          (omega (arith, count_offset-append offset offsets (offset ∷ []), count_last offset)))
  | inr other ↦ rw other (rw other (pushed_offset file offset index))
]

pub kept_offset :
    (f o file offset : ℕ) (index : List (ℕ × List ℕ))
    → count_offset o (offsets_of f index)
      ≤ count_offset o (offsets_of f (push_offset file offset index))
unfolding offsets_of push_offset count_offset
kept_offset f o file offset [] = ground arith
kept_offset f o file offset ((g, offsets) ∷ index) = elim (Bool-cases (g == file)) [
  | inl this ↦ elim (Bool-cases (g == f)) [
    | inl same ↦ rw this (rw same (omega (arith, count_offset-append o offsets (offset ∷ []))))
    | inr differs ↦ rw this (rw differs (omega arith))
  ]
  | inr other ↦ elim (Bool-cases (g == f)) [
    | inl same ↦ rw other (rw same (omega arith))
    | inr differs ↦ rw other (rw differs (kept_offset f o file offset index))
  ]
]

-- Other files keep their offsets.
pub offsets_of-erase_index :
    (f file : ℕ) (index : List (ℕ × List ℕ))
    → (f == file) ≡ false
    → offsets_of f (erase_index file index) ≡ offsets_of f index
unfolding offsets_of erase_index
offsets_of-erase_index f file [] h = refl
offsets_of-erase_index f file ((g, offsets) ∷ index) h = elim (Bool-cases (g == file)) [
  | inl this ↦ let differs : (g == f) ≡ false = ground arith in rw this (rw differs refl)
  | inr other ↦ elim (Bool-cases (g == f)) [
    | inl same ↦ rw other (rw same refl)
    | inr differs ↦ rw other (rw differs (offsets_of-erase_index f file index h))
  ]
]
