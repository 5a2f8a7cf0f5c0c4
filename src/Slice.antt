-- ===== src/Slice.antt =====
-- include/lightkv/slice.h: byte strings compared as the engine compares user keys.
-- The `int` of memcmp and `Slice::compare` is read by its sign: negative, zero or positive is
-- `Ordering.lt`, `Ordering.eq` or `Ordering.gt`.
pub mod Order
use lightkv.Prelude.{
  ℕ, zero, suc, ◌+◌, ◌-◌, ◌*◌, ◌%◌, ◌^◌, min, bit_xor, compare, Ordering, Bool, true, false, List,
  [], ◌∷◌, length, ltb, ◌==◌, if◌then◌else◌,
}

-- `memcmp(a, b, n)`, where both have `n` bytes.
unfoldable pub memcmp : ℕ → List ℕ → List ℕ → Ordering
memcmp (suc n) (x ∷ a) (y ∷ b) = elim (compare x y) [
  | Ordering.lt ↦ Ordering.lt
  | Ordering.eq ↦ memcmp n a b
  | Ordering.gt ↦ Ordering.gt
]
memcmp _ _ _ = Ordering.eq

-- Slice::compare after memcmp has found no difference.
unfoldable pub compare_sizes : List ℕ → List ℕ → Ordering
compare_sizes a b =
    if ltb (length a) (length b)
    then Ordering.lt
    else if ltb (length b) (length a)
    then Ordering.gt
    else Ordering.eq

-- Slice::compare
unfoldable pub slice_compare : List ℕ → List ℕ → Ordering
slice_compare a b = elim (memcmp (min (length a) (length b)) a b) [
  | Ordering.lt ↦ Ordering.lt
  | Ordering.eq ↦ compare_sizes a b
  | Ordering.gt ↦ Ordering.gt
]

abbrev is_eq : Ordering → Bool
is_eq Ordering.eq = true
is_eq _ = false

-- Slice::operator==
pub slice_eq : List ℕ → List ℕ → Bool
slice_eq a b = if length a == length b then is_eq (memcmp (length a) a b) else false

-- The loop of Slice::Hash.
unfoldable pub hash_loop : ℕ → List ℕ → ℕ
hash_loop h [] = h
hash_loop h (b ∷ rest) = hash_loop (bit_xor h b * 0x01000193 % 2 ^ 32) rest

-- Slice::Hash (FNV-1a)
unfoldable pub slice_hash : List ℕ → ℕ
slice_hash s = hash_loop 0x811C9DC5 s

-- Slice::operator<, and `<` of std::string and std::string_view, which compare in the same way.
unfoldable pub less : List ℕ → List ℕ → Bool
less a b = elim (slice_compare a b) [ Ordering.lt ↦ true | _ ↦ false ]
