-- ===== src/InternalKey/Order.antt =====
-- CompareInternalKeys orders internal keys by user key, then the newest version first.
use lightkv.Prelude.{
  ℕ, zero, suc, ◌+◌, ◌-◌, ◌*◌, ◌^◌, ◌≤◌, ◌<◌, min, compare, Ordering, List, [], ◌∷◌, ◌++◌, length,
  drop, ◌≡◌, ◌↔◌, refl, ap, ◌∙◌, arith,
}
use native.Mathlib.Nat.{min-le_left, min-le_right}
use lightkv.Slice.{memcmp, compare_sizes, slice_compare}
use lightkv.InternalKey.{
  decode_big_endian, make_internal_key, seek_internal_key, user_size, compare_trailers,
  compare_internal_keys,
}
use lightkv.InternalKey.Trailer.{
  decode-big_endian, pack_trailer_value, pack_trailer-lt, length-make, drop-make,
}

-- Of two versions the one with the larger sequence number comes first, then the larger type.
abbrev pub newest_first : ℕ → ℕ → ℕ → ℕ → Ordering
newest_first s1 t1 s2 t2 = elim (compare s2 s1) [
  | Ordering.lt ↦ Ordering.lt
  | Ordering.eq ↦ compare t2 t1
  | Ordering.gt ↦ Ordering.gt
]

memcmp-append :
    (n : ℕ) (a b x y : List ℕ)
    → n ≤ length a
    → n ≤ length b
    → memcmp n (a ++ x) (b ++ y) ≡ memcmp n a b
unfolding memcmp
memcmp-append zero a b x y h k = refl
memcmp-append (suc n) [] b x y h k = absurd (omega arith)
memcmp-append (suc n) (c ∷ a) [] x y h k = absurd (omega arith)
memcmp-append (suc n) (c ∷ a) (d ∷ b) x y h k = ground (arith, memcmp-append n a b x y)

user_size-make : (k : List ℕ) (seq type : ℕ) → user_size (make_internal_key k seq type) ≡ length k
unfolding user_size
user_size-make k seq type = ground (arith, length-make k seq type)

-- The eight bytes behind the user key hold the packed trailer.
trailer-make :
    (k : List ℕ) (seq type : ℕ)
    → seq < 2 ^ 56
    → type < 256
    → decode_big_endian
        (drop (user_size (make_internal_key k seq type)) (make_internal_key k seq type))
      ≡ 2 ^ 64 - 1 - (seq * 256 + type)
trailer-make k seq type h t =
    ap (λ n. decode_big_endian (drop n (make_internal_key k seq type))) (user_size-make k seq type)
    ∙ ap decode_big_endian (drop-make k seq type)
    ∙ decode-big_endian _ (pack_trailer-lt seq type)
    ∙ pack_trailer_value seq type h t

-- What is left to decide once the bytes that both user keys have are equal.
abbrev pub sizes_or_versions : Ordering → ℕ → ℕ → ℕ → ℕ → Ordering
sizes_or_versions Ordering.lt s1 t1 s2 t2 = Ordering.lt
sizes_or_versions Ordering.eq s1 t1 s2 t2 = newest_first s1 t1 s2 t2
sizes_or_versions Ordering.gt s1 t1 s2 t2 = Ordering.gt

module _ (k1 : List ℕ) (s1 t1 : ℕ) (k2 : List ℕ) (s2 t2 : ℕ) where
  same_memcmp :
      memcmp
        (min (user_size (make_internal_key k1 s1 t1)) (user_size (make_internal_key k2 s2 t2)))
        (make_internal_key k1 s1 t1)
        (make_internal_key k2 s2 t2)
      ≡ memcmp (min (length k1) (length k2)) k1 k2
  same_memcmp =
      rw (user_size-make k1 s1 t1, user_size-make k2 s2 t2)
        (unfold make_internal_key in memcmp-append _ k1 k2 _ _ (min-le_left _ _) (min-le_right _ _))

  trailers_decide :
      s1 < 2 ^ 56
      → t1 < 256
      → s2 < 2 ^ 56
      → t2 < 256
      → 0 < length k1 + length k2
      → compare_trailers (make_internal_key k1 s1 t1) (make_internal_key k2 s2 t2)
        ≡ sizes_or_versions (compare_sizes k1 k2) s1 t1 s2 t2
  unfolding compare_trailers compare_sizes
  trailers_decide a b c d some_byte =
      rw
        (
          trailer-make k1 s1 t1 a b,
          trailer-make k2 s2 t2 c d,
          user_size-make k1 s1 t1,
          user_size-make k2 s2 t2,
        )
        (ground arith)

  -- CompareInternalKeys orders by user key as Slice::compare does, and the versions of one user
  -- key newest first (larger sequence number, then larger type). The sequence numbers have 56
  -- bits, the types eight, and one of the user keys is not empty.
  pub internal_key_order :
      s1 < 2 ^ 56
      → t1 < 256
      → s2 < 2 ^ 56
      → t2 < 256
      → 0 < length k1 + length k2
      → compare_internal_keys (make_internal_key k1 s1 t1) (make_internal_key k2 s2 t2)
        ≡ sizes_or_versions (slice_compare k1 k2) s1 t1 s2 t2
  unfolding compare_internal_keys slice_compare
  internal_key_order a b c d some_byte =
      ap
        (λ o. elim o [
          | Ordering.lt ↦ Ordering.lt
          | Ordering.eq ↦ compare_trailers (make_internal_key k1 s1 t1) (make_internal_key k2 s2 t2)
          | Ordering.gt ↦ Ordering.gt
        ])
        same_memcmp
      ∙ ground (arith, trailers_decide a b c d some_byte)

-- The versions of the empty user key are not ordered: all of them compare as equal.
pub empty_key_unordered :
    (s1 t1 s2 t2 : ℕ)
    → compare_internal_keys (make_internal_key [] s1 t1) (make_internal_key [] s2 t2) ≡ Ordering.eq
unfolding compare_internal_keys compare_trailers memcmp
empty_key_unordered s1 t1 s2 t2 =
    ground (arith, same_memcmp [] s1 t1 [] s2 t2, user_size-make [] s1 t1, user_size-make [] s2 t2)

-- The seek key of a user key stands before all versions of that key and behind every version of
-- a smaller user key (not both empty).
pub seek_internal_key_first :
    (k u : List ℕ) (seq type : ℕ)
    → seq < 2 ^ 56
    → type < 256
    → 0 < length k + length u
    → (compare_internal_keys (make_internal_key u seq type) (seek_internal_key k) ≡ Ordering.lt)
      ↔ (slice_compare u k ≡ Ordering.lt)
unfolding seek_internal_key
seek_internal_key_first k u seq type h t some_byte = ground (
  arith,
  internal_key_order u seq type k (2 ^ 56 - 1) 0xFF h t (omega arith) (omega arith) (omega arith),
)
