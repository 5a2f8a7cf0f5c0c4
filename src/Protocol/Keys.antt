-- ===== src/Protocol/Keys.antt =====
-- The keys under which the server keeps its structures, beside those of plain values.
use lightkv.Prelude.{
  ℕ, ◌<◌, ◌≡◌, refl, sym, ap, arith, true, false, List, [], ◌∷◌, ◌++◌, append_assoc,
}
use lightkv.Protocol.{
  hash_prefix, list_prefix, set_prefix, zset_prefix, ttl_key, hash_field_key, hash_meta_key,
  list_meta_key, set_blob_key, zset_member_key, zset_meta_key, zset_score_prefix, is_internal_key,
}

-- A key under one of the four prefixes.
hash_internal : (rest : List ℕ) → is_internal_key (hash_prefix ++ rest) ≡ true
unfolding is_internal_key
hash_internal rest = ground arith

list_internal : (rest : List ℕ) → is_internal_key (list_prefix ++ rest) ≡ true
unfolding is_internal_key
list_internal rest = ground arith

set_internal : (rest : List ℕ) → is_internal_key (set_prefix ++ rest) ≡ true
unfolding is_internal_key
set_internal rest = ground arith

zset_internal : (rest : List ℕ) → is_internal_key (zset_prefix ++ rest) ≡ true
unfolding is_internal_key
zset_internal rest = ground arith

-- Every key that the server makes for an expiry, a hash, a list, a set or a sorted set is an internal
-- key.
pub made_keys_internal :
    (name part : List ℕ)
    → (is_internal_key (ttl_key name) ≡ true)
      × (is_internal_key (hash_field_key name part) ≡ true)
      × (is_internal_key (hash_meta_key name) ≡ true)
      × (is_internal_key (list_meta_key name) ≡ true)
      × (is_internal_key (set_blob_key name) ≡ true)
      × (is_internal_key (zset_member_key name part) ≡ true)
      × (is_internal_key (zset_meta_key name) ≡ true)
      × (is_internal_key (zset_score_prefix name) ≡ true)
unfolding ttl_key hash_field_key hash_meta_key list_meta_key set_blob_key zset_member_key
    zset_meta_key zset_score_prefix
made_keys_internal name part = (
  unfold is_internal_key in refl,
  hash_internal _,
  hash_internal _,
  list_internal _,
  set_internal name,
  zset_internal _,
  zset_internal _,
  zset_internal _,
)

-- A key whose first byte is above 5 is not internal.
pub plain_key_not_internal : (c : ℕ) (key : List ℕ) → 5 < c → is_internal_key (c ∷ key) ≡ false
unfolding is_internal_key
plain_key_not_internal c key h = ground arith

-- The field `b:c` of the hash `a` and the field `c` of the hash `a:b` have the same key, and the
-- field `__meta__` of a hash has the key of its count.
pub hash_field_key_ambiguous :
    (a b c : List ℕ)
    → (hash_field_key a (b ++ (b':' ∷ c)) ≡ hash_field_key (a ++ (b':' ∷ b)) c)
      × (hash_field_key a (b'_' ∷ b'_' ∷ b'm' ∷ b'e' ∷ b't' ∷ b'a' ∷ b'_' ∷ b'_' ∷ [])
          ≡ hash_meta_key a)
unfolding hash_field_key hash_meta_key
hash_field_key_ambiguous a b c =
    (ap (λ l. hash_prefix ++ l) (sym (append_assoc a (b':' ∷ b) (b':' ∷ c))), refl)
