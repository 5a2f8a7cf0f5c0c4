-- ===== src/InternalKey.antt =====
-- The internal keys of include/lightkv/encoding.h: a user key followed by eight bytes that pack
-- the inverted sequence number and value type.
pub mod Trailer
pub mod Order
pub mod Examples
use lightkv.Prelude.{
  ℕ, zero, suc, ◌+◌, ◌-◌, ◌*◌, ◌/◌, ◌%◌, ◌^◌, min, bit_and, bit_or, compare, Ordering, List, [],
  ◌∷◌, ◌++◌, length, take, drop, ltb, leb, ◌==◌, if◌then◌else◌,
}
use lightkv.Slice.{memcmp}

abbrev pub type_deletion : ℕ
type_deletion = 0

abbrev pub type_value : ℕ
type_value = 1

abbrev pub trailer_size : ℕ
trailer_size = 8

-- `~x` on a `uint64_t`.
abbrev pub complement64 : ℕ → ℕ
complement64 x = 2 ^ 64 - 1 - x

pub pack_trailer : ℕ → ℕ → ℕ
pack_trailer seq type = complement64 (bit_or (seq * 2 ^ 8 % 2 ^ 64) type)

pub unpack_seq : ℕ → ℕ
unpack_seq trailer = complement64 trailer / 2 ^ 8

pub unpack_type : ℕ → ℕ
unpack_type trailer = bit_and (complement64 trailer) 0xFF

-- EncodeFixed64BE fills `dst[7]` down to `dst[0]` with the bytes of `value`, lowest first.
pub big_endian : ℕ → ℕ → List ℕ
big_endian zero value = []
big_endian (suc n) value = big_endian n (value / 2 ^ 8) ++ bit_and value 0xFF ∷ []

-- The loop of DecodeFixed64BE, over the bytes still to read.
pub big_endian_loop : ℕ → ℕ → List ℕ → ℕ
big_endian_loop zero value src = value
big_endian_loop (suc n) value [] = value
big_endian_loop (suc n) value (b ∷ src) = big_endian_loop n (bit_or (value * 2 ^ 8 % 2 ^ 64) b) src

pub decode_big_endian : List ℕ → ℕ
decode_big_endian src = big_endian_loop 8 0 src

pub make_internal_key : List ℕ → ℕ → ℕ → List ℕ
make_internal_key user_key seq type = user_key ++ big_endian 8 (pack_trailer seq type)

pub extract_user_key : List ℕ → List ℕ
extract_user_key key =
    if ltb (length key) trailer_size then key else take (length key - trailer_size) key

-- The trailer of a key that is long enough.
abbrev pub trailer : List ℕ → ℕ
trailer key = decode_big_endian (drop (length key - trailer_size) key)

pub extract_seq : List ℕ → ℕ
extract_seq key = if ltb (length key) trailer_size then 0 else unpack_seq (trailer key)

pub extract_type : List ℕ → ℕ
extract_type key = if ltb (length key) trailer_size then type_value else unpack_type (trailer key)

-- `UINT64_MAX >> 8` and 0xFF
pub seek_internal_key : List ℕ → List ℕ
seek_internal_key user_key = make_internal_key user_key ((2 ^ 64 - 1) / 2 ^ 8) 0xFF

-- The size of the user key: `size >= kTrailerSize ? size - kTrailerSize : 0`.
pub user_size : List ℕ → ℕ
user_size key = if leb trailer_size (length key) then length key - trailer_size else 0

-- CompareInternalKeys once the bytes of the user keys have shown no difference.
pub compare_trailers : List ℕ → List ℕ → Ordering
compare_trailers a b =
    let ta = decode_big_endian (drop (user_size a) a) in
    let tb = decode_big_endian (drop (user_size b) b) in
    if user_size a == user_size b
    then if user_size a == 0
      then Ordering.eq
      else if ta == tb
      then Ordering.eq
      else if ltb ta tb
      then Ordering.lt
      else Ordering.gt
    else if ltb (user_size a) (user_size b)
    then Ordering.lt
    else Ordering.gt

-- CompareInternalKeys; its -1, 0 and 1 are `lt`, `eq` and `gt`.
pub compare_internal_keys : List ℕ → List ℕ → Ordering
compare_internal_keys a b = elim (memcmp (min (user_size a) (user_size b)) a b) [
  | Ordering.lt ↦ Ordering.lt
  | Ordering.eq ↦ compare_trailers a b
  | Ordering.gt ↦ Ordering.gt
]
