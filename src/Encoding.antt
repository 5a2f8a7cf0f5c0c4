-- ===== src/Encoding.antt =====
-- include/lightkv/encoding.h: fixed-width integers, varints and length-prefixed slices.
-- A byte is a number below 256 and a `std::string` a list of bytes. A pair of pointers
-- `p, limit` is the list of the bytes between them, and `nullptr` is `none`.
pub mod Varint
pub mod Fixed
pub mod Slices
pub mod Examples
use lightkv.Prelude.{
  ℕ, zero, suc, ◌+◌, ◌-◌, ◌*◌, ◌/◌, ◌%◌, ◌^◌, ◌<◌, bit_and, bit_or, Bool, true, false, Option, none,
  some, List, [], ◌∷◌, ◌++◌, length, take, drop, ltb, leb, ◌==◌, if◌then◌else◌, ◌>>=◌,
}

abbrev pub IsByte : ℕ → Type 0
IsByte b = b < 256

abbrev pub IsU32 : ℕ → Type 0
IsU32 v = v < 2 ^ 32

abbrev pub IsU64 : ℕ → Type 0
IsU64 v = v < 2 ^ 64

-- The loop of PutVarint32 and PutVarint64. Each round shifts seven bits out, so a 32-bit value
-- takes at most 5 rounds and a 64-bit value at most 10; at fuel 0 the value is below 0x80.
unfoldable pub varint_loop : ℕ → ℕ → List ℕ
varint_loop zero value = (value % 256) ∷ []
varint_loop (suc fuel) value =
    let rest = varint_loop fuel (value / 2 ^ 7) in
    if leb 0x80 value then (bit_or (bit_and value 0x7F) 0x80 % 256) ∷ rest else (value % 256) ∷ []

unfoldable pub put_varint32 : List ℕ → ℕ → List ℕ
put_varint32 dst value = dst ++ varint_loop 4 value

unfoldable pub put_varint64 : List ℕ → ℕ → List ℕ
put_varint64 dst value = dst ++ varint_loop 9 value

-- `while (v >= 0x80) { v >>= 7; ++len; }`, at most four rounds for 32 bits.
unfoldable pub length_loop : ℕ → ℕ → ℕ → ℕ
length_loop zero v len = len
length_loop (suc fuel) v len =
    let rest = length_loop fuel (v / 2 ^ 7) (len + 1) in if leb 0x80 v then rest else len

unfoldable pub varint_length : ℕ → ℕ
unfolding length_loop
varint_length v = length_loop 4 v 1

-- The loop of GetVarint32 (5 rounds, width 32) and of GetVarint64 (10 rounds, width 64). `result`
-- is kept in a `uint32_t` or `uint64_t`, so a shifted group loses what passes the width.
pub get_varint_loop : ℕ → ℕ → ℕ → ℕ → List ℕ → Option (ℕ × List ℕ)
get_varint_loop width zero shift result p = none
get_varint_loop width (suc rounds) shift result [] = none
get_varint_loop width (suc rounds) shift result (byte ∷ p) =
    let more =
      get_varint_loop width rounds (shift + 7)
        (bit_or result (bit_and byte 0x7F * 2 ^ shift % 2 ^ width)) p in
    if bit_and byte 0x80 == 0 then some (bit_or result (byte * 2 ^ shift % 2 ^ width), p) else more

pub get_varint32 : List ℕ → Option (ℕ × List ℕ)
get_varint32 p = get_varint_loop 32 5 0 0 p

pub get_varint64 : List ℕ → Option (ℕ × List ℕ)
get_varint64 p = get_varint_loop 64 10 0 0 p

-- memcpy of a little-endian integer of `n` bytes.
unfoldable pub fixed_bytes : ℕ → ℕ → List ℕ
fixed_bytes zero value = []
fixed_bytes (suc n) value = (value % 256) ∷ fixed_bytes n (value / 256)

unfoldable pub put_fixed32 : List ℕ → ℕ → List ℕ
put_fixed32 dst value = dst ++ fixed_bytes 4 value

pub put_fixed64 : List ℕ → ℕ → List ℕ
put_fixed64 dst value = dst ++ fixed_bytes 8 value

-- The value of the first `n` bytes, lowest first. The callers check that they are there.
unfoldable pub decode_fixed : ℕ → List ℕ → ℕ
decode_fixed zero src = 0
decode_fixed (suc n) [] = 0
decode_fixed (suc n) (b ∷ src) = b + 256 * decode_fixed n src

unfoldable pub decode_fixed32 : List ℕ → ℕ
decode_fixed32 src = decode_fixed 4 src

unfoldable pub decode_fixed64 : List ℕ → ℕ
decode_fixed64 src = decode_fixed 8 src

-- PutLengthPrefixedSlice casts the size to `uint32_t`.
pub put_length_prefixed : List ℕ → List ℕ → List ℕ
put_length_prefixed dst slice = put_varint32 dst (length slice % 2 ^ 32) ++ slice

-- `if (p + len > limit) return nullptr; *result = Slice(p, len); return p + len;`
pub take_slice : ℕ → List ℕ → Option (List ℕ × List ℕ)
take_slice len p = if ltb (length p) len then none else some (take len p, drop len p)

pub get_length_prefixed : List ℕ → Option (List ℕ × List ℕ)
get_length_prefixed p = do (len, rest) ← get_varint32 p; take_slice len rest
