-- ===== src/Protocol.antt =====
-- src/server_protocol.cpp: the payload of a Raft entry, the blob of a set, and the keys under which
-- the server keeps its structures. A `std::string` is the list of its bytes.
pub mod RaftCommand
pub mod SetBlob
pub mod Keys
pub mod Examples
use lightkv.Prelude.{
  ℕ, zero, suc, ◌+◌, ◌%◌, ◌^◌, Bool, true, false, Option, none, some, List, [], ◌∷◌, ◌++◌, length,
  take, drop, ltb, leb, ◌==◌, if◌then◌else◌, not, ◌&&◌, ◌||◌, ◌>>=◌, bytes_eq,
}
use lightkv.Encoding.{fixed_bytes, decode_fixed32}

-- The loop of encode_raft_command over the arguments.
pub encode_args : List (List ℕ) → List ℕ
encode_args [] = []
encode_args (a ∷ args) = fixed_bytes 4 (length a % 2 ^ 32) ++ (a ++ encode_args args)

pub encode_raft_command : List (List ℕ) → List ℕ
encode_raft_command args = fixed_bytes 4 (length args % 2 ^ 32) ++ encode_args args

-- The loop of decode_raft_command from `off` on.
pub decode_args : ℕ → List ℕ → Option (List (List ℕ))
decode_args zero bytes = some []
decode_args (suc n) bytes =
    let len = decode_fixed32 bytes in
    let rest = drop 4 bytes in
    let others = decode_args n (drop len rest) in
    if ltb (length bytes) 4
    then none
    else if ltb (length rest) len
    then none
    else (others >>= λ args. some (take len rest ∷ args))

-- `none` is the result `false`.
pub decode_raft_command : List ℕ → Option (List (List ℕ))
decode_raft_command bytes =
    if ltb (length bytes) 4
    then none
    else if ltb (length bytes) (decode_fixed32 bytes)
    then none
    else decode_args (decode_fixed32 bytes) (drop 4 bytes)

-- encode_set_blob
pub encode_set_blob : List (List ℕ) → List ℕ
encode_set_blob [] = []
encode_set_blob (e ∷ elems) = e ++ (0 ∷ encode_set_blob elems)

-- `blob.find('\0', pos)`: the bytes before the first zero, and those behind it if there is one.
pub until_zero : List ℕ → List ℕ
until_zero [] = []
until_zero (b ∷ blob) = if b == 0 then [] else b ∷ until_zero blob

pub behind_zero : List ℕ → Option (List ℕ)
behind_zero [] = none
behind_zero (b ∷ blob) = if b == 0 then some blob else behind_zero blob

-- The loop of parse_set_blob; each round but the last takes one byte at least.
pub parse_loop : ℕ → List ℕ → List (List ℕ)
parse_loop zero blob = []
parse_loop (suc fuel) [] = []
parse_loop (suc fuel) (b ∷ blob) = elim (behind_zero (b ∷ blob)) [
  | none ↦ (b ∷ blob) ∷ []
  | some rest ↦ until_zero (b ∷ blob) ∷ parse_loop fuel rest
]

pub parse_set_blob : List ℕ → List (List ℕ)
parse_set_blob blob = parse_loop (length blob) blob

abbrev pub ttl_magic : ℕ
ttl_magic = 1

abbrev pub hash_prefix : List ℕ
hash_prefix = 2 ∷ b'_' ∷ b'h' ∷ b'a' ∷ b's' ∷ b'h' ∷ b'_' ∷ []

abbrev pub list_prefix : List ℕ
list_prefix = 3 ∷ b'_' ∷ b'l' ∷ b'i' ∷ b's' ∷ b't' ∷ b'_' ∷ []

abbrev pub set_prefix : List ℕ
set_prefix = 4 ∷ b'_' ∷ b's' ∷ b'e' ∷ b't' ∷ b'_' ∷ []

abbrev pub zset_prefix : List ℕ
zset_prefix = 5 ∷ b'_' ∷ b'z' ∷ b's' ∷ b'e' ∷ b't' ∷ b'_' ∷ []

abbrev pub meta_suffix : List ℕ
meta_suffix = b':' ∷ b'_' ∷ b'_' ∷ b'm' ∷ b'e' ∷ b't' ∷ b'a' ∷ b'_' ∷ b'_' ∷ []

pub ttl_key : List ℕ → List ℕ
ttl_key key = (ttl_magic ∷ b'_' ∷ b't' ∷ b't' ∷ b'l' ∷ b'_' ∷ 0 ∷ []) ++ key

pub hash_field_key : List ℕ → List ℕ → List ℕ
hash_field_key name field = hash_prefix ++ (name ++ (b':' ∷ field))

pub hash_meta_key : List ℕ → List ℕ
hash_meta_key name = hash_prefix ++ (name ++ meta_suffix)

pub list_meta_key : List ℕ → List ℕ
list_meta_key name = list_prefix ++ (name ++ meta_suffix)

pub set_blob_key : List ℕ → List ℕ
set_blob_key name = set_prefix ++ name

abbrev pub member_infix : List ℕ
member_infix = b':' ∷ b'm' ∷ b'e' ∷ b'm' ∷ b'b' ∷ b'e' ∷ b'r' ∷ b':' ∷ []

pub zset_member_key : List ℕ → List ℕ → List ℕ
zset_member_key name member = zset_prefix ++ (name ++ (member_infix ++ member))

pub zset_meta_key : List ℕ → List ℕ
zset_meta_key name = zset_prefix ++ (name ++ meta_suffix)

abbrev pub score_infix : List ℕ
score_infix = b':' ∷ b's' ∷ b'c' ∷ b'o' ∷ b'r' ∷ b'e' ∷ b':' ∷ []

pub zset_score_prefix : List ℕ → List ℕ
zset_score_prefix name = zset_prefix ++ (name ++ score_infix)

-- `key.size() >= n && key.substr(0, n) == prefix`
pub has_prefix : ℕ → List ℕ → List ℕ → Bool
has_prefix n prefix key = leb n (length key) && bytes_eq (take n key) prefix

-- is_internal_key
pub is_internal_key : List ℕ → Bool
unfolding has_prefix
is_internal_key [] = false
is_internal_key (c ∷ key) =
    if c == ttl_magic
    then true
    else has_prefix 7 hash_prefix (c ∷ key)
      || has_prefix 7 list_prefix (c ∷ key)
      || has_prefix 6 set_prefix (c ∷ key)
      || has_prefix 7 zset_prefix (c ∷ key)
