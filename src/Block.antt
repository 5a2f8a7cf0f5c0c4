-- ===== src/Block.antt =====
-- src/block_builder.cpp and src/block.cpp: a block of prefix-compressed entries.
-- A position in a block is the list of the bytes from there to `limit_`, so `p >= limit_` reads
-- `[]`; `tail` is what stands behind `limit_`. A read past the end of the block is `none`.
pub mod Shape
pub mod Scan
pub mod Checksum
pub mod Examples
use lightkv.Prelude.{
  ℕ, zero, suc, ◌+◌, ◌-◌, ◌*◌, ◌/◌, ◌%◌, ◌^◌, ◌<◌, Bool, true, false, Option, none, some, List, [],
  ◌∷◌, ◌++◌, length, take, drop, ltb, leb, ◌==◌, if◌then◌else◌, ◌>>=◌,
}
use lightkv.Encoding.{put_varint32, get_varint32, put_fixed32, decode_fixed32}
use lightkv.Crc.{crc32c}

-- BlockBuilder
pub record Builder : Type 0 where
  pub restart_interval : ℕ
  pub buffer : List ℕ
  pub restarts : List ℕ
  pub last_key : List ℕ
  pub counter : ℕ
  pub finished : Bool

-- BlockBuilder::BlockBuilder
pub new_builder : ℕ → Builder
new_builder interval = record {
  restart_interval = interval;
  buffer = [];
  restarts = 0 ∷ [];
  last_key = [];
  counter = 0;
  finished = false;
}

-- `while (shared < min_len && last_key_[shared] == key[shared]) ++shared;`
pub shared_prefix : List ℕ → List ℕ → ℕ
shared_prefix (x ∷ a) (y ∷ b) = let more = suc (shared_prefix a b) in if x == y then more else 0
shared_prefix _ _ = 0

-- The three lengths, the rest of the key and the value, behind the buffer.
pub append_entry : List ℕ → ℕ → List ℕ → List ℕ → List ℕ
append_entry buffer shared key value =
    let non_shared = (length key - shared) % 2 ^ 32 in
    put_varint32 (put_varint32 (put_varint32 buffer (shared % 2 ^ 32)) non_shared)
      (length value % 2 ^ 32)
    ++ (take non_shared (drop shared key) ++ value)

-- BlockBuilder::Add
pub add : Builder → List ℕ → List ℕ → Builder
add b key value =
    if ltb b.counter b.restart_interval
    then record b {
      buffer = append_entry b.buffer (shared_prefix b.last_key key) key value;
      last_key = key;
      counter = b.counter + 1;
    }
    else record b {
      buffer = append_entry b.buffer 0 key value;
      restarts = b.restarts ++ (length b.buffer % 2 ^ 32) ∷ [];
      last_key = key;
      counter = 1;
    }

-- `for (uint32_t restart : restarts_) PutFixed32(&buffer_, restart);`
pub put_restarts : List ℕ → List ℕ → List ℕ
put_restarts buffer [] = buffer
put_restarts buffer (r ∷ restarts) = put_restarts (put_fixed32 buffer r) restarts

pub finished_bytes : Builder → List ℕ
finished_bytes b =
    let body = put_fixed32 (put_restarts b.buffer b.restarts) (length b.restarts % 2 ^ 32) in
    put_fixed32 body (crc32c body)

-- BlockBuilder::Finish, which returns the buffer.
pub finish : Builder → Builder
finish b = if b.finished then b else record b { buffer = finished_bytes b; finished = true }

-- BlockBuilder::Reset
pub reset : Builder → Builder
reset b = record b { buffer = []; restarts = 0 ∷ []; last_key = []; counter = 0; finished = false }

-- The checksum verdict of Block::Block, where verification is asked for.
pub checksum_ok : List ℕ → Bool
checksum_ok block =
    let n = length block in
    if leb 4 n then decode_fixed32 (drop (n - 4) block) == crc32c (take (n - 4) block) else true

-- What Block::Iterator::Iterator sets: the entries, what stands behind `limit_`, and the count of
-- restart points. `none` where `limit_` would lie outside the block.
pub record View : Type 0 where
  pub entries : List ℕ
  pub tail : List ℕ
  pub num_restarts : ℕ

-- `size - (2 + restart_count) * sizeof(uint32_t)`, stored in a `uint32_t`; the sum in brackets is
-- one of 32 bits, the difference one of 64.
pub restart_offset : ℕ → ℕ → ℕ
restart_offset size count = (size + 2 ^ 64 - (2 + count) % 2 ^ 32 * 4) % 2 ^ 64 % 2 ^ 32

-- The count of restart points that the block states.
pub stored_count : List ℕ → ℕ
stored_count block =
    if leb 8 (length block) then decode_fixed32 (drop (length block - 8) block) else 0

pub view_at : List ℕ → ℕ → ℕ → Option View
view_at block count offset =
    if count == 0
    then some (record { entries = []; tail = block; num_restarts = 0 })
    else if leb offset (length block)
    then some
        (record { entries = take offset block; tail = drop offset block; num_restarts = count })
    else none

pub open_view : List ℕ → Option View
open_view block =
    view_at block (stored_count block) (restart_offset (length block) (stored_count block))

-- DecodeEntry: the three lengths, and the bytes behind them.
pub decode_entry : List ℕ → Option (ℕ × ℕ × ℕ × List ℕ)
decode_entry [] = none
decode_entry (byte ∷ p) = do
  (shared, p1) ← get_varint32 (byte ∷ p)
  (non_shared, p2) ← get_varint32 p1
  (value_len, p3) ← get_varint32 p2
  some (shared, non_shared, value_len, p3)

-- Block::Iterator: `data_` as the bytes up to `limit_`, and `key_buffer_`.
pub record Cursor : Type 0 where
  pub rest : List ℕ
  pub key_buffer : List ℕ

abbrev pub at_limit : Cursor → Cursor
at_limit c = record c { rest = [] }

-- `n` bytes from a position, which may lie behind `limit_` but not behind the block.
pub read_bytes : View → ℕ → List ℕ → Option (List ℕ)
read_bytes v n p =
    let there = p ++ v.tail in if ltb (length there) n then none else some (take n there)

-- Block::Iterator::ParseEntry
pub parse_entry : View → Cursor → Option Cursor
parse_entry v c = elim (decode_entry c.rest) [
  | none ↦ some (at_limit c)
  | some (shared, non_shared, value_len, p) ↦
      if ltb (length c.key_buffer) shared then some (at_limit c) else (do
        bytes ← read_bytes v non_shared p
        some (record c { key_buffer = take shared c.key_buffer ++ bytes }))
]

-- Block::Iterator::GetRestartPoint
pub restart_point : View → ℕ → Option ℕ
restart_point v index =
    let there = drop (index * 4) v.tail in
    if ltb (length there) 4 then none else some (decode_fixed32 there)

-- Block::Iterator::Valid
pub valid : Cursor → Bool
valid c = elim c.rest [ [] ↦ false | b ∷ p ↦ true ]

-- Block::Iterator::SeekToFirst
pub seek_to_first : View → Cursor → Option Cursor
seek_to_first v c = if v.num_restarts == 0 then some (at_limit c) else (do
  offset ← restart_point v 0
  parse_entry v (record { rest = drop offset v.entries; key_buffer = [] }))

-- Block::Iterator::Next
pub next : View → Cursor → Option Cursor
next v c =
    if valid c
    then elim (decode_entry c.rest) [
      | none ↦ some (at_limit c)
      | some (shared, non_shared, value_len, p) ↦
          if leb (length p) (non_shared + value_len)
          then some (at_limit c)
          else parse_entry v (record c { rest = drop (non_shared + value_len) p })
    ]
    else some c

-- Block::Iterator::value
pub value : View → Cursor → Option (List ℕ)
value v c = elim (decode_entry c.rest) [
  | none ↦ some []
  | some (shared, non_shared, value_len, p) ↦ do
    bytes ← read_bytes v (non_shared + value_len) p
    some (drop non_shared bytes)
]
