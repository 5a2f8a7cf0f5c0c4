-- ===== src/Block/Examples.antt =====
-- A block of three entries, two of which share a prefix.
use lightkv.Prelude.{ℕ, ◌<◌, ◌^◌, ◌≡◌, arith, some, List, [], ◌∷◌, length}
use lightkv.Encoding.{put_fixed32, varint_loop, put_varint32, fixed_bytes}
use lightkv.Block.{
  new_builder, shared_prefix, append_entry, add, put_restarts, finished_bytes, finish, View, Cursor,
  open_view, seek_to_first,
}
use lightkv.Block.Shape.{add_all}
use lightkv.Block.Scan.{scan, block_of, block_round_trip}

abbrev three : List (List ℕ × List ℕ)
three = (b'a' ∷ b'b' ∷ [], 1 ∷ []) ∷ (b'a' ∷ b'c' ∷ [], 2 ∷ []) ∷ (b'b' ∷ [], []) ∷ []

small : length (block_of 2 three) < 2 ^ 32
unfolding add_all new_builder add shared_prefix append_entry finish finished_bytes put_restarts
    put_fixed32 put_varint32 varint_loop fixed_bytes
small = omega arith

block_round_trip_example :
    (v : View) × (c : Cursor) × (open_view (block_of 2 three) ≡ some v)
    × ((start : Cursor) → seek_to_first v start ≡ some c)
    × (scan 4 v c ≡ some three)
block_round_trip_example = block_round_trip 2 three (omega arith) small
