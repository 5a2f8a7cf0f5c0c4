-- ===== src/Protocol/Examples.antt =====
-- Small commands, sets and keys.
use lightkv.Prelude.{ℕ, ◌≡◌, arith, some, List, [], ◌∷◌}
use lightkv.Protocol.{encode_raft_command, decode_raft_command}
use lightkv.Protocol.RaftCommand.{raft_command_round_trip}

abbrev set_command : List (List ℕ)
set_command = (b's' ∷ b'e' ∷ b't' ∷ []) ∷ (b'k' ∷ []) ∷ [] ∷ []

raft_command_round_trip_example :
    decode_raft_command (encode_raft_command set_command) ≡ some set_command
raft_command_round_trip_example = raft_command_round_trip set_command (omega arith) (omega arith)

abbrev members : List (List ℕ)
members = (b'a' ∷ b'b' ∷ []) ∷ [] ∷ (b'c' ∷ []) ∷ []
