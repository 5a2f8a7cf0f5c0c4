-- ===== src/Raft/Calls.antt =====
-- All calls of a node: those of Raft/Steps.antt and those that take or install a snapshot.
use lightkv.Prelude.{ℕ, Bool, List}
use lightkv.Raft.{Node}
use lightkv.Raft.Steps.{Step}
use lightkv.Raft.Snapshot.{
  InstallRequest, trigger_snapshot, check_and_compact_log, commit_installed_snapshot,
  handle_install_snapshot,
}

-- `chunks` is what the last chunk of a snapshot leads to behind a later term, with any index and term,
-- and `chunks_fail` what it does where the state machine refuses the snapshot.
pub data Call : Node → Node → Type 0 where
  step : {n m : Node} → Step n m → Call n m
  takes_snapshot :
      (snap_data : List ℕ) (is_written : Bool) (n : Node)
      → Call n (trigger_snapshot snap_data is_written n).1
  compacts :
      (threshold : ℕ) (snap_data : List ℕ) (is_written : Bool) (n : Node)
      → Call n (check_and_compact_log threshold snap_data is_written n)
  installs :
      (req : InstallRequest) (is_applied : Bool) (n : Node)
      → Call n (handle_install_snapshot req is_applied n).0
  chunks :
      (leader_id cut_index cut_term : ℕ) (bytes : List ℕ) (n : Node)
      → Call n
          (commit_installed_snapshot cut_index cut_term bytes (record n { leader_id = leader_id }))
  chunks_fail : (leader_id : ℕ) (n : Node) → Call n (record n { leader_id = leader_id })

pub data Calls (n : Node) : Node → Type 0 where
  none_yet : Calls n n
  then : {m k : Node} → Calls n m → Call m k → Calls n k
