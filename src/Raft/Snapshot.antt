-- ===== src/Raft/Snapshot.antt =====
-- src/raft.cpp: snapshots, the compaction of the log and the changes of membership. What the state
-- machine hands out as a snapshot, whether it takes one and whether the snapshot file was written are
-- arguments. The chunks of a snapshot are not state here; what their last one leads to is
-- `commit_installed_snapshot`.
use lightkv.Prelude.{
  ℕ, zero, suc, ◌+◌, ◌/◌, ◌%◌, Bool, true, false, none, some, List, [], ◌∷◌, ◌++◌, length,
  get_elem?, ltb, leb, ◌==◌, if◌then◌else◌,
}
use lightkv.Raft.{
  leader, conf_change, no_op, Node, save, log_pos, last_log_index, term_for_index, become_follower,
}

-- Raft::CompactLog
unfoldable pub compact_log : ℕ → Node → Node
compact_log snap_index n = if snap_index == 0 then n else elim (log_pos n snap_index) [
  | none ↦ n
  | some pos ↦ elim (get_elem? n.log pos) [
    | none ↦ n
    | some base ↦ record n { log = base ∷ []; log_base = snap_index }
  ]
]

abbrev pub is_empty : List ℕ → Bool
is_empty [] = true
is_empty (x ∷ xs) = false

-- Raft::TriggerSnapshot; `snap_data` is what TakeSnapshot answers and `is_written` whether
-- SaveSnapshotData succeeds, without which the snapshot's fields are set back.
unfoldable pub trigger_snapshot : List ℕ → Bool → Node → Bool × Node
unfolding save
trigger_snapshot snap_data is_written n =
    if n.last_applied == 0
    then (false, n)
    else if leb n.last_applied n.last_snapshot_index
    then (true, n)
    else if is_empty snap_data
    then (false, n)
    else if is_written
    then (
      true,
      save (
          compact_log n.last_applied (record n {
            last_snapshot_index = n.last_applied;
            last_snapshot_term = term_for_index n n.last_applied;
            snapshot = snap_data;
          })),
    )
    else (false, n)

-- Raft::CheckAndCompactLog
unfoldable pub check_and_compact_log : ℕ → List ℕ → Bool → Node → Node
check_and_compact_log threshold snap_data is_written n = elim n.role [
  | leader ↦ if ltb threshold (length n.log) then (trigger_snapshot snap_data is_written n).1 else n
  | _ ↦ n
]

-- InstallSnapshotRequest
pub record InstallRequest : Type 0 where
  pub term : ℕ
  pub leader_id : ℕ
  pub last_included_index : ℕ
  pub last_included_term : ℕ
  pub bytes : List ℕ

-- InstallSnapshotResponse
pub record InstallResponse : Type 0 where
  pub term : ℕ
  pub success : Bool

-- Raft::CommitInstalledSnapshot
unfoldable pub commit_installed_snapshot : ℕ → ℕ → List ℕ → Node → Node
unfolding save
commit_installed_snapshot cut_index cut_term bytes n = save (record n {
  log = (record { index = cut_index; term = cut_term; type = no_op; payload = [] }) ∷ [];
  log_base = cut_index;
  commit_index = cut_index;
  last_applied = cut_index;
  last_snapshot_index = cut_index;
  last_snapshot_term = cut_term;
  snapshot = bytes;
})

-- Raft::HandleInstallSnapshot behind the term check; `is_applied` is what ApplySnapshot answers.
unfoldable pub install_current : InstallRequest → ℕ → Bool → Node → Node × InstallResponse
install_current req old_term is_applied n =
    if is_empty req.bytes
    then (n, record { term = old_term; success = false })
    else if leb req.last_included_index n.last_applied
    then (n, record { term = old_term; success = true })
    else if is_applied
    then (
      commit_installed_snapshot req.last_included_index req.last_included_term req.bytes n,
      record { term = old_term; success = true },
    )
    else (n, record { term = old_term; success = false })

-- Raft::HandleInstallSnapshot
unfoldable pub handle_install_snapshot : InstallRequest → Bool → Node → Node × InstallResponse
handle_install_snapshot req is_applied n =
    if ltb req.term n.current_term
    then (n, record { term = n.current_term; success = false })
    else install_current req n.current_term is_applied
        (record (if ltb n.current_term req.term then become_follower req.term n else n) {
          leader_id = req.leader_id;
        })

-- std::to_string; a 64-bit number has 20 digits at most.
pub digits : ℕ → ℕ → List ℕ
digits zero x = []
digits (suc k) x =
    let higher = digits k (x / 10) in (if ltb x 10 then [] else higher) ++ (48 + x % 10) ∷ []

-- The end of AddPeer and RemovePeer on a leader: an entry of the change, with its number.
unfoldable pub change_peer : List ℕ → ℕ → Node → Bool × Node
unfolding save
change_peer tag peer_node_id n = elim n.role [
  | leader ↦ (
    true,
    save (record n {
      log =
          n.log
          ++ (record {
            index = last_log_index n + 1;
            term = n.current_term;
            type = conf_change;
            payload = tag ++ digits 20 peer_node_id;
          })
            ∷ [];
    }),
  )
  | _ ↦ (false, n)
]

-- Raft::AddPeer, whose entry is "ADD|" and the id.
unfoldable pub add_peer : ℕ → Node → Bool × Node
add_peer peer_node_id n = change_peer (65 ∷ 68 ∷ 68 ∷ 124 ∷ []) peer_node_id n

-- Raft::RemovePeer, whose entry is "REM|" and the id.
unfoldable pub remove_peer : ℕ → Node → Bool × Node
remove_peer peer_node_id n = change_peer (82 ∷ 69 ∷ 77 ∷ 124 ∷ []) peer_node_id n
