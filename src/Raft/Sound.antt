-- ===== src/Raft/Sound.antt =====
-- What all calls of a node keep of its log and of what is on disk.
mod Handlers
use lightkv.Prelude.{
  ℕ, zero, suc, ◌+◌, Bool, true, ◌<◌, length, List, [], ◌∷◌, ◌++◌, ltb, ◌≡◌, inl, inr, refl, sym,
  ◌∙◌, arith, Bool-cases, length-append,
}
use lightkv.Raft.{
  no_op, LogEntry, Node, term_for_index, written, save, last_log_index, become_follower,
  become_candidate, become_leader, propose,
}
use lightkv.Raft.Replication.{
  AppendRequest, AppendResponse, handle_append_entries, handle_append_response,
}
use lightkv.Raft.Election.{VoteRequest, decide_vote, handle_request_vote}
use lightkv.Raft.Matching.{IsIndexed, IsIndexed-append}
use lightkv.Raft.Durable.{handle_append_entries-Settled, handle_append_entries_stale}
use lightkv.Raft.Votes.{Decision, keeps, votes, stale, newer, same, handling}
pub use lightkv.Raft.Sound.Handlers.{IsSound}
use lightkv.Raft.Sound.Handlers.{save-IsSound, grown-IsSound, become_follower-IsSound, Step-IsSound}
use lightkv.Raft.Snapshot.{
  InstallRequest, trigger_snapshot, check_and_compact_log, commit_installed_snapshot,
  install_current, handle_install_snapshot,
}
use lightkv.Raft.Compaction.{compact_log_shape, keeps_all, cuts, snapping}
use lightkv.Raft.Calls.{
  Call, step, takes_snapshot, compacts, installs, chunks, chunks_fail, Calls, none_yet, then,
}
use lightkv.Raft.Follower.{IsLog, handle_append_entries-IsLog}
use lightkv.Raft.Steps.{
  Step, append_entries, request_vote, proposal, timeout, won, answer, later_term, commit, Reach,
  here, next, advance_commit_index_shape, follows, runs, leading, Role-cases, answer_behind,
  answer_shape,
}

trigger_snapshot-IsSound :
    (snap_data : List ℕ) (is_written : Bool) (n : Node)
    → IsSound n
    → IsSound (trigger_snapshot snap_data is_written n).1
trigger_snapshot-IsSound snap_data is_written n s = elim (snapping snap_data is_written n) [
  | keeps_all out e ↦ rw e s
  | cuts e ↦
      let cut : Node = record n {
        last_snapshot_index = n.last_applied;
        last_snapshot_term = term_for_index n n.last_applied;
        snapshot = snap_data;
      } in
      let (base, log, shape, is_log) = compact_log_shape n.last_applied cut s.is_log in
      rw e (rw shape (save-IsSound (record cut { log_base = base; log = log }) is_log))
]

commit_installed_snapshot-IsSound :
    (cut_index cut_term : ℕ) (bytes : List ℕ) (n : Node)
    → IsSound (commit_installed_snapshot cut_index cut_term bytes n)
unfolding commit_installed_snapshot
commit_installed_snapshot-IsSound cut_index cut_term bytes n =
    save-IsSound _ (record { indexed = (refl, tt); nonempty = omega arith })

led-IsSound : (leader_id : ℕ) (n : Node) → IsSound n → IsSound (record n { leader_id = leader_id })
led-IsSound leader_id n s = record { is_log = s.is_log; saved = s.saved }

handle_install_snapshot-IsSound :
    (req : InstallRequest) (is_applied : Bool) (n : Node)
    → IsSound n
    → IsSound (handle_install_snapshot req is_applied n).0
unfolding handle_install_snapshot install_current
handle_install_snapshot-IsSound req is_applied n s = ground (
  arith,
  s,
  led-IsSound req.leader_id n s,
  led-IsSound req.leader_id (become_follower req.term n) (become_follower-IsSound req.term n s),
  commit_installed_snapshot-IsSound req.last_included_index req.last_included_term req.bytes
      (record n { leader_id = req.leader_id }),
  commit_installed_snapshot-IsSound req.last_included_index req.last_included_term req.bytes
      (record (become_follower req.term n) { leader_id = req.leader_id }),
)

check_and_compact_log-IsSound :
    (threshold : ℕ) (snap_data : List ℕ) (is_written : Bool) (n : Node)
    → IsSound n
    → IsSound (check_and_compact_log threshold snap_data is_written n)
unfolding check_and_compact_log
check_and_compact_log-IsSound threshold snap_data is_written n s =
    let cut = trigger_snapshot-IsSound snap_data is_written n s in
    elim (Role-cases n.role) [
      | leading led ↦ elim (Bool-cases (ltb threshold (length n.log))) [
        | inl long ↦ rw (led, check_and_compact_log) (rw long cut)
        | inr short ↦ rw (led, check_and_compact_log) (rw short s)
      ]
      | follows r ↦ rw (r, check_and_compact_log) s
      | runs r ↦ rw (r, check_and_compact_log) s
    ]

Call-IsSound : {n m : Node} → Call n m → IsSound n → IsSound m
Call-IsSound (step c) s = Step-IsSound c s
Call-IsSound (takes_snapshot snap_data is_written n) s =
    trigger_snapshot-IsSound snap_data is_written n s
Call-IsSound (compacts threshold snap_data is_written n) s =
    check_and_compact_log-IsSound threshold snap_data is_written n s
Call-IsSound (installs req is_applied n) s = handle_install_snapshot-IsSound req is_applied n s
Call-IsSound (chunks leader_id cut_index cut_term bytes n) s =
    commit_installed_snapshot-IsSound cut_index cut_term bytes _
Call-IsSound (chunks_fail leader_id n) s = led-IsSound leader_id n s

-- Any sequence of calls of a node (AppendEntries, RequestVote, Propose, an election timeout, a won
-- election, an answer to AppendEntries, a later term, AdvanceCommitIndex, TriggerSnapshot,
-- CheckAndCompactLog, InstallSnapshot in one piece or in chunks, AddPeer and RemovePeer) keeps its log
-- numbered from its base without a gap and never empty, and if the last SavePersistentState
-- succeeded, the term and the vote on disk are those in memory.
pub Reach-IsSound : {n m : Node} → Calls n m → IsSound n → IsSound m
Reach-IsSound none_yet s = s
Reach-IsSound (then r c) s = Call-IsSound c (Reach-IsSound r s)
