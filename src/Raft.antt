-- ===== src/Raft.antt =====
-- src/raft.cpp: the state of a Raft node, its log and its roles. The handlers of remote calls are
-- in Raft/Replication.antt, Raft/Election.antt and Raft/Snapshot.antt. A call holds `mu_`, so each is
-- one step. Timers, threads, host names and the slots of waiting clients are not state here; what
-- SavePersistentState last wrote is `disk`, and the commands that the state machine was handed are
-- `applied`. Whether SavePersistentState succeeds is an answer of the file system to each call of it.
pub mod Replication
pub mod Election
pub mod Follower
pub mod Matching
pub mod Snapshot
pub mod Durable
pub mod Votes
pub mod Restart
pub mod Steps
pub mod Compaction
pub mod Calls
pub mod Sound
pub mod Leadership
pub mod Commit
pub mod Quorum
pub mod Campaign
pub mod Examples
use lightkv.Prelude.{
  ℕ, zero, suc, ◌+◌, ◌-◌, Bool, true, false, Option, none, some, List, [], ◌∷◌, ◌++◌, length,
  get_elem?, take, drop, ltb, leb, ◌==◌, if◌then◌else◌,
}

pub data Role : Type 0 where
  follower candidate leader : Role

pub data EntryType : Type 0 where
  command conf_change no_op : EntryType

-- RaftLogEntry
pub record LogEntry : Type 0 where
  pub index : ℕ
  pub term : ℕ
  pub type : EntryType
  pub payload : List ℕ

-- The identity of a peer and its right to vote.
pub record Peer : Type 0 where
  pub id : ℕ
  pub is_voter : Bool

-- What SavePersistentState writes, field by field.
pub record Disk : Type 0 where
  pub saved_term : ℕ
  pub saved_vote : ℕ
  pub saved_snapshot_index : ℕ
  pub saved_snapshot_term : ℕ
  pub saved_log : List LogEntry

pub record Node : Type 0 where
  pub node_id : ℕ
  pub peers : List Peer
  pub max_entries : ℕ
  pub current_term : ℕ
  pub voted_for : ℕ
  pub log : List LogEntry
  pub log_base : ℕ
  pub commit_index : ℕ
  pub last_applied : ℕ
  pub next_index : List ℕ
  pub match_index : List ℕ
  pub role : Role
  pub leader_id : ℕ
  pub last_snapshot_index : ℕ
  pub last_snapshot_term : ℕ
  pub snapshot : List ℕ
  pub disk : Disk
  -- What the file system answers to the calls of SavePersistentState by their number, how many there
  -- were, and whether the last one succeeded.
  pub can_save : ℕ → Bool
  pub saves : ℕ
  pub last_saved : Bool
  pub applied : List (List ℕ)

-- The state that SavePersistentState puts together.
pub written : Node → Disk
written n = record {
  saved_term = n.current_term;
  saved_vote = n.voted_for;
  saved_snapshot_index = n.last_snapshot_index;
  saved_snapshot_term = n.last_snapshot_term;
  saved_log = n.log;
}

-- Raft::SavePersistentState, as its callers use it: a failure leaves the old file, and they ignore it.
pub save : Node → Node
save n = record n {
  disk = if n.can_save n.saves then written n else n.disk;
  saves = n.saves + 1;
  last_saved = n.can_save n.saves;
}

-- Raft::LogPos over `log_base_` and `log_`; `none` is kNoPos.
pub position : ℕ → List LogEntry → ℕ → Option ℕ
position base log index =
    if ltb index base
    then none
    else if leb (length log) (index - base)
    then none
    else some (index - base)

abbrev pub log_pos : Node → ℕ → Option ℕ
log_pos n index = position n.log_base n.log index

-- Raft::LastLogIndex; the log holds its base entry at least.
pub last_log_index : Node → ℕ
last_log_index n = n.log_base + length n.log - 1

-- The term of the entry at a position, 0 where there is none.
pub term_at : List LogEntry → ℕ → ℕ
term_at [] i = 0
term_at (e ∷ log) zero = e.term
term_at (e ∷ log) (suc i) = term_at log i

-- Raft::GetLastLogTerm
pub last_log_term : Node → ℕ
last_log_term n = term_at n.log (length n.log - 1)

-- Raft::GetTermForIndex
pub term_for_index : Node → ℕ → ℕ
term_for_index n index = elim (log_pos n index) [ none ↦ 0 | some pos ↦ term_at n.log pos ]

-- Raft::BecomeFollower
pub become_follower : ℕ → Node → Node
unfolding save
become_follower term n = save (record n { current_term = term; role = follower; voted_for = 0 })

-- Raft::BecomeCandidate
pub become_candidate : Node → Node
unfolding save
become_candidate n = save (record n {
  current_term = n.current_term + 1;
  role = candidate;
  voted_for = n.node_id;
  leader_id = 0;
})

-- The loop of BecomeLeader over the peers, beside the slots of next_index_ and match_index_.
pub reset_next : ℕ → ℕ → List Peer → List ℕ → List ℕ
reset_next self last (p ∷ peers) (x ∷ next) =
    (if p.id == self then x else last + 1) ∷ reset_next self last peers next
reset_next self last _ next = next

pub reset_match : ℕ → ℕ → List Peer → List ℕ → List ℕ
reset_match self last (p ∷ peers) (x ∷ matches) =
    (if p.id == self then last else 0) ∷ reset_match self last peers matches
reset_match self last _ matches = matches

-- Raft::BecomeLeader, which ends with a no-op entry of the new term.
pub become_leader : Node → Node
unfolding save
become_leader n =
    let last = last_log_index n in
    save (record n {
      role = leader;
      leader_id = n.node_id;
      next_index = reset_next n.node_id last n.peers n.next_index;
      match_index = reset_match n.node_id last n.peers n.match_index;
      log =
          n.log
          ++ (record { index = last + 1; term = n.current_term; type = no_op; payload = [] }) ∷ [];
    })

-- Raft::Propose; `none` is the -1 of a node that does not lead.
pub propose : List ℕ → Node → Option ℕ × Node
unfolding save
propose bytes n = elim n.role [
  | leader ↦ (
    some (last_log_index n + 1),
    save (record n {
      log =
          n.log
          ++ (record {
            index = last_log_index n + 1;
            term = n.current_term;
            type = command;
            payload = bytes;
          })
            ∷ [];
    }),
  )
  | _ ↦ (none, n)
]

-- One round of ApplyCommitted, at the index behind last_applied_.
pub apply_entry : LogEntry → List (List ℕ) → List (List ℕ)
apply_entry e applied = elim e.type [ command ↦ applied ++ e.payload ∷ [] | _ ↦ applied ]

pub apply_at : Node → List (List ℕ)
unfolding apply_entry
apply_at n = elim (log_pos n (n.last_applied + 1)) [
  | none ↦ n.applied
  | some pos ↦ elim (get_elem? n.log pos) [ none ↦ n.applied | some e ↦ apply_entry e n.applied ]
]

-- Raft::ApplyCommitted: `commit_index - last_applied` rounds.
pub apply_rounds : ℕ → Node → Node
apply_rounds zero n = n
apply_rounds (suc k) n =
    apply_rounds k (record n { last_applied = n.last_applied + 1; applied = apply_at n })

pub apply_committed : Node → Node
apply_committed n = apply_rounds (n.commit_index - n.last_applied) n
