-- ===== src/Raft/Election.antt =====
-- src/raft.cpp: HandleRequestVote, and StartElection with the answers to it.
use lightkv.Prelude.{
  ℕ, ◌+◌, ◌/◌, Bool, true, false, List, [], ◌∷◌, ltb, leb, ◌==◌, if◌then◌else◌, not, ◌&&◌,
}
use lightkv.Raft.{
  Role, candidate, Peer, Node, save, last_log_index, last_log_term, become_follower,
  become_candidate, become_leader,
}
use lightkv.Raft.Replication.{count_voters}

-- RequestVoteRequest
pub record VoteRequest : Type 0 where
  pub term : ℕ
  pub candidate_id : ℕ
  pub last_log_index : ℕ
  pub last_log_term : ℕ

-- RequestVoteResponse
pub record VoteResponse : Type 0 where
  pub term : ℕ
  pub vote_granted : Bool

-- The candidate's log is at least as new as the node's own.
unfoldable pub up_to_date : VoteRequest → Node → Bool
up_to_date req n =
    if ltb (last_log_term n) req.last_log_term
    then true
    else req.last_log_term == last_log_term n && leb (last_log_index n) req.last_log_index

-- HandleRequestVote once the term has been dealt with.
unfoldable pub decide_vote : VoteRequest → ℕ → Node → Node × VoteResponse
unfolding save
decide_vote req old_term n =
    let refused : VoteResponse = record { term = old_term; vote_granted = false } in
    if not (n.voted_for == 0) && not (n.voted_for == req.candidate_id)
    then (n, refused)
    else if up_to_date req n
    then (
      save (record n { voted_for = req.candidate_id }),
      record { term = old_term; vote_granted = true },
    )
    else (n, refused)

-- Raft::HandleRequestVote
unfoldable pub handle_request_vote : VoteRequest → Node → Node × VoteResponse
unfolding decide_vote
handle_request_vote req n =
    if ltb req.term n.current_term
    then (n, record { term = n.current_term; vote_granted = false })
    else decide_vote req n.current_term
        (if ltb n.current_term req.term then become_follower req.term n else n)

-- What comes back from a peer. The lock is free during the call, so that other calls may have
-- changed the node meanwhile.
pub record Answer : Type 0 where
  pub meanwhile : Node → Node
  pub response : VoteResponse

-- Whether StartElection asks a peer.
unfoldable pub is_asked : Node → Peer → Bool
is_asked n p = not (p.id == n.node_id) && p.is_voter

abbrev pub is_candidate : Role → Bool
is_candidate candidate = true
is_candidate _ = false

-- The loop of StartElection over the peers; `ask` gives each peer's answer.
unfoldable pub election_loop : (ℕ → Answer) → ℕ → ℕ → ℕ → List Peer → Node → Node
election_loop ask term needed votes [] n = if leb needed votes then become_leader n else n
election_loop ask term needed votes (p ∷ peers) n =
    let n' = (ask p.id).meanwhile n in
    let resp = (ask p.id).response in
    let without = election_loop ask term needed votes peers n in
    let refused = election_loop ask term needed votes peers n' in
    let granted = election_loop ask term needed (votes + 1) peers n' in
    if is_asked n p
    then if is_candidate n'.role && n'.current_term == term
      then if ltb n'.current_term resp.term
        then become_follower resp.term n'
        else if resp.vote_granted
        then (if leb needed (votes + 1) then become_leader n' else granted)
        else refused
      else n'
    else without

-- Raft::StartElection
unfoldable pub start_election : (ℕ → Answer) → Node → Node
start_election ask n = election_loop ask n.current_term (count_voters n.peers / 2 + 1) 1 n.peers n

-- Raft::HandleElectionTimeout
unfoldable pub handle_election_timeout : (ℕ → Answer) → Node → Node
handle_election_timeout ask n = start_election ask (become_candidate n)
