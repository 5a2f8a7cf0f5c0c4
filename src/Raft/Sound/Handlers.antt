-- ===== src/Raft/Sound/Handlers.antt =====
-- What every call of a node keeps of its log and of what is on disk.
use lightkv.Prelude.{
  ℕ, ◌+◌, true, List, [], ◌∷◌, ◌++◌, ltb, ◌≡◌, inl, inr, refl, sym, ◌∙◌, arith, Bool-cases,
  length-append,
}
use lightkv.Raft.{
  no_op, LogEntry, Node, written, save, last_log_index, become_follower, become_candidate,
  become_leader, propose,
}
use lightkv.Raft.Replication.{
  AppendRequest, AppendResponse, handle_append_entries, handle_append_response,
}
use lightkv.Raft.Election.{VoteRequest, decide_vote, handle_request_vote}
use lightkv.Raft.Matching.{IsIndexed-append}
use lightkv.Raft.Durable.{handle_append_entries-Settled, handle_append_entries_stale}
use lightkv.Raft.Votes.{Decision, keeps, votes, stale, newer, same, handling}
use lightkv.Raft.Snapshot.{change_peer, add_peer, remove_peer}
use lightkv.Raft.Follower.{IsLog, handle_append_entries-IsLog}
use lightkv.Raft.Steps.{
  Step, append_entries, request_vote, proposal, timeout, won, answer, later_term, commit, adds,
  removes, advance_commit_index_shape, follows, runs, leading, Role-cases, answer_behind,
  answer_shape,
}

-- Log and disk of a node between two calls.
pub record IsSound (n : Node) : Type 0 where
  pub is_log : IsLog n.log_base n.log
  pub saved :
      n.last_saved ≡ true → (n.disk.saved_term ≡ n.current_term) × (n.disk.saved_vote ≡ n.voted_for)

-- A write of the state after a change of the log.
pub save-IsSound : (n : Node) → IsLog n.log_base n.log → IsSound (save n)
unfolding save written
save-IsSound n is_log = record { is_log = is_log; saved = λ ok. rw ok (refl, refl) }

-- A log that has grown by an entry of its own numbering.
pub grown-IsSound :
    (n : Node) (e : LogEntry)
    → e.index ≡ last_log_index n + 1
    → IsSound n
    → IsSound (save (record n { log = n.log ++ e ∷ [] }))
unfolding last_log_index save written
grown-IsSound n e numbered s = record {
  is_log = record {
    indexed =
        IsIndexed-append n.log_base n.log e s.is_log.indexed (omega (arith, s.is_log.nonempty));
    nonempty = omega (arith, length-append n.log (e ∷ []));
  };
  saved = λ ok. rw ok (refl, refl);
}

become_leader-IsSound : (n : Node) → IsSound n → IsSound (become_leader n)
unfolding become_leader written
become_leader-IsSound n s =
    let m =
      grown-IsSound n
        (record { index = last_log_index n + 1; term = n.current_term; type = no_op; payload = [] })
        refl s in
    record { is_log = m.is_log; saved = λ ok. rw ok (refl, refl) }

propose-IsSound : (payload : List ℕ) (n : Node) → IsSound n → IsSound (propose payload n).1
unfolding propose
propose-IsSound payload n s = elim (Role-cases n.role) [
  | leading led ↦ rw (led, propose) (grown-IsSound n _ refl s)
  | follows r ↦ rw (r, propose) s
  | runs r ↦ rw (r, propose) s
]

handle_append_entries-IsSound :
    (req : AppendRequest) (n : Node) → IsSound n → IsSound (handle_append_entries req n).0
handle_append_entries-IsSound req n s = elim (Bool-cases (ltb req.term n.current_term)) [
  | inl behind ↦ rw (handle_append_entries_stale req n behind) s
  | inr fresh ↦
      let settled = handle_append_entries-Settled req n (ground arith) in
      let (base_kept, log) = handle_append_entries-IsLog req n s.is_log in
      record {
        is_log = rw base_kept log;
        saved = λ ok.
            let (term, vote) = settled.saved ok in
            (term ∙ sym settled.in_term, vote ∙ sym settled.voted);
      }
]

pub become_follower-IsSound : (term : ℕ) (n : Node) → IsSound n → IsSound (become_follower term n)
unfolding become_follower written
become_follower-IsSound term n s = record { is_log = s.is_log; saved = λ ok. rw ok (refl, refl) }

decided-IsSound :
    (old_term : ℕ) (req : VoteRequest) (n : Node)
    → Decision req old_term n
    → IsSound n
    → IsSound (decide_vote req old_term n).0
unfolding save written
decided-IsSound old_term req n (keeps e) s = rw e s
decided-IsSound old_term req n (votes free new_enough e) s =
    rw e (record { is_log = s.is_log; saved = λ ok. rw ok (refl, refl) })

handle_request_vote-IsSound :
    (req : VoteRequest) (n : Node) → IsSound n → IsSound (handle_request_vote req n).0
handle_request_vote-IsSound req n s = elim (handling req n) [
  | stale h e ↦ rw e s
  | newer h d e ↦
      rw e (decided-IsSound n.current_term req _ d (become_follower-IsSound req.term n s))
  | same h d e ↦ rw e (decided-IsSound n.current_term req n d s)
]

handle_append_response-IsSound :
    (i : ℕ) (req : AppendRequest) (resp : AppendResponse) (n : Node)
    → IsSound n
    → IsSound (handle_append_response i req resp n)
handle_append_response-IsSound i req resp n s = elim (Bool-cases (ltb n.current_term resp.term)) [
  | inl behind ↦ rw (answer_behind i req resp n behind) (become_follower-IsSound resp.term n s)
  | inr level ↦
      let (nexts, matches, e) = answer_shape i req resp n level in
      rw e (record { is_log = s.is_log; saved = s.saved })
]

change_peer-IsSound :
    (tag : List ℕ) (peer_node_id : ℕ) (n : Node)
    → IsSound n
    → IsSound (change_peer tag peer_node_id n).1
unfolding change_peer
change_peer-IsSound tag peer_node_id n s = elim (Role-cases n.role) [
  | leading led ↦ rw (led, change_peer) (grown-IsSound n _ refl s)
  | follows r ↦ rw (r, change_peer) s
  | runs r ↦ rw (r, change_peer) s
]

pub Step-IsSound : {n m : Node} → Step n m → IsSound n → IsSound m
unfolding become_candidate written add_peer remove_peer
Step-IsSound (append_entries req n) s = handle_append_entries-IsSound req n s
Step-IsSound (request_vote req n) s = handle_request_vote-IsSound req n s
Step-IsSound (proposal payload n) s = propose-IsSound payload n s
Step-IsSound (timeout n) s = record { is_log = s.is_log; saved = λ ok. rw ok (refl, refl) }
Step-IsSound (won n run) s = become_leader-IsSound n s
Step-IsSound (answer i req resp n) s = handle_append_response-IsSound i req resp n s
Step-IsSound (later_term term n h) s = become_follower-IsSound term n s
Step-IsSound (commit n) s =
    let (c, l, out, e) = advance_commit_index_shape n in
    rw e (record { is_log = s.is_log; saved = s.saved })
Step-IsSound (adds peer_node_id n) s = change_peer-IsSound _ peer_node_id n s
Step-IsSound (removes peer_node_id n) s = change_peer-IsSound _ peer_node_id n s
