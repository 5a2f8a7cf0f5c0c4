-- ===== src/Raft/Leadership.antt =====
-- What becomes of a leader and of its log while its term lasts.
use lightkv.Prelude.{
  ℕ, ◌+◌, ◌≤◌, ◌<◌, List, [], ◌∷◌, ◌++◌, ltb, ◌≡◌, inl, inr, refl, sym, ap, ◌∙◌, arith, Bool-cases,
  append-nil, append_assoc,
}
use lightkv.Raft.{
  follower, candidate, leader, command, conf_change, LogEntry, Node, save, last_log_index,
  become_follower, become_candidate, become_leader, propose,
}
use lightkv.Raft.Replication.{
  AppendRequest, AppendResponse, handle_append_entries, handle_append_response,
}
use lightkv.Raft.Election.{VoteRequest, decide_vote, handle_request_vote}
use lightkv.Raft.Snapshot.{change_peer, digits, add_peer, remove_peer}
use lightkv.Raft.Durable.{handle_append_entries-Settled, handle_append_entries_stale}
use lightkv.Raft.Votes.{Decision, keeps, votes, stale, newer, same, handling}
use lightkv.Raft.Steps.{
  Step, append_entries, request_vote, proposal, timeout, won, answer, later_term, commit, adds,
  removes, Reach, here, next, advance_commit_index_shape, follows, runs, leading, Role-cases,
  answer_behind, answer_shape,
}

-- What a node is to one that led in the term of `n`.
pub data Since (n m : Node) : Type 0 where
  moved : n.current_term < m.current_term → Since n m
  down : m.current_term ≡ n.current_term → m.role ≡ follower → Since n m
  leads :
      m.current_term ≡ n.current_term
      → m.role ≡ leader
      → (suffix : List LogEntry) → m.log ≡ n.log ++ suffix
      → Since n m

-- What one call does to term, role and log.
data Effect (m k : Node) : Type 0 where
  raises : m.current_term < k.current_term → Effect m k
  demotes : k.current_term ≡ m.current_term → k.role ≡ follower → Effect m k
  elects : k.current_term ≡ m.current_term → m.role ≡ candidate → Effect m k
  extends :
      k.current_term ≡ m.current_term
      → k.role ≡ m.role
      → (suffix : List LogEntry) → k.log ≡ m.log ++ suffix
      → Effect m k

unchanged :
    {m k : Node} → k.current_term ≡ m.current_term → k.role ≡ m.role → k.log ≡ m.log → Effect m k
unchanged {m} t r l = extends t r [] (l ∙ sym (append-nil m.log))

append_entries-Effect : (req : AppendRequest) (n : Node) → Effect n (handle_append_entries req n).0
append_entries-Effect req n = elim (Bool-cases (ltb req.term n.current_term)) [
  | inl behind ↦ rw (handle_append_entries_stale req n behind) (unchanged refl refl refl)
  | inr fresh ↦
      let s = handle_append_entries-Settled req n (ground arith) in
      elim (Bool-cases (ltb n.current_term req.term)) [
        | inl ahead ↦ raises (ground (arith, s.in_term))
        | inr level ↦ demotes (ground (arith, s.in_term)) s.in_role
      ]
]

decided-same :
    (old_term : ℕ) (req : VoteRequest) (n : Node)
    → Decision req old_term n
    → ((decide_vote req old_term n).0.current_term ≡ n.current_term)
      × ((decide_vote req old_term n).0.role ≡ n.role)
      × ((decide_vote req old_term n).0.log ≡ n.log)
unfolding save
decided-same old_term req n (keeps e) = rw e (refl, refl, refl)
decided-same old_term req n (votes free new_enough e) = rw e (refl, refl, refl)

request_vote-Effect : (req : VoteRequest) (n : Node) → Effect n (handle_request_vote req n).0
unfolding become_follower
request_vote-Effect req n = elim (handling req n) [
  | stale h e ↦ rw e (unchanged refl refl refl)
  | newer h d e ↦ let (t, r, l) = decided-same n.current_term req _ d in rw e (raises (rw t h))
  | same h d e ↦ let (t, r, l) = decided-same n.current_term req n d in rw e (unchanged t r l)
]

propose-Effect : (payload : List ℕ) (n : Node) → Effect n (propose payload n).1
unfolding propose save
propose-Effect payload n = elim (Role-cases n.role) [
  | leading led ↦
      let e : LogEntry = record {
        index = last_log_index n + 1;
        term = n.current_term;
        type = command;
        payload = payload;
      } in
      rw (led, propose) (extends refl led (e ∷ []) refl)
  | follows r ↦ rw (r, propose) (unchanged {m = record n { role = follower }} {k = n} refl r refl)
  | runs r ↦ rw (r, propose) (unchanged {m = record n { role = candidate }} {k = n} refl r refl)
]

change_peer-Effect :
    (tag : List ℕ) (peer_node_id : ℕ) (n : Node) → Effect n (change_peer tag peer_node_id n).1
unfolding change_peer save
change_peer-Effect tag peer_node_id n = elim (Role-cases n.role) [
  | leading led ↦
      let e : LogEntry = record {
        index = last_log_index n + 1;
        term = n.current_term;
        type = conf_change;
        payload = tag ++ digits 20 peer_node_id;
      } in
      rw (led, change_peer) (extends refl led (e ∷ []) refl)
  | follows r ↦
      rw (r, change_peer) (unchanged {m = record n { role = follower }} {k = n} refl r refl)
  | runs r ↦ rw (r, change_peer) (unchanged {m = record n { role = candidate }} {k = n} refl r refl)
]

answer-Effect :
    (i : ℕ) (req : AppendRequest) (resp : AppendResponse) (n : Node)
    → Effect n (handle_append_response i req resp n)
unfolding become_follower
answer-Effect i req resp n = elim (Bool-cases (ltb n.current_term resp.term)) [
  | inl behind ↦ rw (answer_behind i req resp n behind) (raises (ground arith))
  | inr level ↦
      let (nexts, matches, e) = answer_shape i req resp n level in rw e (unchanged refl refl refl)
]

Step-Effect : {m k : Node} → Step m k → Effect m k
unfolding become_candidate become_follower become_leader add_peer remove_peer
Step-Effect (append_entries req n) = append_entries-Effect req n
Step-Effect (request_vote req n) = request_vote-Effect req n
Step-Effect (proposal payload n) = propose-Effect payload n
Step-Effect (timeout n) = raises (omega arith)
Step-Effect (won n run) = elects refl run
Step-Effect (answer i req resp n) = answer-Effect i req resp n
Step-Effect (later_term term n h) = raises h
Step-Effect (commit n) =
    let (c, l, out, e) = advance_commit_index_shape n in rw e (unchanged refl refl refl)
Step-Effect (adds peer_node_id n) = change_peer-Effect _ peer_node_id n
Step-Effect (removes peer_node_id n) = change_peer-Effect _ peer_node_id n

Effect-Since : {n m k : Node} → Since n m → Effect m k → Since n k
Effect-Since (moved h) (raises g) = moved (omega arith)
Effect-Since (moved h) (demotes t r) = moved (omega arith)
Effect-Since (moved h) (elects t r) = moved (omega arith)
Effect-Since (moved h) (extends t r suffix l) = moved (omega arith)
Effect-Since (down s f) (raises g) = moved (omega arith)
Effect-Since (down s f) (demotes t r) = down (t ∙ s) r
Effect-Since (down s f) (elects t r) = absurd (ground arith)
Effect-Since (down s f) (extends t r suffix l) = down (t ∙ s) (r ∙ f)
Effect-Since (leads s f suffix e) (raises g) = moved (omega arith)
Effect-Since (leads s f suffix e) (demotes t r) = down (t ∙ s) r
Effect-Since (leads s f suffix e) (elects t r) = absurd (ground arith)
Effect-Since {n} (leads s f suffix e) (extends t r more l) =
    leads (t ∙ s) (r ∙ f) (suffix ++ more)
      (l ∙ ap (λ x. x ++ more) e ∙ append_assoc n.log suffix more)

Reach-Since : {n m : Node} → n.role ≡ leader → Reach n m → Since n m
Reach-Since {n} led here = leads refl led [] (sym (append-nil n.log))
Reach-Since led (next r step) = Effect-Since (Reach-Since led r) (Step-Effect step)

-- A node that leads, and leads in the same term after any sequence of AppendEntries, RequestVote,
-- Propose, election timeouts, won elections, answers to AppendEntries, later terms,
-- AdvanceCommitIndex, AddPeer and RemovePeer, has only appended to its log. The calls that take or
-- install a snapshot, which cut the log, are not among them.
pub leader_append_only :
    (n m : Node)
    → n.role ≡ leader
    → Reach n m
    → m.role ≡ leader
    → m.current_term ≡ n.current_term
    → (suffix : List LogEntry) × (m.log ≡ n.log ++ suffix)
leader_append_only n m led r leads_still same_term = elim (Reach-Since led r) [
  | moved h ↦ absurd (omega arith)
  | down t f ↦ absurd (ground arith)
  | leads t f suffix e ↦ (suffix, e)
]

Effect-term : {m k : Node} → Effect m k → m.current_term ≤ k.current_term
Effect-term (raises g) = omega arith
Effect-term (demotes t r) = omega arith
Effect-term (elects t r) = omega arith
Effect-term (extends t r suffix l) = omega arith
