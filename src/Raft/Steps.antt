-- ===== src/Raft/Steps.antt =====
-- The calls of a node that do not cut its log at a snapshot, as a step relation. Raft/Calls.antt adds
-- those that do.
use lightkv.Prelude.{
  ℕ, zero, suc, ◌+◌, ◌-◌, ◌<◌, true, false, List, [], ◌∷◌, ltb, leb, ◌==◌, ◌≡◌, inl, inr, refl,
  Bool-cases, Option-cases, get_or, set,
}
use lightkv.Raft.{
  Role, follower, candidate, leader, LogEntry, Node, log_pos, term_at, last_log_index,
  become_follower, become_candidate, become_leader, propose, apply_committed,
}
use lightkv.Raft.Replication.{
  AppendRequest, AppendResponse, handle_append_entries, handle_append_response, back_off, last_sent,
  advance_loop, advance_commit_index, majority, replicated_count,
}
use lightkv.Raft.Election.{VoteRequest, handle_request_vote}
use lightkv.Raft.Snapshot.{add_peer, remove_peer}
use lightkv.Raft.Commit.{apply_rounds_shape}

-- One critical section under `mu_`: AppendEntries, RequestVote, Propose, BecomeCandidate on a timeout,
-- BecomeLeader, an answer to AppendEntries, a later term in an answer, AdvanceCommitIndex, AddPeer and
-- RemovePeer.
pub data Step : Node → Node → Type 0 where
  append_entries : (req : AppendRequest) (n : Node) → Step n (handle_append_entries req n).0
  request_vote : (req : VoteRequest) (n : Node) → Step n (handle_request_vote req n).0
  proposal : (payload : List ℕ) (n : Node) → Step n (propose payload n).1
  timeout : (n : Node) → Step n (become_candidate n)
  won : (n : Node) → n.role ≡ candidate → Step n (become_leader n)
  answer :
      (i : ℕ) (req : AppendRequest) (resp : AppendResponse) (n : Node)
      → Step n (handle_append_response i req resp n)
  later_term : (term : ℕ) (n : Node) → n.current_term < term → Step n (become_follower term n)
  commit : (n : Node) → Step n (advance_commit_index n)
  adds : (peer_node_id : ℕ) (n : Node) → Step n (add_peer peer_node_id n).1
  removes : (peer_node_id : ℕ) (n : Node) → Step n (remove_peer peer_node_id n).1

pub data Reach (n : Node) : Node → Type 0 where
  here : Reach n n
  next : {m k : Node} → Reach n m → Step m k → Reach n k

pub advance_loop_shape :
    (rounds index : ℕ) (n : Node)
    → (commit : ℕ) × (advance_loop rounds index n ≡ record n { commit_index = commit })
unfolding advance_loop
advance_loop_shape zero index n = (n.commit_index, refl)
advance_loop_shape (suc rounds) index n =
    let skip = advance_loop_shape rounds (index + 1) n in
    let take = advance_loop_shape rounds (index + 1) (record n { commit_index = index }) in
    elim (Option-cases (log_pos n index)) [
      | inl gone ↦ (skip.0, rw (gone, advance_loop) skip.1)
      | inr (pos, there) ↦ elim (Bool-cases (term_at n.log pos == n.current_term)) [
        | inl own ↦ elim (Bool-cases (leb (majority n) (replicated_count n index))) [
          | inl enough ↦ (take.0, rw (there, advance_loop) (rw own (rw enough take.1)))
          | inr few ↦ (n.commit_index, rw (there, advance_loop) (rw own (rw few refl)))
        ]
        | inr old ↦ (skip.0, rw (there, advance_loop) (rw old skip.1))
      ]
    ]

pub advance_commit_index_shape :
    (n : Node)
    → (commit last : ℕ) × (out : List (List ℕ)) × (advance_commit_index n
        ≡ record n { commit_index = commit; last_applied = last; applied = out })
unfolding advance_commit_index apply_committed
advance_commit_index_shape n =
    elim n.role
      as (λ r.
        (commit last : ℕ) × (out : List (List ℕ)) × ((elim r [
          | leader ↦
              apply_committed
                (advance_loop (last_log_index n - n.commit_index) (n.commit_index + 1) n)
          | _ ↦ n
        ])
          ≡ record n { commit_index = commit; last_applied = last; applied = out })) [
            | leader ↦
                let (c, e) =
                  advance_loop_shape (last_log_index n - n.commit_index) (n.commit_index + 1) n in
                let (out, shape) =
                  apply_rounds_shape (c - n.last_applied) (record n { commit_index = c }) in
                (c, n.last_applied + (c - n.last_applied), out, rw e shape)
            | follower ↦ (n.commit_index, n.last_applied, n.applied, refl)
            | candidate ↦ (n.commit_index, n.last_applied, n.applied, refl)
          ]

pub data IsRole (r : Role) : Type 0 where
  follows : r ≡ follower → IsRole r
  runs : r ≡ candidate → IsRole r
  leading : r ≡ leader → IsRole r

pub Role-cases : (r : Role) → IsRole r
Role-cases follower = follows refl
Role-cases candidate = runs refl
Role-cases leader = leading refl

after_success :
    (es : List LogEntry) (n : Node) (a b : List ℕ)
    → (nexts matches : List ℕ) × (elim es as (λ _. Node) [
      | [] ↦ n
      | e ∷ es ↦ record n { next_index = a; match_index = b }
    ]
        ≡ record n { next_index = nexts; match_index = matches })
after_success [] n a b = (n.next_index, n.match_index, refl)
after_success (e ∷ es) n a b = (a, b, refl)

pub answer_behind :
    (i : ℕ) (req : AppendRequest) (resp : AppendResponse) (n : Node)
    → ltb n.current_term resp.term ≡ true
    → handle_append_response i req resp n ≡ become_follower resp.term n
unfolding handle_append_response
answer_behind i req resp n behind = rw behind refl

-- An answer that is not ahead moves the indices of its peer at most.
pub answer_shape :
    (i : ℕ) (req : AppendRequest) (resp : AppendResponse) (n : Node)
    → ltb n.current_term resp.term ≡ false
    → (next matches : List ℕ) × (handle_append_response i req resp n
        ≡ record n { next_index = next; match_index = matches })
unfolding handle_append_response
answer_shape i req resp n level = elim (Bool-cases resp.success) [
  | inl ok ↦
      let (nexts, matches, e) =
        after_success req.entries n (set n.next_index i (last_sent req.entries + 1))
          (set n.match_index i (last_sent req.entries)) in
      (nexts, matches, rw level (rw ok e))
  | inr refused ↦ (
    set n.next_index i (back_off n (get_or n.next_index i 0) resp),
    n.match_index,
    rw level (rw refused refl),
  )
]
