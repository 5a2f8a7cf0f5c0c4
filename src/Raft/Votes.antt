-- ===== src/Raft/Votes.antt =====
-- HandleRequestVote over a run of requests: whom a node has promised its vote.
use lightkv.Prelude.{
  ℕ, ◌≤◌, ◌<◌, true, false, List, [], ◌∷◌, ltb, ◌==◌, if◌then◌else◌, not, ◌&&◌, ◌≡◌, ◌≢◌, ◌⊎◌, inl,
  inr, refl, sym, ◌∙◌, arith, Bool-cases,
}
use lightkv.Raft.{Node, written, save, last_log_index, last_log_term, become_follower}
use lightkv.Raft.Replication.{AppendRequest, handle_append_entries}
use lightkv.Raft.Durable.{handle_append_entries-Settled}
use lightkv.Raft.Election.{VoteRequest, VoteResponse, up_to_date, decide_vote, handle_request_vote}

-- A vote of this node for the candidate in the term, on disk where the write succeeded.
pub record Granted (req : VoteRequest) (n n' : Node) : Type 0 where
  pub not_stale : n.current_term ≤ req.term
  pub in_term : n'.current_term ≡ req.term
  pub voted : n'.voted_for ≡ req.candidate_id
  pub saved :
      n'.last_saved ≡ true
      → (n'.disk.saved_term ≡ req.term)
        × (n'.disk.saved_vote ≡ req.candidate_id)
        × (n'.disk.saved_log ≡ n.log)
  pub kept_log : n'.log ≡ n.log
  pub newer : up_to_date req n ≡ true
  pub free : (n.current_term < req.term) ⊎ ((n.voted_for ≡ 0) ⊎ (n.voted_for ≡ req.candidate_id))

abbrev pub refused : ℕ → VoteResponse
refused old_term = record { term = old_term; vote_granted = false }

abbrev pub granted : ℕ → VoteResponse
granted old_term = record { term = old_term; vote_granted = true }

-- The two ways decide_vote ends.
pub data Decision (req : VoteRequest) (old_term : ℕ) (n : Node) : Type 0 where
  keeps : decide_vote req old_term n ≡ (n, refused old_term) → Decision req old_term n
  votes :
      (n.voted_for ≡ 0) ⊎ (n.voted_for ≡ req.candidate_id)
      → up_to_date req n ≡ true
      → decide_vote req old_term n
        ≡ (save (record n { voted_for = req.candidate_id }), granted old_term)
      → Decision req old_term n

decision : (req : VoteRequest) (old_term : ℕ) (n : Node) → Decision req old_term n
unfolding decide_vote
decision req old_term n =
    elim (Bool-cases (not (n.voted_for == 0) && not (n.voted_for == req.candidate_id))) [
      | inl taken ↦ keeps (rw taken refl)
      | inr free ↦ elim (Bool-cases (up_to_date req n)) [
        | inl newer ↦ votes (ground arith) newer (rw free (rw newer refl))
        | inr older ↦ keeps (rw free (rw older refl))
      ]
    ]

-- The node that HandleRequestVote decides on.
abbrev pub entered : VoteRequest → Node → Node
entered req n = if ltb n.current_term req.term then become_follower req.term n else n

-- The ways HandleRequestVote ends.
pub data Handling (req : VoteRequest) (n : Node) : Type 0 where
  stale :
      req.term < n.current_term
      → handle_request_vote req n ≡ (n, refused n.current_term)
      → Handling req n
  newer :
      n.current_term < req.term
      → Decision req n.current_term (become_follower req.term n)
      → handle_request_vote req n ≡ decide_vote req n.current_term (become_follower req.term n)
      → Handling req n
  same :
      n.current_term ≡ req.term
      → Decision req n.current_term n
      → handle_request_vote req n ≡ decide_vote req n.current_term n
      → Handling req n

pub handling : (req : VoteRequest) (n : Node) → Handling req n
unfolding handle_request_vote
handling req n = elim (Bool-cases (ltb req.term n.current_term)) [
  | inl behind ↦ stale (ground arith) (rw behind refl)
  | inr fresh ↦ elim (Bool-cases (ltb n.current_term req.term)) [
    | inl ahead ↦
        newer (ground arith) (decision req n.current_term (become_follower req.term n))
          (rw fresh (rw ahead refl))
    | inr level ↦ same (ground arith) (decision req n.current_term n) (rw fresh (rw level refl))
  ]
]

up_to_date-become_follower :
    (req : VoteRequest) (term : ℕ) (n : Node)
    → up_to_date req (become_follower term n) ≡ up_to_date req n
unfolding up_to_date become_follower last_log_term last_log_index
up_to_date-become_follower req term n = refl

-- When HandleRequestVote grants its vote, the request's term is not behind the node's, the node
-- is in that term afterwards with its vote given to the candidate, the log is as it was, the
-- candidate's log is at least as new as the node's, either the term is new to the node or it had
-- voted for nobody else in it, and if the write of the vote by SavePersistentState succeeded, then
-- term, vote and log are on disk.
pub Granted-saved :
    (req : VoteRequest) (n : Node)
    → (handle_request_vote req n).1.vote_granted ≡ true
    → Granted req n (handle_request_vote req n).0
unfolding become_follower written
Granted-saved req n ok = elim (handling req n) [
  | stale h e ↦ absurd (ground arith)
  | newer h (keeps d) e ↦ absurd (ground arith)
  | newer h (votes free up d) e ↦ rw (e ∙ d) (record {
    not_stale = omega arith;
    in_term = refl;
    voted = refl;
    saved = λ ok. rw ok (refl, refl, refl);
    kept_log = refl;
    newer = sym (up_to_date-become_follower req req.term n) ∙ up;
    free = inl h;
  })
  | same h (keeps d) e ↦ absurd (ground arith)
  | same h (votes free up d) e ↦ rw (e ∙ d) (record {
    not_stale = omega arith;
    in_term = h;
    voted = refl;
    saved = λ ok. rw ok (h, refl, refl);
    kept_log = refl;
    newer = up;
    free = inr free;
  })
]

unfoldable pub run_votes : List VoteRequest → Node → Node
run_votes [] n = n
run_votes (req ∷ reqs) n = run_votes reqs (handle_request_vote req n).0

-- The node cannot vote for another than `candidate` in `term` any more.
record Promised (term candidate : ℕ) (n : Node) : Type 0 where
  held : (term < n.current_term) ⊎ ((n.current_term ≡ term) × (n.voted_for ≡ candidate))

handle_request_vote-Promised :
    (term candidate : ℕ) (req : VoteRequest) (n : Node)
    → candidate ≢ 0
    → Promised term candidate n
    → Promised term candidate (handle_request_vote req n).0
unfolding become_follower
handle_request_vote-Promised term candidate req n nonzero p = elim (handling req n) [
  | stale h e ↦ rw e p
  | newer h (keeps d) e ↦ rw (e ∙ d) (record { held = inl (ground arith) })
  | newer h (votes free up d) e ↦ rw (e ∙ d) (record { held = inl (ground arith) })
  | same h (keeps d) e ↦ rw (e ∙ d) p
  | same h (votes free up d) e ↦ rw (e ∙ d) (record { held = ground arith })
]

run_votes-Promised :
    (term candidate : ℕ) (reqs : List VoteRequest) (n : Node)
    → candidate ≢ 0
    → Promised term candidate n
    → Promised term candidate (run_votes reqs n)
unfolding run_votes
run_votes-Promised term candidate [] n nonzero p = p
run_votes-Promised term candidate (req ∷ reqs) n nonzero p =
    run_votes-Promised term candidate reqs (handle_request_vote req n).0 nonzero
      (handle_request_vote-Promised term candidate req n nonzero p)

-- A node that has granted a vote to a candidate (whose id is not 0), has handled any run of vote
-- requests since and now grants a vote in the same term grants it to the same candidate.
pub one_vote_per_term :
    (first second : VoteRequest) (between : List VoteRequest) (n : Node)
    → first.candidate_id ≢ 0
    → second.term ≡ first.term
    → (handle_request_vote first n).1.vote_granted ≡ true
    → (handle_request_vote second
        (run_votes between (handle_request_vote first n).0)).1.vote_granted
      ≡ true
    → second.candidate_id ≡ first.candidate_id
one_vote_per_term first second between n nonzero same_term ok again =
    let g = Granted-saved first n ok in
    let p =
      run_votes-Promised first.term first.candidate_id between (handle_request_vote first n).0
        nonzero (record { held = inr (g.in_term, g.voted) }) in
    let h = Granted-saved second (run_votes between (handle_request_vote first n).0) again in
    elim p.held [
      | inl past ↦ absurd (omega (arith, h.not_stale))
      | inr (now, voted) ↦ elim h.free [
        | inl later ↦ absurd (omega arith)
        | inr (inl none_yet) ↦ absurd (nonzero (sym voted ∙ none_yet))
        | inr (inr there) ↦ sym there ∙ voted
      ]
    ]

-- A vote in the current term by a node that has given none.
forgets :
    (req : VoteRequest) (n : Node)
    → req.term ≡ n.current_term
    → n.voted_for ≡ 0
    → up_to_date req n ≡ true
    → (handle_request_vote req n).1.vote_granted ≡ true
unfolding handle_request_vote decide_vote
forgets req n here free up = ground arith

-- HandleAppendEntries in the term that the node is in leaves it in that term with no vote given,
-- so that it grants its vote to any candidate of that term whose log is new enough, also after it
-- had voted for another one.
pub vote_forgotten :
    (append : AppendRequest) (req : VoteRequest) (n : Node)
    → append.term ≡ n.current_term
    → req.term ≡ n.current_term
    → up_to_date req (handle_append_entries append n).0 ≡ true
    → ((handle_append_entries append n).0.current_term ≡ n.current_term)
      × ((handle_append_entries append n).0.voted_for ≡ 0)
      × ((handle_request_vote req (handle_append_entries append n).0).1.vote_granted ≡ true)
vote_forgotten append req n here there up =
    let s = handle_append_entries-Settled append n (omega arith) in
    let e =
      forgets req (handle_append_entries append n).0 (there ∙ sym here ∙ sym s.in_term) s.voted
        up in
    (s.in_term ∙ here, s.voted, e)
