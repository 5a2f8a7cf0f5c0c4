-- ===== src/Raft/Campaign.antt =====
-- StartElection: its rounds one by one, what it has counted before it leads, and that it is made
-- of the node's steps.
use lightkv.Prelude.{
  ℕ, ◌+◌, ◌/◌, ◌≤◌, ◌<◌, Bool, true, false, List, [], ◌∷◌, ltb, leb, ◌==◌, if◌then◌else◌, not, ◌&&◌,
  ◌≡◌, ◌≢◌, inl, inr, refl, sym, ap, ◌∙◌, arith, Bool-cases,
}
use lightkv.Raft.{
  Role, follower, candidate, leader, Peer, Node, become_follower, become_candidate, become_leader,
}
use lightkv.Raft.Replication.{count_voters}
use lightkv.Raft.Election.{
  Answer, is_asked, is_candidate, election_loop, start_election, handle_election_timeout,
}
use lightkv.Raft.Steps.{Reach, here, next, won, timeout, later_term}

-- The ways a round over a peer ends.
data Round (ask : ℕ → Answer) (term needed votes : ℕ) (p : Peer) (peers : List Peer) (n : Node)
    : Type 0 where
  passed :
      election_loop ask term needed votes (p ∷ peers) n
        ≡ election_loop ask term needed votes peers n
      → Round ask term needed votes p peers n
  dropped :
      is_candidate ((ask p.id).meanwhile n).role && ((ask p.id).meanwhile n).current_term == term
        ≡ false
      → election_loop ask term needed votes (p ∷ peers) n ≡ (ask p.id).meanwhile n
      → Round ask term needed votes p peers n
  overtaken :
      ((ask p.id).meanwhile n).current_term < (ask p.id).response.term
      → election_loop ask term needed votes (p ∷ peers) n
        ≡ become_follower (ask p.id).response.term ((ask p.id).meanwhile n)
      → Round ask term needed votes p peers n
  elected :
      is_asked n p ≡ true
      → (ask p.id).response.vote_granted ≡ true
      → ((ask p.id).meanwhile n).role ≡ candidate
      → needed ≤ votes + 1
      → election_loop ask term needed votes (p ∷ peers) n ≡ become_leader ((ask p.id).meanwhile n)
      → Round ask term needed votes p peers n
  counted :
      is_asked n p ≡ true
      → (ask p.id).response.vote_granted ≡ true
      → ((ask p.id).meanwhile n).role ≡ candidate
      → election_loop ask term needed votes (p ∷ peers) n
        ≡ election_loop ask term needed (votes + 1) peers ((ask p.id).meanwhile n)
      → Round ask term needed votes p peers n
  refused :
      ((ask p.id).meanwhile n).role ≡ candidate
      → election_loop ask term needed votes (p ∷ peers) n
        ≡ election_loop ask term needed votes peers ((ask p.id).meanwhile n)
      → Round ask term needed votes p peers n

candidate_lem : (r : Role) (b : Bool) → is_candidate r && b ≡ true → r ≡ candidate
candidate_lem candidate b h = refl
candidate_lem leader b h = absurd (ground arith)
candidate_lem follower b h = absurd (ground arith)

round :
    (ask : ℕ → Answer) (term needed votes : ℕ) (p : Peer) (peers : List Peer) (n : Node)
    → Round ask term needed votes p peers n
unfolding election_loop
round ask term needed votes p peers n =
    let m : Node = (ask p.id).meanwhile n in
    elim (Bool-cases (is_asked n p)) [
      | inr skipped ↦ passed (rw skipped refl)
      | inl asked ↦ elim (Bool-cases (is_candidate m.role && m.current_term == term)) [
        | inr lost ↦ dropped lost (rw asked (rw lost refl))
        | inl still ↦ elim (Bool-cases (ltb m.current_term (ask p.id).response.term)) [
          | inl behind ↦ overtaken (ground arith) (rw asked (rw still (rw behind refl)))
          | inr level ↦ elim (Bool-cases (ask p.id).response.vote_granted) [
            | inr no_vote ↦
                refused (candidate_lem _ _ still) (rw asked (rw still (rw level (rw no_vote refl))))
            | inl vote ↦ elim (Bool-cases (leb needed (votes + 1))) [
              | inl enough ↦
                  elected asked vote (candidate_lem _ _ still) (ground arith)
                    (rw asked (rw still (rw level (rw vote (rw enough refl)))))
              | inr few ↦
                  counted asked vote (candidate_lem _ _ still)
                    (rw asked (rw still (rw level (rw vote (rw few refl)))))
            ]
          ]
        ]
      ]
    ]

-- The voters other than the node itself that have answered with their vote.
pub votes_for : (ℕ → Answer) → ℕ → List Peer → ℕ
votes_for ask self [] = 0
votes_for ask self (p ∷ peers) =
    (if not (p.id == self) && p.is_voter
      then (if (ask p.id).response.vote_granted then 1 else 0)
      else 0)
    + votes_for ask self peers

votes_for-more :
    (ask : ℕ → Answer) (self : ℕ) (p : Peer) (peers : List Peer)
    → votes_for ask self peers ≤ votes_for ask self (p ∷ peers)
unfolding votes_for
votes_for-more ask self p peers = omega arith

votes_for-granted :
    (ask : ℕ → Answer) (n : Node) (p : Peer) (peers : List Peer)
    → is_asked n p ≡ true
    → (ask p.id).response.vote_granted ≡ true
    → votes_for ask n.node_id (p ∷ peers) ≡ 1 + votes_for ask n.node_id peers
unfolding votes_for is_asked
votes_for-granted ask n p peers asked vote = rw asked (rw vote refl)

-- The loop's result once a round has gone on.
role_of : {a b : Node} → a ≡ b → a.role ≡ leader → b.role ≡ leader
role_of e lead = sym (ap (λ (m : Node). m.role) e) ∙ lead

follower_no_leader : (term : ℕ) (n : Node) → (become_follower term n).role ≡ leader → ⊥
unfolding become_follower
follower_no_leader term n lead = ground arith

module _ (ask : ℕ → Answer)
    (keeps_id : (p : ℕ) (m : Node) → ((ask p).meanwhile m).node_id ≡ m.node_id)
    (no_leader : (p : ℕ) (m : Node)
      → m.role ≡ candidate
      → ((ask p).meanwhile m).role ≢ leader) where
  election_loop-votes :
      (term needed votes : ℕ) (peers : List Peer) (n : Node)
      → n.role ≡ candidate
      → (election_loop ask term needed votes peers n).role ≡ leader
      → needed ≤ votes + votes_for ask n.node_id peers
  unfolding election_loop votes_for
  election_loop-votes term needed votes [] n run lead = ground arith
  election_loop-votes term needed votes (p ∷ peers) n run lead =
      elim (round ask term needed votes p peers n) [
        | passed e ↦ omega (
          arith,
          votes_for-more ask n.node_id p peers,
          election_loop-votes term needed votes peers n run (role_of e lead),
        )
        | dropped lost e ↦ absurd (no_leader p.id n run (role_of e lead))
        | overtaken h e ↦ absurd (follower_no_leader _ _ (role_of e lead))
        | elected asked vote still enough e ↦
            omega (arith, enough, votes_for-granted ask n p peers asked vote)
        | counted asked vote still e ↦
            let m : Node = (ask p.id).meanwhile n in
            let ih = election_loop-votes term needed (votes + 1) peers m still (role_of e lead) in
            omega (arith, rw (keeps_id p.id n) at ih, votes_for-granted ask n p peers asked vote)
        | refused still e ↦
            let m : Node = (ask p.id).meanwhile n in
            let ih = election_loop-votes term needed votes peers m still (role_of e lead) in
            omega (arith, rw (keeps_id p.id n) at ih, votes_for-more ask n.node_id p peers)
      ]

  -- A node whose election timer has run out, while no other call makes it a leader or changes its
  -- id as it waits for answers, leads at the end of HandleElectionTimeout only if with its own vote
  -- more than half of the voters have answered with theirs.
  pub handle_election_timeout-votes :
      (n : Node)
      → (handle_election_timeout ask n).role ≡ leader
      → count_voters n.peers / 2 + 1 ≤ 1 + votes_for ask n.node_id n.peers
  unfolding handle_election_timeout start_election become_candidate
  handle_election_timeout-votes n lead =
      election_loop-votes _ (count_voters n.peers / 2 + 1) 1 n.peers (become_candidate n) refl lead

Reach-trans : {n m k : Node} → Reach n m → Reach m k → Reach n k
Reach-trans r here = r
Reach-trans r (next s step) = next (Reach-trans r s) step

election_loop-Reach :
    (ask : ℕ → Answer) (term needed votes : ℕ) (peers : List Peer) (n : Node)
    → ((p : ℕ) (m : Node) → Reach m ((ask p).meanwhile m))
    → n.role ≡ candidate
    → Reach n (election_loop ask term needed votes peers n)
unfolding election_loop
election_loop-Reach ask term needed votes [] n steps run = elim (Bool-cases (leb needed votes)) [
  | inl enough ↦ rw enough (next here (won n run))
  | inr few ↦ rw few here
]
election_loop-Reach ask term needed votes (p ∷ peers) n steps run =
    let m : Node = (ask p.id).meanwhile n in
    elim (round ask term needed votes p peers n) [
      | passed e ↦ rw e (election_loop-Reach ask term needed votes peers n steps run)
      | dropped lost e ↦ rw e (steps p.id n)
      | overtaken h e ↦ rw e (next (steps p.id n) (later_term _ m h))
      | elected asked vote still enough e ↦ rw e (next (steps p.id n) (won m still))
      | counted asked vote still e ↦ rw e (
          Reach-trans (steps p.id n)
            (election_loop-Reach ask term needed (votes + 1) peers m steps still))
      | refused still e ↦ rw e (
          Reach-trans (steps p.id n)
            (election_loop-Reach ask term needed votes peers m steps still))
    ]

-- An election, with whatever steps of the node (calls that do not take or install a snapshot) run
-- while it waits for the answers, is made of the node's steps.
pub handle_election_timeout-Reach :
    (ask : ℕ → Answer) (n : Node)
    → ((p : ℕ) (m : Node) → Reach m ((ask p).meanwhile m))
    → Reach n (handle_election_timeout ask n)
unfolding handle_election_timeout start_election become_candidate
handle_election_timeout-Reach ask n steps = Reach-trans (next here (timeout n)) (
    election_loop-Reach ask _ (count_voters n.peers / 2 + 1) 1 n.peers (become_candidate n) steps
      refl)
