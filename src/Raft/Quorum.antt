-- ===== src/Raft/Quorum.antt =====
-- What AdvanceCommitIndex has counted before it acts.
use lightkv.Prelude.{
  ℕ, zero, suc, ◌+◌, ◌-◌, ◌*◌, ◌≤◌, ◌<◌, some, List, [], ◌∷◌, length, not, ◌&&◌, ◌||◌, Bool, false,
  if◌then◌else◌, leb, ◌==◌, ◌≡◌, ◌⊎◌, inl, inr, refl, ap, ◌∙◌, arith, Bool-cases, Option-cases,
}
use lightkv.Raft.{leader, Peer, Node, log_pos, term_at, last_log_index, apply_committed}
use lightkv.Raft.Replication.{
  advance_loop, advance_commit_index, majority, replicated_count, count_replicas, count_voters,
  self_votes,
}
use lightkv.Raft.Commit.{apply_rounds_shape}
use lightkv.Raft.Steps.{follows, runs, leading, Role-cases}

-- The ids of the voters of the peer list, and the node's own where it is not among them.
pub listed_voters : List Peer → List ℕ
listed_voters [] = []
listed_voters (p ∷ peers) = if p.is_voter then p.id ∷ listed_voters peers else listed_voters peers

pub lists : ℕ → List ℕ → Bool
lists id [] = false
lists id (x ∷ ids) = x == id || lists id ids

pub voters : Node → List ℕ
voters n =
    let listed = listed_voters n.peers in
    if lists n.node_id listed then listed else n.node_id ∷ listed

-- The ids of the voters other than the node whose match index has reached an index.
pub other_holders : ℕ → ℕ → List Peer → List ℕ → List ℕ
other_holders self index (p ∷ peers) (m ∷ matches) =
    if not (p.id == self) && (p.is_voter && leb index m)
    then p.id ∷ other_holders self index peers matches
    else other_holders self index peers matches
other_holders self index _ _ = []

-- The node and the others that hold the entry at an index.
pub holders : Node → ℕ → List ℕ
holders n index = n.node_id ∷ other_holders n.node_id index n.peers n.match_index

count_voters-length : (peers : List Peer) → count_voters peers ≡ length (listed_voters peers)
unfolding count_voters listed_voters
count_voters-length [] = refl
count_voters-length (p ∷ peers) = elim (Bool-cases p.is_voter) [
  | inl votes ↦ rw votes (omega (arith, count_voters-length peers))
  | inr silent ↦ rw silent (omega (arith, count_voters-length peers))
]

count_replicas-length :
    (self index : ℕ) (peers : List Peer) (matches : List ℕ)
    → count_replicas self index peers matches ≡ length (other_holders self index peers matches)
unfolding count_replicas other_holders
count_replicas-length self index [] matches = refl
count_replicas-length self index (p ∷ peers) [] = refl
count_replicas-length self index (p ∷ peers) (m ∷ matches) =
    let rest = count_replicas-length self index peers matches in
    elim (Bool-cases (p.id == self)) [
      | inl own ↦ rw own (omega (arith, rest))
      | inr other ↦ elim (Bool-cases p.is_voter) [
        | inr silent ↦ rw other (rw silent (omega (arith, rest)))
        | inl votes ↦ elim (Bool-cases (leb index m)) [
          | inl has ↦ rw other (rw votes (rw has (omega (arith, rest))))
          | inr lacks ↦ rw other (rw votes (rw lacks (omega (arith, rest))))
        ]
      ]
    ]

self_votes-lists :
    (self : ℕ) (peers : List Peer) → self_votes self peers ≡ lists self (listed_voters peers)
unfolding self_votes lists listed_voters
self_votes-lists self [] = refl
self_votes-lists self (p ∷ peers) =
    let rest = self_votes-lists self peers in
    elim (Bool-cases p.is_voter) [
      | inl votes ↦ rw votes (rw rest refl)
      | inr silent ↦ rw silent rest
    ]

-- The code's threshold is more than half.
majority-half :
    (n : Node) (index : ℕ)
    → majority n ≤ replicated_count n index
    → length (voters n) < 2 * length (holders n index)
unfolding majority replicated_count voters holders
majority-half n index h =
    let few = count_voters-length n.peers in
    let held = count_replicas-length n.node_id index n.peers n.match_index in
    let own = self_votes-lists n.node_id n.peers in
    elim (Bool-cases (self_votes n.node_id n.peers)) [
      | inl listed ↦ ground (arith, few, held, h, listed, own)
      | inr unlisted ↦ ground (arith, few, held, h, unlisted, own)
    ]

-- The leader may commit up to the index: more than half of the voters hold it.
pub record IsCommittable (n : Node) (index : ℕ) : Type 0 where
  pub pos : ℕ
  pub in_log : log_pos n index ≡ some pos
  pub own_term : term_at n.log pos ≡ n.current_term
  pub counted : length (voters n) < 2 * length (holders n index)

-- A later index that the loop has gone on to.
later_index :
    (index c : ℕ) (n : Node)
    → (c ≡ n.commit_index) ⊎ ((index + 1 ≤ c) × IsCommittable n c)
    → (c ≡ n.commit_index) ⊎ ((index ≤ c) × IsCommittable n c)
later_index index c n (inl e) = inl e
later_index index c n (inr (h, k)) = inr (omega arith, k)

-- The same once `index` itself has been committed.
after_commit :
    (index c : ℕ) (n : Node)
    → IsCommittable n index
    → (c ≡ index) ⊎ ((index + 1 ≤ c) × IsCommittable (record n { commit_index = index }) c)
    → (c ≡ n.commit_index) ⊎ ((index ≤ c) × IsCommittable n c)
unfolding voters holders
after_commit index c n this (inl e) = inr (omega arith, rw e this)
after_commit index c n this (inr (h, k)) = inr (
  omega arith,
  record { pos = k.pos; in_log = k.in_log; own_term = k.own_term; counted = k.counted },
)

advance_loop-IsCommittable :
    (rounds index : ℕ) (n : Node)
    → ((advance_loop rounds index n).commit_index ≡ n.commit_index)
      ⊎ ((index ≤ (advance_loop rounds index n).commit_index)
          × IsCommittable n (advance_loop rounds index n).commit_index)
unfolding advance_loop
advance_loop-IsCommittable zero index n = inl refl
advance_loop-IsCommittable (suc rounds) index n =
    let skip = advance_loop-IsCommittable rounds (index + 1) n in
    let rest = advance_loop-IsCommittable rounds (index + 1) (record n { commit_index = index }) in
    elim (Option-cases (log_pos n index)) [
      | inl gone ↦ rw (gone, advance_loop) (later_index index _ n skip)
      | inr (pos, there) ↦ elim (Bool-cases (term_at n.log pos == n.current_term)) [
        | inl own ↦ elim (Bool-cases (leb (majority n) (replicated_count n index))) [
          | inl enough ↦
              let this : IsCommittable n index = record {
                pos = pos;
                in_log = there;
                own_term = ground arith;
                counted = majority-half n index (ground arith);
              } in
              rw (there, advance_loop) (rw own (rw enough (after_commit index _ n this rest)))
          | inr few ↦ rw (there, advance_loop) (rw own (rw few (inl refl)))
        ]
        | inr old ↦ rw (there, advance_loop) (rw old (later_index index _ n skip))
      ]
    ]

when_leader :
    (n : Node)
    → n.role ≡ leader
    → advance_commit_index n
      ≡ apply_committed (advance_loop (last_log_index n - n.commit_index) (n.commit_index + 1) n)
unfolding advance_commit_index
when_leader n led =
    ap
      (λ r. elim r as (λ _. Node) [
        | leader ↦
            apply_committed
              (advance_loop (last_log_index n - n.commit_index) (n.commit_index + 1) n)
        | _ ↦ n
      ])
      led

apply_committed-commit_index : (n : Node) → (apply_committed n).commit_index ≡ n.commit_index
unfolding apply_committed
apply_committed-commit_index n =
    ap (λ (m : Node). m.commit_index) (apply_rounds_shape (n.commit_index - n.last_applied) n).1

-- AdvanceCommitIndex leaves the commit index, or the node leads and the new commit index is a
-- later one in its log, of an entry of the leader's own term, and more than half of the voters, the
-- node among them, hold it by the match indices.
pub advance_commit_index-IsCommittable :
    (n : Node)
    → ((advance_commit_index n).commit_index ≡ n.commit_index)
      ⊎ ((n.role ≡ leader)
          × (n.commit_index < (advance_commit_index n).commit_index)
          × IsCommittable n (advance_commit_index n).commit_index)
unfolding advance_commit_index
advance_commit_index-IsCommittable n = elim (Role-cases n.role) [
  | follows r ↦ inl (rw (r, advance_commit_index) refl)
  | runs r ↦ inl (rw (r, advance_commit_index) refl)
  | leading led ↦
      let rounds : ℕ = last_log_index n - n.commit_index in
      let e : (advance_commit_index n).commit_index
          ≡ (advance_loop rounds (n.commit_index + 1) n).commit_index =
        ap (λ (m : Node). m.commit_index) (when_leader n led) ∙ apply_committed-commit_index _ in
      elim (advance_loop-IsCommittable rounds (n.commit_index + 1) n) [
        | inl same ↦ inl (e ∙ same)
        | inr (h, k) ↦ inr (led, rw e (omega (arith, h)), rw e k)
      ]
]
