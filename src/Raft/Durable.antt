-- ===== src/Raft/Durable.antt =====
-- Term and vote of a node beside what SavePersistentState last wrote of them.
use lightkv.Prelude.{ℕ, ◌≤◌, Bool, true, List, [], ◌∷◌, ltb, ◌≡◌, inl, inr, refl, arith, Bool-cases}
use lightkv.Raft.{Role, follower, LogEntry, Node, written, save, become_follower}
use lightkv.Raft.Replication.{
  AppendRequest, append_all, advance_to, store_entries, check_previous, handle_append_entries,
}
use lightkv.Raft.Commit.{advance_to_shape}

-- The node is in the term with its vote given as said, and a restart would find both if the last
-- write of the state succeeded.
pub record Settled (role : Role) (term vote : ℕ) (n : Node) : Type 0 where
  pub in_role : n.role ≡ role
  pub in_term : n.current_term ≡ term
  pub voted : n.voted_for ≡ vote
  pub saved : n.last_saved ≡ true → (n.disk.saved_term ≡ term) × (n.disk.saved_vote ≡ vote)

-- The same node with another log, commit index or state machine.
pub advance_to-Settled :
    (role : Role) (leader_commit term vote : ℕ) (n : Node)
    → Settled role term vote n
    → Settled role term vote (advance_to leader_commit n)
advance_to-Settled role leader_commit term vote n s =
    let (c, l, out, e) = advance_to_shape leader_commit n in
    rw e (record { in_role = s.in_role; in_term = s.in_term; voted = s.voted; saved = s.saved })

store_entries-Settled :
    (role : Role) (es : List LogEntry) (leader_commit old_term term vote : ℕ) (n : Node)
    → Settled role term vote n
    → Settled role term vote (store_entries es leader_commit old_term n).0
unfolding store_entries written
store_entries-Settled role [] leader_commit old_term term vote n s =
    advance_to-Settled role leader_commit term vote n s
store_entries-Settled role (e ∷ es) leader_commit old_term term vote n s =
    let stored : Bool × List LogEntry = append_all n.log_base n.log (e ∷ es) in
    elim (Bool-cases stored.0) [
      | inl ok ↦
          rw (ok, store_entries)
            (advance_to-Settled role leader_commit term vote (save (record n { log = stored.1 }))
              (record {
                in_role = s.in_role;
                in_term = s.in_term;
                voted = s.voted;
                saved = λ ok. rw ok (s.in_term, s.voted);
              }))
      | inr gap ↦
          rw (gap, store_entries)
            (record { in_role = s.in_role; in_term = s.in_term; voted = s.voted; saved = s.saved })
    ]

check_previous-Settled :
    (role : Role) (req : AppendRequest) (old_term term vote : ℕ) (n : Node)
    → Settled role term vote n
    → Settled role term vote (check_previous req old_term n).0
unfolding check_previous
check_previous-Settled role req old_term term vote n s =
    ground
      (arith, s, store_entries-Settled role req.entries req.leader_commit old_term term vote n s)

pub become_follower-Settled :
    (term : ℕ) (n : Node) → Settled follower term 0 (become_follower term n)
unfolding become_follower written
become_follower-Settled term n = record {
  in_role = refl;
  in_term = refl;
  voted = refl;
  saved = λ ok. rw ok (refl, refl);
}

-- A request that is not behind the node's term.
pub handle_append_entries-Settled :
    (req : AppendRequest) (n : Node)
    → n.current_term ≤ req.term
    → Settled follower req.term 0 (handle_append_entries req n).0
unfolding handle_append_entries become_follower written
handle_append_entries-Settled req n h = elim (Bool-cases (ltb req.term n.current_term)) [
  | inl stale ↦ absurd (ground arith)
  | inr fresh ↦ rw fresh (
      check_previous-Settled follower req n.current_term req.term 0
        (record (become_follower req.term n) { leader_id = req.leader_id })
        (record { in_role = refl; in_term = refl; voted = refl; saved = λ ok. rw ok (refl, refl) }))
]

-- A request that is behind changes nothing.
pub handle_append_entries_stale :
    (req : AppendRequest) (n : Node)
    → ltb req.term n.current_term ≡ true
    → (handle_append_entries req n).0 ≡ n
unfolding handle_append_entries
handle_append_entries_stale req n stale = rw stale refl
