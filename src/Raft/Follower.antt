-- ===== src/Raft/Follower.antt =====
-- HandleAppendEntries as a whole: what a success tells the leader.
use lightkv.Prelude.{
  ℕ, ◌+◌, ◌-◌, ◌≤◌, ◌<◌, Bool, true, some, List, [], ◌∷◌, length, ltb, ◌==◌, ◌≡◌, ◌⊎◌, inl, inr,
  refl, arith, All, Bool-cases, Option-cases,
}
use lightkv.Raft.{LogEntry, Node, save, position, term_at, become_follower}
use lightkv.Raft.Replication.{
  AppendRequest, append_all, advance_to, store_entries, check_previous, handle_append_entries,
}
use lightkv.Raft.Matching.{
  IsIndexed, HasEntry, append_all_stores, append_all-IsIndexed, append_all-nonempty,
}
use lightkv.Raft.Commit.{advance_to_shape}

-- A log that is numbered from its base and holds its base entry.
pub record IsLog (base : ℕ) (log : List LogEntry) : Type 0 where
  pub indexed : IsIndexed base log
  pub nonempty : 0 < length log

-- What the follower is after it has answered `success` to entries behind the index `prev`.
pub record Accepted (prev term : ℕ) (es : List LogEntry) (base : ℕ) (old : List LogEntry) (n : Node)
    : Type 0 where
  pub is_log : IsLog base n.log
  pub same_base : n.log_base ≡ base
  pub in_term : n.current_term ≡ term
  pub stored : All (HasEntry base n.log) es
  pub below : (i : ℕ) → i < prev + 1 - base → term_at n.log i ≡ term_at old i

-- Step 5 leaves the log, so that it is enough to look at the node before it.
module _ (leader_commit prev : ℕ) (es : List LogEntry) (n m : Node) where
  advance_to-Accepted :
      IsLog n.log_base m.log
      → m.log_base ≡ n.log_base
      → m.current_term ≡ n.current_term
      → All (HasEntry n.log_base m.log) es
      → ((i : ℕ) → i < prev + 1 - n.log_base → term_at m.log i ≡ term_at n.log i)
      → Accepted prev n.current_term es n.log_base n.log (advance_to leader_commit m)
  advance_to-Accepted well base term stored below =
      let (c, l, out, e) = advance_to_shape leader_commit m in
      rw e
        (record { is_log = well; same_base = base; in_term = term; stored = stored; below = below })

store_entries_accepts :
    (prev : ℕ) (es : List LogEntry) (leader_commit old_term : ℕ) (n : Node)
    → IsLog n.log_base n.log
    → IsIndexed (prev + 1) es
    → n.log_base ≤ prev + 1
    → prev + 1 ≤ n.log_base + length n.log
    → Accepted prev n.current_term es n.log_base n.log (store_entries es leader_commit old_term n).0
unfolding store_entries
store_entries_accepts prev [] leader_commit old_term n well indexed h k =
    advance_to-Accepted leader_commit prev [] n n well refl refl tt (λ i lt. refl)
store_entries_accepts prev (e ∷ es) leader_commit old_term n well indexed h k =
    let all = append_all_stores n.log_base (prev + 1) n.log (e ∷ es) indexed h k in
    rw (all.succeeds, store_entries)
      (advance_to-Accepted leader_commit prev (e ∷ es) n
        (save (record n { log = (append_all n.log_base n.log (e ∷ es)).1 }))
        (record {
          indexed = append_all-IsIndexed n.log_base n.log (e ∷ es) well.indexed;
          nonempty = append_all-nonempty n.log_base n.log (e ∷ es) well.nonempty;
        })
        refl refl all.stored all.below)

-- Where check_previous goes on to the entries: the entry before them is there, or there is none.
record Passed (req : AppendRequest) (old_term : ℕ) (n : Node) : Type 0 where
  goes_on : check_previous req old_term n ≡ store_entries req.entries req.leader_commit old_term n
  above : n.log_base ≤ req.prev_log_index + 1
  inside : req.prev_log_index + 1 ≤ n.log_base + length n.log
  matches :
      (req.prev_log_index ≡ 0)
      ⊎ (term_at n.log (req.prev_log_index - n.log_base) ≡ req.prev_log_term)

position-some :
    (base : ℕ) (log : List LogEntry) (i pos : ℕ)
    → position base log i ≡ some pos
    → (base ≤ i) × (i < base + length log) × (pos ≡ i - base)
unfolding position
position-some base log i pos h = ground arith

check_previous_passes :
    (req : AppendRequest) (old_term : ℕ) (n : Node)
    → 0 < length n.log
    → n.log_base ≤ n.last_snapshot_index + 1
    → (check_previous req old_term n).1.success ≡ true
    → Passed req old_term n
unfolding check_previous
check_previous_passes req old_term n nonempty snapshot ok =
    elim (Bool-cases (ltb req.prev_log_index n.last_snapshot_index)) [
      | inl stale ↦ absurd (ground arith)
      | inr fresh ↦ elim (Bool-cases (req.prev_log_index == 0)) [
        | inl first ↦ record {
          goes_on = ground arith;
          above = ground arith;
          inside = ground arith;
          matches = inl (ground arith);
        }
        | inr later ↦ elim (Option-cases (position n.log_base n.log req.prev_log_index)) [
          | inl gone ↦ absurd (ground arith)
          | inr (pos, there) ↦
              let (above, inside, at) =
                position-some n.log_base n.log req.prev_log_index pos there in
              elim (Bool-cases (term_at n.log pos == req.prev_log_term)) [
                | inl same ↦ record {
                  goes_on = ground arith;
                  above = omega (arith, above);
                  inside = omega (arith, inside);
                  matches = inr (rw (← at) (ground arith));
                }
                | inr other ↦ absurd (ground arith)
              ]
        ]
      ]
    ]

-- A request whose entries are numbered from behind `prev_log_index` on, to a follower whose log is
-- numbered and not empty and whose snapshot is not ahead of its base. If the follower answers
-- `success`, it is in the request's term, its log is still numbered from the same base, holds an
-- entry of the right term at the index of each entry sent and of the entry before them, and up to
-- that entry it has kept its terms.
pub append_entries_matching :
    (req : AppendRequest) (n : Node)
    → IsLog n.log_base n.log
    → n.log_base ≤ n.last_snapshot_index + 1
    → IsIndexed (req.prev_log_index + 1) req.entries
    → (handle_append_entries req n).1.success ≡ true
    → Accepted req.prev_log_index req.term req.entries n.log_base n.log
        (handle_append_entries req n).0
      × ((req.prev_log_index ≡ 0)
          ⊎ (term_at n.log (req.prev_log_index - n.log_base) ≡ req.prev_log_term))
unfolding handle_append_entries become_follower
append_entries_matching req n well snapshot indexed ok =
    elim (Bool-cases (ltb req.term n.current_term)) [
      | inl stale ↦ absurd (ground arith)
      | inr current ↦
          let m : Node = record (become_follower req.term n) { leader_id = req.leader_id } in
          let pass =
            check_previous_passes req n.current_term m well.nonempty snapshot
              (rw (current, handle_append_entries) at ok) in
          rw current (
            rw pass.goes_on (
              (store_entries_accepts req.prev_log_index req.entries req.leader_commit n.current_term
                  m well indexed pass.above pass.inside),
              pass.matches,
            ))
    ]

store_entries-IsLog :
    (es : List LogEntry) (leader_commit old_term : ℕ) (n : Node)
    → IsLog n.log_base n.log
    → ((store_entries es leader_commit old_term n).0.log_base ≡ n.log_base)
      × IsLog n.log_base (store_entries es leader_commit old_term n).0.log
unfolding store_entries
store_entries-IsLog [] leader_commit old_term n well =
    let (c, l, out, e) = advance_to_shape leader_commit n in rw e (refl, well)
store_entries-IsLog (e ∷ es) leader_commit old_term n well =
    let stored : Bool × List LogEntry = append_all n.log_base n.log (e ∷ es) in
    let well' : IsLog n.log_base stored.1 = record {
      indexed = append_all-IsIndexed n.log_base n.log (e ∷ es) well.indexed;
      nonempty = append_all-nonempty n.log_base n.log (e ∷ es) well.nonempty;
    } in
    elim (Bool-cases stored.0) [
      | inl ok ↦
          let (c, l, out, shape) =
            advance_to_shape leader_commit (save (record n { log = stored.1 })) in
          rw (ok, store_entries) (rw shape (refl, well'))
      | inr gap ↦ rw (gap, store_entries) (refl, well')
    ]

check_previous-IsLog :
    (req : AppendRequest) (old_term : ℕ) (n : Node)
    → IsLog n.log_base n.log
    → ((check_previous req old_term n).0.log_base ≡ n.log_base)
      × IsLog n.log_base (check_previous req old_term n).0.log
unfolding check_previous
check_previous-IsLog req old_term n well =
    let stored = store_entries-IsLog req.entries req.leader_commit old_term n well in
    elim (Bool-cases (ltb req.prev_log_index n.last_snapshot_index)) [
      | inl stale ↦ rw stale (refl, well)
      | inr fresh ↦ elim (Bool-cases (req.prev_log_index == 0)) [
        | inl first ↦ rw fresh (rw first stored)
        | inr later ↦ elim (Option-cases (position n.log_base n.log req.prev_log_index)) [
          | inl gone ↦ rw fresh (rw later (rw gone (refl, well)))
          | inr (pos, there) ↦ elim (Bool-cases (term_at n.log pos == req.prev_log_term)) [
            | inl same ↦ rw fresh (rw later (rw there (rw same stored)))
            | inr other ↦ rw fresh (rw later (rw there (rw other (refl, well))))
          ]
        ]
      ]
    ]

-- The follower's log keeps its base and its numbering, whatever the request.
pub handle_append_entries-IsLog :
    (req : AppendRequest) (n : Node)
    → IsLog n.log_base n.log
    → ((handle_append_entries req n).0.log_base ≡ n.log_base)
      × IsLog n.log_base (handle_append_entries req n).0.log
unfolding handle_append_entries become_follower
handle_append_entries-IsLog req n well = elim (Bool-cases (ltb req.term n.current_term)) [
  | inl stale ↦ rw stale (refl, well)
  | inr fresh ↦ rw fresh (
      check_previous-IsLog req n.current_term
        (record (become_follower req.term n) { leader_id = req.leader_id }) well)
]
