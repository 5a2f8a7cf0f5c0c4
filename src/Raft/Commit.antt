-- ===== src/Raft/Commit.antt =====
-- ApplyCommitted hands the committed commands to the state machine, in log order and once each.
use lightkv.Prelude.{
  ℕ, zero, suc, ◌+◌, ◌-◌, ◌≤◌, ◌<◌, min, none, some, List, [], ◌∷◌, ◌++◌, length, get_elem?, take,
  drop, ltb, ◌≡◌, refl, sym, ap, ◌∙◌, arith, append-nil, append_assoc, Bool-cases, inl, inr,
}
use lightkv.Raft.{
  LogEntry, command, Node, position, last_log_index, apply_entry, apply_at, apply_rounds,
  apply_committed,
}
use lightkv.Raft.Replication.{advance_to}

-- The payloads of the commands among some entries.
pub commands : List LogEntry → List (List ℕ)
commands [] = []
commands (e ∷ log) = elim e.type [ command ↦ e.payload ∷ commands log | _ ↦ commands log ]

-- Applying changes two fields only.
pub apply_rounds_shape :
    (k : ℕ) (n : Node)
    → (out : List (List ℕ)) × (apply_rounds k n
        ≡ record n { last_applied = n.last_applied + k; applied = out })
unfolding apply_rounds
apply_rounds_shape zero n = (n.applied, ap (λ t. record n { last_applied = t }) (omega arith))
apply_rounds_shape (suc k) n =
    let (out, e) =
      apply_rounds_shape k (record n { last_applied = n.last_applied + 1; applied = apply_at n }) in
    (out, e ∙ ap (λ t. record n { last_applied = t; applied = out }) (omega arith))

pub advance_to_shape :
    (leader_commit : ℕ) (n : Node)
    → (commit last : ℕ) × (out : List (List ℕ)) × (advance_to leader_commit n
        ≡ record n { commit_index = commit; last_applied = last; applied = out })
unfolding advance_to apply_committed
advance_to_shape leader_commit n = elim (Bool-cases (ltb n.commit_index leader_commit)) [
  | inl more ↦
      let to : ℕ = min leader_commit (last_log_index n) in
      let (out, e) = apply_rounds_shape (to - n.last_applied) (record n { commit_index = to }) in
      (to, n.last_applied + (to - n.last_applied), out, rw more e)
  | inr done ↦ (n.commit_index, n.last_applied, n.applied, rw done refl)
]

drop_step :
    (i : ℕ) (log : List LogEntry)
    → i < length log
    → (e : LogEntry) × (get_elem? log i ≡ some e) × (drop i log ≡ e ∷ drop (suc i) log)
drop_step i [] h = absurd (omega arith)
drop_step zero (e ∷ log) h = (e, refl, refl)
drop_step (suc i) (x ∷ log) h =
    let (e, found, split) = drop_step i log (omega arith) in (e, found, split)

apply_entry-commands :
    (e : LogEntry) (out : List (List ℕ)) (log : List LogEntry)
    → apply_entry e out ++ commands log ≡ out ++ commands (e ∷ log)
unfolding apply_entry commands
apply_entry-commands e out log = ground (arith, append_assoc out (e.payload ∷ []) (commands log))

apply_at_lem :
    (n : Node) (e : LogEntry)
    → n.log_base ≤ n.last_applied + 1
    → n.last_applied + 1 < n.log_base + length n.log
    → get_elem? n.log (n.last_applied + 1 - n.log_base) ≡ some e
    → apply_at n ≡ apply_entry e n.applied
unfolding apply_at position
apply_at_lem n e h b found =
    ap
      (λ o. elim o [
        | none ↦ n.applied
        | some pos ↦ elim (get_elem? n.log pos) [
          | none ↦ n.applied
          | some x ↦ apply_entry x n.applied
        ]
      ])
      here
    ∙ ap (λ o. elim o [ none ↦ n.applied | some x ↦ apply_entry x n.applied ]) found
  where
    here : position n.log_base n.log (n.last_applied + 1) ≡ some (n.last_applied + 1 - n.log_base)
    here = ground arith

-- `k` rounds apply the next `k` entries of the log.
apply_rounds-commands :
    (k : ℕ) (n : Node)
    → n.log_base ≤ n.last_applied + 1
    → n.last_applied + k < n.log_base + length n.log
    → (apply_rounds k n).applied
      ≡ n.applied ++ commands (take k (drop (n.last_applied + 1 - n.log_base) n.log))
unfolding apply_rounds
apply_rounds-commands zero n h b = unfold commands in sym (append-nil n.applied)
apply_rounds-commands (suc k) n h b =
    let (e, found, split) = drop_step (n.last_applied + 1 - n.log_base) n.log (omega arith) in
    apply_rounds-commands k (record n { last_applied = n.last_applied + 1; applied = apply_at n })
      (omega arith) (omega arith)
    ∙ ap (λ i. apply_at n ++ commands (take k (drop i n.log)))
        {x = n.last_applied + 1 + 1 - n.log_base} {y = suc (n.last_applied + 1 - n.log_base)}
        (omega arith)
    ∙ ap (λ out. out ++ commands (take k (drop (suc (n.last_applied + 1 - n.log_base)) n.log)))
        (apply_at_lem n e h (omega arith) found)
    ∙ apply_entry-commands e n.applied _
    ∙ ap (λ l. n.applied ++ commands (take (suc k) l)) (sym split)

-- ApplyCommitted on a node whose commit index lies in the log: afterwards everything up to the
-- commit index is applied, and the state machine has been handed the commands among the newly
-- committed entries, in log order, each once; configuration changes and no-ops are not handed over.
pub apply_committed-commands :
    (n : Node)
    → n.log_base ≤ n.last_applied + 1
    → n.last_applied ≤ n.commit_index
    → n.commit_index < n.log_base + length n.log
    → ((apply_committed n).last_applied ≡ n.commit_index)
      × ((apply_committed n).applied
          ≡ n.applied
            ++ commands (
                take
                  (n.commit_index - n.last_applied)
                  (drop (n.last_applied + 1 - n.log_base) n.log)))
unfolding apply_committed
apply_committed-commands n h behind inside =
    let (out, shape) = apply_rounds_shape (n.commit_index - n.last_applied) n in
    (
      ap (λ (m : Node). m.last_applied) shape ∙ omega arith,
      apply_rounds-commands (n.commit_index - n.last_applied) n h (omega arith),
    )
