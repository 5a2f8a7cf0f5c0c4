-- ===== src/Raft/Compaction.antt =====
-- CompactLog and TriggerSnapshot: what is left of the log.
use lightkv.Prelude.{
  ℕ, zero, suc, ◌+◌, List, Bool, true, false, some, [], ◌∷◌, get_elem?, leb, ◌==◌, ◌≡◌, inl, inr,
  refl, arith, Bool-cases, Option-cases,
}
use lightkv.Raft.{LogEntry, Node, save, position, log_pos, term_for_index}
use lightkv.Raft.Snapshot.{compact_log, trigger_snapshot, is_empty}
use lightkv.Raft.Matching.{IsIndexed}
use lightkv.Raft.Follower.{IsLog}

indexed_at :
    (base i : ℕ) (log : List LogEntry) (e : LogEntry)
    → IsIndexed base log
    → get_elem? log i ≡ some e
    → e.index ≡ base + i
indexed_at base i [] e h there = absurd (ground (arith, there))
indexed_at base zero (x ∷ log) e h there = ground (arith, h.0)
indexed_at base (suc i) (x ∷ log) e h there =
    let rest = indexed_at (base + 1) i log e h.1 there in omega arith

position-eq :
    (base index pos : ℕ) (log : List LogEntry)
    → position base log index ≡ some pos
    → base + pos ≡ index
unfolding position
position-eq base index pos log h = ground arith

-- The log that CompactLog leaves, which is numbered from its base as before.
pub compact_log_shape :
    (snap_index : ℕ) (n : Node)
    → IsLog n.log_base n.log
    → (base : ℕ) × (log : List LogEntry) × (compact_log snap_index n
        ≡ record n { log = log; log_base = base })
      × IsLog base log
unfolding compact_log
compact_log_shape snap_index n s = elim (Bool-cases (snap_index == 0)) [
  | inl none_taken ↦ (n.log_base, n.log, rw none_taken refl, s)
  | inr taken ↦ elim (Option-cases (log_pos n snap_index)) [
    | inl gone ↦ (n.log_base, n.log, rw taken (rw gone refl), s)
    | inr (pos, held) ↦ elim (Option-cases (get_elem? n.log pos)) [
      | inl out ↦ (n.log_base, n.log, rw taken (rw held (rw out refl)), s)
      | inr (e, there) ↦ (
        snap_index,
        e ∷ [],
        rw taken (rw held (rw there refl)),
        record {
          indexed = (
            omega (
              arith,
              indexed_at n.log_base pos n.log e s.indexed there,
              position-eq n.log_base snap_index pos n.log held,
            ),
            tt,
          );
          nonempty = omega arith;
        },
      )
    ]
  ]
]

-- The two ways TriggerSnapshot ends.
pub data Snapping (snap_data : List ℕ) (is_written : Bool) (n : Node) : Type 0 where
  keeps_all :
      (answer : Bool)
      → trigger_snapshot snap_data is_written n ≡ (answer, n)
      → Snapping snap_data is_written n
  cuts :
      trigger_snapshot snap_data is_written n ≡ (
        true,
        save (
            compact_log n.last_applied (record n {
              last_snapshot_index = n.last_applied;
              last_snapshot_term = term_for_index n n.last_applied;
              snapshot = snap_data;
            })),
      )
      → Snapping snap_data is_written n

pub snapping : (snap_data : List ℕ) (is_written : Bool) (n : Node) → Snapping snap_data is_written n
unfolding trigger_snapshot
snapping snap_data is_written n = elim (Bool-cases (n.last_applied == 0)) [
  | inl nothing ↦ keeps_all false (rw nothing refl)
  | inr some_applied ↦ elim (Bool-cases (leb n.last_applied n.last_snapshot_index)) [
    | inl current ↦ keeps_all true (rw some_applied (rw current refl))
    | inr old ↦ elim (Bool-cases (is_empty snap_data)) [
      | inl empty ↦ keeps_all false (rw some_applied (rw old (rw empty refl)))
      | inr full ↦ elim (Bool-cases is_written) [
        | inl ok ↦ cuts (rw some_applied (rw old (rw full (rw ok refl))))
        | inr failed ↦ keeps_all false (rw some_applied (rw old (rw full (rw failed refl))))
      ]
    ]
  ]
]
