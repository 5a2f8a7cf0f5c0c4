-- ===== src/Raft/Restart.antt =====
-- src/raft.cpp: LoadPersistentState and LoadSnapshotData, which a node starts with. The files are
-- given as the fields that were written to them; their encoding is not modelled.
use lightkv.Prelude.{
  ℕ, ◌+◌, ◌-◌, ◌%◌, ◌^◌, ◌<◌, true, Option, none, some, List, [], ◌∷◌, length, ltb, ◌==◌, not, ◌||◌,
  if◌then◌else◌, ◌≡◌, ◌≢◌, inl, inr, refl, sym, ap, ◌∙◌, arith,
}
use lightkv.Raft.{no_op, LogEntry, Disk, Node, last_log_index, last_log_term, term_for_index}
use lightkv.Raft.Matching.{IsIndexed}
use lightkv.Raft.Follower.{IsLog}
use lightkv.Raft.Election.{VoteRequest, up_to_date, handle_request_vote}
use lightkv.Raft.Votes.{Granted-saved}

-- What SaveSnapshotData writes.
pub record SnapshotFile : Type 0 where
  pub snap_index : ℕ
  pub snap_term : ℕ
  pub bytes : List ℕ

-- The index of the last entry of a log.
pub back_index : LogEntry → List LogEntry → ℕ
back_index e [] = e.index
back_index e (x ∷ log) = back_index x log

abbrev empty_log : List LogEntry
empty_log = (record { index = 0; term = 0; type = no_op; payload = [] }) ∷ []

-- The log that LoadPersistentState keeps of the one it has read, and its base.
unfoldable pub load_log : List LogEntry → ℕ × List LogEntry
unfolding back_index
load_log [] = (0, empty_log)
load_log (e ∷ log) =
    let base = (back_index e log + 2 ^ 64 - length log) % 2 ^ 64 in
    if e.index == base then (base, e ∷ log) else (0, empty_log)

-- Raft::LoadSnapshotData, behind the checks of the file's layout.
unfoldable pub load_snapshot_data : Option SnapshotFile → Node → Node
load_snapshot_data none n = n
load_snapshot_data (some file) n =
    if (ltb file.snap_index n.log_base || ltb (last_log_index n) file.snap_index)
      || not (term_for_index n file.snap_index == file.snap_term)
    then n
    else record n {
      snapshot = file.bytes;
      last_snapshot_index = file.snap_index;
      last_snapshot_term = file.snap_term;
    }

-- Raft::LoadPersistentState on the object `n` of a new process.
unfoldable pub load_persistent_state : Disk → Option SnapshotFile → Node → Node
load_persistent_state disk file n =
    let (base, log) = load_log disk.saved_log in
    load_snapshot_data file (record n {
      current_term = disk.saved_term;
      voted_for = disk.saved_vote;
      log = log;
      log_base = base;
    })

back_index-eq :
    (base : ℕ) (e : LogEntry) (log : List LogEntry)
    → IsIndexed base (e ∷ log)
    → back_index e log ≡ base + length log
unfolding back_index
back_index-eq base e [] h = omega (arith, h.0)
back_index-eq base e (x ∷ log) h = omega (arith, back_index-eq (base + 1) x log h.1)

-- A log that was numbered without a gap comes back with its base.
load_log-eq :
    (base : ℕ) (log : List LogEntry) → base < 2 ^ 64 → IsLog base log → load_log log ≡ (base, log)
unfolding load_log
load_log-eq base [] small well = absurd (omega (arith, well.nonempty))
load_log-eq base (e ∷ log) small well =
    let last = back_index-eq base e log well.indexed in
    let same : (back_index e log + 2 ^ 64 - length log) % 2 ^ 64 ≡ base = omega (arith, last) in
    ground (arith, same, well.indexed.0)

load_snapshot_data-vote :
    (file : Option SnapshotFile) (n : Node)
    → ((load_snapshot_data file n).current_term ≡ n.current_term)
      × ((load_snapshot_data file n).voted_for ≡ n.voted_for)
      × ((load_snapshot_data file n).log_base ≡ n.log_base)
      × ((load_snapshot_data file n).log ≡ n.log)
unfolding load_snapshot_data
load_snapshot_data-vote none n = (refl, refl, refl, refl)
load_snapshot_data-vote (some file) n = ground arith

up_to_date-eq :
    (req : VoteRequest) (n m : Node)
    → m.log_base ≡ n.log_base
    → m.log ≡ n.log
    → up_to_date req m ≡ up_to_date req n
unfolding up_to_date last_log_term last_log_index
up_to_date-eq req n m base log = rw (base, log) refl

-- A node that has granted a vote to a candidate (whose id is not 0), whose log is numbered from its
-- base, a number of 64 bits, and whose SavePersistentState for that vote succeeded grants, after a restart from the files
-- with any snapshot file, a vote of the same term to the same candidate only, and only to a log that
-- is at least as new as the one before the restart.
pub one_vote_over_restart :
    (first second : VoteRequest) (file : Option SnapshotFile) (n blank : Node)
    → first.candidate_id ≢ 0
    → n.log_base < 2 ^ 64
    → IsLog n.log_base n.log
    → second.term ≡ first.term
    → (handle_request_vote first n).1.vote_granted ≡ true
    → (handle_request_vote first n).0.last_saved ≡ true
    → (handle_request_vote second
        (load_persistent_state (handle_request_vote first n).0.disk file blank)).1.vote_granted
      ≡ true
    → (second.candidate_id ≡ first.candidate_id) × (up_to_date second n ≡ true)
unfolding load_persistent_state
one_vote_over_restart first second file n blank nonzero small well same_term ok saved again =
    let (term, vote, log) = (Granted-saved first n ok).saved saved in
    let disk : Disk = (handle_request_vote first n).0.disk in
    let loaded = load_log-eq n.log_base n.log small well in
    let read : load_log disk.saved_log ≡ (n.log_base, n.log) = ap load_log log ∙ loaded in
    let (t, v, b, l) = load_snapshot_data-vote file (record blank {
      current_term = disk.saved_term;
      voted_for = disk.saved_vote;
      log = (load_log disk.saved_log).1;
      log_base = (load_log disk.saved_log).0;
    }) in
    let h = Granted-saved second (load_persistent_state disk file blank) again in
    (
      elim h.free [
        | inl later ↦ absurd (omega (arith, t, term))
        | inr (inl none_yet) ↦ absurd (nonzero (sym vote ∙ sym v ∙ none_yet))
        | inr (inr there) ↦ sym there ∙ v ∙ vote
      ],
      sym (
            up_to_date-eq second n (load_persistent_state disk file blank)
              (b ∙ ap (λ (x : ℕ × List LogEntry). x.0) read)
              (l ∙ ap (λ (x : ℕ × List LogEntry). x.1) read))
          ∙ h.newer,
    )
