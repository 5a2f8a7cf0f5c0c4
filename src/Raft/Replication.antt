-- ===== src/Raft/Replication.antt =====
-- src/raft.cpp: HandleAppendEntries on a follower, and on the leader the answers to it and
-- AdvanceCommitIndex.
use lightkv.Prelude.{
  ℕ, zero, suc, ◌+◌, ◌-◌, ◌/◌, min, Bool, true, false, none, some, List, [], ◌∷◌, ◌++◌, length,
  get_or, set, take, drop, ltb, leb, ◌==◌, if◌then◌else◌, ◌&&◌, ◌||◌,
}
use lightkv.Raft.{
  leader, LogEntry, Peer, Node, save, position, log_pos, last_log_index, term_at, term_for_index,
  become_follower, apply_committed,
}

-- AppendEntriesRequest
pub record AppendRequest : Type 0 where
  pub term : ℕ
  pub leader_id : ℕ
  pub prev_log_index : ℕ
  pub prev_log_term : ℕ
  pub entries : List LogEntry
  pub leader_commit : ℕ

-- AppendEntriesResponse
pub record AppendResponse : Type 0 where
  pub term : ℕ
  pub success : Bool
  pub conflict_term : ℕ
  pub conflict_index : ℕ

abbrev pub refusal : ℕ → ℕ → ℕ → AppendResponse
refusal term conflict_term conflict_index = record {
  term = term;
  success = false;
  conflict_term = conflict_term;
  conflict_index = conflict_index;
}

-- The scan back to the first position of the conflicting term.
pub scan_back : List LogEntry → ℕ → ℕ → ℕ
scan_back log term zero = zero
scan_back log term (suc pos) =
    let further = scan_back log term pos in if term_at log pos == term then further else suc pos

-- `push_back` behind the check that the entries are contiguous; `false` is the rejection.
unfoldable pub push_entry : ℕ → List LogEntry → LogEntry → Bool × List LogEntry
push_entry base log e = if e.index == base + length log then (true, log ++ e ∷ []) else (false, log)

-- One round of the loop over the entries: an entry that is there already is skipped, and one of
-- another term cuts the log off first.
unfoldable pub append_one : ℕ → List LogEntry → LogEntry → Bool × List LogEntry
unfolding push_entry
append_one base log e = elim (position base log e.index) [
  | none ↦ push_entry base log e
  | some pos ↦ if term_at log pos == e.term then (true, log) else push_entry base (take pos log) e
]

-- The loop; `false` is the return on a gap.
unfoldable pub append_all : ℕ → List LogEntry → List LogEntry → Bool × List LogEntry
append_all base log [] = (true, log)
append_all base log (e ∷ es) =
    let (went, log') = append_one base log e in
    let rest = append_all base log' es in if went then rest else (false, log')

-- Step 5: the commit index, and what it lets the node apply.
unfoldable pub advance_to : ℕ → Node → Node
advance_to leader_commit n =
    if ltb n.commit_index leader_commit
    then apply_committed (record n { commit_index = min leader_commit (last_log_index n) })
    else n

abbrev success : ℕ → AppendResponse
success term = record { term = term; success = true; conflict_term = 0; conflict_index = 0 }

-- Steps 4 and 5 on a node whose log holds the entry before: the entries and the leader's commit
-- index.
unfoldable pub store_entries : List LogEntry → ℕ → ℕ → Node → Node × AppendResponse
unfolding save
store_entries [] leader_commit old_term n = (advance_to leader_commit n, success n.current_term)
store_entries (e ∷ es) leader_commit old_term n =
    let (went, log') = append_all n.log_base n.log (e ∷ es) in
    if went
    then (advance_to leader_commit (save (record n { log = log' })), success n.current_term)
    else (record n { log = log' }, refusal old_term 0 (n.log_base + length log'))

-- Step 3: the entry before the new ones.
unfoldable pub check_previous : AppendRequest → ℕ → Node → Node × AppendResponse
check_previous req old_term n =
    if ltb req.prev_log_index n.last_snapshot_index
    then (n, refusal old_term 0 (n.last_snapshot_index + 1))
    else if req.prev_log_index == 0
    then store_entries req.entries req.leader_commit old_term n
    else elim (log_pos n req.prev_log_index) [
      | none ↦ (n, refusal old_term 0 (last_log_index n + 1))
      | some pos ↦
          let there = term_at n.log pos in
          if there == req.prev_log_term
          then store_entries req.entries req.leader_commit old_term n
          else (n, refusal old_term there (n.log_base + scan_back n.log there pos))
    ]

-- Raft::HandleAppendEntries
unfoldable pub handle_append_entries : AppendRequest → Node → Node × AppendResponse
handle_append_entries req n =
    if ltb req.term n.current_term
    then (n, refusal n.current_term 0 0)
    else check_previous req n.current_term
        (record (become_follower req.term n) { leader_id = req.leader_id })

-- The count over the voters other than the node itself whose match index has reached `n`.
unfoldable pub count_replicas : ℕ → ℕ → List Peer → List ℕ → ℕ
count_replicas self n (p ∷ peers) (m ∷ matches) =
    (if p.id == self then 0 else if p.is_voter then (if leb n m then 1 else 0) else 0)
    + count_replicas self n peers matches
count_replicas self n _ _ = 0

unfoldable pub count_voters : List Peer → ℕ
count_voters [] = 0
count_voters (p ∷ peers) = (if p.is_voter then 1 else 0) + count_voters peers

unfoldable pub self_votes : ℕ → List Peer → Bool
self_votes self [] = false
self_votes self (p ∷ peers) = (p.is_voter && p.id == self) || self_votes self peers

-- `voters / 2 + 1`, where a node that is no voter of its own list counts itself.
unfoldable pub majority : Node → ℕ
majority n =
    let voters = count_voters n.peers + (if self_votes n.node_id n.peers then 0 else 1) in
    (if voters == 0 then voters + 1 else voters) / 2 + 1

unfoldable pub replicated_count : Node → ℕ → ℕ
replicated_count n index = 1 + count_replicas n.node_id index n.peers n.match_index

-- The loop of AdvanceCommitIndex, from `index` on for the rounds left.
unfoldable pub advance_loop : ℕ → ℕ → Node → Node
advance_loop zero index n = n
advance_loop (suc rounds) index n =
    let skip = advance_loop rounds (index + 1) n in
    let commit = advance_loop rounds (index + 1) (record n { commit_index = index }) in
    elim (log_pos n index) [
      | none ↦ skip
      | some pos ↦
          if term_at n.log pos == n.current_term
          then (if leb (majority n) (replicated_count n index) then commit else n)
          else skip
    ]

-- Raft::AdvanceCommitIndex
unfoldable pub advance_commit_index : Node → Node
advance_commit_index n = elim n.role [
  | leader ↦
      apply_committed (advance_loop (last_log_index n - n.commit_index) (n.commit_index + 1) n)
  | _ ↦ n
]

-- The last position of a term, as ReplicateLog looks for it; 0 where there is none.
pub last_of_term : ℕ → ℕ → ℕ → List LogEntry → ℕ
last_of_term term abs found [] = found
last_of_term term abs found (e ∷ log) =
    let here = last_of_term term (abs + 1) abs log in
    let on = last_of_term term (abs + 1) found log in
    if e.term == term then here else if ltb term e.term then found else on

-- Where ReplicateLog goes back to for a peer that refused.
pub back_off : Node → ℕ → AppendResponse → ℕ
back_off n next resp =
    let last = last_of_term resp.conflict_term n.log_base 0 n.log in
    if ltb 0 resp.conflict_term
    then (if ltb 0 last then last + 1 else resp.conflict_index)
    else if ltb 0 resp.conflict_index
    then resp.conflict_index
    else if ltb 1 next
    then next - 1
    else next

-- The request of ReplicateLog to the peer in slot `i`.
pub make_request : Bool → ℕ → Node → AppendRequest
make_request is_heartbeat i n =
    let next = get_or n.next_index i 0 in
    record {
      term = n.current_term;
      leader_id = n.node_id;
      prev_log_index = next - 1;
      prev_log_term = term_for_index n (next - 1);
      entries =
          if is_heartbeat
          then []
          else elim (log_pos n next) [ none ↦ [] | some pos ↦ take n.max_entries (drop pos n.log) ];
      leader_commit = n.commit_index;
    }

-- The index of the last entry that was sent.
pub last_sent : List LogEntry → ℕ
last_sent [] = 0
last_sent (e ∷ []) = e.index
last_sent (e ∷ e' ∷ es) = last_sent (e' ∷ es)

-- What ReplicateLog does with the answer of the peer in slot `i`; the node leads in the term of the request.
unfoldable pub handle_append_response : ℕ → AppendRequest → AppendResponse → Node → Node
handle_append_response i req resp n =
    if ltb n.current_term resp.term
    then become_follower resp.term n
    else if resp.success
    then elim req.entries [
      | [] ↦ n
      | e ∷ es ↦ record n {
        next_index = set n.next_index i (last_sent req.entries + 1);
        match_index = set n.match_index i (last_sent req.entries);
      }
    ]
    else record n { next_index = set n.next_index i (back_off n (get_or n.next_index i 0) resp) }
