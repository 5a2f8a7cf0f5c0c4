-- ===== src/Raft/Examples.antt =====
-- Nodes of a cluster of three.
use lightkv.Prelude.{
  ℕ, ◌+◌, ◌/◌, ◌<◌, ◌≤◌, ◌≡◌, ◌≢◌, ◌⊎◌, refl, arith, true, false, none, List, [], ◌∷◌, ◌++◌,
}
use lightkv.Raft.{
  Role, follower, candidate, leader, command, no_op, LogEntry, Peer, Node, written, save, position,
  last_log_index, term_at, last_log_term, become_follower, become_candidate, become_leader, propose,
  apply_rounds, apply_committed,
}
use lightkv.Raft.Replication.{
  AppendRequest, append_one, append_all, advance_to, store_entries, check_previous,
  handle_append_entries, advance_loop, advance_commit_index, count_voters, majority,
  replicated_count, count_replicas, self_votes,
}
use lightkv.Raft.Election.{
  VoteRequest, Answer, up_to_date, decide_vote, handle_request_vote, is_asked, election_loop,
  start_election, handle_election_timeout,
}
use lightkv.Raft.Replication.{push_entry}
use lightkv.Raft.Follower.{Accepted, append_entries_matching}
use lightkv.Raft.Commit.{commands, apply_committed-commands}
use lightkv.Raft.Votes.{Granted, Granted-saved, run_votes, one_vote_per_term, vote_forgotten}
use lightkv.Raft.Steps.{proposal, Reach, here, next}
use lightkv.Raft.Snapshot.{InstallRequest, check_and_compact_log, handle_install_snapshot}
use lightkv.Raft.Calls.{step, compacts, installs, none_yet, then}
use lightkv.Raft.Restart.{
  load_log, load_snapshot_data, load_persistent_state, one_vote_over_restart,
}
use lightkv.Raft.Sound.{IsSound, Reach-IsSound}
use lightkv.Raft.Leadership.{leader_append_only}
use lightkv.Raft.Quorum.{IsCommittable, advance_commit_index-IsCommittable}
use lightkv.Raft.Campaign.{votes_for, handle_election_timeout-votes, handle_election_timeout-Reach}

abbrev entry : ℕ → ℕ → List ℕ → LogEntry
entry index term payload = record { index = index; term = term; type = command; payload = payload }

abbrev base_entry : LogEntry
base_entry = record { index = 0; term = 0; type = no_op; payload = [] }

abbrev three_peers : List Peer
three_peers =
    record { id = 1; is_voter = true }
    ∷ record { id = 2; is_voter = true }
    ∷ record { id = 3; is_voter = true }
    ∷ []

abbrev node : Role → List LogEntry → Node
node role log = record {
  node_id = 1;
  peers = three_peers;
  max_entries = 100;
  current_term = 1;
  voted_for = 0;
  log = log;
  log_base = 0;
  commit_index = 0;
  last_applied = 0;
  next_index = 1 ∷ 1 ∷ 1 ∷ [];
  match_index = 0 ∷ 1 ∷ 0 ∷ [];
  role = role;
  leader_id = 0;
  last_snapshot_index = 0;
  last_snapshot_term = 0;
  snapshot = [];
  disk = record {
    saved_term = 1;
    saved_vote = 0;
    saved_snapshot_index = 0;
    saved_snapshot_term = 0;
    saved_log = log;
  };
  can_save = λ k. true;
  saves = 0;
  last_saved = true;
  applied = [];
}

abbrev short_log : List LogEntry
short_log = base_entry ∷ entry 1 1 (7 ∷ []) ∷ []

abbrev fresh : Node
fresh = node follower short_log

-- An entry behind the log's last.
abbrev one_more : AppendRequest
one_more = record {
  term = 1;
  leader_id = 2;
  prev_log_index = 1;
  prev_log_term = 1;
  entries = entry 2 1 (8 ∷ []) ∷ [];
  leader_commit = 1;
}

accepted_lem : (handle_append_entries one_more fresh).1.success ≡ true
unfolding handle_append_entries become_follower check_previous position store_entries append_all
    append_one push_entry term_at
accepted_lem = refl

append_entries_matching_example :
    Accepted 1 1 one_more.entries 0 short_log (handle_append_entries one_more fresh).0
    × (◌≡◌ {A = ℕ} 1 0 ⊎ (term_at short_log 1 ≡ 1))
append_entries_matching_example =
    append_entries_matching one_more fresh
      (record { indexed = omega arith; nonempty = omega arith }) (omega arith) (omega arith)
      accepted_lem

abbrev committed : Node
committed = record fresh { commit_index = 1 }

apply_committed-commands_example :
    ((apply_committed committed).last_applied ≡ 1)
    × ((apply_committed committed).applied ≡ [] ++ commands (entry 1 1 (7 ∷ []) ∷ []))
apply_committed-commands_example =
    apply_committed-commands committed (omega arith) (omega arith) (omega arith)

abbrev vote_for : ℕ → VoteRequest
vote_for candidate_id = record {
  term = 2;
  candidate_id = candidate_id;
  last_log_index = 1;
  last_log_term = 1;
}

granted_lem : (handle_request_vote (vote_for 2) fresh).1.vote_granted ≡ true
unfolding handle_request_vote become_follower decide_vote up_to_date last_log_term last_log_index
    term_at
granted_lem = refl

Granted-saved_example : Granted (vote_for 2) fresh (handle_request_vote (vote_for 2) fresh).0
Granted-saved_example = Granted-saved (vote_for 2) fresh granted_lem

-- The vote is granted also where it could not be written.
unsaved_vote :
    let node : Node = record fresh { can_save = λ k. false } in
    ((handle_request_vote (vote_for 2) node).1.vote_granted ≡ true)
    × ((handle_request_vote (vote_for 2) node).0.voted_for ≡ 2)
    × ((handle_request_vote (vote_for 2) node).0.disk.saved_vote ≡ 0)
unfolding handle_request_vote become_follower decide_vote up_to_date last_log_term last_log_index
    term_at written
unsaved_vote = (refl, refl, refl)

again_lem :
    (handle_request_vote
      (vote_for 2)
      (run_votes (vote_for 3 ∷ []) (handle_request_vote (vote_for 2) fresh).0)).1.vote_granted
    ≡ true
unfolding run_votes handle_request_vote become_follower decide_vote up_to_date last_log_term
    last_log_index term_at
again_lem = refl

one_vote_per_term_example : (vote_for 2).candidate_id ≡ (vote_for 2).candidate_id
one_vote_per_term_example =
    one_vote_per_term (vote_for 2) (vote_for 2) (vote_for 3 ∷ []) fresh (omega arith) refl
      granted_lem again_lem

-- The node has voted for 2 and hears from it in the same term.
abbrev heartbeat : AppendRequest
heartbeat = record {
  term = 2;
  leader_id = 2;
  prev_log_index = 1;
  prev_log_term = 1;
  entries = [];
  leader_commit = 0;
}

abbrev voted : Node
voted = record fresh { current_term = 2; voted_for = 2 }

newer_lem : up_to_date (vote_for 3) (handle_append_entries heartbeat voted).0 ≡ true
unfolding up_to_date handle_append_entries become_follower check_previous position store_entries
    advance_to last_log_term last_log_index term_at
newer_lem = refl

vote_forgotten_example :
    ((handle_append_entries heartbeat voted).0.current_term ≡ 2)
    × ((handle_append_entries heartbeat voted).0.voted_for ≡ 0)
    × ((handle_request_vote (vote_for 3) (handle_append_entries heartbeat voted).0).1.vote_granted
        ≡ true)
vote_forgotten_example = vote_forgotten heartbeat (vote_for 3) voted refl refl newer_lem

abbrev leading : Node
leading = node leader short_log

proposed : Reach leading (propose (9 ∷ []) leading).1
proposed = next here (proposal (9 ∷ []) leading)

-- A leader that has applied its entry proposes, compacts its log and then hears of a snapshot.
abbrev applied_leader : Node
applied_leader = record (node leader (short_log ++ entry 2 1 (8 ∷ []) ∷ [])) {
  commit_index = 1;
  last_applied = 1;
}

abbrev compacted : Node
compacted = check_and_compact_log 1 (4 ∷ []) true (propose (9 ∷ []) applied_leader).1

abbrev image : InstallRequest
image = record {
  term = 2;
  leader_id = 2;
  last_included_index = 5;
  last_included_term = 2;
  bytes = 6 ∷ [];
}

Reach-IsSound_example : IsSound (handle_install_snapshot image true compacted).0
Reach-IsSound_example =
    Reach-IsSound
      (then
        (then (then none_yet (step (proposal (9 ∷ []) applied_leader)))
          (compacts 1 (4 ∷ []) true (propose (9 ∷ []) applied_leader).1))
        (installs image true compacted))
      (record {
        is_log = record { indexed = omega arith; nonempty = omega arith };
        saved = λ ok. (refl, refl);
      })

-- The node grants its vote and is started again from its files.
abbrev restarted : Node
restarted = load_persistent_state (handle_request_vote (vote_for 2) fresh).0.disk none leading

restarted_lem : (handle_request_vote (vote_for 2) restarted).1.vote_granted ≡ true
unfolding load_persistent_state load_log load_snapshot_data handle_request_vote become_follower
    decide_vote up_to_date last_log_term last_log_index term_at written
restarted_lem = refl

saved_lem : (handle_request_vote (vote_for 2) fresh).0.last_saved ≡ true
unfolding handle_request_vote become_follower decide_vote up_to_date last_log_term last_log_index
    term_at
saved_lem = refl

one_vote_over_restart_example :
    ((vote_for 2).candidate_id ≡ (vote_for 2).candidate_id) × (up_to_date (vote_for 2) fresh ≡ true)
one_vote_over_restart_example =
    one_vote_over_restart (vote_for 2) (vote_for 2) none fresh leading (omega arith) (omega arith)
      (record { indexed = omega arith; nonempty = omega arith }) refl granted_lem saved_lem
      restarted_lem

leader_append_only_example :
    (suffix : List LogEntry) × ((propose (9 ∷ []) leading).1.log ≡ short_log ++ suffix)
unfolding propose save
leader_append_only_example =
    leader_append_only leading (propose (9 ∷ []) leading).1 refl proposed refl refl

advance_commit_index-IsCommittable_example :
    ((advance_commit_index leading).commit_index ≡ 0)
    ⊎ ((leading.role ≡ leader)
        × (0 < (advance_commit_index leading).commit_index)
        × IsCommittable leading (advance_commit_index leading).commit_index)
advance_commit_index-IsCommittable_example = advance_commit_index-IsCommittable leading

-- With one follower's match index at 1, the entry 1 is committed.
advance_lem : (advance_commit_index leading).commit_index ≡ 1
unfolding advance_commit_index advance_loop position term_at last_log_index majority
    replicated_count count_replicas count_voters self_votes apply_committed apply_rounds
advance_lem = refl

-- Every peer grants its vote at once.
abbrev all_grant : ℕ → Answer
all_grant p = record { meanwhile = λ n. n; response = record { term = 2; vote_granted = true } }

not_leader : (p : ℕ) (m : Node) → m.role ≡ candidate → ((all_grant p).meanwhile m).role ≢ leader
not_leader p m run lead = ground arith

won_lem : (handle_election_timeout all_grant fresh).role ≡ leader
unfolding handle_election_timeout start_election become_candidate election_loop is_asked
    count_voters become_leader
won_lem = refl

handle_election_timeout-votes_example :
    count_voters three_peers / 2 + 1 ≤ 1 + votes_for all_grant 1 three_peers
handle_election_timeout-votes_example =
    handle_election_timeout-votes all_grant (λ p m. refl) not_leader fresh won_lem

handle_election_timeout-Reach_example : Reach fresh (handle_election_timeout all_grant fresh)
handle_election_timeout-Reach_example = handle_election_timeout-Reach all_grant fresh (λ p m. here)
