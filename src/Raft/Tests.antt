-- ===== src/Raft/Tests.antt =====
-- Runs of consensus/raft_node.cpp on concrete nodes.
pub mod Elections
pub mod Envelopes
pub mod Restarts
use nexus_mq.Base.{
  ℕ, suc, ◌≤◌, ◌<◌, ◌*◌, ◌+◌, ◌≡◌, ◌⊎◌, ◌↔◌, refl, List, [], ◌∷◌, Bool, true, false, none, some, ok,
  arith,
}
use nexus_mq.Base.Map.{find, assign}
use nexus_mq.Raft.Types.{
  RaftRole, follower, candidate, leader, entry_data, RequestVoteArgs, AppendEntriesArgs,
}
use nexus_mq.Raft.Log.{
  Storage, RaftLog, last_index, last_term, back_term, term_at, meta_at, append, append_one,
  push_meta, holds_entry,
}
use nexus_mq.Raft.Log.Terms.{HoldsAll}
use nexus_mq.Raft.Node.State.{
  RaftNode, contains, insert, is_voter, count_voters, cluster_size, has_majority, advance_term,
  record_vote, reset_election_timer, reset_heartbeat_timer, send, millis,
}
use nexus_mq.Raft.Node.Replication.{
  advance_commit_index, majority_match, matches, peer_matches, sort_desc, insert_desc, nth,
  set_commit_index, replicate_all, replicate_each, replicate_to, send_entries_to, send_snapshot_to,
}
use nexus_mq.Raft.Node.Election.{
  become_follower, clear_leader_progress, become_leader, reset_leader_progress, progress_maps,
  log_is_up_to_date,
}
use nexus_mq.Raft.Node.Handlers.{
  on_request_vote, on_request_vote_reply, observe_term, cast_vote, can_vote, count_vote,
  count_real_vote, vote_counts, on_append_entries, take_messages, follow, check_entries,
  accept_entries, append_entries_from, append_suffix, raise_commit, is_follower, is_leader,
}
use nexus_mq.Raft.Node.Step.{
  sends_entries, Input, ticks, asks_vote, answers_vote, drains_outbox, step, run,
}
use nexus_mq.Raft.Node.Evolution.Runs.{run_vote_stays, run_term_marked, step_commit}
use nexus_mq.Raft.Node.Commit.{count_reaching, advance_commit_index_majority}
use nexus_mq.Raft.Node.Roles.Leaders.{Elected}
use nexus_mq.Raft.Node.Roles.Learners.{IsPassive, run-IsPassive}
use nexus_mq.Raft.Node.Matching.{on_append_entries-Matches}
use nexus_mq.Raft.Node.Voting.{IsUpToDate, on_request_vote-grants}

-- A store that counts its batches and never fails.
abbrev counter : Storage
counter = record {
  State = ℕ;
  end_offset = λ s. s;
  append_batch = λ bytes s. (suc s, ok s);
  truncate_to = λ o s. (o, ok tt);
  truncate_prefix_to = λ o s. (s, ok tt);
  reset_to = λ o s. (o, ok tt);
  read_batch = λ o s. ok [];
  write_meta = λ k m s. (s, ok tt);
  truncate_meta = λ k s. (s, ok tt);
  sync_meta = λ s. (s, ok tt);
  write_snapshot = λ i t o s. (s, ok tt);
}

abbrev empty_log : RaftLog counter
empty_log = record {
  entries = [];
  snapshot_index = 0;
  snapshot_term = 0;
  snapshot_last_offset = 0;
  store = 0;
}

-- One entry of term 1.
abbrev short_log : RaftLog counter
short_log = record {
  entries = record { term = 1; base_offset = 0; last_offset = 0; type = entry_data } ∷ [];
  snapshot_index = 0;
  snapshot_term = 0;
  snapshot_last_offset = 0;
  store = 1;
}

-- Node 1 with its peers, in term 1, with its own vote.
abbrev node : RaftRole → List ℕ → List ℕ → RaftLog counter → RaftNode counter
node role peers learners log = record {
  self = 1;
  peers = peers;
  learners = learners;
  log = log;
  config = record {
    election_timeout_min = 150;
    election_timeout_max = 150;
    heartbeat_interval = 50;
    random_seed = 7;
  };
  role = role;
  persistent = record { current_term = 1; voted_for = some 1 };
  persistent_dirty = false;
  progress = record {
    commit_index = 0;
    last_applied = 0;
    next_index = (2, 2) ∷ (3, 1) ∷ [];
    match_index = (2, 1) ∷ (3, 0) ∷ [];
  };
  leader_epoch = 0;
  leader_id = none;
  votes_granted = 1 ∷ [];
  last_sent = [];
  transfer_target = none;
  election_deadline = 0;
  last_leader_contact = 0;
  heartbeat_deadline = 0;
  started = true;
  rng = 1;
  outbox = [];
}

abbrev ask : ℕ → Bool → RequestVoteArgs
ask term pre_vote = record {
  term = term;
  candidate_id = 3;
  last_log_index = 1;
  last_log_term = 1;
  pre_vote = pre_vote;
}

abbrev rival : List Input
rival = asks_vote 10 (ask 1 false) ∷ drains_outbox ∷ []

run_vote_stays_example : (run (node candidate (2 ∷ 3 ∷ []) [] short_log) rival).voted_for ≡ some 1
unfolding run step take_messages on_request_vote observe_term cast_vote can_vote
run_vote_stays_example = run_vote_stays (node candidate (2 ∷ 3 ∷ []) [] short_log) rival 1 refl refl

run_term_marked_example :
    (1 ≤ (run (node candidate (2 ∷ 3 ∷ []) [] short_log) rival).current_term)
    × (((run (node candidate (2 ∷ 3 ∷ []) [] short_log) rival).persistent
          ≡ record { current_term = 1; voted_for = some 1 })
        ⊎ ((run (node candidate (2 ∷ 3 ∷ []) [] short_log) rival).persistent_dirty ≡ true))
run_term_marked_example = run_term_marked (node candidate (2 ∷ 3 ∷ []) [] short_log) rival

advance_commit_index_majority_example :
    (0 < (advance_commit_index (node leader (2 ∷ 3 ∷ []) [] short_log)).commit_index)
    × (cluster_size (node leader (2 ∷ 3 ∷ []) [] short_log)
        < count_reaching
            (advance_commit_index (node leader (2 ∷ 3 ∷ []) [] short_log)).commit_index
            (matches (node leader (2 ∷ 3 ∷ []) [] short_log))
          * 2)
    × (holds_entry
          (advance_commit_index (node leader (2 ∷ 3 ∷ []) [] short_log)).commit_index
          1
          short_log
        ≡ true)
unfolding advance_commit_index majority_match matches peer_matches sort_desc insert_desc nth
    set_commit_index is_voter contains last_index term_at holds_entry meta_at find
advance_commit_index_majority_example =
    advance_commit_index_majority (node leader (2 ∷ 3 ∷ []) [] short_log)
      (λ same. omega (arith, same))

run-IsPassive_example :
    IsPassive
      (run (node follower (2 ∷ 3 ∷ []) (1 ∷ []) short_log) (ticks 10 ∷ ticks 900_000_000 ∷ []))
unfolding contains is_voter
run-IsPassive_example =
    run-IsPassive (node follower (2 ∷ 3 ∷ []) (1 ∷ []) short_log)
      (ticks 10 ∷ ticks 900_000_000 ∷ []) (record { follows = refl; listed = refl })

abbrev two_entries : AppendEntriesArgs
two_entries = record {
  term = 2;
  leader_id = 3;
  prev_log_index = 0;
  prev_log_term = 0;
  entries =
      record { term = 1; index = 1; type = entry_data; payload = [] }
      ∷ record { term = 2; index = 2; type = entry_data; payload = [] }
      ∷ [];
  leader_commit = 1;
  leader_epoch = 1;
}

-- A follower with one committed entry receives two entries of a later term.
step_commit_example :
    1
    ≤ (step
        (set_commit_index 1 (node follower (2 ∷ 3 ∷ []) [] short_log))
        (sends_entries 10 two_entries)).commit_index
unfolding step on_append_entries follow check_entries accept_entries append_entries_from
    append_suffix append append_one push_meta raise_commit set_commit_index is_follower
    become_follower advance_term clear_leader_progress reset_election_timer last_index term_at
    meta_at holds_entry
step_commit_example =
    step_commit (set_commit_index 1 (node follower (2 ∷ 3 ∷ []) [] short_log))
      (sends_entries 10 two_entries) (omega arith)

on_append_entries-Matches_example :
    (1 ≤ 2)
    × (term_at (on_append_entries 10 two_entries (node leader (2 ∷ 3 ∷ []) [] short_log)).0.log 0
        ≡ ok 0)
    × HoldsAll two_entries.entries
        (on_append_entries 10 two_entries (node leader (2 ∷ 3 ∷ []) [] short_log)).0.log
    × (term_at (on_append_entries 10 two_entries (node leader (2 ∷ 3 ∷ []) [] short_log)).0.log 0
        ≡ term_at short_log 0)
unfolding on_append_entries follow check_entries accept_entries append_entries_from append_suffix
    append append_one push_meta raise_commit set_commit_index is_follower become_follower
    advance_term clear_leader_progress reset_election_timer last_index term_at meta_at holds_entry
on_append_entries-Matches_example =
    on_append_entries-Matches 10 two_entries (node leader (2 ∷ 3 ∷ []) [] short_log)
      (refl, (refl, tt)) refl 0 (omega arith)

on_request_vote-grants_example :
    ((1 < 2) ⊎ ((◌≡◌ {A = ℕ} 1 2) × (can_vote (some 1) 3 ≡ true)))
    × IsUpToDate (ask 2 false) short_log
    × ((on_request_vote 10 (ask 2 false) (node follower (2 ∷ 3 ∷ []) [] short_log)).0.current_term
        ≡ 2)
    × ((on_request_vote 10 (ask 2 false) (node follower (2 ∷ 3 ∷ []) [] short_log)).0.voted_for
        ≡ some 3)
    × ((on_request_vote 10
          (ask 2 false)
          (node follower (2 ∷ 3 ∷ []) [] short_log)).0.persistent_dirty
        ≡ true)
unfolding on_request_vote observe_term cast_vote can_vote become_follower advance_term
    clear_leader_progress reset_election_timer log_is_up_to_date last_index last_term back_term
    record_vote
on_request_vote-grants_example =
    on_request_vote-grants 10 (ask 2 false) (node follower (2 ∷ 3 ∷ []) [] short_log) refl refl
