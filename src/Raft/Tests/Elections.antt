-- ===== src/Raft/Tests/Elections.antt =====
-- Runs of several nodes of consensus/raft_node.cpp.
use nexus_mq.Base.{
  ℕ, suc, ◌≡◌, refl, inl, List, [], ◌∷◌, true, false, none, ok, arith, ◌==◌, if◌then◌else◌,
}
use nexus_mq.Base.Map.{find, assign}
use nexus_mq.Raft.Types.{follower, RequestVoteArgs}
use nexus_mq.Raft.Log.{Storage, last_index, last_term, back_term}
use nexus_mq.Raft.Node.State.{
  RaftNode, contains, insert, is_voter, count_voters, cluster_size, has_majority, advance_term,
  record_vote, reset_election_timer, reset_heartbeat_timer, send,
}
use nexus_mq.Raft.Node.Replication.{
  replicate_all, replicate_each, replicate_to, send_entries_to, send_snapshot_to,
}
use nexus_mq.Raft.Node.Election.{
  become_follower, become_candidate, stand, broadcast_request_vote, ask_votes,
  clear_leader_progress, become_leader, reset_leader_progress, progress_maps, log_is_up_to_date,
}
use nexus_mq.Raft.Node.Handlers.{
  on_request_vote, on_request_vote_reply, observe_term, cast_vote, can_vote, count_vote,
  count_real_vote, vote_counts, on_timeout_now,
}
use nexus_mq.Raft.Node.Step.{orders_election, step}
use nexus_mq.Raft.Cluster.{
  Cluster, Reaches, here, next, Starts, acts, answers, counts, act, answer_request, receive_vote,
  put,
}
use nexus_mq.Raft.Cluster.Safety.Elections.{election_safety}

-- A store that counts its batches and never fails.
abbrev pub counter : Storage
counter = record {
  State = ℕ;
  end_offset = λ s. s;
  append_batch = λ bytes s. (suc s, ok s);
  truncate_to = λ o s. (o, ok tt);
  truncate_prefix_to = λ o s. (s, ok tt);
  reset_to = λ o s. (o, ok tt);
  read_batch = λ o s. ok [];
  write_meta = λ k m s. (s, ok tt);
  truncate_meta = λ k s. (s, ok tt);
  sync_meta = λ s. (s, ok tt);
  write_snapshot = λ i t o s. (s, ok tt);
}

-- A node of a group of three.
abbrev peers_of : ℕ → List ℕ
peers_of x = if x == 1 then 2 ∷ 3 ∷ [] else if x == 2 then 1 ∷ 3 ∷ [] else 1 ∷ 2 ∷ []

abbrev pub created : ℕ → RaftNode counter
created x = record {
  self = x;
  peers = peers_of x;
  learners = [];
  log = record {
    entries = [];
    snapshot_index = 0;
    snapshot_term = 0;
    snapshot_last_offset = 0;
    store = 0;
  };
  config = record {
    election_timeout_min = 150;
    election_timeout_max = 150;
    heartbeat_interval = 50;
    random_seed = 7;
  };
  role = follower;
  persistent = record { current_term = 0; voted_for = none };
  persistent_dirty = false;
  progress = record { commit_index = 0; last_applied = 0; next_index = []; match_index = [] };
  leader_epoch = 0;
  leader_id = none;
  votes_granted = [];
  last_sent = [];
  transfer_target = none;
  election_deadline = 0;
  last_leader_contact = 0;
  heartbeat_deadline = 0;
  started = true;
  rng = 1;
  outbox = [];
}

abbrev group : Cluster counter
group = record { nodes = created; grants = [] }

abbrev ask : RequestVoteArgs
ask = record { term = 1; candidate_id = 1; last_log_index = 0; last_log_term = 0; pre_vote = false }

-- Node 1 stands, node 2 grants its vote, node 1 receives it.
abbrev stood : Cluster counter
stood = act 1 (orders_election 10 (record { term = 0; leader_id = 3 })) group

abbrev granted : Cluster counter
granted = answer_request 2 20 ask stood

abbrev won : Cluster counter
won = receive_vote 1 30 2 1 granted

starts : Starts (1 ∷ 2 ∷ 3 ∷ []) [] group
unfolding contains cluster_size count_voters is_voter
starts = record {
  nodes_idle = λ x member. record {
    self_known = refl;
    learners_known = refl;
    group_known = ground arith;
    follows = refl;
  };
  none_granted = refl;
}

won_reached : Reaches (1 ∷ 2 ∷ 3 ∷ []) [] group won
unfolding contains act answer_request receive_vote put step on_timeout_now observe_term
    become_candidate stand broadcast_request_vote ask_votes advance_term record_vote
    reset_election_timer is_voter on_request_vote become_follower clear_leader_progress cast_vote
    can_vote log_is_up_to_date last_index last_term back_term
won_reached =
    next
      (next
        (next here (acts 1 (orders_election 10 (record { term = 0; leader_id = 3 })) refl tt refl))
        (answers 2 20 ask refl refl refl))
      (counts 1 30 2 1 refl (inl refl) refl)

election_safety_example : ◌≡◌ {A = ℕ} 1 1
unfolding contains act answer_request receive_vote put step on_timeout_now observe_term
    become_candidate stand broadcast_request_vote ask_votes advance_term record_vote
    reset_election_timer is_voter on_request_vote become_follower clear_leader_progress cast_vote
    can_vote log_is_up_to_date last_index last_term back_term on_request_vote_reply vote_counts
    count_real_vote count_vote has_majority cluster_size count_voters insert become_leader
    reset_leader_progress replicate_all replicate_each replicate_to reset_heartbeat_timer
    send_entries_to send_snapshot_to send progress_maps assign find
election_safety_example =
    election_safety (1 ∷ 2 ∷ 3 ∷ []) [] group won 1 1 starts won_reached refl refl refl refl refl
