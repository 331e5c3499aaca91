-- ===== src/Raft/Node/Election.antt =====
-- Changes of role, and the votes.
use nexus_mq.Base.{
  ℕ, ◌+◌, List, [], ◌∷◌, Bool, true, false, none, some, length, ltb, leb, ◌==◌, if◌then◌else◌,
}
use nexus_mq.Base.Map.{Map, assign}
use nexus_mq.Raft.Types.{
  follower, pre_candidate, candidate, leader, request_vote, RequestVoteArgs, RequestVoteReply,
}
use nexus_mq.Raft.Log.{Storage, last_index, last_term}
use nexus_mq.Raft.Node.State.{
  RaftNode, millis, is_voter, has_majority, advance_term, record_vote, reset_election_timer,
  reset_heartbeat_timer, send,
}
use nexus_mq.Raft.Node.Replication.{replicate_all}

-- One value for each peer.
unfoldable pub progress_maps : List ℕ → ℕ → Map → Map
progress_maps [] v m = m
progress_maps (peer ∷ peers) v m = progress_maps peers v (assign peer v m)

module _ {S : Storage} where
  unfoldable pub clear_leader_progress : RaftNode S → RaftNode S
  clear_leader_progress n = record n {
    progress = record (n.progress) { next_index = []; match_index = [] };
  }

  unfoldable pub become_follower : ℕ → ℕ → RaftNode S → RaftNode S
  unfolding advance_term clear_leader_progress
  become_follower now term n =
      let n' = if ltb n.current_term term then advance_term term n else n in
      reset_election_timer now (record (clear_leader_progress (record n' { role = follower })) {
        votes_granted = [];
        transfer_target = none;
      })

  unfoldable pub reset_leader_progress : RaftNode S → RaftNode S
  unfolding progress_maps
  reset_leader_progress n = record n {
    progress = record (n.progress) {
      next_index = progress_maps n.peers (last_index n.log + 1) [];
      match_index = progress_maps n.peers 0 [];
    };
  }

  unfoldable pub become_leader : ℕ → RaftNode S → RaftNode S
  unfolding reset_leader_progress
  become_leader now n =
      let n' =
        reset_leader_progress (record n {
          role = leader;
          leader_id = some n.self;
          leader_epoch = n.leader_epoch + 1;
        }) in
      replicate_all
        (reset_heartbeat_timer now (record n' { last_sent = []; transfer_target = none }))

  unfoldable pub ask_votes : RequestVoteArgs → List ℕ → RaftNode S → RaftNode S
  ask_votes args [] n = n
  ask_votes args (peer ∷ peers) n =
      ask_votes args peers (if is_voter n peer then send peer (request_vote args) n else n)

  -- A pre-vote announces the next term without taking it.
  unfoldable pub broadcast_request_vote : Bool → RaftNode S → RaftNode S
  broadcast_request_vote pre_vote n =
      ask_votes
        (record {
          term = if pre_vote then n.current_term + 1 else n.current_term;
          candidate_id = n.self;
          last_log_index = last_index n.log;
          last_log_term = last_term n.log;
          pre_vote = pre_vote;
        })
        n.peers n

  unfoldable pub stand : ℕ → RaftNode S → RaftNode S
  unfolding advance_term record_vote
  stand now n =
      let voted = record_vote n.self (advance_term (n.current_term + 1) n) in
      reset_election_timer now
        (record voted { role = candidate; leader_id = none; votes_granted = n.self ∷ [] })

  unfoldable pub become_candidate : ℕ → RaftNode S → RaftNode S
  become_candidate now n =
      let n' = stand now n in
      if has_majority n' (length n'.votes_granted)
      then become_leader now n'
      else broadcast_request_vote false n'

  unfoldable pub probe : ℕ → RaftNode S → RaftNode S
  probe now n =
      reset_election_timer now
        (record n { role = pre_candidate; leader_id = none; votes_granted = n.self ∷ [] })

  unfoldable pub start_pre_election : ℕ → RaftNode S → RaftNode S
  start_pre_election now n =
      let n' = probe now n in
      if has_majority n' (length n'.votes_granted)
      then become_candidate now n'
      else broadcast_request_vote true n'

  -- Is the log `(last_log_index, last_log_term)` at least as recent as this node's?
  unfoldable pub log_is_up_to_date : ℕ → ℕ → RaftNode S → Bool
  log_is_up_to_date last_log_index last_log_term n =
      if last_log_term == last_term n.log
      then leb (last_index n.log) last_log_index
      else ltb (last_term n.log) last_log_term

  -- The answer to a pre-vote changes nothing. `now - contact < timeout` is read as a sum.
  unfoldable pub make_pre_vote_reply : ℕ → RequestVoteArgs → RaftNode S → RequestVoteReply
  unfolding log_is_up_to_date
  make_pre_vote_reply now args n = record { term = n.current_term; vote_granted = granted }
    where
      granted : Bool
      granted = if ltb args.term n.current_term then false else elim n.role [
        | leader ↦ false
        | _ ↦
            if ltb now (n.last_leader_contact + millis n.config.election_timeout_min)
            then false
            else log_is_up_to_date args.last_log_index args.last_log_term n
      ]
