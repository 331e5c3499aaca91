-- ===== src/Raft/Node/Roles.antt =====
-- Who becomes leader: a majority of votes is needed, and a learner never stands.
pub mod Leaders
pub mod Learners
use nexus_mq.Base.{
  ℕ, zero, suc, ◌+◌, ◌*◌, ◌≤◌, ◌<◌, ◌≡◌, ◌≢◌, refl, sym, ap, ◌∙◌, ◌⊎◌, inl, inr, List, [], ◌∷◌,
  Bool, true, false, not, some, arith, length, ltb, leb, ◌&&◌, ◌||◌, if◌then◌else◌, Bool-cases,
  Expected, ok, err,
}
use nexus_mq.Wire.Bytes.{Bytes}
use nexus_mq.Raft.Types.{
  RaftRole, Payload, request_vote, follower, pre_candidate, candidate, leader, RequestVoteArgs,
  RequestVoteReply, AppendEntriesArgs, AppendEntriesReply, TimeoutNowArgs, InstallSnapshotArgs,
  InstallSnapshotReply,
}
use nexus_mq.Raft.Log.{Storage, RaftLog, append}
use nexus_mq.Raft.Node.State.{
  RaftNode, is_voter, has_majority, reset_election_timer, reset_heartbeat_timer, advance_term,
  record_vote, contains, send,
}
use nexus_mq.Raft.Node.Replication.{
  replicate_to, replicate_each, replicate_all, advance_commit_index, set_commit_index,
  push_transfer, maybe_transfer_to,
}
use nexus_mq.Raft.Node.Election.{
  become_follower, clear_leader_progress, reset_leader_progress, become_leader, ask_votes,
  broadcast_request_vote, stand, become_candidate, probe, start_pre_election,
}
use nexus_mq.Raft.Node.Handlers.{
  is_follower, is_leader, tick_started, tick, observe_term, cast_vote, on_request_vote, count_vote,
  count_pre_vote, count_real_vote, vote_counts, on_request_vote_reply, follow, raise_commit,
  accept_entries, reject_entries, check_entries, on_append_entries, confirm, back_off,
  is_current_leader, on_append_entries_reply, proposal, proposed, propose, transfer_leadership,
  on_timeout_now, adopt_snapshot, on_install_snapshot, on_install_snapshot_reply, take_messages,
}
use nexus_mq.Raft.Node.Step.{
  Input, ticks, proposes, transfers, asks_vote, answers_vote, sends_entries, answers_entries,
  orders_election, sends_snapshot, answers_snapshot, drains_outbox, step, run,
}

module _ {S : Storage} where
  -- The group, the votes, the role and the term are left alone.
  abbrev pub SameSeat : RaftNode S → RaftNode S → Type 0
  SameSeat n m =
      (m.self ≡ n.self)
      × (m.peers ≡ n.peers)
      × (m.learners ≡ n.learners)
      × (m.votes_granted ≡ n.votes_granted)
      × (m.role ≡ n.role)
      × (m.current_term ≡ n.current_term)

  pub SameSeat-trans : (a b c : RaftNode S) → SameSeat a b → SameSeat b c → SameSeat a c
  SameSeat-trans a b c p q = (q.0 ∙ p.0, q.1 ∙ p.1, q.2 ∙ p.2, q.3 ∙ p.3, q.4 ∙ p.4, q.5 ∙ p.5)

  pub SameSeat-if :
      (n : RaftNode S) (b : Bool) (x y : RaftNode S)
      → SameSeat n x
      → SameSeat n y
      → SameSeat n (if b then x else y)
  SameSeat-if n true x y p q = p
  SameSeat-if n false x y p q = q

  pub send-SameSeat : (to : ℕ) (p : Payload) (n : RaftNode S) → SameSeat n (send to p n)
  unfolding send
  send-SameSeat to p n = (refl, refl, refl, refl, refl, refl)

  pub reset_election_timer-SameSeat :
      (now : ℕ) (n : RaftNode S) → SameSeat n (reset_election_timer now n)
  unfolding reset_election_timer
  reset_election_timer-SameSeat now n = ground arith

  pub replicate_to-SameSeat : (peer : ℕ) (n : RaftNode S) → SameSeat n (replicate_to peer n)
  unfolding replicate_to
  replicate_to-SameSeat peer n = ground arith

  pub replicate_each-SameSeat :
      (peers : List ℕ) (n : RaftNode S) → SameSeat n (replicate_each peers n)
  unfolding replicate_each
  replicate_each-SameSeat [] n = (refl, refl, refl, refl, refl, refl)
  replicate_each-SameSeat (peer ∷ peers) n =
      SameSeat-trans n (replicate_to peer n) (replicate_each peers (replicate_to peer n))
        (replicate_to-SameSeat peer n) (replicate_each-SameSeat peers (replicate_to peer n))

  pub replicate_all-SameSeat : (n : RaftNode S) → SameSeat n (replicate_all n)
  unfolding replicate_all
  replicate_all-SameSeat n = replicate_each-SameSeat n.peers n

  pub advance_commit_index-SameSeat : (n : RaftNode S) → SameSeat n (advance_commit_index n)
  unfolding advance_commit_index set_commit_index
  advance_commit_index-SameSeat n = ground arith

  pub push_transfer-SameSeat : (peer : ℕ) (n : RaftNode S) → SameSeat n (push_transfer peer n)
  unfolding push_transfer
  push_transfer-SameSeat peer n = ground (arith, replicate_to-SameSeat peer n)

  pub maybe_transfer_to-SameSeat :
      (peer : ℕ) (n : RaftNode S) → SameSeat n (maybe_transfer_to peer n)
  unfolding maybe_transfer_to
  maybe_transfer_to-SameSeat peer n = ground (arith, push_transfer-SameSeat peer n)

  pub ask_votes-SameSeat :
      (args : RequestVoteArgs) (peers : List ℕ) (n : RaftNode S)
      → SameSeat n (ask_votes args peers n)
  unfolding ask_votes
  ask_votes-SameSeat args [] n = (refl, refl, refl, refl, refl, refl)
  ask_votes-SameSeat args (peer ∷ peers) n =
      let asked : RaftNode S = if is_voter n peer then send peer (request_vote args) n else n in
      SameSeat-trans n asked (ask_votes args peers asked)
        (SameSeat-if n (is_voter n peer) (send peer (request_vote args) n) n
          (send-SameSeat peer (request_vote args) n) (refl, refl, refl, refl, refl, refl))
        (ask_votes-SameSeat args peers asked)

  pub broadcast-SameSeat :
      (pre_vote : Bool) (n : RaftNode S) → SameSeat n (broadcast_request_vote pre_vote n)
  unfolding broadcast_request_vote
  broadcast-SameSeat pre_vote n = ask_votes-SameSeat _ n.peers n

  pub check_entries-SameSeat :
      (args : AppendEntriesArgs) (n : RaftNode S) → SameSeat n (check_entries args n).0
  unfolding check_entries raise_commit set_commit_index
  check_entries-SameSeat args n = ground arith

  pub adopt_snapshot-SameSeat :
      (args : InstallSnapshotArgs) (n : RaftNode S) → SameSeat n (adopt_snapshot args n)
  unfolding adopt_snapshot set_commit_index
  adopt_snapshot-SameSeat args n = ground arith

  -- A handler that ends in a change of role.
  pub become_follower_role :
      (now term : ℕ) (n : RaftNode S) → (become_follower now term n).role ≡ follower
  unfolding become_follower clear_leader_progress reset_election_timer
  become_follower_role now term n = ground arith

  pub become_follower_group :
      (now term : ℕ) (n : RaftNode S)
      → ((become_follower now term n).self ≡ n.self)
        × ((become_follower now term n).learners ≡ n.learners)
  unfolding become_follower clear_leader_progress reset_election_timer advance_term
  become_follower_group now term n = ground arith

  pub follow_role :
      (now term leader_id : ℕ) (n : RaftNode S) → (follow now term leader_id n).role ≡ follower
  unfolding follow reset_election_timer is_follower
  follow_role now term leader_id n = ground (arith, become_follower_role now term n)

  pub follow_group :
      (now term leader_id : ℕ) (n : RaftNode S)
      → ((follow now term leader_id n).self ≡ n.self)
        × ((follow now term leader_id n).learners ≡ n.learners)
  unfolding follow reset_election_timer
  follow_group now term leader_id n = ground (arith, become_follower_group now term n)

  pub cast_vote-SameSeat :
      (now : ℕ) (args : RequestVoteArgs) (n : RaftNode S) → SameSeat n (cast_vote now args n).0
  unfolding cast_vote record_vote
  cast_vote-SameSeat now args n =
      ground (arith, reset_election_timer-SameSeat now (record_vote args.candidate_id n))

  pub confirm-SameSeat : (from : ℕ) (n : RaftNode S) → SameSeat n (confirm from n)
  unfolding confirm
  confirm-SameSeat from n = (refl, refl, refl, refl, refl, refl)

  pub replies-SameSeat :
      (from : ℕ) (success : Bool) (conflict : ℕ) (n : RaftNode S)
      → SameSeat n (
          if success
          then maybe_transfer_to from (advance_commit_index (confirm from n))
          else replicate_to from (back_off from conflict n))
  replies-SameSeat from success conflict n =
      let a = advance_commit_index (confirm from n) in
      let b = back_off from conflict n in
      SameSeat-if n success (maybe_transfer_to from a) (replicate_to from b)
        (SameSeat-trans n a (maybe_transfer_to from a)
          (SameSeat-trans n (confirm from n) a (confirm-SameSeat from n)
            (advance_commit_index-SameSeat (confirm from n)))
          (maybe_transfer_to-SameSeat from a))
        (SameSeat-trans n b (replicate_to from b)
          (unfold back_off in (refl, refl, refl, refl, refl, refl)) (replicate_to-SameSeat from b))

  pub proposed-SameSeat :
      (n : RaftNode S) (r : RaftLog S × Expected ℕ) → SameSeat n (proposed n r).0
  unfolding proposed
  proposed-SameSeat n (log', err x) = (refl, refl, refl, refl, refl, refl)
  proposed-SameSeat n (log', ok index) =
      let n' : RaftNode S = record n { log = log' } in
      SameSeat-trans n (replicate_all n') (advance_commit_index (replicate_all n'))
        (replicate_all-SameSeat n') (advance_commit_index-SameSeat (replicate_all n'))

  pub propose-SameSeat : (batch : Bytes) (n : RaftNode S) → SameSeat n (propose batch n).0
  unfolding propose
  propose-SameSeat batch n =
      ground (arith, proposed-SameSeat n (append (proposal batch n ∷ []) n.log))

  pub transfer_leadership-SameSeat :
      (target : ℕ) (n : RaftNode S) → SameSeat n (transfer_leadership target n).0
  unfolding transfer_leadership
  transfer_leadership-SameSeat target n =
      ground (arith, maybe_transfer_to-SameSeat target (record n { transfer_target = some target }))

  pub snapshot_reply-SameSeat :
      (from : ℕ) (n : RaftNode S)
      → SameSeat n (replicate_to from (advance_commit_index (confirm from n)))
  snapshot_reply-SameSeat from n =
      let a = advance_commit_index (confirm from n) in
      SameSeat-trans n a (replicate_to from a)
        (SameSeat-trans n (confirm from n) a (confirm-SameSeat from n)
          (advance_commit_index-SameSeat (confirm from n)))
        (replicate_to-SameSeat from a)
