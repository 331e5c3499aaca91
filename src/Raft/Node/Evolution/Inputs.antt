-- ===== src/Raft/Node/Evolution/Inputs.antt =====
-- Every handler lets a node evolve, so every run does.
use nexus_mq.Base.{
  ℕ, ◌≡◌, refl, inl, inr, true, not, some, arith, ltb, leb, ◌&&◌, ◌||◌, if◌then◌else◌, Bool-cases,
}
use nexus_mq.Raft.Types.{
  RaftRole, follower, candidate, pre_candidate, leader, RequestVoteArgs, RequestVoteReply,
}
use nexus_mq.Raft.Log.{Storage}
use nexus_mq.Raft.Node.State.{
  RaftNode, record_vote, reset_election_timer, reset_heartbeat_timer, is_voter,
}
use nexus_mq.Raft.Node.Election.{become_follower, log_is_up_to_date}
use nexus_mq.Raft.Node.Handlers.{
  is_follower, is_leader, tick_started, tick, observe_term, can_vote, cast_vote, on_request_vote,
  count_vote, count_pre_vote, count_real_vote, vote_counts, on_request_vote_reply, follow,
}
use nexus_mq.Raft.Node.Evolution.{Evolves, Evolves-refl, Evolves-trans, Keeps-Evolves}
use nexus_mq.Raft.Node.Evolution.Parts.{
  Evolves-if, reset_election_timer-Evolves, replicate_all-Evolves, become_follower-Evolves,
  become_leader-Evolves, become_candidate-Evolves, start_pre_election-Evolves,
}

module _ {S : Storage} where
  tick_started-Evolves : (now : ℕ) (n : RaftNode S) → Evolves n (tick_started now n)
  unfolding tick_started
  tick_started-Evolves now n =
      Evolves-if n (is_leader n.role)
        (Evolves-if n (leb n.heartbeat_deadline now)
          (Evolves-trans
            (Keeps-Evolves n (reset_heartbeat_timer now n)
              (unfold reset_heartbeat_timer in (refl, refl, refl)))
            (replicate_all-Evolves (reset_heartbeat_timer now n)))
          (Evolves-refl n))
        (Evolves-if n (leb n.election_deadline now && is_voter n n.self)
          (start_pre_election-Evolves now n) (Evolves-refl n))

  pub tick-Evolves : (now : ℕ) (n : RaftNode S) → Evolves n (tick now n)
  unfolding tick
  tick-Evolves now n =
      let n' : RaftNode S = record n { started = true } in
      Evolves-if n n.started (tick_started-Evolves now n) (
        Evolves-trans (Keeps-Evolves n n' (refl, refl, refl)) (reset_election_timer-Evolves now n'))

  pub observe_term-Evolves : (now term : ℕ) (n : RaftNode S) → Evolves n (observe_term now term n)
  unfolding observe_term
  observe_term-Evolves now term n =
      Evolves-if n (ltb n.current_term term) (become_follower-Evolves now term n) (Evolves-refl n)

  -- A vote is only given where none was given, or again to the same candidate.
  record_vote-Evolves :
      (node : ℕ) (n : RaftNode S)
      → can_vote n.voted_for node ≡ true
      → Evolves n (record_vote node n)
  unfolding record_vote can_vote
  record_vote-Evolves node n h = record {
    term_grows = omega arith;
    vote_stays = λ c e same. ground arith;
    commit_grows = omega arith;
    change_marked = inr refl;
    mark_stays = λ e. refl;
  }

  cast_vote-Evolves :
      (now : ℕ) (args : RequestVoteArgs) (n : RaftNode S) → Evolves n (cast_vote now args n).0
  unfolding cast_vote
  cast_vote-Evolves now args n = elim (Bool-cases (ltb args.term n.current_term)) [
    | inl old ↦ rw old (Evolves-refl n)
    | inr fresh ↦ elim (Bool-cases (can_vote n.voted_for args.candidate_id)) [
      | inl free ↦ elim (Bool-cases (log_is_up_to_date args.last_log_index args.last_log_term n)) [
        | inl recent ↦
            rw (fresh, free, recent)
              (Evolves-trans (record_vote-Evolves args.candidate_id n free)
                (reset_election_timer-Evolves now _))
        | inr stale ↦ rw (fresh, free, stale) (Evolves-refl n)
      ]
      | inr taken ↦ rw (fresh, taken) (Evolves-refl n)
    ]
  ]

  pub on_request_vote-Evolves :
      (now : ℕ) (args : RequestVoteArgs) (n : RaftNode S) → Evolves n (on_request_vote now args n).0
  unfolding on_request_vote
  on_request_vote-Evolves now args n = elim (Bool-cases args.pre_vote) [
    | inl pre ↦ rw pre (Evolves-refl n)
    | inr real ↦ rw real (
        Evolves-trans (observe_term-Evolves now args.term n)
          (cast_vote-Evolves now args (observe_term now args.term n)))
  ]

  count_vote-Evolves : (from : ℕ) (n : RaftNode S) → Evolves n (count_vote from n)
  unfolding count_vote
  count_vote-Evolves from n = Keeps-Evolves n (count_vote from n) (refl, refl, refl)

  count_pre_vote-Evolves : (now from : ℕ) (n : RaftNode S) → Evolves n (count_pre_vote now from n)
  unfolding count_pre_vote
  count_pre_vote-Evolves now from n =
      Evolves-trans (count_vote-Evolves from n)
        (Evolves-if (count_vote from n) _ (become_candidate-Evolves now _) (Evolves-refl _))

  count_real_vote-Evolves : (now from : ℕ) (n : RaftNode S) → Evolves n (count_real_vote now from n)
  unfolding count_real_vote
  count_real_vote-Evolves now from n =
      Evolves-trans (count_vote-Evolves from n)
        (Evolves-if (count_vote from n) _ (become_leader-Evolves now _) (Evolves-refl _))

  by_role-Evolves :
      (n x y : RaftNode S) (r : RaftRole)
      → Evolves n x
      → Evolves n y
      → Evolves n (elim r [ pre_candidate ↦ x | candidate ↦ y | _ ↦ n ])
  by_role-Evolves n x y follower p q = Evolves-refl n
  by_role-Evolves n x y pre_candidate p q = p
  by_role-Evolves n x y candidate p q = q
  by_role-Evolves n x y leader p q = Evolves-refl n

  pub on_request_vote_reply-Evolves :
      (now from : ℕ) (reply : RequestVoteReply) (n : RaftNode S)
      → Evolves n (on_request_vote_reply now from reply n)
  unfolding on_request_vote_reply
  on_request_vote_reply-Evolves now from reply n =
      let counts = vote_counts from reply n in
      Evolves-if n (ltb n.current_term reply.term) (become_follower-Evolves now reply.term n) (
        by_role-Evolves n (if counts then count_pre_vote now from n else n)
          (if counts then count_real_vote now from n else n) n.role
          (Evolves-if n counts (count_pre_vote-Evolves now from n) (Evolves-refl n))
          (Evolves-if n counts (count_real_vote-Evolves now from n) (Evolves-refl n)))

  pub follow-Evolves :
      (now term leader_id : ℕ) (n : RaftNode S) → Evolves n (follow now term leader_id n)
  unfolding follow
  follow-Evolves now term leader_id n =
      let heard = ltb n.current_term term || not (is_follower n.role) in
      let n1 : RaftNode S = if heard then become_follower now term n else n in
      let n2 : RaftNode S = record n1 { leader_id = some leader_id } in
      let n3 : RaftNode S = reset_election_timer now n2 in
      Evolves-trans {b = n1}
        (Evolves-if n heard (become_follower-Evolves now term n) (Evolves-refl n))
        (Evolves-trans {b = n2} (Keeps-Evolves n1 n2 (refl, refl, refl)) (
          Evolves-trans {b = n3} (reset_election_timer-Evolves now n2)
            (Keeps-Evolves n3 (record n3 { last_leader_contact = now }) (refl, refl, refl))))
