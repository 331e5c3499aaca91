-- ===== src/Raft/Node/Campaign/Handlers.antt =====
-- What each handler of a node does to its campaign.
use nexus_mq.Base.{
  ℕ, ◌≡◌, refl, ap, subst, ◌∙◌, ◌⊎◌, inl, inr, ◌≢◌, Bool, true, false, not, arith, length, ltb, leb,
  ◌&&◌, ◌||◌, if◌then◌else◌, Bool-cases,
}
use nexus_mq.Raft.Types.{
  RaftRole, follower, pre_candidate, candidate, leader, RequestVoteArgs, RequestVoteReply,
  AppendEntriesArgs, AppendEntriesReply, TimeoutNowArgs, InstallSnapshotArgs, InstallSnapshotReply,
}
use nexus_mq.Raft.Log.{Storage}
use nexus_mq.Raft.Node.State.{
  RaftNode, is_voter, insert, has_majority, reset_election_timer, reset_heartbeat_timer,
}
use nexus_mq.Raft.Node.Replication.{replicate_all}
use nexus_mq.Raft.Node.Election.{
  become_follower, become_leader, become_candidate, start_pre_election,
}
use nexus_mq.Raft.Node.Handlers.{
  is_leader, tick_started, tick, observe_term, on_request_vote, cast_vote, count_vote,
  count_pre_vote, count_real_vote, vote_counts, on_request_vote_reply, follow, reject_entries,
  is_current_leader, on_append_entries, check_entries, on_append_entries_reply, on_timeout_now,
  on_install_snapshot, adopt_snapshot, on_install_snapshot_reply, take_messages,
}
use nexus_mq.Raft.Node.Step.{
  Input, ticks, proposes, transfers, asks_vote, answers_vote, sends_entries, answers_entries,
  orders_election, sends_snapshot, answers_snapshot, drains_outbox, step,
}
use nexus_mq.Raft.Node.Roles.Leaders.{become_leader-Elected}
use nexus_mq.Raft.Node.Roles.{
  SameSeat, replicate_all-SameSeat, reset_election_timer-SameSeat, check_entries-SameSeat,
  adopt_snapshot-SameSeat, cast_vote-SameSeat, propose-SameSeat, transfer_leadership-SameSeat,
  replies-SameSeat, snapshot_reply-SameSeat,
}
use nexus_mq.Raft.Node.Campaign.{
  is_running, SameGroup, SameGroup-trans, Outcome, Counted, Outcome-seat, Outcome-idle, Outcome-if,
  Outcome-from, become_leader-SameVotes, become_follower_shape, follow_shape, not_led,
  become_candidate-Outcome, start_pre_election-Outcome,
}

module _ {S : Storage} where
  observe_term_shape :
      (now term : ℕ) (n : RaftNode S)
      → (observe_term now term n ≡ n)
        ⊎ (SameGroup n (observe_term now term n)
            × (is_running (observe_term now term n).role ≡ false))
  unfolding observe_term
  observe_term_shape now term n = elim (Bool-cases (ltb n.current_term term)) [
    | inl behind ↦ inr (rw behind (become_follower_shape now term n))
    | inr ahead ↦ inl (rw ahead refl)
  ]

  Outcome-observed :
      (now term : ℕ) (n b : RaftNode S) → Outcome (observe_term now term n) b → Outcome n b
  Outcome-observed now term n b o = elim (observe_term_shape now term n) [
    | inl same ↦ subst (λ m. Outcome m b) same o
    | inr (g, idle) ↦ Outcome-from n (observe_term now term n) b g idle o
  ]

  heartbeat-SameSeat :
      (now : ℕ) (n : RaftNode S) → SameSeat n (replicate_all (reset_heartbeat_timer now n))
  unfolding reset_heartbeat_timer
  heartbeat-SameSeat now n = replicate_all-SameSeat (reset_heartbeat_timer now n)

  tick-Outcome : (now : ℕ) (n : RaftNode S) → Outcome n (tick now n)
  unfolding tick tick_started
  tick-Outcome now n =
      let beat : RaftNode S = reset_heartbeat_timer now n in
      let fresh : RaftNode S = record n { started = true } in
      let lead : RaftNode S = if leb n.heartbeat_deadline now then replicate_all beat else n in
      let late : Bool = leb n.election_deadline now && is_voter n n.self in
      let other : RaftNode S = if late then start_pre_election now n else n in
      let still = Outcome-seat n n (refl, refl, refl, refl, refl, refl) in
      Outcome-if n n.started (if is_leader n.role then lead else other)
        (reset_election_timer now fresh)
        (Outcome-if n (is_leader n.role) lead other
          (Outcome-if n (leb n.heartbeat_deadline now) (replicate_all beat) n
            (Outcome-seat n (replicate_all beat) (heartbeat-SameSeat now n)) still)
          (Outcome-if n late (start_pre_election now n) n (start_pre_election-Outcome now n) still))
        (Outcome-seat n (reset_election_timer now fresh) (reset_election_timer-SameSeat now fresh))

  on_request_vote-Outcome :
      (now : ℕ) (args : RequestVoteArgs) (n : RaftNode S) → Outcome n (on_request_vote now args n).0
  unfolding on_request_vote
  on_request_vote-Outcome now args n = elim (Bool-cases args.pre_vote) [
    | inl pre ↦ rw pre (Outcome-seat n n (refl, refl, refl, refl, refl, refl))
    | inr real ↦
        let o : RaftNode S = observe_term now args.term n in
        rw real (
          Outcome-observed now args.term n (cast_vote now args o).0
            (Outcome-seat o (cast_vote now args o).0 (cast_vote-SameSeat now args o)))
  ]

  on_append_entries-Outcome :
      (now : ℕ) (args : AppendEntriesArgs) (n : RaftNode S)
      → Outcome n (on_append_entries now args n).0
  unfolding on_append_entries reject_entries
  on_append_entries-Outcome now args n = elim (Bool-cases (ltb args.term n.current_term)) [
    | inl old ↦ rw old (Outcome-seat n n (refl, refl, refl, refl, refl, refl))
    | inr fresh ↦
        let f : RaftNode S = follow now args.term args.leader_id n in
        let (g, idle) = follow_shape now args.term args.leader_id n in
        rw fresh (
          Outcome-from n f (check_entries args f).0 g idle
            (Outcome-seat f (check_entries args f).0 (check_entries-SameSeat args f)))
  ]

  on_install_snapshot-Outcome :
      (now : ℕ) (args : InstallSnapshotArgs) (n : RaftNode S)
      → Outcome n (on_install_snapshot now args n).0
  unfolding on_install_snapshot
  on_install_snapshot-Outcome now args n = elim (Bool-cases (ltb args.term n.current_term)) [
    | inl old ↦ rw old (Outcome-seat n n (refl, refl, refl, refl, refl, refl))
    | inr fresh ↦
        let f : RaftNode S = follow now args.term args.leader_id n in
        let (g, idle) = follow_shape now args.term args.leader_id n in
        rw fresh (
          Outcome-from n f (adopt_snapshot args f) g idle
            (Outcome-seat f (adopt_snapshot args f) (adopt_snapshot-SameSeat args f)))
  ]

  become_follower-Outcome : (now term : ℕ) (n : RaftNode S) → Outcome n (become_follower now term n)
  become_follower-Outcome now term n =
      let (g, idle) = become_follower_shape now term n in
      Outcome-idle n (become_follower now term n) g idle

  on_append_entries_reply-Outcome :
      (now from : ℕ) (reply : AppendEntriesReply) (n : RaftNode S)
      → Outcome n (on_append_entries_reply now from reply n)
  unfolding on_append_entries_reply
  on_append_entries_reply-Outcome now from reply n =
      let r = replies-SameSeat from reply.success reply.conflict_index n in
      Outcome-if n (ltb n.current_term reply.term) (become_follower now reply.term n) _
        (become_follower-Outcome now reply.term n)
        (Outcome-if n (is_current_leader reply.term n) _ n (Outcome-seat n _ r)
          (Outcome-seat n n (refl, refl, refl, refl, refl, refl)))

  on_install_snapshot_reply-Outcome :
      (now from : ℕ) (reply : InstallSnapshotReply) (n : RaftNode S)
      → Outcome n (on_install_snapshot_reply now from reply n)
  unfolding on_install_snapshot_reply
  on_install_snapshot_reply-Outcome now from reply n =
      Outcome-if n (ltb n.current_term reply.term) (become_follower now reply.term n) _
        (become_follower-Outcome now reply.term n)
        (Outcome-if n (is_current_leader reply.term n) _ n
          (Outcome-seat n _ (snapshot_reply-SameSeat from n))
          (Outcome-seat n n (refl, refl, refl, refl, refl, refl)))

  on_timeout_now-Outcome :
      (now : ℕ) (args : TimeoutNowArgs) (n : RaftNode S) → Outcome n (on_timeout_now now args n)
  unfolding on_timeout_now
  on_timeout_now-Outcome now args n =
      let o : RaftNode S = observe_term now args.term n in
      Outcome-if n (ltb args.term n.current_term || not (is_voter n n.self)) n
        (become_candidate now o) (Outcome-seat n n (refl, refl, refl, refl, refl, refl))
        (Outcome-observed now args.term n (become_candidate now o) (become_candidate-Outcome now o))

  abbrev pub Answered : ℕ → RequestVoteReply → RaftNode S → RaftNode S → Type 0
  Answered from reply n m = Outcome n m ⊎ ((vote_counts from reply n ≡ true) × Counted from n m)

  still : (n : RaftNode S) → Outcome n n
  still n = Outcome-seat n n (refl, refl, refl, refl, refl, refl)

  count_vote_shape :
      (from : ℕ) (n : RaftNode S)
      → SameGroup n (count_vote from n)
        × ((count_vote from n).role ≡ n.role)
        × ((count_vote from n).current_term ≡ n.current_term)
        × ((count_vote from n).votes_granted ≡ insert from n.votes_granted)
  unfolding count_vote
  count_vote_shape from n = ((refl, refl, refl), refl, refl, refl)

  count_pre_vote-Outcome :
      (now from : ℕ) (n : RaftNode S)
      → n.role ≡ pre_candidate
      → Outcome n (count_pre_vote now from n)
  unfolding count_pre_vote is_running
  count_pre_vote-Outcome now from n r =
      let m : RaftNode S = count_vote from n in
      let (g, role, term, votes) = count_vote_shape from n in
      let idle : is_running m.role ≡ false = ap is_running (role ∙ r) in
      Outcome-if n (has_majority m (length m.votes_granted)) (become_candidate now m) m
        (Outcome-from n m (become_candidate now m) g idle (become_candidate-Outcome now m))
        (Outcome-idle n m g idle)

  count_real_vote-Counted :
      (now from : ℕ) (n : RaftNode S)
      → n.role ≡ candidate
      → Counted from n (count_real_vote now from n)
  unfolding count_real_vote
  count_real_vote-Counted now from n r =
      let m : RaftNode S = count_vote from n in
      let (g, role, term, votes) = count_vote_shape from n in
      let (g', votes', term') = become_leader-SameVotes now m in
      elim (Bool-cases (has_majority m (length m.votes_granted))) [
        | inl won ↦ rw won (
          SameGroup-trans n m (become_leader now m) g g',
          r,
          term' ∙ term,
          votes' ∙ votes,
          λ e. become_leader-Elected now m won,
        )
        | inr open_race ↦ rw open_race (g, r, term, votes, λ e. absurd (not_led m (role ∙ r) e))
      ]

  by_role-Answered :
      (now from : ℕ) (reply : RequestVoteReply) (n : RaftNode S) (r : RaftRole)
      → n.role ≡ r
      → Answered from reply n (elim r [
        | pre_candidate ↦ if vote_counts from reply n then count_pre_vote now from n else n
        | candidate ↦ if vote_counts from reply n then count_real_vote now from n else n
        | _ ↦ n
      ])
  by_role-Answered now from reply n follower e = inl (still n)
  by_role-Answered now from reply n leader e = inl (still n)
  by_role-Answered now from reply n pre_candidate e = inl (
      Outcome-if n (vote_counts from reply n) (count_pre_vote now from n) n
        (count_pre_vote-Outcome now from n e) (still n))
  by_role-Answered now from reply n candidate e = elim (Bool-cases (vote_counts from reply n)) [
    | inl counts ↦ inr (counts, rw counts (count_real_vote-Counted now from n e))
    | inr ignored ↦ inl (rw ignored (still n))
  ]

  -- A reply to a request for a vote is one more vote of a candidate, or no vote at all.
  pub on_request_vote_reply-Answered :
      (now from : ℕ) (reply : RequestVoteReply) (n : RaftNode S)
      → Answered from reply n (on_request_vote_reply now from reply n)
  unfolding on_request_vote_reply
  on_request_vote_reply-Answered now from reply n =
      elim (Bool-cases (ltb n.current_term reply.term)) [
        | inl behind ↦ inl (rw behind (become_follower-Outcome now reply.term n))
        | inr current ↦ rw current (by_role-Answered now from reply n n.role refl)
      ]

  -- The inputs that bring no vote to a candidate.
  abbrev pub BringsNoVote : RaftNode S → Input → Type 0
  BringsNoVote n (answers_vote now from reply) = (reply.vote_granted ≡ false) ⊎ (n.role ≢ candidate)
  BringsNoVote n _ = Unit {0}

  no_vote-Outcome :
      (now from : ℕ) (reply : RequestVoteReply) (n : RaftNode S)
      → (reply.vote_granted ≡ false) ⊎ (n.role ≢ candidate)
      → Outcome n (on_request_vote_reply now from reply n)
  unfolding vote_counts
  no_vote-Outcome now from reply n quiet = elim (on_request_vote_reply-Answered now from reply n) [
    | inl o ↦ o
    | inr (counts, (group, role, term, votes, led)) ↦ absurd (ground (arith, counts, role, quiet))
  ]

  pub step-Outcome : (n : RaftNode S) (i : Input) → BringsNoVote n i → Outcome n (step n i)
  unfolding step take_messages
  step-Outcome n (ticks now) h = tick-Outcome now n
  step-Outcome n (proposes batch) h = Outcome-seat n _ (propose-SameSeat batch n)
  step-Outcome n (transfers target) h = Outcome-seat n _ (transfer_leadership-SameSeat target n)
  step-Outcome n (asks_vote now args) h = on_request_vote-Outcome now args n
  step-Outcome n (answers_vote now from reply) h = no_vote-Outcome now from reply n h
  step-Outcome n (sends_entries now args) h = on_append_entries-Outcome now args n
  step-Outcome n (answers_entries now from reply) h =
      on_append_entries_reply-Outcome now from reply n
  step-Outcome n (orders_election now args) h = on_timeout_now-Outcome now args n
  step-Outcome n (sends_snapshot now args) h = on_install_snapshot-Outcome now args n
  step-Outcome n (answers_snapshot now from reply) h =
      on_install_snapshot_reply-Outcome now from reply n
  step-Outcome n drains_outbox h = Outcome-seat n _ (refl, refl, refl, refl, refl, refl)
