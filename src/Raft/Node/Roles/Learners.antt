-- ===== src/Raft/Node/Roles/Learners.antt =====
-- A learner stays a follower whatever it receives.
use nexus_mq.Base.{
  ℕ, ◌≡◌, refl, ◌∙◌, inl, inr, List, [], ◌∷◌, Bool, true, false, arith, ltb, if◌then◌else◌,
  Bool-cases,
}
use nexus_mq.Raft.Types.{
  RaftRole, follower, pre_candidate, candidate, leader, RequestVoteArgs, RequestVoteReply,
  AppendEntriesArgs, AppendEntriesReply, TimeoutNowArgs, InstallSnapshotArgs, InstallSnapshotReply,
}
use nexus_mq.Raft.Log.{Storage}
use nexus_mq.Raft.Node.State.{RaftNode, is_voter, contains, reset_election_timer}
use nexus_mq.Raft.Node.Election.{become_follower}
use nexus_mq.Raft.Node.Handlers.{
  vote_counts, count_pre_vote, count_real_vote, is_leader, tick_started, tick, observe_term,
  cast_vote, on_request_vote, on_request_vote_reply, follow, check_entries, reject_entries,
  is_current_leader, on_append_entries, on_append_entries_reply, on_timeout_now, adopt_snapshot,
  on_install_snapshot, on_install_snapshot_reply, take_messages,
}
use nexus_mq.Raft.Node.Step.{
  Input, ticks, proposes, transfers, asks_vote, answers_vote, sends_entries, answers_entries,
  orders_election, sends_snapshot, answers_snapshot, drains_outbox, step, run,
}
use nexus_mq.Raft.Node.Roles.{
  SameSeat, reset_election_timer-SameSeat, become_follower_role, become_follower_group, follow_role,
  follow_group, check_entries-SameSeat, adopt_snapshot-SameSeat, cast_vote-SameSeat,
  propose-SameSeat, transfer_leadership-SameSeat,
}

module _ {S : Storage} where
  -- The node is listed as a learner and follows.
  pub record IsPassive (n : RaftNode S) : Type 0 where
    pub listed : contains n.learners n.self ≡ true
    pub follows : n.role ≡ follower

  IsPassive-same :
      (n m : RaftNode S)
      → m.self ≡ n.self
      → m.learners ≡ n.learners
      → m.role ≡ follower
      → IsPassive n
      → IsPassive m
  IsPassive-same n m e f r p = record { listed = rw (e, f) p.listed; follows = r }

  seat-IsPassive : (n m : RaftNode S) → SameSeat n m → IsPassive n → IsPassive m
  seat-IsPassive n m s p = IsPassive-same n m s.0 s.2 (s.4 ∙ p.follows) p

  not_voter : (n : RaftNode S) → IsPassive n → is_voter n n.self ≡ false
  unfolding is_voter
  not_voter n p = rw p.listed

  IsPassive-if :
      (b : Bool) (x y : RaftNode S) → IsPassive x → IsPassive y → IsPassive (if b then x else y)
  IsPassive-if true x y p q = p
  IsPassive-if false x y p q = q

  not_leader : (n : RaftNode S) → IsPassive n → is_leader n.role ≡ false
  unfolding is_leader
  not_leader n p = ground (arith, p.follows)

  not_current : (term : ℕ) (n : RaftNode S) → IsPassive n → is_current_leader term n ≡ false
  unfolding is_current_leader
  not_current term n p = ground (arith, not_leader n p)

  become_follower-IsPassive :
      (now term : ℕ) (n : RaftNode S) → IsPassive n → IsPassive (become_follower now term n)
  become_follower-IsPassive now term n p =
      let g = become_follower_group now term n in
      IsPassive-same n (become_follower now term n) g.0 g.1 (become_follower_role now term n) p

  follow-IsPassive :
      (now term leader_id : ℕ) (n : RaftNode S)
      → IsPassive n
      → IsPassive (follow now term leader_id n)
  follow-IsPassive now term leader_id n p =
      let g = follow_group now term leader_id n in
      IsPassive-same n (follow now term leader_id n) g.0 g.1 (follow_role now term leader_id n) p

  tick_started_lem : (now : ℕ) (n : RaftNode S) → IsPassive n → tick_started now n ≡ n
  unfolding tick_started
  tick_started_lem now n p = ground (arith, not_leader n p, not_voter n p)

  tick-IsPassive : (now : ℕ) (n : RaftNode S) → IsPassive n → IsPassive (tick now n)
  unfolding tick
  tick-IsPassive now n p =
      let fresh : RaftNode S = record n { started = true } in
      IsPassive-if n.started (tick_started now n) (reset_election_timer now fresh)
        (rw (tick_started_lem now n p) p)
        (seat-IsPassive n (reset_election_timer now fresh) (reset_election_timer-SameSeat now fresh)
          p)

  observe_term-IsPassive :
      (now term : ℕ) (n : RaftNode S) → IsPassive n → IsPassive (observe_term now term n)
  unfolding observe_term
  observe_term-IsPassive now term n p =
      IsPassive-if (ltb n.current_term term) (become_follower now term n) n
        (become_follower-IsPassive now term n p) p

  on_request_vote-IsPassive :
      (now : ℕ) (args : RequestVoteArgs) (n : RaftNode S)
      → IsPassive n
      → IsPassive (on_request_vote now args n).0
  unfolding on_request_vote
  on_request_vote-IsPassive now args n p = elim (Bool-cases args.pre_vote) [
    | inl pre ↦ rw pre p
    | inr real ↦
        let o : RaftNode S = observe_term now args.term n in
        rw real (
          seat-IsPassive o (cast_vote now args o).0 (cast_vote-SameSeat now args o)
            (observe_term-IsPassive now args.term n p))
  ]

  by_role_lem :
      (n x y : RaftNode S) (r : RaftRole)
      → r ≡ follower
      → IsPassive n
      → IsPassive (elim r [ pre_candidate ↦ x | candidate ↦ y | _ ↦ n ])
  by_role_lem n x y follower e p = p
  by_role_lem n x y pre_candidate e p = absurd (cc)
  by_role_lem n x y candidate e p = absurd (cc)
  by_role_lem n x y leader e p = p

  on_request_vote_reply-IsPassive :
      (now from : ℕ) (reply : RequestVoteReply) (n : RaftNode S)
      → IsPassive n
      → IsPassive (on_request_vote_reply now from reply n)
  unfolding on_request_vote_reply
  on_request_vote_reply-IsPassive now from reply n p =
      let counts = vote_counts from reply n in
      let x : RaftNode S = if counts then count_pre_vote now from n else n in
      let y : RaftNode S = if counts then count_real_vote now from n else n in
      IsPassive-if (ltb n.current_term reply.term) (become_follower now reply.term n)
        (elim n.role [ pre_candidate ↦ x | candidate ↦ y | _ ↦ n ])
        (become_follower-IsPassive now reply.term n p) (by_role_lem n x y n.role p.follows p)

  on_append_entries-IsPassive :
      (now : ℕ) (args : AppendEntriesArgs) (n : RaftNode S)
      → IsPassive n
      → IsPassive (on_append_entries now args n).0
  unfolding on_append_entries reject_entries
  on_append_entries-IsPassive now args n p = elim (Bool-cases (ltb args.term n.current_term)) [
    | inl old ↦ rw old p
    | inr fresh ↦
        let f : RaftNode S = follow now args.term args.leader_id n in
        rw fresh (
          seat-IsPassive f (check_entries args f).0 (check_entries-SameSeat args f)
            (follow-IsPassive now args.term args.leader_id n p))
  ]

  on_install_snapshot-IsPassive :
      (now : ℕ) (args : InstallSnapshotArgs) (n : RaftNode S)
      → IsPassive n
      → IsPassive (on_install_snapshot now args n).0
  unfolding on_install_snapshot
  on_install_snapshot-IsPassive now args n p = elim (Bool-cases (ltb args.term n.current_term)) [
    | inl old ↦ rw old p
    | inr fresh ↦
        let f : RaftNode S = follow now args.term args.leader_id n in
        rw fresh (
          seat-IsPassive f (adopt_snapshot args f) (adopt_snapshot-SameSeat args f)
            (follow-IsPassive now args.term args.leader_id n p))
  ]

  -- Replies reach nobody who leads.
  on_append_entries_reply-IsPassive :
      (now from : ℕ) (reply : AppendEntriesReply) (n : RaftNode S)
      → IsPassive n
      → IsPassive (on_append_entries_reply now from reply n)
  unfolding on_append_entries_reply
  on_append_entries_reply-IsPassive now from reply n p = rw (not_current reply.term n p) (
      IsPassive-if (ltb n.current_term reply.term) (become_follower now reply.term n) n
        (become_follower-IsPassive now reply.term n p) p)

  on_install_snapshot_reply-IsPassive :
      (now from : ℕ) (reply : InstallSnapshotReply) (n : RaftNode S)
      → IsPassive n
      → IsPassive (on_install_snapshot_reply now from reply n)
  unfolding on_install_snapshot_reply
  on_install_snapshot_reply-IsPassive now from reply n p = rw (not_current reply.term n p) (
      IsPassive-if (ltb n.current_term reply.term) (become_follower now reply.term n) n
        (become_follower-IsPassive now reply.term n p) p)

  on_timeout_now_lem :
      (now : ℕ) (args : TimeoutNowArgs) (n : RaftNode S)
      → IsPassive n
      → on_timeout_now now args n ≡ n
  unfolding on_timeout_now
  on_timeout_now_lem now args n p = ground (arith, not_voter n p)

  pub step-IsPassive : (n : RaftNode S) (i : Input) → IsPassive n → IsPassive (step n i)
  unfolding step take_messages
  step-IsPassive n (ticks now) p = tick-IsPassive now n p
  step-IsPassive n (proposes batch) p = seat-IsPassive n _ (propose-SameSeat batch n) p
  step-IsPassive n (transfers target) p =
      seat-IsPassive n _ (transfer_leadership-SameSeat target n) p
  step-IsPassive n (asks_vote now args) p = on_request_vote-IsPassive now args n p
  step-IsPassive n (answers_vote now from reply) p =
      on_request_vote_reply-IsPassive now from reply n p
  step-IsPassive n (sends_entries now args) p = on_append_entries-IsPassive now args n p
  step-IsPassive n (answers_entries now from reply) p =
      on_append_entries_reply-IsPassive now from reply n p
  step-IsPassive n (orders_election now args) p = rw (on_timeout_now_lem now args n p) p
  step-IsPassive n (sends_snapshot now args) p = on_install_snapshot-IsPassive now args n p
  step-IsPassive n (answers_snapshot now from reply) p =
      on_install_snapshot_reply-IsPassive now from reply n p
  step-IsPassive n drains_outbox p = IsPassive-same n _ refl refl p.follows p

  -- A follower that is listed as a learner is a follower after any sequence of inputs, so it never
  -- stands for election and never leads.
  pub run-IsPassive : (n : RaftNode S) (is : List Input) → IsPassive n → IsPassive (run n is)
  unfolding run
  run-IsPassive n [] p = p
  run-IsPassive n (i ∷ is) p = run-IsPassive (step n i) is (step-IsPassive n i p)
