-- ===== src/Raft/Node/Evolution/Runs.antt =====
-- The step function as a whole, and every run.
use nexus_mq.Base.{
  ℕ, ◌≤◌, ◌≡◌, refl, ◌⊎◌, inl, inr, List, [], ◌∷◌, true, some, arith, ltb, Bool-cases,
}
use nexus_mq.Raft.Types.{AppendEntriesArgs}
use nexus_mq.Raft.Log.{Storage, last_index}
use nexus_mq.Raft.Node.State.{RaftNode, advance_term, reset_election_timer}
use nexus_mq.Raft.Node.Election.{become_follower, clear_leader_progress}
use nexus_mq.Raft.Node.Replication.{set_commit_index}
use nexus_mq.Raft.Node.Handlers.{
  follow, raise_commit, reject_entries, check_entries, on_append_entries, take_messages,
}
use nexus_mq.Raft.Node.Step.{
  Input, ticks, proposes, transfers, asks_vote, answers_vote, sends_entries, answers_entries,
  orders_election, sends_snapshot, answers_snapshot, drains_outbox, step, run,
}
use nexus_mq.Raft.Node.Evolution.{
  Persists, Persists-refl, Persists-trans, Persists-same, Evolves-Persists,
}
use nexus_mq.Raft.Node.Evolution.Inputs.{
  tick-Evolves, on_request_vote-Evolves, on_request_vote_reply-Evolves, follow-Evolves,
}
use nexus_mq.Raft.Node.Evolution.Entries.{
  on_append_entries_reply-Evolves, on_install_snapshot_reply-Evolves, propose-Evolves,
  transfer_leadership-Evolves, on_timeout_now-Evolves, on_install_snapshot-Evolves,
}

module _ {S : Storage} where
  -- The log is replaced, and the commit index may rise, not past the new log.
  check_entries_effect :
      (args : AppendEntriesArgs) (n : RaftNode S)
      → let m = (check_entries args n).0 in
        (m.persistent ≡ n.persistent)
        × (m.persistent_dirty ≡ n.persistent_dirty)
        × (n.commit_index ≤ last_index m.log → n.commit_index ≤ m.commit_index)
  unfolding check_entries raise_commit set_commit_index
  check_entries_effect args n = ground arith

  on_append_entries-Persists :
      (now : ℕ) (args : AppendEntriesArgs) (n : RaftNode S)
      → Persists n (on_append_entries now args n).0
  unfolding on_append_entries reject_entries
  on_append_entries-Persists now args n = elim (Bool-cases (ltb args.term n.current_term)) [
    | inl old ↦ rw old (Persists-refl n)
    | inr fresh ↦
        let n' : RaftNode S = follow now args.term args.leader_id n in
        let effect = check_entries_effect args n' in
        rw fresh (
          Persists-trans (Evolves-Persists (follow-Evolves now args.term args.leader_id n))
            (Persists-same n' (check_entries args n').0 effect.0 effect.1))
  ]

  pub step-Persists : (n : RaftNode S) (i : Input) → Persists n (step n i)
  unfolding step take_messages
  step-Persists n (ticks now) = Evolves-Persists (tick-Evolves now n)
  step-Persists n (proposes batch) = Evolves-Persists (propose-Evolves batch n)
  step-Persists n (transfers target) = Evolves-Persists (transfer_leadership-Evolves target n)
  step-Persists n (asks_vote now args) = Evolves-Persists (on_request_vote-Evolves now args n)
  step-Persists n (answers_vote now from reply) =
      Evolves-Persists (on_request_vote_reply-Evolves now from reply n)
  step-Persists n (sends_entries now args) = on_append_entries-Persists now args n
  step-Persists n (answers_entries now from reply) =
      Evolves-Persists (on_append_entries_reply-Evolves now from reply n)
  step-Persists n (orders_election now args) = Evolves-Persists (on_timeout_now-Evolves now args n)
  step-Persists n (sends_snapshot now args) =
      Evolves-Persists (on_install_snapshot-Evolves now args n)
  step-Persists n (answers_snapshot now from reply) =
      Evolves-Persists (on_install_snapshot_reply-Evolves now from reply n)
  step-Persists n drains_outbox = Persists-same n (take_messages n).0 refl refl

  pub run-Persists : (n : RaftNode S) (is : List Input) → Persists n (run n is)
  unfolding run
  run-Persists n [] = Persists-refl n
  run-Persists n (i ∷ is) = Persists-trans (step-Persists n i) (run-Persists (step n i) is)

  -- Over any sequence of inputs, a vote that was cast stays the node's vote for as long as the term
  -- is the one it was cast in.
  pub run_vote_stays :
      (n : RaftNode S) (is : List Input) (c : ℕ)
      → n.voted_for ≡ some c
      → (run n is).current_term ≡ n.current_term
      → (run n is).voted_for ≡ some c
  run_vote_stays n is c voted same = (run-Persists n is).vote_stays c voted same

  -- Over any sequence of inputs the term never falls, and either the term and the vote are what
  -- they were or the node is marked to be saved.
  pub run_term_marked :
      (n : RaftNode S) (is : List Input)
      → (n.current_term ≤ (run n is).current_term)
        × (((run n is).persistent ≡ n.persistent) ⊎ ((run n is).persistent_dirty ≡ true))
  run_term_marked n is = ((run-Persists n is).term_grows, (run-Persists n is).change_marked)

  follow_commit :
      (now term leader_id : ℕ) (n : RaftNode S)
      → (follow now term leader_id n).commit_index ≡ n.commit_index
  unfolding follow become_follower clear_leader_progress advance_term reset_election_timer
  follow_commit now term leader_id n = ground arith

  on_append_entries_commit :
      (now : ℕ) (args : AppendEntriesArgs) (n : RaftNode S)
      → n.commit_index ≤ last_index (on_append_entries now args n).0.log
      → n.commit_index ≤ (on_append_entries now args n).0.commit_index
  unfolding on_append_entries reject_entries
  on_append_entries_commit now args n h = ground (
    arith,
    follow_commit now args.term args.leader_id n,
    check_entries_effect args (follow now args.term args.leader_id n),
  )

  -- No input lowers the commit index, as long as the log still reaches it afterwards.
  pub step_commit :
      (n : RaftNode S) (i : Input)
      → n.commit_index ≤ last_index (step n i).log
      → n.commit_index ≤ (step n i).commit_index
  unfolding step take_messages
  step_commit n (ticks now) h = (tick-Evolves now n).commit_grows
  step_commit n (proposes batch) h = (propose-Evolves batch n).commit_grows
  step_commit n (transfers target) h = (transfer_leadership-Evolves target n).commit_grows
  step_commit n (asks_vote now args) h = (on_request_vote-Evolves now args n).commit_grows
  step_commit n (answers_vote now from reply) h =
      (on_request_vote_reply-Evolves now from reply n).commit_grows
  step_commit n (sends_entries now args) h = on_append_entries_commit now args n h
  step_commit n (answers_entries now from reply) h =
      (on_append_entries_reply-Evolves now from reply n).commit_grows
  step_commit n (orders_election now args) h = (on_timeout_now-Evolves now args n).commit_grows
  step_commit n (sends_snapshot now args) h = (on_install_snapshot-Evolves now args n).commit_grows
  step_commit n (answers_snapshot now from reply) h =
      (on_install_snapshot_reply-Evolves now from reply n).commit_grows
  step_commit n drains_outbox h = omega arith
