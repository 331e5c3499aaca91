-- ===== src/Raft/Node/Voting.antt =====
-- When a node grants a vote, and what it has then recorded.
use nexus_mq.Base.{
  ℕ, ◌≤◌, ◌<◌, ◌≡◌, refl, sym, ap, subst, ◌∙◌, ◌⊎◌, inl, inr, true, false, arith, some,
}
use nexus_mq.Raft.Types.{RequestVoteArgs}
use nexus_mq.Raft.Log.{Storage, RaftLog, last_index, last_term}
use nexus_mq.Raft.Node.State.{RaftNode, advance_term, record_vote, reset_election_timer}
use nexus_mq.Raft.Node.Election.{become_follower, clear_leader_progress, log_is_up_to_date}
use nexus_mq.Raft.Node.Handlers.{can_vote, cast_vote, observe_term, on_request_vote}

module _ {S : Storage} where
  -- The candidate's last entry has a later term, or the same term and no smaller index.
  abbrev pub IsUpToDate : RequestVoteArgs → RaftLog S → Type 0
  IsUpToDate args log =
      (last_term log < args.last_log_term)
      ⊎ ((args.last_log_term ≡ last_term log) × (last_index log ≤ args.last_log_index))

  log_is_up_to_date-IsUpToDate :
      (args : RequestVoteArgs) (n : RaftNode S)
      → log_is_up_to_date args.last_log_index args.last_log_term n ≡ true
      → IsUpToDate args n.log
  unfolding log_is_up_to_date
  log_is_up_to_date-IsUpToDate args n h = ground arith

  cast_vote-grants :
      (now : ℕ) (args : RequestVoteArgs) (n : RaftNode S)
      → (cast_vote now args n).1.vote_granted ≡ true
      → (n.current_term ≤ args.term)
        × (can_vote n.voted_for args.candidate_id ≡ true)
        × (log_is_up_to_date args.last_log_index args.last_log_term n ≡ true)
        × ((cast_vote now args n).0 ≡ reset_election_timer now (record_vote args.candidate_id n))
  unfolding cast_vote
  cast_vote-grants now args n h = ground arith

  observe_term_effect :
      (now term : ℕ) (n : RaftNode S)
      → let m = observe_term now term n in
        (m.log ≡ n.log)
        × (((n.current_term < term) × (m.current_term ≡ term))
            ⊎ ((term ≤ n.current_term) × (m ≡ n)))
  unfolding observe_term become_follower advance_term clear_leader_progress reset_election_timer
  observe_term_effect now term n = ground arith

  reset_record :
      (now node : ℕ) (n : RaftNode S)
      → let m = reset_election_timer now (record_vote node n) in
        (m.current_term ≡ n.current_term) × (m.voted_for ≡ some node) × (m.persistent_dirty ≡ true)
  unfolding reset_election_timer record_vote
  reset_record now node n = ground arith

  real_vote :
      (now : ℕ) (args : RequestVoteArgs) (n : RaftNode S)
      → args.pre_vote ≡ false
      → on_request_vote now args n ≡ cast_vote now args (observe_term now args.term n)
  unfolding on_request_vote
  real_vote now args n real = rw real refl

  -- The term that a candidate's request leaves, and what the vote was before it.
  vote_terms :
      (now : ℕ) (args : RequestVoteArgs) (n : RaftNode S)
      → let m = observe_term now args.term n in
        m.current_term ≤ args.term
        → can_vote m.voted_for args.candidate_id ≡ true
        → (m.current_term ≡ args.term)
          × ((n.current_term < args.term)
              ⊎ ((n.current_term ≡ args.term) × (can_vote n.voted_for args.candidate_id ≡ true)))
  vote_terms now args n fresh free = elim (observe_term_effect now args.term n).1 [
    | inl (behind, entered) ↦ (entered, inl behind)
    | inr (ahead, same) ↦
        let equal : n.current_term ≡ args.term = omega (arith, ap (λ m. m.current_term) same) in
        (
          ap (λ m. m.current_term) same ∙ equal,
          inr (equal, subst (λ m. can_vote m.voted_for args.candidate_id ≡ true) same free),
        )
  ]

  -- A real vote that is granted: the candidate's term is not below the node's; in that term the node
  -- had voted for nobody else; the candidate's log is up to date. The node is then in the
  -- candidate's term, has recorded its vote, and has marked it to be made durable.
  pub on_request_vote-grants :
      (now : ℕ) (args : RequestVoteArgs) (n : RaftNode S)
      → args.pre_vote ≡ false
      → (on_request_vote now args n).1.vote_granted ≡ true
      → let m = (on_request_vote now args n).0 in
        ((n.current_term < args.term)
          ⊎ ((n.current_term ≡ args.term) × (can_vote n.voted_for args.candidate_id ≡ true)))
        × IsUpToDate args n.log
        × (m.current_term ≡ args.term)
        × (m.voted_for ≡ some args.candidate_id)
        × (m.persistent_dirty ≡ true)
  on_request_vote-grants now args n real granted =
      let n' = observe_term now args.term n in
      let passed = real_vote now args n real in
      let (same, terms) = observe_term_effect now args.term n in
      let (fresh, free, recent, cast) =
        cast_vote-grants now args n' (ap (λ r. r.1.vote_granted) (sym passed) ∙ granted) in
      let (term, vote, dirty) = reset_record now args.candidate_id n' in
      let after = ap (λ r. r.0) passed ∙ cast in
      let recent' = subst (IsUpToDate args) same (log_is_up_to_date-IsUpToDate args n' recent) in
      let (entered, free') = vote_terms now args n fresh free in
      (
        free',
        recent',
        ap (λ m. m.current_term) after ∙ term ∙ entered,
        ap (λ m. m.voted_for) after ∙ vote,
        ap (λ m. m.persistent_dirty) after ∙ dirty,
      )
