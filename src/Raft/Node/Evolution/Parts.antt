-- ===== src/Raft/Node/Evolution/Parts.antt =====
-- The parts that the handlers share: each lets a node evolve.
use nexus_mq.Base.{
  ℕ, ◌+◌, ◌≤◌, ◌<◌, refl, inl, inr, List, [], ◌∷◌, Bool, true, false, none, some, arith, ltb, leb,
  if◌then◌else◌, Bool-cases, ltb→lt,
}
use nexus_mq.Raft.Types.{follower, candidate, pre_candidate, leader, Payload, RequestVoteArgs}
use nexus_mq.Raft.Log.{Storage, holds_entry}
use nexus_mq.Raft.Node.State.{
  RaftNode, advance_term, record_vote, reset_election_timer, reset_heartbeat_timer, send, is_voter,
}
use nexus_mq.Raft.Node.Replication.{
  replicate_to, replicate_each, replicate_all, set_commit_index, advance_commit_index,
  push_transfer, maybe_transfer_to, majority_match,
}
use nexus_mq.Raft.Node.Election.{
  become_follower, clear_leader_progress, reset_leader_progress, become_leader, ask_votes,
  broadcast_request_vote, stand, become_candidate, probe, start_pre_election,
}
use nexus_mq.Raft.Node.Evolution.{
  Evolves, Evolves-refl, Evolves-trans, Evolves-same, Keeps, Keeps-Evolves, Keeps-trans,
}

module _ {S : Storage} where
  pub Evolves-if :
      (n : RaftNode S) (b : Bool) {x y : RaftNode S}
      → Evolves n x
      → Evolves n y
      → Evolves n (if b then x else y)
  Evolves-if n true p q = p
  Evolves-if n false p q = q

  reset_election_timer-Keeps : (now : ℕ) (n : RaftNode S) → Keeps n (reset_election_timer now n)
  unfolding reset_election_timer
  reset_election_timer-Keeps now n = ground arith

  pub reset_election_timer-Evolves :
      (now : ℕ) (n : RaftNode S) → Evolves n (reset_election_timer now n)
  reset_election_timer-Evolves now n = Keeps-Evolves n _ (reset_election_timer-Keeps now n)

  pub advance_term-Evolves :
      (term : ℕ) (n : RaftNode S) → n.current_term < term → Evolves n (advance_term term n)
  unfolding advance_term
  advance_term-Evolves term n h = record {
    term_grows = omega arith;
    vote_stays = λ c e same. absurd (omega arith);
    commit_grows = omega arith;
    change_marked = inr refl;
    mark_stays = λ e. refl;
  }

  send-Keeps : (to : ℕ) (p : Payload) (n : RaftNode S) → Keeps n (send to p n)
  unfolding send
  send-Keeps to p n = (refl, refl, refl)

  pub replicate_to-Keeps : (peer : ℕ) (n : RaftNode S) → Keeps n (replicate_to peer n)
  unfolding replicate_to
  replicate_to-Keeps peer n = ground arith

  pub replicate_to-Evolves : (peer : ℕ) (n : RaftNode S) → Evolves n (replicate_to peer n)
  replicate_to-Evolves peer n = Keeps-Evolves n _ (replicate_to-Keeps peer n)

  replicate_each-Evolves : (peers : List ℕ) (n : RaftNode S) → Evolves n (replicate_each peers n)
  unfolding replicate_each
  replicate_each-Evolves [] n = Evolves-refl n
  replicate_each-Evolves (peer ∷ peers) n =
      Evolves-trans (replicate_to-Evolves peer n)
        (replicate_each-Evolves peers (replicate_to peer n))

  pub replicate_all-Evolves : (n : RaftNode S) → Evolves n (replicate_all n)
  unfolding replicate_all
  replicate_all-Evolves n = replicate_each-Evolves n.peers n

  pub set_commit_index-Evolves :
      (index : ℕ) (n : RaftNode S) → n.commit_index ≤ index → Evolves n (set_commit_index index n)
  unfolding set_commit_index
  set_commit_index-Evolves index n h = Evolves-same n _ refl refl h

  pub advance_commit_index-Evolves : (n : RaftNode S) → Evolves n (advance_commit_index n)
  unfolding advance_commit_index
  advance_commit_index-Evolves n = elim (Bool-cases (leb (majority_match n) n.commit_index)) [
    | inl low ↦ rw low (Evolves-refl n)
    | inr high ↦ rw high (
        Evolves-if n (holds_entry (majority_match n) n.current_term n.log)
          (set_commit_index-Evolves (majority_match n) n (ground arith)) (Evolves-refl n))
  ]

  push_transfer-Keeps : (peer : ℕ) (n : RaftNode S) → Keeps n (push_transfer peer n)
  unfolding push_transfer
  push_transfer-Keeps peer n = ground (arith, replicate_to-Keeps peer n)

  maybe_transfer_to-Keeps : (peer : ℕ) (n : RaftNode S) → Keeps n (maybe_transfer_to peer n)
  unfolding maybe_transfer_to
  maybe_transfer_to-Keeps peer n = ground (arith, push_transfer-Keeps peer n)

  pub maybe_transfer_to-Evolves : (peer : ℕ) (n : RaftNode S) → Evolves n (maybe_transfer_to peer n)
  maybe_transfer_to-Evolves peer n = Keeps-Evolves n _ (maybe_transfer_to-Keeps peer n)

  take_term-Evolves :
      (term : ℕ) (n : RaftNode S)
      → Evolves n (if ltb n.current_term term then advance_term term n else n)
  take_term-Evolves term n = elim (Bool-cases (ltb n.current_term term)) [
    | inl newer ↦ rw newer (advance_term-Evolves term n (ltb→lt _ _ newer))
    | inr old ↦ rw old (Evolves-refl n)
  ]

  pub become_follower-Evolves :
      (now term : ℕ) (n : RaftNode S) → Evolves n (become_follower now term n)
  unfolding become_follower
  become_follower-Evolves now term n =
      let taken : RaftNode S = if ltb n.current_term term then advance_term term n else n in
      let down : RaftNode S = record (clear_leader_progress (record taken { role = follower })) {
        votes_granted = [];
        transfer_target = none;
      } in
      Evolves-trans {b = down}
        (Evolves-trans {b = taken} (take_term-Evolves term n)
          (Keeps-Evolves taken down (refl, refl, refl)))
        (reset_election_timer-Evolves now down)

  pub lead-Keeps :
      (now : ℕ) (n : RaftNode S)
      → Keeps n (
          reset_heartbeat_timer now
            (record (reset_leader_progress (record n {
              role = leader;
              leader_id = some n.self;
              leader_epoch = n.leader_epoch + 1;
            })) { last_sent = []; transfer_target = none }))
  unfolding reset_leader_progress reset_heartbeat_timer
  lead-Keeps now n = (refl, refl, refl)

  pub become_leader-Evolves : (now : ℕ) (n : RaftNode S) → Evolves n (become_leader now n)
  unfolding become_leader
  become_leader-Evolves now n =
      Evolves-trans (Keeps-Evolves n _ (lead-Keeps now n)) (replicate_all-Evolves _)

  ask_votes-Evolves :
      (args : RequestVoteArgs) (peers : List ℕ) (n : RaftNode S)
      → Evolves n (ask_votes args peers n)
  unfolding ask_votes
  ask_votes-Evolves args [] n = Evolves-refl n
  ask_votes-Evolves args (peer ∷ peers) n =
      Evolves-trans
        (Evolves-if n (is_voter n peer) (Keeps-Evolves n _ (send-Keeps peer _ n)) (Evolves-refl n))
        (ask_votes-Evolves args peers _)

  pub broadcast_request_vote-Evolves :
      (pre_vote : Bool) (n : RaftNode S) → Evolves n (broadcast_request_vote pre_vote n)
  unfolding broadcast_request_vote
  broadcast_request_vote-Evolves pre_vote n = ask_votes-Evolves _ n.peers n

  voted-Evolves :
      (n : RaftNode S)
      → Evolves n (record (record_vote n.self (advance_term (n.current_term + 1) n)) {
        role = candidate;
        leader_id = none;
        votes_granted = n.self ∷ [];
      })
  unfolding record_vote advance_term
  voted-Evolves n = record {
    term_grows = omega arith;
    vote_stays = λ c e same. absurd (omega arith);
    commit_grows = omega arith;
    change_marked = inr refl;
    mark_stays = λ e. refl;
  }

  pub stand-Evolves : (now : ℕ) (n : RaftNode S) → Evolves n (stand now n)
  unfolding stand
  stand-Evolves now n = Evolves-trans (voted-Evolves n) (reset_election_timer-Evolves now _)

  pub become_candidate-Evolves : (now : ℕ) (n : RaftNode S) → Evolves n (become_candidate now n)
  unfolding become_candidate
  become_candidate-Evolves now n = Evolves-trans (stand-Evolves now n) (
      Evolves-if (stand now n) _ (become_leader-Evolves now _)
        (broadcast_request_vote-Evolves false _))

  probe-Keeps : (now : ℕ) (n : RaftNode S) → Keeps n (probe now n)
  unfolding probe
  probe-Keeps now n =
      let n' : RaftNode S = record n {
        role = pre_candidate;
        leader_id = none;
        votes_granted = n.self ∷ [];
      } in
      Keeps-trans n n' (reset_election_timer now n') (refl, refl, refl)
        (reset_election_timer-Keeps now n')

  pub start_pre_election-Evolves : (now : ℕ) (n : RaftNode S) → Evolves n (start_pre_election now n)
  unfolding start_pre_election
  start_pre_election-Evolves now n = Evolves-trans (Keeps-Evolves n _ (probe-Keeps now n)) (
      Evolves-if (probe now n) _ (become_candidate-Evolves now _)
        (broadcast_request_vote-Evolves true _))
