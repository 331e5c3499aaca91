-- ===== src/Raft/Node/Roles/Leaders.antt =====
-- When the votes of a node are those of more than half of the voters.
use nexus_mq.Base.{ℕ, ◌+◌, ◌≡◌, refl, List, [], ◌∷◌, true, none, some, arith, length}
use nexus_mq.Raft.Types.{candidate, leader}
use nexus_mq.Raft.Log.{Storage}
use nexus_mq.Raft.Node.State.{
  RaftNode, is_voter, has_majority, cluster_size, count_voters, reset_election_timer,
  reset_heartbeat_timer,
}
use nexus_mq.Raft.Node.Replication.{replicate_all}
use nexus_mq.Raft.Node.Election.{reset_leader_progress, become_leader, stand}
use nexus_mq.Raft.Node.Roles.{replicate_all-SameSeat}

module _ {S : Storage} where
  abbrev pub Elected : RaftNode S → Type 0
  Elected n = has_majority n (length n.votes_granted) ≡ true

  pub count_voters_same :
      (n m : RaftNode S) (peers : List ℕ)
      → m.learners ≡ n.learners
      → count_voters m peers ≡ count_voters n peers
  unfolding count_voters is_voter
  count_voters_same n m [] e = refl
  count_voters_same n m (peer ∷ peers) e = rw (e, count_voters_same n m peers e)

  pub Elected-same :
      (n m : RaftNode S)
      → m.self ≡ n.self
      → m.peers ≡ n.peers
      → m.learners ≡ n.learners
      → m.votes_granted ≡ n.votes_granted
      → Elected n
      → Elected m
  unfolding has_majority cluster_size is_voter
  Elected-same n m e1 e2 e3 e4 h = ground (arith, count_voters_same n m n.peers e3)

  -- The state in which a new leader starts to replicate.
  abbrev crowned : ℕ → RaftNode S → RaftNode S
  crowned now n =
      let n' =
        reset_leader_progress (record n {
          role = leader;
          leader_id = some n.self;
          leader_epoch = n.leader_epoch + 1;
        }) in
      reset_heartbeat_timer now (record n' { last_sent = []; transfer_target = none })

  pub become_leader-Elected : (now : ℕ) (n : RaftNode S) → Elected n → Elected (become_leader now n)
  unfolding become_leader reset_leader_progress reset_heartbeat_timer
  become_leader-Elected now n h =
      let s = replicate_all-SameSeat (crowned now n) in
      Elected-same n (replicate_all (crowned now n)) s.0 s.1 s.2 s.3 h

  pub stand_role : (now : ℕ) (n : RaftNode S) → (stand now n).role ≡ candidate
  unfolding stand reset_election_timer
  stand_role now n = ground arith
