-- ===== src/Raft/Node/Campaign.antt =====
-- What an input does to a campaign: the term a node runs in, and the votes it has collected.
pub mod Handlers
use nexus_mq.Base.{
  ℕ, ◌+◌, ◌≡◌, refl, sym, ap, subst, ◌∙◌, ◌⊎◌, inl, inr, ◌≢◌, List, [], ◌∷◌, Bool, true, false, not,
  none, some, arith, length, ltb, leb, ◌&&◌, ◌||◌, if◌then◌else◌, Bool-cases,
}
use nexus_mq.Raft.Types.{
  RaftRole, follower, pre_candidate, candidate, leader, RequestVoteArgs, RequestVoteReply,
  AppendEntriesArgs, AppendEntriesReply, TimeoutNowArgs, InstallSnapshotArgs, InstallSnapshotReply,
}
use nexus_mq.Raft.Log.{Storage}
use nexus_mq.Raft.Node.State.{
  RaftNode, is_voter, insert, has_majority, reset_election_timer, reset_heartbeat_timer,
  advance_term, record_vote,
}
use nexus_mq.Raft.Node.Replication.{replicate_all}
use nexus_mq.Raft.Node.Election.{
  become_follower, clear_leader_progress, reset_leader_progress, become_leader,
  broadcast_request_vote, stand, become_candidate, probe, start_pre_election,
}
use nexus_mq.Raft.Node.Handlers.{
  is_leader, is_follower, tick_started, tick, observe_term, on_request_vote, cast_vote, count_vote,
  count_pre_vote, count_real_vote, vote_counts, on_request_vote_reply, follow, reject_entries,
  is_current_leader, on_append_entries, check_entries, on_append_entries_reply, on_timeout_now,
  on_install_snapshot, adopt_snapshot, on_install_snapshot_reply, take_messages, propose,
  transfer_leadership,
}
use nexus_mq.Raft.Node.Step.{
  Input, ticks, proposes, transfers, asks_vote, answers_vote, sends_entries, answers_entries,
  orders_election, sends_snapshot, answers_snapshot, drains_outbox, step,
}
use nexus_mq.Raft.Node.Evolution.{Evolves, Evolves-refl}
use nexus_mq.Raft.Node.Evolution.Parts.{become_leader-Evolves, broadcast_request_vote-Evolves}
use nexus_mq.Raft.Node.Roles.Leaders.{Elected, become_leader-Elected, stand_role}
use nexus_mq.Raft.Node.Roles.{
  SameSeat, SameSeat-trans, replicate_all-SameSeat, reset_election_timer-SameSeat,
  broadcast-SameSeat, become_follower_role, follow_role, check_entries-SameSeat,
  adopt_snapshot-SameSeat, cast_vote-SameSeat, propose-SameSeat, transfer_leadership-SameSeat,
  replies-SameSeat, snapshot_reply-SameSeat,
}

-- Does the role collect votes of its term, or hold those it won with?
unfoldable pub is_running : RaftRole → Bool
is_running candidate = true
is_running leader = true
is_running _ = false

module _ {S : Storage} where
  abbrev pub SameGroup : RaftNode S → RaftNode S → Type 0
  SameGroup n m = (m.self ≡ n.self) × (m.peers ≡ n.peers) × (m.learners ≡ n.learners)

  pub SameGroup-trans : (a b c : RaftNode S) → SameGroup a b → SameGroup b c → SameGroup a c
  SameGroup-trans a b c p q = (q.0 ∙ p.0, q.1 ∙ p.1, q.2 ∙ p.2)

  -- The node's own vote is the only one.
  abbrev pub Fresh : RaftNode S → Type 0
  Fresh m = (m.votes_granted ≡ m.self ∷ []) × (m.voted_for ≡ some m.self)

  -- The campaign goes on in its term, without another vote.
  abbrev pub Kept : RaftNode S → RaftNode S → Type 0
  Kept n m =
      (is_running n.role ≡ true)
      × (m.current_term ≡ n.current_term)
      × (m.votes_granted ≡ n.votes_granted)

  pub record Outcome (n m : RaftNode S) : Type 0 where
    pub group : SameGroup n m
    pub campaign : is_running m.role ≡ true → Fresh m ⊎ Kept n m
    pub led : m.role ≡ leader → Elected m ⊎ ((n.role ≡ leader) × Kept n m)

  -- A reply that a candidate counts.
  abbrev pub Counted : ℕ → RaftNode S → RaftNode S → Type 0
  Counted from n m =
      SameGroup n m
      × (n.role ≡ candidate)
      × (m.current_term ≡ n.current_term)
      × (m.votes_granted ≡ insert from n.votes_granted)
      × (m.role ≡ leader → Elected m)

  runs_leader : (m : RaftNode S) → m.role ≡ leader → is_running m.role ≡ true
  unfolding is_running
  runs_leader m e = ap is_running e

  Outcome-seat : (n m : RaftNode S) → SameSeat n m → Outcome n m
  Outcome-seat n m s =
      let kept : is_running m.role ≡ true → Kept n m =
        λ e. (ap is_running (sym s.4) ∙ e, s.5, s.3) in
      record {
        group = (s.0, s.1, s.2);
        campaign = λ e. inr (kept e);
        led = λ e. inr (sym s.4 ∙ e, kept (runs_leader m e));
      }

  Outcome-idle : (n m : RaftNode S) → SameGroup n m → is_running m.role ≡ false → Outcome n m
  Outcome-idle n m g f = record {
    group = g;
    campaign = λ e. absurd (ground (arith, f, e));
    led = λ e. absurd (ground (arith, f, runs_leader m e));
  }

  Outcome-if :
      (n : RaftNode S) (b : Bool) (x y : RaftNode S)
      → Outcome n x
      → Outcome n y
      → Outcome n (if b then x else y)
  Outcome-if n true x y p q = p
  Outcome-if n false x y p q = q

  -- What follows keeps the seat, but for a candidate that becomes a leader.
  abbrev SameVotes : RaftNode S → RaftNode S → Type 0
  SameVotes a b =
      SameGroup a b × (b.votes_granted ≡ a.votes_granted) × (b.current_term ≡ a.current_term)

  Outcome-carry :
      (n a b : RaftNode S)
      → Outcome n a
      → (is_running b.role ≡ true → is_running a.role ≡ true)
      → SameVotes a b
      → Evolves a b
      → (b.role ≡ leader → Elected b)
      → Outcome n b
  Outcome-carry n a b o runs (group, votes, term) evolves led = record {
    group = SameGroup-trans n a b o.group group;
    campaign = λ e. elim (o.campaign (runs e)) [
      | inl (own, voted) ↦ inl (
        votes ∙ own ∙ ap (λ i. i ∷ []) (sym group.0),
        evolves.vote_stays a.self voted term ∙ ap some (sym group.0),
      )
      | inr (ran, same, kept) ↦ inr (ran, term ∙ same, votes ∙ kept)
    ];
    led = λ e. inl (led e);
  }

  -- What a node that does not run comes to is its own doing.
  Outcome-from :
      (n a b : RaftNode S) → SameGroup n a → is_running a.role ≡ false → Outcome a b → Outcome n b
  Outcome-from n a b g idle o = record {
    group = SameGroup-trans n a b g o.group;
    campaign = λ e. elim (o.campaign e) [
      | inl own ↦ inl own
      | inr (ran, same, kept) ↦ absurd (ground (arith, idle, ran))
    ];
    led = λ e. elim (o.led e) [
      | inl elected ↦ inl elected
      | inr (before, (ran, same, kept)) ↦ absurd (ground (arith, idle, ran))
    ];
  }

  become_leader-SameVotes : (now : ℕ) (n : RaftNode S) → SameVotes n (become_leader now n)
  unfolding become_leader reset_leader_progress reset_heartbeat_timer
  become_leader-SameVotes now n =
      let n' =
        reset_leader_progress (record n {
          role = leader;
          leader_id = some n.self;
          leader_epoch = n.leader_epoch + 1;
        }) in
      let s =
        replicate_all-SameSeat
          (reset_heartbeat_timer now (record n' { last_sent = []; transfer_target = none })) in
      ((s.0, s.1, s.2), s.3, s.5)

  stand_shape :
      (now : ℕ) (n : RaftNode S)
      → SameGroup n (stand now n) × Fresh (stand now n) × (is_running (stand now n).role ≡ true)
  unfolding stand reset_election_timer advance_term record_vote is_running
  stand_shape now n = ground arith

  probe_shape :
      (now : ℕ) (n : RaftNode S)
      → SameGroup n (probe now n) × (is_running (probe now n).role ≡ false)
  unfolding probe reset_election_timer is_running
  probe_shape now n = ground arith

  become_follower-SameGroup :
      (now term : ℕ) (n : RaftNode S) → SameGroup n (become_follower now term n)
  unfolding become_follower clear_leader_progress reset_election_timer advance_term
  become_follower-SameGroup now term n = ground arith

  become_follower_shape :
      (now term : ℕ) (n : RaftNode S)
      → SameGroup n (become_follower now term n)
        × (is_running (become_follower now term n).role ≡ false)
  unfolding is_running
  become_follower_shape now term n =
      (become_follower-SameGroup now term n, ap is_running (become_follower_role now term n))

  follow-SameGroup :
      (now term leader_id : ℕ) (n : RaftNode S) → SameGroup n (follow now term leader_id n)
  unfolding follow reset_election_timer
  follow-SameGroup now term leader_id n = ground (arith, become_follower-SameGroup now term n)

  follow_shape :
      (now term leader_id : ℕ) (n : RaftNode S)
      → SameGroup n (follow now term leader_id n)
        × (is_running (follow now term leader_id n).role ≡ false)
  unfolding is_running
  follow_shape now term leader_id n =
      (follow-SameGroup now term leader_id n, ap is_running (follow_role now term leader_id n))

  not_led : (m : RaftNode S) → m.role ≡ candidate → m.role ≡ leader → ⊥
  not_led m f e = cc

  become_candidate-Outcome : (now : ℕ) (n : RaftNode S) → Outcome n (become_candidate now n)
  unfolding become_candidate
  become_candidate-Outcome now n =
      let m : RaftNode S = stand now n in
      let (g, own, runs) = stand_shape now n in
      let o : Outcome n m = record {
        group = g;
        campaign = λ e. inl own;
        led = λ e. absurd (not_led m (stand_role now n) e);
      } in
      let b = broadcast-SameSeat false m in
      elim (Bool-cases (has_majority m (length m.votes_granted))) [
        | inl won ↦ rw won (
            Outcome-carry n m (become_leader now m) o (λ e. runs) (become_leader-SameVotes now m)
              (become_leader-Evolves now m) (λ e. become_leader-Elected now m won))
        | inr open_race ↦ rw open_race (
            Outcome-carry n m (broadcast_request_vote false m) o (λ e. runs)
              ((b.0, b.1, b.2), b.3, b.5) (broadcast_request_vote-Evolves false m)
              (λ e. absurd (not_led m (stand_role now n) (sym b.4 ∙ e))))
      ]

  start_pre_election-Outcome : (now : ℕ) (n : RaftNode S) → Outcome n (start_pre_election now n)
  unfolding start_pre_election
  start_pre_election-Outcome now n =
      let m : RaftNode S = probe now n in
      let (g, idle) = probe_shape now n in
      Outcome-if n (has_majority m (length m.votes_granted)) (become_candidate now m)
        (broadcast_request_vote true m)
        (Outcome-from n m (become_candidate now m) g idle (become_candidate-Outcome now m))
        (Outcome-from n m (broadcast_request_vote true m) g idle
          (Outcome-seat m (broadcast_request_vote true m) (broadcast-SameSeat true m)))
