-- ===== src/Raft/Cluster/Safety/Elections.antt =====
-- The moves of a group keep it safe, and a safe group has one leader per term.
use nexus_mq.Base.{
  ℕ, ◌*◌, ◌<◌, ◌≡◌, refl, sym, ap, subst, ◌∙◌, inl, inr, List, ◌∷◌, true, false, some, arith,
  length, ==_self, Bool-cases,
}
use nexus_mq.Raft.Types.{leader, RequestVoteArgs}
use nexus_mq.Raft.Log.{Storage}
use nexus_mq.Raft.Node.State.{RaftNode, cluster_size, has_majority}
use nexus_mq.Raft.Node.Handlers.{on_request_vote}
use nexus_mq.Raft.Node.Step.{step, asks_vote}
use nexus_mq.Raft.Node.Roles.Leaders.{Elected}
use nexus_mq.Raft.Node.Campaign.{is_running}
use nexus_mq.Raft.Node.Campaign.Handlers.{step-Outcome}
use nexus_mq.Raft.Node.Voting.{on_request_vote-grants}
use nexus_mq.Raft.Cluster.Majority.{common_vote}
use nexus_mq.Raft.Cluster.Votes.{Backed, Sound, Sound-grant}
use nexus_mq.Raft.Cluster.{
  Grant, grant_of, Among, Cluster, IsMember, put, answer_request, act, Moves, answers, counts, acts,
  Reaches, here, next, Starts,
}
use nexus_mq.Raft.Cluster.Safety.{
  granted_twice, some_inj, only_vote, Safe, act-Safe, receive_vote-Safe, on_request_vote_term,
}

module _ {S : Storage} where
  -- A new grant is added to a state in which the granting node has recorded it.
  grant-Safe :
      (voters learners : List ℕ) (c : Cluster S) (x t a : ℕ)
      → IsMember voters learners x
      → (c.nodes x).current_term ≡ t
      → (c.nodes x).voted_for ≡ some a
      → ((b : ℕ) → Among (grant_of x t b) c.grants → a ≡ b)
      → Safe voters learners c
      → Safe voters learners (record c { grants = grant_of x t a ∷ c.grants })
  grant-Safe voters learners c x t a member term voted once s = record {
    sound = λ y h.
        Sound-grant voters learners c.grants (grant_of x t a) y (c.nodes y)
          (λ same.
            subst (λ i. (t ≡ (c.nodes i).current_term) × ((c.nodes i).voted_for ≡ some a)) same
              (sym term, voted))
          (s.sound y h);
    granted_once =
        λ v u b d p q. granted_twice c.grants x t a v u b d once (s.granted_once v u b d) p q;
    granters = λ v u b p. elim p [
      | inl same ↦ subst (IsMember voters learners) (ap (λ (g : Grant). g.voter) same) member
      | inr old ↦ s.granters v u b old
    ];
  }

  put_self : (x : ℕ) (n : RaftNode S) (nodes : ℕ → RaftNode S) → put x n nodes x ≡ n
  unfolding put
  put_self x n nodes = rw (==_self x) refl

  -- No earlier grant of the node in that term went to another candidate.
  voted_once :
      (voters learners : List ℕ) (grants : List Grant) (x now : ℕ) (args : RequestVoteArgs)
      (n : RaftNode S)
      → args.pre_vote ≡ false
      → (on_request_vote now args n).1.vote_granted ≡ true
      → Sound voters learners grants x n
      → (b : ℕ) → Among (grant_of x args.term b) grants
      → args.candidate_id ≡ b
  voted_once voters learners grants x now args n real granted s b old =
      let (bound, voted) = s.promised args.term b old in
      elim ((on_request_vote-grants now args n real granted).0) [
        | inl newer ↦ absurd (omega arith)
        | inr (same, free) ↦ only_vote n.voted_for args.candidate_id b free (voted (sym same))
      ]

  grant_sent-Safe :
      (voters learners : List ℕ) (c : Cluster S) (x now : ℕ) (args : RequestVoteArgs)
      → IsMember voters learners x
      → args.pre_vote ≡ false
      → (on_request_vote now args (c.nodes x)).1.vote_granted ≡ true
      → Safe voters learners c
      → Safe voters learners (record {
        nodes = put x (on_request_vote now args (c.nodes x)).0 c.nodes;
        grants =
            grant_of x (on_request_vote now args (c.nodes x)).1.term args.candidate_id ∷ c.grants;
      })
  unfolding act step
  grant_sent-Safe voters learners c x now args member real granted s =
      let n : RaftNode S = c.nodes x in
      let (free, recent, entered, voted, dirty) = on_request_vote-grants now args n real granted in
      let m : RaftNode S = (on_request_vote now args n).0 in
      let self : put x m c.nodes x ≡ m = put_self x m c.nodes in
      let sent : (on_request_vote now args n).1.term ≡ args.term =
        on_request_vote_term now args n real ∙ entered in
      grant-Safe voters learners (act x (asks_vote now args) c) x
        (on_request_vote now args n).1.term args.candidate_id member
        (ap (λ i. i.current_term) self ∙ entered ∙ sym sent) (ap (λ i. i.voted_for) self ∙ voted)
        (λ b old.
          voted_once voters learners c.grants x now args n real granted (s.sound x member) b
            (subst (λ t. Among (grant_of x t b) c.grants) sent old))
        (act-Safe voters learners c x (asks_vote now args) member
          (inl (step-Outcome n (asks_vote now args) tt)) s)

  answer_request-Safe :
      (voters learners : List ℕ) (c : Cluster S) (x now : ℕ) (args : RequestVoteArgs)
      → IsMember voters learners x
      → args.pre_vote ≡ false
      → Safe voters learners c
      → Safe voters learners (answer_request x now args c)
  unfolding answer_request act step
  answer_request-Safe voters learners c x now args member real s =
      elim (Bool-cases (on_request_vote now args (c.nodes x)).1.vote_granted) [
        | inl granted ↦
            rw granted (grant_sent-Safe voters learners c x now args member real granted s)
        | inr refused ↦ rw refused (
            act-Safe voters learners c x (asks_vote now args) member
              (inl (step-Outcome (c.nodes x) (asks_vote now args) tt)) s)
      ]

  Moves-Safe :
      (voters learners : List ℕ) (c d : Cluster S)
      → Moves voters learners c d
      → Safe voters learners c
      → Safe voters learners d
  Moves-Safe voters learners c d (answers x now args member real e) s =
      subst (Safe voters learners) (sym e)
        (answer_request-Safe voters learners c x now args member real s)
  Moves-Safe voters learners c d (counts x now voter term member granted e) s =
      subst (Safe voters learners) (sym e)
        (receive_vote-Safe voters learners c x now voter term member granted s)
  Moves-Safe voters learners c d (acts x i member quiet e) s =
      subst (Safe voters learners) (sym e)
        (act-Safe voters learners c x i member (inl (step-Outcome (c.nodes x) i quiet)) s)

  Starts-Safe :
      (voters learners : List ℕ) (c : Cluster S) → Starts voters learners c → Safe voters learners c
  unfolding is_running
  Starts-Safe voters learners c s =
      let none_sent : (g : Grant) → Among g c.grants → ⊥ =
        λ g h. subst (Among g) s.none_granted h in
      record {
        sound = λ x member.
            let idle = s.nodes_idle x member in
            record {
              self_known = idle.self_known;
              learners_known = idle.learners_known;
              group_known = idle.group_known;
              passive = λ h. idle.follows;
              campaign = λ runs. absurd (ground (arith, runs, idle.follows));
              led = λ leads. absurd (ground (arith, leads, idle.follows));
              promised = λ t b h. absurd (none_sent (grant_of x t b) h);
            };
        granted_once = λ v t a b p q. absurd (none_sent (grant_of v t a) p);
        granters = λ v t a p. absurd (none_sent (grant_of v t a) p);
      }

  Reaches-Safe :
      (voters learners : List ℕ) (c d : Cluster S)
      → Reaches voters learners c d
      → Safe voters learners c
      → Safe voters learners d
  Reaches-Safe voters learners c d here s = s
  Reaches-Safe voters learners c d (next before move) s =
      Moves-Safe voters learners _ d move (Reaches-Safe voters learners c _ before s)

  -- A voter that backs two campaigns of one term backs the same node twice.
  Backed-same :
      (voters learners : List ℕ) (c : Cluster S) (x y v : ℕ)
      → Safe voters learners c
      → IsMember voters learners x
      → IsMember voters learners y
      → (c.nodes x).current_term ≡ (c.nodes y).current_term
      → Backed c.grants x (c.nodes x) v
      → Backed c.grants y (c.nodes y) v
      → x ≡ y
  Backed-same voters learners c x y v s mx my term (inl (own_x, _)) (inl (own_y, _)) =
      sym own_x ∙ own_y
  Backed-same voters learners c x y v s mx my term (inl (own, voted)) (inr granted) = some_inj (
      sym voted
      ∙ ((s.sound x mx).promised (c.nodes y).current_term y
            (subst (λ i. Among (grant_of i (c.nodes y).current_term y) c.grants) own granted)).1
          (sym term))
  Backed-same voters learners c x y v s mx my term (inr granted) (inl (own, voted)) = some_inj (
      sym (
        sym voted
        ∙ ((s.sound y my).promised (c.nodes x).current_term x
              (subst (λ i. Among (grant_of i (c.nodes x).current_term x) c.grants) own granted)).1
            term))
  Backed-same voters learners c x y v s mx my term (inr granted_x) (inr granted_y) =
      s.granted_once v (c.nodes y).current_term x y
        (subst (λ t. Among (grant_of v t x) c.grants) term granted_x) granted_y

  won_majority :
      (voters : List ℕ) (n : RaftNode S)
      → cluster_size n ≡ length voters
      → Elected n
      → length voters < length n.votes_granted * 2
  unfolding has_majority
  won_majority voters n e h = ground (arith, e, h)

  -- In every state that a group of nodes reaches from its start, with any loss, delay, reordering
  -- and repetition of the replies to real requests for votes, two of its members that both lead in
  -- the same term are the same node. The group has a fixed list of voters and learners. A candidate
  -- counts only the votes that members granted to real requests of its own, each carrying the term
  -- it was granted in: that a granted pre-vote reaches a node that is a candidate by then is
  -- excluded. Everything else that a node receives is arbitrary, from any sender.
  pub election_safety :
      (voters learners : List ℕ) (c d : Cluster S) (x y : ℕ)
      → Starts voters learners c
      → Reaches voters learners c d
      → IsMember voters learners x
      → IsMember voters learners y
      → (d.nodes x).role ≡ leader
      → (d.nodes y).role ≡ leader
      → (d.nodes x).current_term ≡ (d.nodes y).current_term
      → x ≡ y
  unfolding is_running
  election_safety voters learners c d x y start run mx my leads_x leads_y term =
      let s = Reaches-Safe voters learners c d run (Starts-Safe voters learners c start) in
      let n : RaftNode S = d.nodes x in
      let m : RaftNode S = d.nodes y in
      let sx = s.sound x mx in
      let sy = s.sound y my in
      let cx = sx.campaign (ap is_running leads_x) in
      let cy = sy.campaign (ap is_running leads_y) in
      let (v, in_x, in_y) =
        common_vote n.votes_granted m.votes_granted voters cx.votes_distinct cy.votes_distinct
          cx.votes_known cy.votes_known (won_majority voters n sx.group_known (sx.led leads_x))
          (won_majority voters m sy.group_known (sy.led leads_y)) in
      Backed-same voters learners d x y v s mx my term (cx.votes_backed v in_x)
        (cy.votes_backed v in_y)
