-- ===== src/Raft/Cluster/Votes.antt =====
-- What holds of a node's campaign in every state that the group can reach.
use nexus_mq.Base.{
  ℕ, ◌≤◌, ◌≡◌, refl, sym, ap, subst, ◌∙◌, ◌⊎◌, inl, inr, List, [], ◌∷◌, true, some, arith, length,
  Bool-cases,
}
use nexus_mq.Raft.Types.{follower, leader}
use nexus_mq.Raft.Log.{Storage}
use nexus_mq.Raft.Node.State.{RaftNode, contains, insert, cluster_size, is_voter}
use nexus_mq.Raft.Node.Evolution.{Persists}
use nexus_mq.Raft.Node.Roles.Leaders.{Elected, Elected-same, count_voters_same}
use nexus_mq.Raft.Node.Campaign.{is_running, SameGroup, Fresh, Outcome, Counted}
use nexus_mq.Raft.Cluster.Majority.{
  IsDistinct, AreAmong, insert-IsDistinct, insert-AreAmong, single_vote, insert_cases,
}
use nexus_mq.Raft.Cluster.{Grant, grant_of, Among, IsMember}

module _ {S : Storage} where
  -- A vote that a node holds: its own, or one that was granted to it in its term.
  abbrev pub Backed : List Grant → ℕ → RaftNode S → ℕ → Type 0
  Backed grants x n v =
      ((v ≡ x) × (n.voted_for ≡ some x)) ⊎ Among (grant_of v n.current_term x) grants

  -- What holds of the campaign of node `x`.
  pub record Campaigns (voters : List ℕ) (grants : List Grant) (x : ℕ) (n : RaftNode S)
      : Type 0 where
    pub votes_distinct : IsDistinct n.votes_granted
    pub votes_known : AreAmong n.votes_granted voters
    pub votes_backed : (v : ℕ) → contains n.votes_granted v ≡ true → Backed grants x n v

  pub record Sound (voters learners : List ℕ) (grants : List Grant) (x : ℕ) (n : RaftNode S)
      : Type 0 where
    pub self_known : n.self ≡ x
    pub learners_known : n.learners ≡ learners
    pub group_known : cluster_size n ≡ length voters
    pub passive : contains learners x ≡ true → n.role ≡ follower
    pub campaign : is_running n.role ≡ true → Campaigns voters grants x n
    pub led : n.role ≡ leader → Elected n
    pub promised :
        (t c : ℕ)
        → Among (grant_of x t c) grants
        → (t ≤ n.current_term) × (t ≡ n.current_term → n.voted_for ≡ some c)

  cluster_size_same : (n m : RaftNode S) → SameGroup n m → cluster_size m ≡ cluster_size n
  unfolding cluster_size is_voter
  cluster_size_same n m (s, p, l) = ground (arith, s, p, l, count_voters_same n m n.peers l)

  -- A vote stays backed while the term stays.
  Backed-on :
      (n m : RaftNode S) (x v : ℕ) (grants : List Grant)
      → Persists n m
      → m.current_term ≡ n.current_term
      → Backed grants x n v
      → Backed grants x m v
  Backed-on n m x v grants p term (inl (own, voted)) = inl (own, p.vote_stays x voted term)
  Backed-on n m x v grants p term (inr granted) =
      inr (subst (λ t. Among (grant_of v t x) grants) (sym term) granted)

  keeps_promise :
      (n m : RaftNode S) (t c : ℕ)
      → Persists n m
      → (t ≤ n.current_term) × (t ≡ n.current_term → n.voted_for ≡ some c)
      → (t ≤ m.current_term) × (t ≡ m.current_term → m.voted_for ≡ some c)
  keeps_promise n m t c p (bound, voted) = (
    omega (arith, p.term_grows),
    λ e.
        let same : m.current_term ≡ n.current_term = omega (arith, p.term_grows) in
        p.vote_stays c (voted (omega (arith, p.term_grows))) same,
  )

  runs_voter :
      (voters learners : List ℕ) (x : ℕ) (m : RaftNode S)
      → IsMember voters learners x
      → (contains learners x ≡ true → m.role ≡ follower)
      → is_running m.role ≡ true
      → contains voters x ≡ true
  unfolding is_running
  runs_voter voters learners x m member passive runs = elim (Bool-cases (contains learners x)) [
    | inl learns ↦ absurd (ground (arith, passive learns, runs))
    | inr other ↦ ground (arith, member, other)
  ]

  Fresh-Campaigns :
      (voters : List ℕ) (grants : List Grant) (x : ℕ) (m : RaftNode S)
      → m.self ≡ x
      → contains voters x ≡ true
      → Fresh m
      → Campaigns voters grants x m
  unfolding contains
  Fresh-Campaigns voters grants x m s known (votes, voted) =
      let own : m.votes_granted ≡ x ∷ [] = votes ∙ ap (λ i. i ∷ []) s in
      record {
        votes_distinct = subst IsDistinct (sym own) (refl, tt);
        votes_known = subst (λ l. AreAmong l voters) (sym own) (known, tt);
        votes_backed =
            λ v h. inl (single_vote x v (ap (λ l. contains l v) (sym own) ∙ h), voted ∙ ap some s);
      }

  kept-Campaigns :
      (voters : List ℕ) (grants : List Grant) (x : ℕ) (n m : RaftNode S)
      → Persists n m
      → m.current_term ≡ n.current_term
      → m.votes_granted ≡ n.votes_granted
      → Campaigns voters grants x n
      → Campaigns voters grants x m
  kept-Campaigns voters grants x n m p term votes c = record {
    votes_distinct = subst IsDistinct (sym votes) c.votes_distinct;
    votes_known = subst (λ l. AreAmong l voters) (sym votes) c.votes_known;
    votes_backed = λ v h.
        Backed-on n m x v grants p term (c.votes_backed v (ap (λ l. contains l v) (sym votes) ∙ h));
  }

  counted-Campaigns :
      (voters : List ℕ) (grants : List Grant) (x from : ℕ) (n m : RaftNode S)
      → Persists n m
      → m.current_term ≡ n.current_term
      → m.votes_granted ≡ insert from n.votes_granted
      → contains voters from ≡ true
      → Among (grant_of from n.current_term x) grants
      → Campaigns voters grants x n
      → Campaigns voters grants x m
  counted-Campaigns voters grants x from n m p term votes known granted c = record {
    votes_distinct =
        subst IsDistinct (sym votes) (insert-IsDistinct from n.votes_granted c.votes_distinct);
    votes_known =
        subst (λ l. AreAmong l voters) (sym votes)
          (insert-AreAmong from n.votes_granted voters known c.votes_known);
    votes_backed = λ v h.
        elim (insert_cases from v n.votes_granted (ap (λ l. contains l v) (sym votes) ∙ h)) [
          | inl same ↦ inr (
              subst (λ w. Among (grant_of w m.current_term x) grants) (sym same)
                (subst (λ t. Among (grant_of from t x) grants) (sym term) granted))
          | inr before ↦ Backed-on n m x v grants p term (c.votes_backed v before)
        ];
  }

  pub Sound-Outcome :
      (voters learners : List ℕ) (grants : List Grant) (x : ℕ) (n m : RaftNode S)
      → IsMember voters learners x
      → Persists n m
      → (contains learners x ≡ true → m.role ≡ follower)
      → Outcome n m
      → Sound voters learners grants x n
      → Sound voters learners grants x m
  Sound-Outcome voters learners grants x n m member p passive o s = record {
    self_known = o.group.0 ∙ s.self_known;
    learners_known = o.group.2 ∙ s.learners_known;
    group_known = cluster_size_same n m o.group ∙ s.group_known;
    passive = passive;
    campaign = λ e. elim (o.campaign e) [
      | inl own ↦
          Fresh-Campaigns voters grants x m (o.group.0 ∙ s.self_known)
            (runs_voter voters learners x m member passive e) own
      | inr (ran, term, votes) ↦ kept-Campaigns voters grants x n m p term votes (s.campaign ran)
    ];
    led = λ e. elim (o.led e) [
      | inl elected ↦ elected
      | inr (before, kept) ↦ Elected-same n m o.group.0 o.group.1 o.group.2 kept.2 (s.led before)
    ];
    promised = λ t c g. keeps_promise n m t c p (s.promised t c g);
  }

  pub Sound-Counted :
      (voters learners : List ℕ) (grants : List Grant) (x from : ℕ) (n m : RaftNode S)
      → Persists n m
      → (contains learners x ≡ true → m.role ≡ follower)
      → contains voters from ≡ true
      → Among (grant_of from n.current_term x) grants
      → Counted from n m
      → Sound voters learners grants x n
      → Sound voters learners grants x m
  unfolding is_running
  Sound-Counted voters learners grants x from n m p passive known granted
        (group, role, term, votes, led) s =
      record {
        self_known = group.0 ∙ s.self_known;
        learners_known = group.2 ∙ s.learners_known;
        group_known = cluster_size_same n m group ∙ s.group_known;
        passive = passive;
        campaign = λ e.
            counted-Campaigns voters grants x from n m p term votes known granted
              (s.campaign (ap is_running role));
        led = led;
        promised = λ t c g. keeps_promise n m t c p (s.promised t c g);
      }

  -- A grant that another node sends, or one that this node has recorded.
  pub Sound-grant :
      (voters learners : List ℕ) (grants : List Grant) (g : Grant) (x : ℕ) (n : RaftNode S)
      → (g.voter ≡ x → (g.term ≡ n.current_term) × (n.voted_for ≡ some g.candidate))
      → Sound voters learners grants x n
      → Sound voters learners (g ∷ grants) x n
  Sound-grant voters learners grants g x n recorded s = record {
    self_known = s.self_known;
    learners_known = s.learners_known;
    group_known = s.group_known;
    passive = s.passive;
    campaign = λ e.
        let c = s.campaign e in
        record {
          votes_distinct = c.votes_distinct;
          votes_known = c.votes_known;
          votes_backed =
              λ v h. elim (c.votes_backed v h) [ inl own ↦ inl own | inr old ↦ inr (inr old) ];
        };
    led = s.led;
    promised = λ t c among. elim among [
      | inl same ↦
          let (term, voted) = recorded (ap (λ (h : Grant). h.voter) same) in
          (
            omega (arith, term, ap (λ (h : Grant). h.term) same),
            λ e. voted ∙ ap (λ (h : Grant). some h.candidate) same,
          )
      | inr old ↦ s.promised t c old
    ];
  }
