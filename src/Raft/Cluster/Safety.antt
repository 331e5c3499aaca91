-- ===== src/Raft/Cluster/Safety.antt =====
-- At most one leader per term.
pub mod Elections
use nexus_mq.Base.{
  ℕ, suc, ◌+◌, ◌*◌, ◌≤◌, ◌<◌, ◌≡◌, ◌≢◌, refl, sym, ap, subst, ◌∙◌, ◌⊎◌, inl, inr, List, [], ◌∷◌,
  Bool, true, false, not, Option, none, some, arith, length, ◌==◌, ==_iff, ==_self, ◌||◌, ◌&&◌,
  if◌then◌else◌, Bool-cases, ltb,
}
use nexus_mq.Raft.Types.{
  RaftRole, follower, pre_candidate, candidate, leader, RequestVoteArgs, RequestVoteReply,
}
use nexus_mq.Raft.Log.{Storage}
use nexus_mq.Raft.Node.State.{
  RaftNode, contains, cluster_size, is_voter, has_majority, record_vote, reset_election_timer,
}
use nexus_mq.Raft.Node.Handlers.{
  on_request_vote, on_request_vote_reply, vote_counts, can_vote, cast_vote,
}
use nexus_mq.Raft.Node.Step.{Input, step, asks_vote, answers_vote}
use nexus_mq.Raft.Node.Evolution.{Persists}
use nexus_mq.Raft.Node.Evolution.Runs.{step-Persists}
use nexus_mq.Raft.Node.Roles.Leaders.{Elected}
use nexus_mq.Raft.Node.Roles.Learners.{IsPassive, step-IsPassive}
use nexus_mq.Raft.Node.Campaign.{is_running, Outcome, Counted}
use nexus_mq.Raft.Node.Campaign.Handlers.{Answered, on_request_vote_reply-Answered, step-Outcome}
use nexus_mq.Raft.Node.Voting.{on_request_vote-grants}
use nexus_mq.Raft.Cluster.Majority.{common_vote}
use nexus_mq.Raft.Cluster.Votes.{
  Backed, Campaigns, Sound, Sound-Outcome, Sound-Counted, Sound-grant,
}
use nexus_mq.Raft.Cluster.{
  Grant, grant_of, Among, Cluster, IsMember, put, answer_request, receive_vote, act, Moves, answers,
  counts, acts, Reaches, here, next, IsIdle, Starts,
}

moved_grant :
    (grants : List Grant) (x t v u d : ℕ)
    → x ≡ v
    → t ≡ u
    → Among (grant_of v u d) grants
    → Among (grant_of x t d) grants
moved_grant grants x t v u d same_voter same_term among =
    subst (λ i. Among (grant_of i t d) grants) (sym same_voter)
      (subst (λ i. Among (grant_of v i d) grants) (sym same_term) among)

granted_twice :
    (grants : List Grant) (x t a v u b d : ℕ)
    → ((e : ℕ) → Among (grant_of x t e) grants → a ≡ e)
    → (Among (grant_of v u b) grants → Among (grant_of v u d) grants → b ≡ d)
    → Among (grant_of v u b) (grant_of x t a ∷ grants)
    → Among (grant_of v u d) (grant_of x t a ∷ grants)
    → b ≡ d
granted_twice grants x t a v u b d once old (inl p) (inl q) =
    sym (ap (λ (g : Grant). g.candidate) p) ∙ ap (λ (g : Grant). g.candidate) q
granted_twice grants x t a v u b d once old (inl p) (inr q) =
    sym (ap (λ (g : Grant). g.candidate) p)
    ∙ once d (
        moved_grant grants x t v u d (ap (λ (g : Grant). g.voter) p) (ap (λ (g : Grant). g.term) p)
          q)
granted_twice grants x t a v u b d once old (inr p) (inl q) =
    sym (
      once b (
        moved_grant grants x t v u b (ap (λ (g : Grant). g.voter) q) (ap (λ (g : Grant). g.term) q)
          p))
    ∙ ap (λ (g : Grant). g.candidate) q
granted_twice grants x t a v u b d once old (inr p) (inr q) = old p q

some_inj : {a b : ℕ} → some a ≡ some b → a ≡ b
some_inj {a} e = ap (λ o. elim o [ none ↦ a | some b ↦ b ]) e

only_vote : (voted : Option ℕ) (a b : ℕ) → can_vote voted a ≡ true → voted ≡ some b → a ≡ b
unfolding can_vote
only_vote voted a b free same = sym ((==_iff b a).0 (ap (λ v. can_vote v a) (sym same) ∙ free))

module _ {S : Storage} where
  record Safe (voters learners : List ℕ) (c : Cluster S) : Type 0 where
    sound : (x : ℕ) → IsMember voters learners x → Sound voters learners c.grants x (c.nodes x)
    granted_once :
        (v t a b : ℕ) → Among (grant_of v t a) c.grants → Among (grant_of v t b) c.grants → a ≡ b
    granters : (v t a : ℕ) → Among (grant_of v t a) c.grants → IsMember voters learners v

  put_cases :
      (x y : ℕ) (n : RaftNode S) (nodes : ℕ → RaftNode S)
      → ((y ≡ x) × (put x n nodes y ≡ n)) ⊎ ((y ≢ x) × (put x n nodes y ≡ nodes y))
  unfolding put
  put_cases x y n nodes = elim (Bool-cases (y == x)) [
    | inl same ↦ inl ((==_iff y x).0 same, rw same refl)
    | inr other ↦ inr (λ e. absurd (ground (arith, e, other)), rw other refl)
  ]

  step_passive :
      (voters learners : List ℕ) (grants : List Grant) (x : ℕ) (n : RaftNode S) (i : Input)
      → Sound voters learners grants x n
      → contains learners x ≡ true
      → (step n i).role ≡ follower
  step_passive voters learners grants x n i s learns =
      (step-IsPassive n i (record {
        listed =
            ap (λ l. contains l n.self) s.learners_known
            ∙ ap (contains learners) s.self_known
            ∙ learns;
        follows = s.passive learns;
      })).follows

  -- The other nodes are left as they were.
  moved :
      (voters learners : List ℕ) (c : Cluster S) (grants : List Grant) (x : ℕ) (m : RaftNode S)
      → ((y : ℕ) → IsMember voters learners y → y ≢ x → Sound voters learners grants y (c.nodes y))
      → Sound voters learners grants x m
      → (y : ℕ) → IsMember voters learners y
      → Sound voters learners grants y (put x m c.nodes y)
  moved voters learners c grants x m others own y member = elim (put_cases x y m c.nodes) [
    | inl (same, e) ↦
        subst (Sound voters learners grants y) (sym e)
          (subst (λ i. Sound voters learners grants i m) (sym same) own)
    | inr (other, e) ↦ subst (Sound voters learners grants y) (sym e) (others y member other)
  ]

  -- What the vote that a candidate counts has to be.
  abbrev IsGood : List ℕ → List Grant → ℕ → RaftNode S → RaftNode S → Type 0
  IsGood voters grants x n m =
      (from : ℕ) × (contains voters from ≡ true)
      × Among (grant_of from n.current_term x) grants
      × Counted from n m

  own-Sound :
      (voters learners : List ℕ) (grants : List Grant) (x : ℕ) (n : RaftNode S) (i : Input)
      → IsMember voters learners x
      → Outcome n (step n i) ⊎ IsGood voters grants x n (step n i)
      → Sound voters learners grants x n
      → Sound voters learners grants x (step n i)
  own-Sound voters learners grants x n i member (inl o) s =
      Sound-Outcome voters learners grants x n (step n i) member (step-Persists n i)
        (step_passive voters learners grants x n i s) o s
  own-Sound voters learners grants x n i member (inr (from, known, granted, counted)) s =
      Sound-Counted voters learners grants x from n (step n i) (step-Persists n i)
        (step_passive voters learners grants x n i s) known granted counted s

  act-Safe :
      (voters learners : List ℕ) (c : Cluster S) (x : ℕ) (i : Input)
      → IsMember voters learners x
      → Outcome (c.nodes x) (step (c.nodes x) i)
        ⊎ IsGood voters c.grants x (c.nodes x) (step (c.nodes x) i)
      → Safe voters learners c
      → Safe voters learners (act x i c)
  unfolding act
  act-Safe voters learners c x i member o s = record {
    sound =
        moved voters learners c c.grants x (step (c.nodes x) i) (λ y h other. s.sound y h)
          (own-Sound voters learners c.grants x (c.nodes x) i member o (s.sound x member));
    granted_once = s.granted_once;
    granters = s.granters;
  }

  counted_facts :
      (voters learners : List ℕ) (n : RaftNode S) (from term : ℕ)
      → n.learners ≡ learners
      → IsMember voters learners from
      → vote_counts from (record { term = term; vote_granted = true }) n ≡ true
      → (term ≡ n.current_term) × (contains voters from ≡ true)
  unfolding vote_counts is_voter
  counted_facts voters learners n from term e member h = ground (arith, e, member, h)

  receive_vote-Safe :
      (voters learners : List ℕ) (c : Cluster S) (x now voter term : ℕ)
      → IsMember voters learners x
      → Among (grant_of voter term x) c.grants
      → Safe voters learners c
      → Safe voters learners (receive_vote x now voter term c)
  unfolding receive_vote act step
  receive_vote-Safe voters learners c x now voter term member granted s =
      let reply : RequestVoteReply = record { term = term; vote_granted = true } in
      let n : RaftNode S = c.nodes x in
      let good : Outcome n (on_request_vote_reply now voter reply n)
          ⊎ IsGood voters c.grants x n (on_request_vote_reply now voter reply n) =
        elim (on_request_vote_reply-Answered now voter reply n) [
          | inl o ↦ inl o
          | inr (tallied, counted) ↦
              let (same, known) =
                counted_facts voters learners n voter term (s.sound x member).learners_known
                  (s.granters voter term x granted) tallied in
              inr (
                voter,
                known,
                subst (λ t. Among (grant_of voter t x) c.grants) same granted,
                counted,
              )
        ] in
      act-Safe voters learners c x (answers_vote now voter reply) member good s

  -- The reply carries the term that the node is then in.
  cast_vote_term :
      (now : ℕ) (args : RequestVoteArgs) (n : RaftNode S)
      → (cast_vote now args n).1.term ≡ (cast_vote now args n).0.current_term
  unfolding cast_vote record_vote reset_election_timer
  cast_vote_term now args n = ground arith

  on_request_vote_term :
      (now : ℕ) (args : RequestVoteArgs) (n : RaftNode S)
      → args.pre_vote ≡ false
      → (on_request_vote now args n).1.term ≡ (on_request_vote now args n).0.current_term
  unfolding on_request_vote
  on_request_vote_term now args n real = rw real (cast_vote_term now args _)
