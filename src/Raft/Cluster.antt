-- ===== src/Raft/Cluster.antt =====
-- Several nodes of consensus/raft_node.cpp, and the votes that are on the network between them. The
-- network may lose a message, delay it, and deliver it again.
pub mod Majority
pub mod Votes
pub mod Safety
use nexus_mq.Base.{
  ℕ, ◌≡◌, ◌⊎◌, ◌≢◌, List, [], ◌∷◌, Bool, true, false, length, ◌==◌, ◌||◌, if◌then◌else◌,
}
use nexus_mq.Raft.Types.{RaftRole, follower, RequestVoteArgs, RequestVoteReply}
use nexus_mq.Raft.Log.{Storage}
use nexus_mq.Raft.Node.State.{RaftNode, contains, cluster_size}
use nexus_mq.Raft.Node.Handlers.{on_request_vote, on_request_vote_reply}
use nexus_mq.Raft.Node.Step.{Input, step}
use nexus_mq.Raft.Node.Campaign.Handlers.{BringsNoVote}

-- A granted reply to a real request for a vote, as it was sent.
pub record Grant : Type 0 where
  pub voter : ℕ
  pub term : ℕ
  pub candidate : ℕ

abbrev pub grant_of : ℕ → ℕ → ℕ → Grant
grant_of voter term candidate = record { voter = voter; term = term; candidate = candidate }

abbrev pub Among : Grant → List Grant → Type 0
Among g [] = ⊥
Among g (h ∷ hs) = (h ≡ g) ⊎ Among g hs

-- The nodes by their ids, and every grant that was ever sent.
pub record Cluster (S : Storage) : Type 0 where
  pub nodes : ℕ → RaftNode S
  pub grants : List Grant

-- The group of the ids in `voters` and `learners`.
abbrev pub IsMember : List ℕ → List ℕ → ℕ → Type 0
IsMember voters learners x = (contains voters x || contains learners x) ≡ true

module _ {S : Storage} where
  unfoldable pub put : ℕ → RaftNode S → (ℕ → RaftNode S) → ℕ → RaftNode S
  put x n nodes y = if y == x then n else nodes y

  -- A node handles a real request, and its reply goes to the candidate.
  unfoldable pub answer_request : ℕ → ℕ → RequestVoteArgs → Cluster S → Cluster S
  unfolding put
  answer_request x now args c =
      let (n, reply) = on_request_vote now args (c.nodes x) in
      record {
        nodes = put x n c.nodes;
        grants =
            if reply.vote_granted
            then grant_of x reply.term args.candidate_id ∷ c.grants
            else c.grants;
      }

  -- A node receives a vote that was granted to it.
  unfoldable pub receive_vote : ℕ → ℕ → ℕ → ℕ → Cluster S → Cluster S
  unfolding put
  receive_vote x now voter term c = record c {
    nodes =
        put x
          (on_request_vote_reply now voter (record { term = term; vote_granted = true })
            (c.nodes x))
          c.nodes;
  }

  unfoldable pub act : ℕ → Input → Cluster S → Cluster S
  unfolding put
  act x i c = record c { nodes = put x (step (c.nodes x) i) c.nodes }

  -- One node of the group moves. Besides the votes that were granted to it, it may receive any
  -- input, from anyone, that is not a granted reply to a candidate.
  pub data Moves (voters learners : List ℕ) (c d : Cluster S) : Type 0 where
    answers :
        (x now : ℕ) (args : RequestVoteArgs)
        → IsMember voters learners x
        → args.pre_vote ≡ false
        → d ≡ answer_request x now args c
        → Moves voters learners c d
    counts :
        (x now voter term : ℕ)
        → IsMember voters learners x
        → Among (grant_of voter term x) c.grants
        → d ≡ receive_vote x now voter term c
        → Moves voters learners c d
    acts :
        (x : ℕ) (i : Input)
        → IsMember voters learners x
        → BringsNoVote (c.nodes x) i
        → d ≡ act x i c
        → Moves voters learners c d

  pub data Reaches (voters learners : List ℕ) (c : Cluster S) : Cluster S → Type 0 where
    here : Reaches voters learners c c
    next :
        {d e : Cluster S}
        → Reaches voters learners c d
        → Moves voters learners d e
        → Reaches voters learners c e

  -- A node of the group that has just been created.
  pub record IsIdle (voters learners : List ℕ) (x : ℕ) (n : RaftNode S) : Type 0 where
    pub self_known : n.self ≡ x
    pub learners_known : n.learners ≡ learners
    pub group_known : cluster_size n ≡ length voters
    pub follows : n.role ≡ follower

  pub record Starts (voters learners : List ℕ) (c : Cluster S) : Type 0 where
    pub nodes_idle : (x : ℕ) → IsMember voters learners x → IsIdle voters learners x (c.nodes x)
    pub none_granted : c.grants ≡ []
