-- ===== src/Raft/Node/State.antt =====
-- The state of a `RaftNode`, its timers and its outbox. Instants and durations are nanoseconds.
use nexus_mq.Base.{
  ℕ, ◌+◌, ◌-◌, ◌*◌, ◌%◌, ◌^◌, List, [], ◌∷◌, ◌++◌, Bool, true, false, not, Option, none, some, ltb,
  ◌==◌, ◌||◌, if◌then◌else◌,
}
use nexus_mq.Base.Map.{Map}
use nexus_mq.Raft.Types.{RaftRole, follower, RaftMessage, Payload}
use nexus_mq.Raft.Log.{Storage, RaftLog}

-- The timeouts of `RaftConfig`, in milliseconds.
pub record RaftConfig : Type 0 where
  pub election_timeout_min : ℕ
  pub election_timeout_max : ℕ
  pub heartbeat_interval : ℕ
  pub random_seed : ℕ

pub record RaftPersistentState : Type 0 where
  pub current_term : ℕ
  pub voted_for : Option ℕ

pub record RaftVolatileState : Type 0 where
  pub commit_index : ℕ
  pub last_applied : ℕ
  pub next_index : Map
  pub match_index : Map

pub record RaftNode (S : Storage) : Type 0 where
  pub self : ℕ
  pub peers : List ℕ
  pub learners : List ℕ
  pub log : RaftLog S
  pub config : RaftConfig
  pub role : RaftRole
  pub persistent : RaftPersistentState
  pub open persistent use *
  pub persistent_dirty : Bool
  pub progress : RaftVolatileState
  pub open progress use *
  pub leader_epoch : ℕ
  pub leader_id : Option ℕ
  pub votes_granted : List ℕ
  pub last_sent : Map
  pub transfer_target : Option ℕ
  pub election_deadline : ℕ
  pub last_leader_contact : ℕ
  pub heartbeat_deadline : ℕ
  pub started : Bool
  pub rng : ℕ
  pub outbox : List RaftMessage

unfoldable pub contains : List ℕ → ℕ → Bool
contains [] a = false
contains (x ∷ xs) a = x == a || contains xs a

-- `insert` of an `unordered_set`.
unfoldable pub insert : ℕ → List ℕ → List ℕ
unfolding contains
insert a xs = if contains xs a then xs else a ∷ xs

abbrev pub millis : ℕ → ℕ
millis n = n * 1_000_000

-- `std::minstd_rand`: the state that follows is also the number drawn.
unfoldable pub minstd_rand : ℕ → ℕ
minstd_rand state = 48271 * state % 2147483647

unfoldable pub rng_seed : ℕ → ℕ → ℕ
rng_seed random_seed self =
    let s = (random_seed + self) % 2 ^ 64 % 2147483647 in if s == 0 then 1 else s

module _ {S : Storage} where
  unfoldable pub init : ℕ → List ℕ → RaftLog S → RaftConfig → List ℕ → RaftNode S
  unfolding rng_seed
  init self peers log config learners = record {
    self = self;
    peers = peers;
    learners = learners;
    log = log;
    config = config;
    role = follower;
    persistent = record { current_term = 0; voted_for = none };
    persistent_dirty = false;
    progress = record { commit_index = 0; last_applied = 0; next_index = []; match_index = [] };
    leader_epoch = 0;
    leader_id = none;
    votes_granted = [];
    last_sent = [];
    transfer_target = none;
    election_deadline = 0;
    last_leader_contact = 0;
    heartbeat_deadline = 0;
    started = false;
    rng = rng_seed config.random_seed self;
    outbox = [];
  }

  unfoldable pub is_voter : RaftNode S → ℕ → Bool
  unfolding contains
  is_voter n node = not (contains n.learners node)

  unfoldable pub count_voters : RaftNode S → List ℕ → ℕ
  unfolding is_voter
  count_voters n [] = 0
  count_voters n (peer ∷ peers) = (if is_voter n peer then 1 else 0) + count_voters n peers

  unfoldable pub cluster_size : RaftNode S → ℕ
  unfolding is_voter count_voters
  cluster_size n = (if is_voter n n.self then 1 else 0) + count_voters n n.peers

  unfoldable pub has_majority : RaftNode S → ℕ → Bool
  unfolding cluster_size
  has_majority n votes = ltb (cluster_size n) (votes * 2)

  unfoldable pub advance_term : ℕ → RaftNode S → RaftNode S
  advance_term term n = record n {
    persistent = record { current_term = term; voted_for = none };
    persistent_dirty = true;
  }

  unfoldable pub record_vote : ℕ → RaftNode S → RaftNode S
  record_vote node n = record n {
    persistent = record (n.persistent) { voted_for = some node };
    persistent_dirty = true;
  }

  -- The timeout is drawn between the two bounds; no number is drawn where they leave no room.
  unfoldable pub reset_election_timer : ℕ → RaftNode S → RaftNode S
  unfolding minstd_rand
  reset_election_timer now n =
      let lo = n.config.election_timeout_min in
      let span = n.config.election_timeout_max - lo in
      let drawn = minstd_rand n.rng in
      if ltb 0 span
      then record n { election_deadline = now + millis (lo + drawn % (span + 1)); rng = drawn }
      else record n { election_deadline = now + millis lo }

  unfoldable pub reset_heartbeat_timer : ℕ → RaftNode S → RaftNode S
  reset_heartbeat_timer now n = record n {
    heartbeat_deadline = now + millis n.config.heartbeat_interval;
  }

  unfoldable pub send : ℕ → Payload → RaftNode S → RaftNode S
  send to payload n = record n {
    outbox = n.outbox ++ record { sender = n.self; receiver = to; payload = payload } ∷ [];
  }
