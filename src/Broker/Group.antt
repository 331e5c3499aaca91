-- ===== src/Broker/Group.antt =====
-- broker/consumer_group.cpp: the membership of a consumer group. The order in which the source walks
-- an `unordered_map` is the order of the list here. Instants and durations are numbers.
pub mod Membership
pub mod Invariant
use nexus_mq.Base.{
  ℕ, ◌+◌, ◌-◌, List, [], ◌∷◌, ◌++◌, Bool, true, false, not, ◌&&◌, ◌||◌, Expected, ok, err,
  ErrorCode, ltb, ◌==◌, if◌then◌else◌, Option, none, some,
}
use nexus_mq.Wire.Bytes.{Bytes}
use nexus_mq.Broker.Coordinator.Partitions.{same_bytes}
use nexus_mq.Broker.Group.Membership.{
  Member, Members, MemberInfo, find_member, put_member, erase_member, is_blank, is_nobody, unjoin,
  all_joined, clear_assignments, expire_members, members_of, MemberAssignment, assign_each,
}

pub data GroupState : Type 0 where
  empty preparing_rebalance completing_rebalance stable dead : GroupState

pub record ConsumerGroup : Type 0 where
  pub group_id : Bytes
  pub state : GroupState
  pub generation : ℕ
  pub leader_id : Bytes
  pub members : Members
  pub member_seq : ℕ

pub record JoinResult : Type 0 where
  pub member_id : Bytes
  pub generation : ℕ
  pub leader_id : Bytes
  pub is_leader : Bool
  pub members : List MemberInfo

pub record SyncResult : Type 0 where
  pub generation : ℕ
  pub assigned : Bool
  pub assignment : Bytes

pub data HeartbeatStatus : Type 0 where
  accepted rebalance_in_progress : HeartbeatStatus

unfoldable pub is_dead : GroupState → Bool
is_dead dead = true
is_dead _ = false

-- Stable or Empty: a join opens a round.
unfoldable pub opens_round : GroupState → Bool
opens_round stable = true
opens_round empty = true
opens_round _ = false

unfoldable pub is_preparing : GroupState → Bool
is_preparing preparing_rebalance = true
is_preparing _ = false

unfoldable pub is_completing : GroupState → Bool
is_completing completing_rebalance = true
is_completing _ = false

unfoldable pub is_stable : GroupState → Bool
is_stable stable = true
is_stable _ = false

unfoldable pub begin_rebalance : ConsumerGroup → ConsumerGroup
unfolding unjoin
begin_rebalance g = record g {
  state = preparing_rebalance;
  leader_id = [];
  members = unjoin g.members;
}

unfoldable pub complete_if_ready : ConsumerGroup → ConsumerGroup
unfolding is_preparing is_nobody all_joined clear_assignments
complete_if_ready g =
    if not (is_preparing g.state) || is_nobody g.members
    then g
    else if not (all_joined g.members)
    then g
    else record g {
      state = completing_rebalance;
      generation = g.generation + 1;
      members = clear_assignments g.members;
    }

-- The end of `leave` and of `tick`, when members were removed.
unfoldable pub without_members : Members → ConsumerGroup → ConsumerGroup
unfolding is_nobody begin_rebalance
without_members left g =
    if is_nobody left
    then record g { members = left; state = empty; leader_id = [] }
    else begin_rebalance (record g { members = left })

-- `std::to_string` is a parameter.
module _ (to_string : ℕ → Bytes) where
  -- The member's id, which is made up where it came empty: `group_id-n`.
  unfoldable pub name_member : Bytes → ConsumerGroup → ConsumerGroup × Bytes
  unfolding is_blank
  name_member member_id g =
      if is_blank member_id
      then (
        record g { member_seq = g.member_seq + 1 },
        g.group_id ++ (45 ∷ to_string (g.member_seq + 1)),
      )
      else (g, member_id)

-- The member is there, has joined the round, and leads if nobody does.
unfoldable pub admit : ℕ → Bytes → Bytes → ℕ → ConsumerGroup → ConsumerGroup
unfolding put_member is_blank
admit now id subscription session_timeout g = record g {
  members = put_member id subscription session_timeout now g.members;
  leader_id = if is_blank g.leader_id then id else g.leader_id;
}

unfoldable pub open_round : ConsumerGroup → ConsumerGroup
unfolding opens_round begin_rebalance
open_round g = if opens_round g.state then begin_rebalance g else g

unfoldable pub join_result : Bytes → ConsumerGroup → JoinResult
unfolding same_bytes is_completing members_of
join_result id g = record {
  member_id = id;
  generation = g.generation;
  leader_id = g.leader_id;
  is_leader = same_bytes id g.leader_id;
  members = if same_bytes id g.leader_id && is_completing g.state then members_of g.members else [];
}

module _ (to_string : ℕ → Bytes) where
  unfoldable pub join : ℕ → Bytes → Bytes → ℕ → ConsumerGroup → ConsumerGroup × Expected JoinResult
  unfolding is_dead name_member open_round admit complete_if_ready join_result
  join now member_id subscription session_timeout g =
      if is_dead g.state
      then (g, err ErrorCode.unsupported)
      else (let (named, id) = name_member to_string member_id g in
          let joined =
            complete_if_ready (admit now id subscription session_timeout (open_round named)) in
          (joined, ok (join_result id joined)))

abbrev pub no_assignment : ConsumerGroup → SyncResult
no_assignment g = record { generation = g.generation; assigned = false; assignment = [] }

-- `it->second.assignment`
unfoldable pub assignment_of : Bytes → ConsumerGroup → SyncResult
unfolding find_member
assignment_of id g = record {
  generation = g.generation;
  assigned = true;
  assignment = elim (find_member id g.members) [ none ↦ [] | some m ↦ m.assignment ];
}

-- `last_seen` of a member.
unfoldable pub see : ℕ → Bytes → Members → Members
unfolding same_bytes
see now id [] = []
see now id ((j, m) ∷ ms) =
    if same_bytes j id then (j, record m { last_seen = now }) ∷ ms else (j, m) ∷ see now id ms

-- The rest of `sync`, for a member of this generation.
unfoldable pub sync_member :
    Bytes → List MemberAssignment → ConsumerGroup → ConsumerGroup × Expected SyncResult
unfolding is_stable is_completing assignment_of assign_each same_bytes
sync_member id assignments g =
    if is_stable g.state
    then (g, ok (assignment_of id g))
    else if not (is_completing g.state)
    then (g, ok (no_assignment g))
    else if same_bytes id g.leader_id
    then (let shared = record g { members = assign_each assignments g.members; state = stable } in
        (shared, ok (assignment_of id shared)))
    else (g, ok (no_assignment g))

-- `sync`, for the member that was found.
unfoldable pub sync_found :
    ℕ
    → Bytes
    → ℕ
    → List MemberAssignment
    → Option Member
    → ConsumerGroup
    → ConsumerGroup × Expected SyncResult
unfolding see sync_member
sync_found now id generation assignments none g = (g, err ErrorCode.not_found)
sync_found now id generation assignments (some m) g =
    if not (generation == g.generation)
    then (g, err ErrorCode.invalid_argument)
    else sync_member id assignments (record g { members = see now id g.members })

unfoldable pub sync :
    ℕ → Bytes → ℕ → List MemberAssignment → ConsumerGroup → ConsumerGroup × Expected SyncResult
unfolding is_dead find_member sync_found
sync now id generation assignments g =
    if is_dead g.state
    then (g, err ErrorCode.unsupported)
    else sync_found now id generation assignments (find_member id g.members) g

-- `heartbeat`, for the member that was found.
unfoldable pub heartbeat_found :
    ℕ → Bytes → ℕ → Option Member → ConsumerGroup → ConsumerGroup × Expected HeartbeatStatus
unfolding see is_preparing is_completing
heartbeat_found now id generation none g = (g, err ErrorCode.not_found)
heartbeat_found now id generation (some m) g =
    let seen = record g { members = see now id g.members } in
    if is_preparing g.state || is_completing g.state
    then (seen, ok rebalance_in_progress)
    else if not (generation == g.generation)
    then (seen, err ErrorCode.invalid_argument)
    else (seen, ok accepted)

unfoldable pub heartbeat : ℕ → Bytes → ℕ → ConsumerGroup → ConsumerGroup × Expected HeartbeatStatus
unfolding is_dead find_member heartbeat_found
heartbeat now id generation g =
    if is_dead g.state
    then (g, err ErrorCode.unsupported)
    else heartbeat_found now id generation (find_member id g.members) g

-- `leave`, for the member that was found.
unfoldable pub leave_found :
    Bytes → Option Member → ConsumerGroup → ConsumerGroup × Expected (Unit {0})
unfolding erase_member without_members
leave_found id none g = (g, err ErrorCode.not_found)
leave_found id (some m) g = (without_members (erase_member id g.members) g, ok tt)

unfoldable pub leave : Bytes → ConsumerGroup → ConsumerGroup × Expected (Unit {0})
unfolding is_dead find_member leave_found
leave id g =
    if is_dead g.state
    then (g, err ErrorCode.unsupported)
    else leave_found id (find_member id g.members) g

unfoldable pub tick : ℕ → ConsumerGroup → ConsumerGroup
unfolding is_dead expire_members without_members
tick now g =
    let (left, removed) = expire_members now g.members in
    if is_dead g.state then g else if not removed then g else without_members left g

pub data Call : Type 0 where
  joins : ℕ → Bytes → Bytes → ℕ → Call
  syncs : ℕ → Bytes → ℕ → List MemberAssignment → Call
  beats : ℕ → Bytes → ℕ → Call
  leaves : Bytes → Call
  ticks : ℕ → Call

module _ (to_string : ℕ → Bytes) where
  unfoldable pub call : ConsumerGroup → Call → ConsumerGroup
  unfolding join sync heartbeat leave tick
  call g (joins now id subscription timeout) = (join to_string now id subscription timeout g).0
  call g (syncs now id generation assignments) = (sync now id generation assignments g).0
  call g (beats now id generation) = (heartbeat now id generation g).0
  call g (leaves id) = (leave id g).0
  call g (ticks now) = tick now g

  unfoldable pub calls : ConsumerGroup → List Call → ConsumerGroup
  calls g [] = g
  calls g (x ∷ xs) = calls (call g x) xs

unfoldable pub created : Bytes → ConsumerGroup
created group_id = record {
  group_id = group_id;
  state = empty;
  generation = 0;
  leader_id = [];
  members = [];
  member_seq = 0;
}
