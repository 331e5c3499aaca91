-- ===== src/Broker/Group/Membership.antt =====
-- The members of a group, by their ids.
use nexus_mq.Base.{
  ℕ, ◌-◌, List, [], ◌∷◌, Bool, true, false, ◌&&◌, Option, none, some, ltb, if◌then◌else◌,
}
use nexus_mq.Wire.Bytes.{Bytes}
use nexus_mq.Broker.Coordinator.Partitions.{same_bytes, less_bytes}

pub record Member : Type 0 where
  pub subscription : Bytes
  pub assignment : Bytes
  pub session_timeout : ℕ
  pub last_seen : ℕ
  pub joined_round : Bool

abbrev pub Members : Type 0
Members = List (Bytes × Member)

pub record MemberInfo : Type 0 where
  pub member_id : Bytes
  pub subscription : Bytes

pub record MemberAssignment : Type 0 where
  pub member_id : Bytes
  pub assignment : Bytes

unfoldable pub is_blank : Bytes → Bool
is_blank [] = true
is_blank (b ∷ bs) = false

unfoldable pub is_nobody : Members → Bool
is_nobody [] = true
is_nobody (m ∷ ms) = false

unfoldable pub find_member : Bytes → Members → Option Member
unfolding same_bytes
find_member id [] = none
find_member id ((j, m) ∷ ms) = if same_bytes j id then some m else find_member id ms

-- `members_[id]`, with everything but the assignment set anew.
unfoldable pub put_member : Bytes → Bytes → ℕ → ℕ → Members → Members
unfolding same_bytes
put_member id subscription session_timeout now [] =
    (
      id,
      record {
        subscription = subscription;
        assignment = [];
        session_timeout = session_timeout;
        last_seen = now;
        joined_round = true;
      },
    )
    ∷ []
put_member id subscription session_timeout now ((j, m) ∷ ms) =
    let rest = put_member id subscription session_timeout now ms in
    if same_bytes j id
    then (
      j,
      record m {
        subscription = subscription;
        session_timeout = session_timeout;
        last_seen = now;
        joined_round = true;
      },
    )
      ∷ ms
    else (j, m) ∷ rest

unfoldable pub erase_member : Bytes → Members → Members
unfolding same_bytes
erase_member id [] = []
erase_member id ((j, m) ∷ ms) =
    let rest = erase_member id ms in if same_bytes j id then ms else (j, m) ∷ rest

-- A new round: everyone has to join again.
unfoldable pub unjoin : Members → Members
unjoin [] = []
unjoin ((j, m) ∷ ms) = (j, record m { joined_round = false }) ∷ unjoin ms

unfoldable pub all_joined : Members → Bool
all_joined [] = true
all_joined ((j, m) ∷ ms) = m.joined_round && all_joined ms

unfoldable pub clear_assignments : Members → Members
clear_assignments [] = []
clear_assignments ((j, m) ∷ ms) = (j, record m { assignment = [] }) ∷ clear_assignments ms

-- The members whose session has not expired, and whether one was removed.
unfoldable pub expire_members : ℕ → Members → Members × Bool
expire_members now [] = ([], false)
expire_members now ((j, m) ∷ ms) =
    let (left, removed) = expire_members now ms in
    if ltb m.session_timeout (now - m.last_seen) then (left, true) else ((j, m) ∷ left, removed)

unfoldable pub assign_one : MemberAssignment → Members → Members
unfolding same_bytes
assign_one a [] = []
assign_one a ((j, m) ∷ ms) =
    let rest = assign_one a ms in
    if same_bytes j a.member_id
    then (j, record m { assignment = a.assignment }) ∷ ms
    else (j, m) ∷ rest

-- The leader's assignments, in order; one for an unknown member is skipped.
unfoldable pub assign_each : List MemberAssignment → Members → Members
unfolding assign_one
assign_each [] ms = ms
assign_each (a ∷ rest) ms = assign_each rest (assign_one a ms)

-- Sorted by id.
unfoldable pub insert_info : MemberInfo → List MemberInfo → List MemberInfo
unfolding less_bytes
insert_info i [] = i ∷ []
insert_info i (k ∷ ks) =
    let rest = insert_info i ks in
    if less_bytes k.member_id i.member_id then k ∷ rest else i ∷ k ∷ ks

unfoldable pub members_of : Members → List MemberInfo
unfolding insert_info
members_of [] = []
members_of ((j, m) ∷ ms) =
    insert_info (record { member_id = j; subscription = m.subscription }) (members_of ms)
