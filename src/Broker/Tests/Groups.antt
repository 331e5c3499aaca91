-- ===== src/Broker/Tests/Groups.antt =====
-- Runs of broker/consumer_group.cpp.
use nexus_mq.Base.{ℕ, ◌+◌, ◌≡◌, refl, List, [], ◌∷◌, true, ok}
use nexus_mq.Wire.Bytes.{Bytes}
use nexus_mq.Broker.Coordinator.Partitions.{same_bytes}
use nexus_mq.Broker.Group.Membership.{
  find_member, put_member, is_blank, is_nobody, unjoin, all_joined, clear_assignments, assign_one,
  assign_each,
}
use nexus_mq.Broker.Group.{
  Call, joins, syncs, leaves, call, calls, created, is_dead, opens_round, is_preparing,
  is_completing, is_stable, begin_rebalance, complete_if_ready, name_member, admit, open_round,
  join, see, assignment_of, sync_member, sync_found, sync,
}
use nexus_mq.Broker.Group.Invariant.{IsWellFormed}
use nexus_mq.Broker.Group.Invariant.Calls.{calls-IsWellFormed}

-- One digit is enough here.
abbrev digit : ℕ → Bytes
digit n = (n + 48) ∷ []

-- A member joins and leads, shares its assignment, and leaves.
abbrev round : List Call
round =
    joins 10 [] (7 ∷ []) 30
    ∷ syncs 20 (103 ∷ 45 ∷ 49 ∷ []) 1
        (record { member_id = 103 ∷ 45 ∷ 49 ∷ []; assignment = 9 ∷ [] } ∷ [])
    ∷ leaves (103 ∷ 45 ∷ 49 ∷ [])
    ∷ []

calls-IsWellFormed_example : IsWellFormed (calls digit (created (103 ∷ [])) round)
calls-IsWellFormed_example = calls-IsWellFormed digit (103 ∷ []) round

-- Member "b" joins after the round of "a" was complete and before "a" has shared its assignments: in
-- the stable group it is answered with an empty assignment.
abbrev late : List Call
late =
    joins 10 (97 ∷ []) [] 30
    ∷ joins 15 (98 ∷ []) [] 30
    ∷ syncs 20 (97 ∷ []) 1 (record { member_id = 97 ∷ []; assignment = 9 ∷ [] } ∷ [])
    ∷ []

late_answer :
    (sync 25 (98 ∷ []) 1 [] (calls digit (created (103 ∷ [])) late)).1
    ≡ ok (record { generation = 1; assigned = true; assignment = [] })
unfolding sync calls call created is_dead find_member sync_found see sync_member is_stable
    is_completing assignment_of assign_each assign_one same_bytes join name_member is_blank
    open_round opens_round begin_rebalance unjoin admit put_member complete_if_ready is_preparing
    is_nobody all_joined clear_assignments
late_answer = refl
