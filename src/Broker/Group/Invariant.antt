-- ===== src/Broker/Group/Invariant.antt =====
-- What holds of a group after any calls.
pub mod Calls
use nexus_mq.Base.{
  ℕ, ◌+◌, ◌-◌, ◌≡◌, refl, sym, ap, subst, ◌∙◌, ◌⊎◌, inl, inr, List, [], ◌∷◌, Bool, true, false, not,
  ◌&&◌, ◌||◌, Option, none, some, Expected, ok, err, ltb, ◌==◌, if◌then◌else◌, Bool-cases, arith,
}
use nexus_mq.Wire.Bytes.{Bytes}
use nexus_mq.Broker.Coordinator.Partitions.{same_bytes, same_bytes_self}
use nexus_mq.Broker.Group.Membership.{
  Member, Members, find_member, put_member, erase_member, is_blank, is_nobody, unjoin, all_joined,
  clear_assignments, expire_members, MemberAssignment, assign_one, assign_each,
}
use nexus_mq.Broker.Group.{
  GroupState, empty, preparing_rebalance, completing_rebalance, stable, dead, ConsumerGroup,
  is_dead, opens_round, is_preparing, is_completing, is_stable, begin_rebalance, complete_if_ready,
  without_members, name_member, admit, open_round, join, see, sync_member, sync, heartbeat, leave,
  tick, Call, joins, syncs, beats, leaves, ticks, call, calls, created,
}

unfoldable pub has_member : Bytes → Members → Bool
unfolding same_bytes
has_member id [] = false
has_member id ((j, m) ∷ ms) = same_bytes j id || has_member id ms

unfoldable pub is_vacant : GroupState → Bool
is_vacant empty = true
is_vacant _ = false

-- A settled group has a generation that its members have joined.
unfoldable pub is_settled : GroupState → Bool
is_settled completing_rebalance = true
is_settled stable = true
is_settled _ = false

-- All members have joined the round of a settled group, and one of them leads it.
abbrev Settled : ConsumerGroup → Type 0
Settled g =
    (is_settled g.state ≡ false)
    ⊎ ((all_joined g.members ≡ true) × (has_member g.leader_id g.members ≡ true))

pub record IsWellFormed (g : ConsumerGroup) : Type 0 where
  pub settled :
      (is_settled g.state ≡ false)
      ⊎ ((all_joined g.members ≡ true) × (has_member g.leader_id g.members ≡ true))
  pub led : (g.leader_id ≡ []) ⊎ (has_member g.leader_id g.members ≡ true)
  pub occupied : is_vacant g.state ≡ is_nobody g.members

-- The same members, with the same rounds joined.
record Alike (ms ns : Members) : Type 0 where
  nobody : is_nobody ns ≡ is_nobody ms
  joined : all_joined ns ≡ all_joined ms
  members : (x : Bytes) → has_member x ns ≡ has_member x ms

Alike-cons :
    (j : Bytes) (m n : Member) (ms ns : Members)
    → n.joined_round ≡ m.joined_round
    → Alike ms ns
    → Alike ((j, m) ∷ ms) ((j, n) ∷ ns)
unfolding is_nobody all_joined has_member
Alike-cons j m n ms ns e a = record {
  nobody = refl;
  joined = ap (λ b. b && all_joined ns) e ∙ ap (λ b. m.joined_round && b) a.joined;
  members = λ x. ap (λ b. same_bytes j x || b) (a.members x);
}

Alike-refl : (ms : Members) → Alike ms ms
Alike-refl ms = record { nobody = refl; joined = refl; members = λ x. refl }

Alike-if :
    (b : Bool) (ms xs ys : Members) → Alike ms xs → Alike ms ys → Alike ms (if b then xs else ys)
Alike-if true ms xs ys p q = p
Alike-if false ms xs ys p q = q

Alike-trans : (a b c : Members) → Alike a b → Alike b c → Alike a c
Alike-trans a b c p q = record {
  nobody = q.nobody ∙ p.nobody;
  joined = q.joined ∙ p.joined;
  members = λ x. q.members x ∙ p.members x;
}

clear_assignments-Alike : (ms : Members) → Alike ms (clear_assignments ms)
unfolding clear_assignments
clear_assignments-Alike [] = Alike-refl []
clear_assignments-Alike ((j, m) ∷ ms) =
    Alike-cons j m _ ms (clear_assignments ms) refl (clear_assignments-Alike ms)

see-Alike : (now : ℕ) (id : Bytes) (ms : Members) → Alike ms (see now id ms)
unfolding see
see-Alike now id [] = Alike-refl []
see-Alike now id ((j, m) ∷ ms) =
    Alike-if (same_bytes j id) ((j, m) ∷ ms) ((j, record m { last_seen = now }) ∷ ms)
      ((j, m) ∷ see now id ms) (Alike-cons j m _ ms ms refl (Alike-refl ms))
      (Alike-cons j m m ms (see now id ms) refl (see-Alike now id ms))

assign_one-Alike : (a : MemberAssignment) (ms : Members) → Alike ms (assign_one a ms)
unfolding assign_one
assign_one-Alike a [] = Alike-refl []
assign_one-Alike a ((j, m) ∷ ms) =
    Alike-if (same_bytes j a.member_id) ((j, m) ∷ ms)
      ((j, record m { assignment = a.assignment }) ∷ ms) ((j, m) ∷ assign_one a ms)
      (Alike-cons j m _ ms ms refl (Alike-refl ms))
      (Alike-cons j m m ms (assign_one a ms) refl (assign_one-Alike a ms))

assign_each-Alike : (xs : List MemberAssignment) (ms : Members) → Alike ms (assign_each xs ms)
unfolding assign_each
assign_each-Alike [] ms = Alike-refl ms
assign_each-Alike (x ∷ xs) ms =
    Alike-trans ms (assign_one x ms) (assign_each xs (assign_one x ms)) (assign_one-Alike x ms)
      (assign_each-Alike xs (assign_one x ms))

put_member_facts :
    (id subscription : Bytes) (timeout now : ℕ) (ms : Members)
    → let ns = put_member id subscription timeout now ms in
      (is_nobody ns ≡ false)
      × (has_member id ns ≡ true)
      × (all_joined ms ≡ true → all_joined ns ≡ true)
      × ((x : Bytes) → has_member x ms ≡ true → has_member x ns ≡ true)
unfolding put_member is_nobody has_member all_joined
put_member_facts id subscription timeout now [] =
    (refl, rw (same_bytes_self id) refl, λ e. refl, λ x e. absurd (ground (arith, e)))
put_member_facts id subscription timeout now ((j, m) ∷ ms) =
    let (some_left, there, round, others) = put_member_facts id subscription timeout now ms in
    elim (Bool-cases (same_bytes j id)) [
      | inl same ↦ rw same (refl, rw same refl, λ e. ground (arith, e), λ x e. e)
      | inr other ↦ rw other (
        refl,
        rw (other, there) refl,
        λ e. ground (arith, e, round),
        λ x e. ground (arith, e, others x),
      )
    ]
