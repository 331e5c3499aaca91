-- ===== src/Broker/Group/Invariant/Calls.antt =====
-- Every call keeps a group well formed.
use nexus_mq.Base.{
  ℕ, ◌+◌, ◌≡◌, refl, sym, ap, ◌∙◌, ◌⊎◌, inl, inr, List, [], ◌∷◌, Bool, true, false, not, ◌||◌,
  Option, none, some, err, ErrorCode, ◌==◌, if◌then◌else◌, Bool-cases, arith,
}
use nexus_mq.Wire.Bytes.{Bytes}
use nexus_mq.Broker.Coordinator.Partitions.{same_bytes}
use nexus_mq.Broker.Group.Membership.{
  Member, Members, find_member, put_member, erase_member, is_blank, is_nobody, unjoin, all_joined,
  expire_members, MemberAssignment, assign_each,
}
use nexus_mq.Broker.Group.{
  GroupState, empty, preparing_rebalance, completing_rebalance, stable, dead, ConsumerGroup,
  is_dead, opens_round, is_preparing, is_completing, is_stable, begin_rebalance, complete_if_ready,
  without_members, name_member, admit, open_round, join, see, sync_member, sync_found, sync,
  heartbeat_found, heartbeat, leave_found, leave, tick, Call, joins, syncs, beats, leaves, ticks,
  call, calls, created,
}
use nexus_mq.Broker.Group.Invariant.{
  has_member, is_vacant, is_settled, Settled, IsWellFormed, Alike, clear_assignments-Alike,
  see-Alike, assign_each-Alike, put_member_facts,
}

IsWellFormed-if :
    (b : Bool) (x y : ConsumerGroup)
    → IsWellFormed x
    → IsWellFormed y
    → IsWellFormed (if b then x else y)
IsWellFormed-if true x y p q = p
IsWellFormed-if false x y p q = q

IsWellFormed-reply :
    {R : Type 0} (b : Bool) (x y : ConsumerGroup × R)
    → IsWellFormed x.0
    → IsWellFormed y.0
    → IsWellFormed (if b then x else y).0
IsWellFormed-reply true x y p q = p
IsWellFormed-reply false x y p q = q

-- Other members of the same ids and rounds.
Alike-IsWellFormed :
    (g : ConsumerGroup) (ns : Members)
    → Alike g.members ns
    → IsWellFormed g
    → IsWellFormed (record g { members = ns })
Alike-IsWellFormed g ns a w = record {
  settled = elim w.settled [
    | inl open_round ↦ inl open_round
    | inr (round, leads) ↦ inr (a.joined ∙ round, a.members g.leader_id ∙ leads)
  ];
  led = elim w.led [ inl nobody ↦ inl nobody | inr leads ↦ inr (a.members g.leader_id ∙ leads) ];
  occupied = w.occupied ∙ sym a.nobody;
}

unjoin_nobody : (ms : Members) → is_nobody (unjoin ms) ≡ is_nobody ms
unfolding unjoin is_nobody
unjoin_nobody [] = refl
unjoin_nobody ((j, m) ∷ ms) = refl

without_members-IsWellFormed :
    (left : Members) (g : ConsumerGroup) → IsWellFormed (without_members left g)
unfolding without_members begin_rebalance is_vacant is_settled
without_members-IsWellFormed left g = elim (Bool-cases (is_nobody left)) [
  | inl gone ↦ rw gone (record { settled = inl refl; led = inl refl; occupied = sym gone })
  | inr some_left ↦ rw some_left (record {
    settled = inl refl;
    led = inl refl;
    occupied = sym (unjoin_nobody left ∙ some_left);
  })
]

-- A group in which a member has just been admitted: somebody leads, and it is not vacant.
record Admitted (g : ConsumerGroup) : Type 0 where
  settled : Settled g
  leads : has_member g.leader_id g.members ≡ true
  vacant : is_vacant g.state ≡ false
  somebody : is_nobody g.members ≡ false

admit-Admitted :
    (now timeout : ℕ) (id subscription : Bytes) (g : ConsumerGroup)
    → Settled g
    → (g.leader_id ≡ []) ⊎ (has_member g.leader_id g.members ≡ true)
    → is_vacant g.state ≡ false
    → Admitted (admit now id subscription timeout g)
unfolding admit is_blank
admit-Admitted now timeout id subscription g settled led vacant =
    let (somebody, there, round, others) = put_member_facts id subscription timeout now g.members in
    let leads : has_member (if is_blank g.leader_id then id else g.leader_id)
          (put_member id subscription timeout now g.members)
        ≡ true =
      elim (Bool-cases (is_blank g.leader_id)) [
        | inl blank ↦ rw blank there
        | inr named ↦ rw named (elim led [
          | inl nobody ↦ absurd (ground (arith, named, ap is_blank nobody))
          | inr leader ↦ others g.leader_id leader
        ])
      ] in
    record {
      settled = elim settled [
        | inl open_round ↦ inl open_round
        | inr (all, leader) ↦ inr (round all, leads)
      ];
      leads = leads;
      vacant = vacant;
      somebody = somebody;
    }

complete_if_ready-IsWellFormed :
    (g : ConsumerGroup) → Admitted g → IsWellFormed (complete_if_ready g)
unfolding complete_if_ready is_vacant is_settled
complete_if_ready-IsWellFormed g a =
    let same : IsWellFormed g = record {
      settled = a.settled;
      led = inr a.leads;
      occupied = a.vacant ∙ sym a.somebody;
    } in
    let cleared = clear_assignments-Alike g.members in
    elim (Bool-cases (not (is_preparing g.state) || is_nobody g.members)) [
      | inl early ↦ rw early same
      | inr ready ↦ elim (Bool-cases (all_joined g.members)) [
        | inl all ↦
            rw (ready, all)
              (record {
                settled = inr (cleared.joined ∙ all, cleared.members g.leader_id ∙ a.leads);
                led = inr (cleared.members g.leader_id ∙ a.leads);
                occupied = sym (cleared.nobody ∙ a.somebody);
              })
        | inr missing ↦ rw (ready, missing) same
      ]
    ]

not_vacant : (s : GroupState) → opens_round s ≡ false → is_vacant s ≡ false
unfolding opens_round is_vacant
not_vacant empty e = e
not_vacant preparing_rebalance e = refl
not_vacant completing_rebalance e = refl
not_vacant stable e = refl
not_vacant dead e = refl

open_round_facts :
    (g : ConsumerGroup)
    → IsWellFormed g
    → let o = open_round g in
      Settled o
      × ((o.leader_id ≡ []) ⊎ (has_member o.leader_id o.members ≡ true))
      × (is_vacant o.state ≡ false)
unfolding open_round begin_rebalance is_settled is_vacant
open_round_facts g w = elim (Bool-cases (opens_round g.state)) [
  | inl opens ↦ rw opens (inl refl, inl refl, refl)
  | inr going ↦ rw going (w.settled, w.led, not_vacant g.state going)
]

-- The group takes part in the open round with the new member.
joined-IsWellFormed :
    (now timeout : ℕ) (id subscription : Bytes) (g : ConsumerGroup)
    → IsWellFormed g
    → IsWellFormed (complete_if_ready (admit now id subscription timeout (open_round g)))
joined-IsWellFormed now timeout id subscription g w =
    let (settled, led, vacant) = open_round_facts g w in
    complete_if_ready-IsWellFormed _
      (admit-Admitted now timeout id subscription (open_round g) settled led vacant)

join-IsWellFormed :
    (to_string : ℕ → Bytes) (now timeout : ℕ) (id subscription : Bytes) (g : ConsumerGroup)
    → IsWellFormed g
    → IsWellFormed (join to_string now id subscription timeout g).0
unfolding join name_member
join-IsWellFormed to_string now timeout id subscription g w =
    let named : ConsumerGroup = record g { member_seq = g.member_seq + 1 } in
    let named_w : IsWellFormed named = record {
      settled = w.settled;
      led = w.led;
      occupied = w.occupied;
    } in
    elim (Bool-cases (is_dead g.state)) [
      | inl over ↦ rw over w
      | inr alive ↦ elim (Bool-cases (is_blank id)) [
        | inl blank ↦
            rw (alive, blank) (joined-IsWellFormed now timeout _ subscription named named_w)
        | inr given ↦ rw (alive, given) (joined-IsWellFormed now timeout id subscription g w)
      ]
    ]

completing_facts :
    (s : GroupState) → is_completing s ≡ true → (is_settled s ≡ true) × (is_vacant s ≡ false)
unfolding is_completing is_settled is_vacant
completing_facts completing_rebalance e = (refl, refl)
completing_facts empty e = absurd (ground arith)
completing_facts preparing_rebalance e = absurd (ground arith)
completing_facts stable e = absurd (ground arith)
completing_facts dead e = absurd (ground arith)

completing-Settled :
    (g : ConsumerGroup)
    → Settled g
    → is_completing g.state ≡ true
    → (all_joined g.members ≡ true) × (has_member g.leader_id g.members ≡ true)
completing-Settled g (inr facts) e = facts
completing-Settled g (inl open_state) e =
    absurd (ground (arith, (completing_facts g.state e).0, open_state))

-- The leader has shared its assignments.
shared-IsWellFormed :
    (xs : List MemberAssignment) (g : ConsumerGroup)
    → IsWellFormed g
    → is_completing g.state ≡ true
    → IsWellFormed (record g { members = assign_each xs g.members; state = stable })
unfolding is_vacant
shared-IsWellFormed xs g w e =
    let a = assign_each-Alike xs g.members in
    let (all, leads) = completing-Settled g w.settled e in
    record {
      settled = inr (a.joined ∙ all, a.members g.leader_id ∙ leads);
      led = inr (a.members g.leader_id ∙ leads);
      occupied = sym (completing_facts g.state e).1 ∙ w.occupied ∙ sym a.nobody;
    }

sync_member-IsWellFormed :
    (id : Bytes) (xs : List MemberAssignment) (g : ConsumerGroup)
    → IsWellFormed g
    → IsWellFormed (sync_member id xs g).0
unfolding sync_member
sync_member-IsWellFormed id xs g w = elim (Bool-cases (is_stable g.state)) [
  | inl done ↦ rw done w
  | inr unshared ↦ elim (Bool-cases (is_completing g.state)) [
    | inl completing ↦ elim (Bool-cases (same_bytes id g.leader_id)) [
      | inl leads ↦ rw (unshared, completing, leads) (shared-IsWellFormed xs g w completing)
      | inr follows ↦ rw (unshared, completing, follows) w
    ]
    | inr preparing ↦ rw (unshared, preparing) w
  ]
]

sync_found-IsWellFormed :
    (now generation : ℕ) (id : Bytes) (xs : List MemberAssignment) (o : Option Member)
    (g : ConsumerGroup)
    → IsWellFormed g
    → IsWellFormed (sync_found now id generation xs o g).0
unfolding sync_found
sync_found-IsWellFormed now generation id xs none g w = w
sync_found-IsWellFormed now generation id xs (some m) g w =
    let seen : ConsumerGroup = record g { members = see now id g.members } in
    IsWellFormed-reply (not (generation == g.generation)) (g, err ErrorCode.invalid_argument)
      (sync_member id xs seen) w
      (sync_member-IsWellFormed id xs seen (Alike-IsWellFormed g _ (see-Alike now id g.members) w))

heartbeat_found-IsWellFormed :
    (now generation : ℕ) (id : Bytes) (o : Option Member) (g : ConsumerGroup)
    → IsWellFormed g
    → IsWellFormed (heartbeat_found now id generation o g).0
unfolding heartbeat_found
heartbeat_found-IsWellFormed now generation id none g w = w
heartbeat_found-IsWellFormed now generation id (some m) g w =
    let seen : IsWellFormed (record g { members = see now id g.members }) =
      Alike-IsWellFormed g _ (see-Alike now id g.members) w in
    elim (Bool-cases (is_preparing g.state || is_completing g.state)) [
      | inl busy ↦ rw busy seen
      | inr calm ↦ elim (Bool-cases (generation == g.generation)) [
        | inl same ↦ rw (calm, same) seen
        | inr old ↦ rw (calm, old) seen
      ]
    ]

leave_found-IsWellFormed :
    (id : Bytes) (o : Option Member) (g : ConsumerGroup)
    → IsWellFormed g
    → IsWellFormed (leave_found id o g).0
unfolding leave_found
leave_found-IsWellFormed id none g w = w
leave_found-IsWellFormed id (some m) g w =
    without_members-IsWellFormed (erase_member id g.members) g

call-IsWellFormed :
    (to_string : ℕ → Bytes) (g : ConsumerGroup) (x : Call)
    → IsWellFormed g
    → IsWellFormed (call to_string g x)
unfolding call sync heartbeat leave tick
call-IsWellFormed to_string g (joins now id subscription timeout) w =
    join-IsWellFormed to_string now timeout id subscription g w
call-IsWellFormed to_string g (syncs now id generation xs) w =
    IsWellFormed-reply (is_dead g.state) (g, err ErrorCode.unsupported) _ w
      (sync_found-IsWellFormed now generation id xs (find_member id g.members) g w)
call-IsWellFormed to_string g (beats now id generation) w =
    IsWellFormed-reply (is_dead g.state) (g, err ErrorCode.unsupported) _ w
      (heartbeat_found-IsWellFormed now generation id (find_member id g.members) g w)
call-IsWellFormed to_string g (leaves id) w =
    IsWellFormed-reply (is_dead g.state) (g, err ErrorCode.unsupported) _ w
      (leave_found-IsWellFormed id (find_member id g.members) g w)
call-IsWellFormed to_string g (ticks now) w =
    let (left, removed) = expire_members now g.members in
    IsWellFormed-if (is_dead g.state) g (if not removed then g else without_members left g) w (
      IsWellFormed-if (not removed) g (without_members left g) w
        (without_members-IsWellFormed left g))

calls_kept :
    (to_string : ℕ → Bytes) (xs : List Call) (g : ConsumerGroup)
    → IsWellFormed g
    → IsWellFormed (calls to_string g xs)
unfolding calls
calls_kept to_string [] g w = w
calls_kept to_string (x ∷ xs) g w =
    calls_kept to_string xs (call to_string g x) (call-IsWellFormed to_string g x w)

-- After any calls on a new group: while it completes a rebalance or is stable, every member has
-- joined the round and the leader is one of them; a leader that is named is always a member; and the
-- group is in the empty state exactly if it has no members.
pub calls-IsWellFormed :
    (to_string : ℕ → Bytes) (id : Bytes) (xs : List Call)
    → IsWellFormed (calls to_string (created id) xs)
unfolding created is_settled is_vacant is_nobody
calls-IsWellFormed to_string id xs =
    calls_kept to_string xs (created id)
      (record { settled = inl refl; led = inl refl; occupied = refl })
