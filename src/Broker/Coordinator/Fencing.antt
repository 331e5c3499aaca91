-- ===== src/Broker/Coordinator/Fencing.antt =====
-- An earlier incarnation of a producer is shut out.
use nexus_mq.Base.{
  ℕ, ◌+◌, ◌≤◌, ◌≡◌, ◌≢◌, refl, ap, ◌∙◌, List, [], ◌∷◌, Bool, true, false, some, err, ErrorCode, ltb,
  ◌==◌, ==_self, max, if◌then◌else◌, arith,
}
use nexus_mq.Base.Map.{find, find-assign}
use nexus_mq.Wire.Bytes.{Bytes}
use nexus_mq.Broker.Transactions.{ControlRecordType}
use nexus_mq.Broker.Coordinator.Partitions.{TopicPartition}
use nexus_mq.Broker.Coordinator.{
  ProducerIdentity, TransactionCoordinator, find_identity, abort_open, max_epoch, set_identity,
  init_found, init_producer_id, prepare_at,
}
use nexus_mq.Broker.Coordinator.Operations.{
  add_to, decide_on, acknowledge_found, begin, require, add_partitions, decide, on_marker_written,
  tick, resume_pending, take_pending_markers, set_coordinator_epoch, Call, inits, begins, adds,
  decides, acknowledges, ticks, resumes, takes, sets_epoch, call, calls,
}

unfoldable pub is_init : Call → Bool
is_init (inits now id) = true
is_init _ = false

-- No call of the run gives a producer its identity.
unfoldable pub NoInits : List Call → Type 0
unfolding is_init
NoInits [] = Unit
NoInits (x ∷ xs) = (is_init x ≡ false) × NoInits xs

call_epoch :
    (c : TransactionCoordinator) (x : Call) (p : ℕ)
    → is_init x ≡ false
    → find p c.current_epoch ≤ find p (call c x).current_epoch
unfolding call begin add_partitions decide on_marker_written tick resume_pending
    take_pending_markers set_coordinator_epoch is_init prepare_at add_to decide_on acknowledge_found
call_epoch c (inits now id) p h = absurd (ground (arith, h))
call_epoch c (begins now q epoch) p h =
    ground (arith, find-assign q p (max (find q c.current_epoch) epoch) c.current_epoch)
call_epoch c (adds now q epoch ps) p h = ground arith
call_epoch c (decides d now q epoch) p h = ground arith
call_epoch c (acknowledges q epoch partition) p h = ground arith
call_epoch c (ticks now) p h = omega arith
call_epoch c resumes p h = omega arith
call_epoch c takes p h = omega arith
call_epoch c (sets_epoch epoch) p h = omega arith

calls_epoch :
    (c : TransactionCoordinator) (xs : List Call) (p : ℕ)
    → NoInits xs
    → find p c.current_epoch ≤ find p (calls c xs).current_epoch
unfolding calls NoInits
calls_epoch c [] p h = omega arith
calls_epoch c (x ∷ xs) p (h, hs) = omega (arith, call_epoch c x p h, calls_epoch (call c x) xs p hs)

-- The new epoch is the producer's current one.
init_epoch :
    (now : ℕ) (id : Bytes) (c : TransactionCoordinator) (old : ProducerIdentity)
    → find_identity id c.identities ≡ some old
    → old.producer_epoch ≢ max_epoch
    → find old.producer_id (init_producer_id now id c).0.current_epoch ≡ old.producer_epoch + 1
unfolding init_producer_id init_found set_identity
init_epoch now id c old known room =
    let n : ℕ = old.producer_id in
    let c' : TransactionCoordinator = abort_open now n c in
    let e : (old.producer_epoch == max_epoch) ≡ false = ground arith in
    rw (known, e)
      (find-assign n n (old.producer_epoch + 1) c'.current_epoch
        ∙ ap (λ b. if b then old.producer_epoch + 1 else find n c'.current_epoch) (==_self n))

-- After a known producer initialised again, its earlier incarnations are fenced: after any further
-- calls but initialisations, a begin, an addition of partitions and a decision with an epoch that the
-- producer had before are all refused as fenced, and change nothing. The epochs are not used up.
pub init_producer_id-fences :
    (now t : ℕ) (id : Bytes) (c : TransactionCoordinator) (old : ProducerIdentity) (xs : List Call)
    (epoch : ℕ) (ps : List TopicPartition) (d : ControlRecordType)
    → find_identity id c.identities ≡ some old
    → old.producer_epoch ≢ max_epoch
    → NoInits xs
    → epoch ≤ old.producer_epoch
    → let e = calls (init_producer_id now id c).0 xs in
      (begin t old.producer_id epoch e ≡ (e, err ErrorCode.fenced))
      × (add_partitions t old.producer_id epoch ps e ≡ (e, err ErrorCode.fenced))
      × (decide d t old.producer_id epoch e ≡ (e, err ErrorCode.fenced))
unfolding begin add_partitions add_to decide decide_on require
init_producer_id-fences now t id c old xs epoch ps d known room quiet low =
    let i : TransactionCoordinator = (init_producer_id now id c).0 in
    let late : ltb epoch (find old.producer_id (calls i xs).current_epoch) ≡ true =
      ground (arith, init_epoch now id c old known room, calls_epoch i xs old.producer_id quiet) in
    let refused : require old.producer_id epoch (calls i xs) ≡ err ErrorCode.fenced =
      rw late refl in
    (rw late refl, rw refused refl, rw refused refl)
