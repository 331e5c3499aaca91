-- ===== src/Broker/Coordinator/Tidy.antt =====
-- What holds of every transaction of a coordinator, after any calls.
use nexus_mq.Base.{
  ℕ, ◌≡◌, refl, sym, ap, subst, ◌∙◌, List, [], ◌∷◌, All, Option, none, some, ok, Expected, err, inl,
  inr, Bool-cases, ==_iff, ◌==◌, ltb, ◌&&◌, ◌-◌, if◌then◌else◌, arith,
}
use nexus_mq.Base.Map.{find}
use nexus_mq.Wire.Bytes.{Bytes}
use nexus_mq.Broker.Transactions.{ControlRecordType, abort}
use nexus_mq.Broker.Coordinator.Partitions.{TopicPartition, IsSorted}
use nexus_mq.Broker.Coordinator.Partitions.Order.{insert_each-IsSorted}
use nexus_mq.Broker.Coordinator.Keyed.{Table, lookup, store}
use nexus_mq.Broker.Coordinator.{
  TransactionMetadata, TransactionCoordinator, ProducerIdentity, find_identity, abort_open,
  abort_found, max_epoch, set_identity, fresh_identity, init_found, init_producer_id, prepare_at,
  enter_prepare, is_ongoing,
}
use nexus_mq.Broker.Coordinator.Decisions.{require-found}
use nexus_mq.Broker.Coordinator.Operations.{
  begin, is_busy, require, add_to, add_partitions, decide_on, decide, acknowledge, erased,
  acknowledge_found, on_marker_written, expire_one, expire, tick, resume_one, resume,
  resume_pending, take_pending_markers, set_coordinator_epoch, Call, inits, begins, adds, decides,
  acknowledges, ticks, resumes, takes, sets_epoch, call, calls,
}

-- The transaction stands under its producer, and its partitions are in order.
abbrev pub IsTidy : ℕ × TransactionMetadata → Type 0
IsTidy (producer, m) = (m.producer_id ≡ producer) × IsSorted m.partitions

-- The transaction changed, but not in these.
abbrev SameTidy : TransactionMetadata → TransactionMetadata → Type 0
SameTidy m n = (n.producer_id ≡ m.producer_id) × (n.partitions ≡ m.partitions)

same-IsTidy : (p : ℕ) (m n : TransactionMetadata) → SameTidy m n → IsTidy (p, m) → IsTidy (p, n)
same-IsTidy p m n (id, parts) (h, sorted) = (id ∙ h, subst IsSorted (sym parts) sorted)

store-IsTidy :
    (p : ℕ) (m : TransactionMetadata) (t : Table TransactionMetadata)
    → IsTidy (p, m)
    → All IsTidy t
    → All IsTidy (store p m t)
unfolding store
store-IsTidy p m [] h hs = (h, tt)
store-IsTidy p m ((q, v) ∷ t) h (k, ks) = elim (Bool-cases (q == p)) [
  | inl here ↦ rw here (h, ks)
  | inr other ↦ rw other (k, store-IsTidy p m t h ks)
]

pub lookup-IsTidy :
    (p : ℕ) (m : TransactionMetadata) (t : Table TransactionMetadata)
    → All IsTidy t
    → lookup p t ≡ some m
    → IsTidy (p, m)
unfolding lookup
lookup-IsTidy p m [] h e = absurd (ground (arith, e))
lookup-IsTidy p m ((q, v) ∷ t) (h, hs) e = elim (Bool-cases (q == p)) [
  | inl here ↦
      let found : v ≡ m =
        ap (λ o. elim o [ none ↦ v | some x ↦ x ])
          (ap (λ b. if b then some v else lookup p t) (sym here) ∙ e) in
      subst (λ w. IsTidy (p, w)) found (subst (λ i. IsTidy (i, v)) ((==_iff q p).0 here) h)
  | inr other ↦ lookup-IsTidy p m t hs (ap (λ b. if b then some v else lookup p t) (sym other) ∙ e)
]

enter_prepare_tidy :
    (epoch now : ℕ) (d : ControlRecordType) (m : TransactionMetadata)
    → SameTidy m (enter_prepare epoch d now m).0
unfolding enter_prepare
enter_prepare_tidy epoch now d m = ground arith

abort_found-IsTidy :
    (now p : ℕ) (o : Option TransactionMetadata) (c : TransactionCoordinator)
    → lookup p c.txns ≡ o
    → All IsTidy c.txns
    → All IsTidy (abort_found now p o c).txns
unfolding abort_found prepare_at
abort_found-IsTidy now p none c e h = h
abort_found-IsTidy now p (some m) c e h = elim (Bool-cases (is_ongoing m.state)) [
  | inl busy ↦ rw busy (
      store-IsTidy p _ c.txns
        (same-IsTidy p m (enter_prepare c.coordinator_epoch abort now m).0
          (enter_prepare_tidy c.coordinator_epoch now abort m) (lookup-IsTidy p m c.txns h e))
        h)
  | inr idle ↦ rw idle h
]

init_found-IsTidy :
    (now : ℕ) (id : Bytes) (o : Option ProducerIdentity) (c : TransactionCoordinator)
    → All IsTidy c.txns
    → All IsTidy (init_found now id o c).0.txns
unfolding init_found abort_open fresh_identity set_identity
init_found-IsTidy now id none c h = h
init_found-IsTidy now id (some v) c h =
    let left = abort_found-IsTidy now v.producer_id (lookup v.producer_id c.txns) c refl h in
    elim (Bool-cases (v.producer_epoch == max_epoch)) [
      | inl used ↦ rw used left
      | inr room ↦ rw room left
    ]

begin-IsTidy :
    (now p epoch : ℕ) (c : TransactionCoordinator)
    → All IsTidy c.txns
    → All IsTidy (begin now p epoch c).0.txns
unfolding begin
begin-IsTidy now p epoch c h = elim (Bool-cases (ltb epoch (find p c.current_epoch))) [
  | inl late ↦ rw late h
  | inr current ↦ elim (Bool-cases (is_busy epoch (lookup p c.txns))) [
    | inl busy ↦ rw (current, busy) h
    | inr free ↦ rw (current, free) (store-IsTidy p _ c.txns (refl, tt) h)
  ]
]

add_to-IsTidy :
    (now p : ℕ) (ps : List TopicPartition) (r : Expected TransactionMetadata)
    (c : TransactionCoordinator)
    → ((m : TransactionMetadata) → r ≡ ok m → lookup p c.txns ≡ some m)
    → All IsTidy c.txns
    → All IsTidy (add_to now p ps r c).0.txns
unfolding add_to
add_to-IsTidy now p ps (err x) c f h = h
add_to-IsTidy now p ps (ok m) c f h =
    let (id, sorted) = lookup-IsTidy p m c.txns h (f m refl) in
    elim (Bool-cases (is_ongoing m.state)) [
      | inl busy ↦
          rw busy (store-IsTidy p _ c.txns (id, insert_each-IsSorted ps m.partitions sorted) h)
      | inr idle ↦ rw idle h
    ]

decide_on-IsTidy :
    (d : ControlRecordType) (now p : ℕ) (r : Expected TransactionMetadata)
    (c : TransactionCoordinator)
    → ((m : TransactionMetadata) → r ≡ ok m → lookup p c.txns ≡ some m)
    → All IsTidy c.txns
    → All IsTidy (decide_on d now p r c).0.txns
unfolding decide_on prepare_at
decide_on-IsTidy d now p (err x) c f h = h
decide_on-IsTidy d now p (ok m) c f h = elim (Bool-cases (is_ongoing m.state)) [
  | inl busy ↦ rw busy (
      store-IsTidy p (enter_prepare c.coordinator_epoch d now m).0 c.txns
        (same-IsTidy p m (enter_prepare c.coordinator_epoch d now m).0
          (enter_prepare_tidy c.coordinator_epoch now d m) (lookup-IsTidy p m c.txns h (f m refl)))
        h)
  | inr idle ↦ rw idle h
]

acknowledge_tidy :
    (epoch : ℕ) (t : TopicPartition) (m : TransactionMetadata) → SameTidy m (acknowledge epoch t m)
unfolding acknowledge erased
acknowledge_tidy epoch t m = ground arith

acknowledge_found-IsTidy :
    (p epoch : ℕ) (t : TopicPartition) (o : Option TransactionMetadata) (c : TransactionCoordinator)
    → lookup p c.txns ≡ o
    → All IsTidy c.txns
    → All IsTidy (acknowledge_found p epoch t o c).txns
unfolding acknowledge_found
acknowledge_found-IsTidy p epoch t none c e h = h
acknowledge_found-IsTidy p epoch t (some m) c e h =
    store-IsTidy p (acknowledge epoch t m) c.txns
      (same-IsTidy p m (acknowledge epoch t m) (acknowledge_tidy epoch t m)
        (lookup-IsTidy p m c.txns h e))
      h

expire_one_tidy :
    (epoch timeout now : ℕ) (m : TransactionMetadata)
    → SameTidy m (expire_one epoch timeout now m).0
unfolding expire_one
expire_one_tidy epoch timeout now m =
    let t = enter_prepare_tidy epoch now abort m in
    elim (Bool-cases (is_ongoing m.state && ltb timeout (now - m.last_update))) [
      | inl late ↦ rw late t
      | inr early ↦ rw early (refl, refl)
    ]

expire-IsTidy :
    (epoch timeout now : ℕ) (t : Table TransactionMetadata)
    → All IsTidy t
    → All IsTidy (expire epoch timeout now t).0
unfolding expire
expire-IsTidy epoch timeout now [] h = tt
expire-IsTidy epoch timeout now ((p, m) ∷ t) (h, hs) = (
  same-IsTidy p m (expire_one epoch timeout now m).0 (expire_one_tidy epoch timeout now m) h,
  expire-IsTidy epoch timeout now t hs,
)

resume_one_tidy : (epoch : ℕ) (m : TransactionMetadata) → SameTidy m (resume_one epoch m).0
unfolding resume_one
resume_one_tidy epoch m = ground arith

resume-IsTidy :
    (epoch : ℕ) (t : Table TransactionMetadata) → All IsTidy t → All IsTidy (resume epoch t).0
unfolding resume
resume-IsTidy epoch [] h = tt
resume-IsTidy epoch ((p, m) ∷ t) (h, hs) =
    (same-IsTidy p m (resume_one epoch m).0 (resume_one_tidy epoch m) h, resume-IsTidy epoch t hs)

call-IsTidy :
    (c : TransactionCoordinator) (x : Call) → All IsTidy c.txns → All IsTidy (call c x).txns
unfolding call init_producer_id add_partitions decide on_marker_written tick resume_pending
    take_pending_markers set_coordinator_epoch
call-IsTidy c (inits now id) h = init_found-IsTidy now id (find_identity id c.identities) c h
call-IsTidy c (begins now p epoch) h = begin-IsTidy now p epoch c h
call-IsTidy c (adds now p epoch ps) h =
    add_to-IsTidy now p ps (require p epoch c) c (λ m. require-found p epoch c m) h
call-IsTidy c (decides d now p epoch) h =
    decide_on-IsTidy d now p (require p epoch c) c (λ m. require-found p epoch c m) h
call-IsTidy c (acknowledges p epoch t) h =
    acknowledge_found-IsTidy p epoch t (lookup p c.txns) c refl h
call-IsTidy c (ticks now) h = expire-IsTidy c.coordinator_epoch c.txn_timeout now c.txns h
call-IsTidy c resumes h = resume-IsTidy c.coordinator_epoch c.txns h
call-IsTidy c takes h = h
call-IsTidy c (sets_epoch epoch) h = h

-- Whatever is called, each transaction stands under its producer with its partitions in order.
pub calls-IsTidy :
    (c : TransactionCoordinator) (xs : List Call) → All IsTidy c.txns → All IsTidy (calls c xs).txns
unfolding calls
calls-IsTidy c [] h = h
calls-IsTidy c (x ∷ xs) h = calls-IsTidy (call c x) xs (call-IsTidy c x h)
