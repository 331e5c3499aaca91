-- ===== src/Broker/Coordinator/Decisions.antt =====
-- A decision that was taken stands.
pub mod Calls
use nexus_mq.Base.{
  ℕ, ◌+◌, ◌-◌, ◌≤◌, ◌<◌, ◌≡◌, ◌≢◌, refl, sym, ap, subst, ◌∙◌, ◌⊎◌, inl, inr, List, [], ◌∷◌, Bool,
  true, false, not, ◌&&◌, ◌||◌, Option, none, some, Expected, ok, err, ErrorCode, ltb, ◌==◌,
  ==_self, ==_iff, max, if◌then◌else◌, arith, Bool-cases,
}
use nexus_mq.Base.Map.{Map, find, assign}
use nexus_mq.Wire.Bytes.{Bytes}
use nexus_mq.Broker.Transactions.{ControlRecordType, abort, commit}
use nexus_mq.Broker.Coordinator.Partitions.{TopicPartition, erase_partition}
use nexus_mq.Broker.Coordinator.Keyed.{Table, lookup, store, lookup-store}
use nexus_mq.Broker.Coordinator.{
  TransactionState, ongoing, prepare_commit, prepare_abort, complete_commit, complete_abort,
  TransactionMetadata, ProducerIdentity, TransactionCoordinator, find_identity, abort_open,
  max_epoch, set_identity, fresh_identity, init_found, init_producer_id, abort_found, prepare_at,
  is_ongoing, is_prepared, is_complete, is_empty, prepare_state_of, complete_state_of, decision_of,
}
use nexus_mq.Broker.Coordinator.Operations.{
  add_to, decide_on, acknowledge_found, erased, begin, require, require_epoch, add_partitions,
  decide, acknowledge, on_marker_written, expire_one, expire, tick, resume_one, resume,
  resume_pending, take_pending_markers, set_coordinator_epoch, Call, inits, begins, adds, decides,
  acknowledges, ticks, resumes, takes, sets_epoch, call, is_busy,
}

some_inj : {v w : TransactionMetadata} → some v ≡ some w → v ≡ w
some_inj {v} e = ap (λ o. elim o [ none ↦ v | some x ↦ x ]) e

ok_err :
    {e : ErrorCode} {v : TransactionMetadata}
    → ◌≡◌ {A = Expected TransactionMetadata} (err e) (ok v)
    → ⊥
ok_err h = ground arith

found_ok :
    (epoch : ℕ) (o : Option TransactionMetadata) (v : TransactionMetadata)
    → require_epoch epoch o ≡ ok v
    → o ≡ some v
unfolding require_epoch
found_ok epoch none v h = absurd (ok_err h)
found_ok epoch (some w) v h = ground (arith, h)

-- The transaction is still of its epoch, and its decision is the same; or another epoch has begun,
-- which is not below `low`.
abbrev pub Stands : ControlRecordType → ℕ → TransactionMetadata → TransactionMetadata → Type 0
Stands d low m n =
    ((n.producer_epoch ≡ m.producer_epoch)
      × ((n.state ≡ prepare_state_of d) ⊎ (n.state ≡ complete_state_of d)))
    ⊎ ((n.producer_epoch ≢ m.producer_epoch) × (low ≤ n.producer_epoch))

abbrev Kept : ControlRecordType → ℕ → ℕ → TransactionMetadata → Table TransactionMetadata → Type 0
Kept d low p m t = (n : TransactionMetadata) × (lookup p t ≡ some n) × Stands d low m n

pub prepared_facts :
    (d : ControlRecordType) (s : TransactionState)
    → s ≡ prepare_state_of d
    → (is_ongoing s ≡ false)
      × (is_prepared s ≡ true)
      × (is_complete s ≡ false)
      × (decision_of s ≡ d)
unfolding prepare_state_of is_ongoing is_prepared is_complete decision_of
prepared_facts commit s e = rw e (refl, refl, refl, refl)
prepared_facts abort s e = rw e (refl, refl, refl, refl)

-- Nothing happened to the transaction.
same-Kept :
    (d : ControlRecordType) (low : ℕ) (p : ℕ) (m : TransactionMetadata)
    (t : Table TransactionMetadata)
    → lookup p t ≡ some m
    → m.state ≡ prepare_state_of d
    → Kept d low p m t
same-Kept d low p m t e s = (m, e, inl (refl, inl s))

-- A store at another key, or of a transaction in which the decision stands.
store-Kept :
    (d : ControlRecordType) (low : ℕ) (p q : ℕ) (m v : TransactionMetadata)
    (t : Table TransactionMetadata)
    → lookup p t ≡ some m
    → m.state ≡ prepare_state_of d
    → (q ≡ p → Stands d low m v)
    → Kept d low p m (store q v t)
store-Kept d low p q m v t e s stands = elim (Bool-cases (q == p)) [
  | inl same ↦ (
    v,
    lookup-store q p v t ∙ ap (λ b. if b then some v else lookup p t) same,
    stands ((==_iff q p).0 same),
  )
  | inr other ↦ (
    m,
    lookup-store q p v t ∙ ap (λ b. if b then some v else lookup p t) other ∙ e,
    inl (refl, inl s),
  )
]

erased-Stands :
    (d : ControlRecordType) (low : ℕ) (left : Option (List TopicPartition))
    (m : TransactionMetadata)
    → m.state ≡ prepare_state_of d
    → Stands d low m (erased left m)
unfolding erased
erased-Stands d low none m s = inl (refl, inl s)
erased-Stands d low (some left) m s =
    let (busy, prepared, over, decided) = prepared_facts d m.state s in
    elim (Bool-cases (is_empty left)) [
      | inl last ↦ inl (refl, inr (rw (last, decided) refl))
      | inr more ↦ inl (refl, inl (rw more s))
    ]

Stands-if :
    (d : ControlRecordType) (low : ℕ) (b : Bool) (m x y : TransactionMetadata)
    → Stands d low m x
    → Stands d low m y
    → Stands d low m (if b then x else y)
Stands-if d low true m x y p q = p
Stands-if d low false m x y p q = q

acknowledge-Stands :
    (d : ControlRecordType) (low : ℕ) (epoch : ℕ) (partition : TopicPartition)
    (m : TransactionMetadata)
    → m.state ≡ prepare_state_of d
    → Stands d low m (acknowledge epoch partition m)
unfolding acknowledge
acknowledge-Stands d low epoch partition m s =
    Stands-if d low (not (epoch == m.producer_epoch) || not (is_prepared m.state)) m m
      (erased (erase_partition partition m.unacked_partitions) m) (inl (refl, inl s))
      (erased-Stands d low (erase_partition partition m.unacked_partitions) m s)

expire_one-Stands :
    (d : ControlRecordType) (low : ℕ) (epoch timeout now : ℕ) (m : TransactionMetadata)
    → m.state ≡ prepare_state_of d
    → Stands d low m (expire_one epoch timeout now m).0
unfolding expire_one
expire_one-Stands d low epoch timeout now m s =
    let (busy, prepared, over, decided) = prepared_facts d m.state s in rw busy (inl (refl, inl s))

expire-Kept :
    (d : ControlRecordType) (low : ℕ) (p epoch timeout now : ℕ) (m : TransactionMetadata)
    (t : Table TransactionMetadata)
    → lookup p t ≡ some m
    → m.state ≡ prepare_state_of d
    → Kept d low p m (expire epoch timeout now t).0
unfolding expire lookup
expire-Kept d low p epoch timeout now m [] e s = same-Kept d low p m [] e s
expire-Kept d low p epoch timeout now m ((q, v) ∷ t) e s = elim (Bool-cases (q == p)) [
  | inl same ↦
      let found : v ≡ m = some_inj (ap (λ b. if b then some v else lookup p t) (sym same) ∙ e) in
      (
        (expire_one epoch timeout now v).0,
        rw same refl,
        subst (λ w. Stands d low m (expire_one epoch timeout now w).0) (sym found)
            (expire_one-Stands d low epoch timeout now m s),
      )
  | inr other ↦ rw other (
      expire-Kept d low p epoch timeout now m t
        (ap (λ b. if b then some v else lookup p t) (sym other) ∙ e) s)
]

resume_one-Stands :
    (d : ControlRecordType) (low : ℕ) (epoch : ℕ) (m : TransactionMetadata)
    → m.state ≡ prepare_state_of d
    → Stands d low m (resume_one epoch m).0
unfolding resume_one
resume_one-Stands d low epoch m s =
    let (busy, prepared, over, decided) = prepared_facts d m.state s in
    rw prepared (inl (refl, inl s))

resume-Kept :
    (d : ControlRecordType) (low : ℕ) (p epoch : ℕ) (m : TransactionMetadata)
    (t : Table TransactionMetadata)
    → lookup p t ≡ some m
    → m.state ≡ prepare_state_of d
    → Kept d low p m (resume epoch t).0
unfolding resume lookup
resume-Kept d low p epoch m [] e s = same-Kept d low p m [] e s
resume-Kept d low p epoch m ((q, v) ∷ t) e s = elim (Bool-cases (q == p)) [
  | inl same ↦
      let found : v ≡ m = some_inj (ap (λ b. if b then some v else lookup p t) (sym same) ∙ e) in
      (
        (resume_one epoch v).0,
        rw same refl,
        subst (λ w. Stands d low m (resume_one epoch w).0) (sym found)
            (resume_one-Stands d low epoch m s),
      )
  | inr other ↦
      rw other (
        resume-Kept d low p epoch m t (ap (λ b. if b then some v else lookup p t) (sym other) ∙ e)
          s)
]

-- An ongoing transaction that is stored anew is not the decided one.
not_ongoing :
    (d : ControlRecordType) (low : ℕ) (p q : ℕ) (m v w : TransactionMetadata)
    (t : Table TransactionMetadata)
    → lookup p t ≡ some m
    → lookup q t ≡ some v
    → m.state ≡ prepare_state_of d
    → is_ongoing v.state ≡ true
    → Kept d low p m (store q w t)
not_ongoing d low p q m v w t e f s busy =
    let (idle, prepared, over, decided) = prepared_facts d m.state s in
    store-Kept d low p q m w t e s λ same.
      let found : v ≡ m = some_inj (sym f ∙ ap (λ i. lookup i t) same ∙ e) in
      absurd (ground (arith, idle, busy, ap (λ x. is_ongoing x.state) found))

pub require-found :
    (p epoch : ℕ) (c : TransactionCoordinator) (v : TransactionMetadata)
    → require p epoch c ≡ ok v
    → lookup p c.txns ≡ some v
unfolding require
require-found p epoch c v h = elim (Bool-cases (ltb epoch (find p c.current_epoch))) [
  | inl late ↦ absurd (
      ok_err (
        sym
          (ap (λ b. if b then err ErrorCode.fenced else require_epoch epoch (lookup p c.txns)) late)
        ∙ h))
  | inr current ↦ found_ok epoch (lookup p c.txns) v (
      sym (
        ap (λ b. if b then err ErrorCode.fenced else require_epoch epoch (lookup p c.txns)) current)
      ∙ h)
]
