-- ===== src/Broker/Coordinator/Decisions/Calls.antt =====
-- What each call leaves of a decision.
use nexus_mq.Base.{
  ℕ, ◌≤◌, ◌≢◌, ◌≡◌, refl, sym, ap, subst, ◌∙◌, ◌⊎◌, inl, inr, List, false, not, ◌&&◌, Option, none,
  some, Expected, ok, err, ltb, ◌==◌, arith, Bool-cases,
}
use nexus_mq.Base.Map.{find}
use nexus_mq.Wire.Bytes.{Bytes}
use nexus_mq.Broker.Transactions.{ControlRecordType}
use nexus_mq.Broker.Coordinator.Partitions.{TopicPartition}
use nexus_mq.Broker.Coordinator.Keyed.{lookup}
use nexus_mq.Broker.Coordinator.{
  TransactionMetadata, ProducerIdentity, TransactionCoordinator, find_identity, abort_open,
  max_epoch, set_identity, fresh_identity, init_found, init_producer_id, abort_found, prepare_at,
  is_ongoing, is_complete, prepare_state_of, complete_state_of,
}
use nexus_mq.Broker.Coordinator.Operations.{
  add_to, decide_on, acknowledge_found, begin, require, add_partitions, decide, acknowledge,
  on_marker_written, tick, resume_pending, take_pending_markers, set_coordinator_epoch, Call, inits,
  begins, adds, decides, acknowledges, ticks, resumes, takes, sets_epoch, call, is_busy,
}
use nexus_mq.Broker.Coordinator.Decisions.{
  some_inj, Stands, Kept, prepared_facts, same-Kept, store-Kept, acknowledge-Stands, expire-Kept,
  resume-Kept, not_ongoing, require-found,
}

abort_found-Kept :
    (d : ControlRecordType) (low : ℕ) (p q now : ℕ) (m : TransactionMetadata)
    (o : Option TransactionMetadata) (c : TransactionCoordinator)
    → lookup q c.txns ≡ o
    → lookup p c.txns ≡ some m
    → m.state ≡ prepare_state_of d
    → Kept d low p m (abort_found now q o c).txns
unfolding abort_found prepare_at
abort_found-Kept d low p q now m none c f e s = same-Kept d low p m c.txns e s
abort_found-Kept d low p q now m (some v) c f e s = elim (Bool-cases (is_ongoing v.state)) [
  | inl busy ↦ rw busy (not_ongoing d low p q m v _ c.txns e f s busy)
  | inr idle ↦ rw idle (same-Kept d low p m c.txns e s)
]

init_found-Kept :
    (d : ControlRecordType) (low : ℕ) (p now : ℕ) (id : Bytes) (m : TransactionMetadata)
    (o : Option ProducerIdentity) (c : TransactionCoordinator)
    → lookup p c.txns ≡ some m
    → m.state ≡ prepare_state_of d
    → Kept d low p m (init_found now id o c).0.txns
unfolding init_found fresh_identity set_identity abort_open
init_found-Kept d low p now id m none c e s = same-Kept d low p m c.txns e s
init_found-Kept d low p now id m (some v) c e s =
    let aborted =
      abort_found-Kept d low p v.producer_id now m (lookup v.producer_id c.txns) c refl e s in
    elim (Bool-cases (v.producer_epoch == max_epoch)) [
      | inl used ↦ rw used aborted
      | inr room ↦ rw room aborted
    ]

add_to-Kept :
    (d : ControlRecordType) (low : ℕ) (p q now : ℕ) (ps : List TopicPartition)
    (m : TransactionMetadata) (r : Expected TransactionMetadata) (c : TransactionCoordinator)
    → ((v : TransactionMetadata) → r ≡ ok v → lookup q c.txns ≡ some v)
    → lookup p c.txns ≡ some m
    → m.state ≡ prepare_state_of d
    → Kept d low p m (add_to now q ps r c).0.txns
unfolding add_to
add_to-Kept d low p q now ps m (err x) c f e s = same-Kept d low p m c.txns e s
add_to-Kept d low p q now ps m (ok v) c f e s = elim (Bool-cases (is_ongoing v.state)) [
  | inl busy ↦ rw busy (not_ongoing d low p q m v _ c.txns e (f v refl) s busy)
  | inr idle ↦ rw idle (same-Kept d low p m c.txns e s)
]

decide_on-Kept :
    (d k : ControlRecordType) (low : ℕ) (p q now : ℕ) (m : TransactionMetadata)
    (r : Expected TransactionMetadata) (c : TransactionCoordinator)
    → ((v : TransactionMetadata) → r ≡ ok v → lookup q c.txns ≡ some v)
    → lookup p c.txns ≡ some m
    → m.state ≡ prepare_state_of d
    → Kept d low p m (decide_on k now q r c).0.txns
unfolding decide_on prepare_at
decide_on-Kept d k low p q now m (err x) c f e s = same-Kept d low p m c.txns e s
decide_on-Kept d k low p q now m (ok v) c f e s = elim (Bool-cases (is_ongoing v.state)) [
  | inl busy ↦ rw busy (not_ongoing d low p q m v _ c.txns e (f v refl) s busy)
  | inr idle ↦ rw idle (same-Kept d low p m c.txns e s)
]

acknowledge_found-Kept :
    (d : ControlRecordType) (low : ℕ) (p q epoch : ℕ) (t : TopicPartition) (m : TransactionMetadata)
    (o : Option TransactionMetadata) (c : TransactionCoordinator)
    → lookup q c.txns ≡ o
    → lookup p c.txns ≡ some m
    → m.state ≡ prepare_state_of d
    → Kept d low p m (acknowledge_found q epoch t o c).txns
unfolding acknowledge_found
acknowledge_found-Kept d low p q epoch t m none c f e s = same-Kept d low p m c.txns e s
acknowledge_found-Kept d low p q epoch t m (some v) c f e s =
    store-Kept d low p q m (acknowledge epoch t v) c.txns e s λ same.
      let found : m ≡ v = some_inj (sym e ∙ ap (λ i. lookup i c.txns) (sym same) ∙ f) in
      subst (λ w. Stands d low m (acknowledge epoch t w)) found
        (acknowledge-Stands d low epoch t m s)

begin-Kept :
    (d : ControlRecordType) (p now q epoch : ℕ) (m : TransactionMetadata)
    (c : TransactionCoordinator)
    → lookup p c.txns ≡ some m
    → m.state ≡ prepare_state_of d
    → Kept d (find p c.current_epoch) p m (begin now q epoch c).0.txns
unfolding begin is_busy
begin-Kept d p now q epoch m c e s = elim (Bool-cases (ltb epoch (find q c.current_epoch))) [
  | inl late ↦ rw late (same-Kept d (find p c.current_epoch) p m c.txns e s)
  | inr current ↦ elim (Bool-cases (is_busy epoch (lookup q c.txns))) [
    | inl busy ↦ rw (current, busy) (same-Kept d (find p c.current_epoch) p m c.txns e s)
    | inr free ↦
        let (idle, prepared, over, decided) = prepared_facts d m.state s in
        rw (current, free)
          (store-Kept d (find p c.current_epoch) p q m _ c.txns e s λ same.
            let open_now : (epoch == m.producer_epoch) && not (is_complete m.state) ≡ false =
              sym (ap (is_busy epoch) (ap (λ i. lookup i c.txns) same ∙ e)) ∙ free in
            let level : find q c.current_epoch ≡ find p c.current_epoch =
              ap (λ i. find i c.current_epoch) same in
            inr (λ h. ground (arith, h, open_now, over), ground (arith, current, level)))
  ]
]

-- Whatever is called, a producer's transaction whose decision is taken keeps it: it stays prepared to
-- commit or to abort, or is complete with that very outcome, until a transaction of another epoch,
-- which is not below the producer's current one, takes its place.
pub call-keeps_decision :
    (d : ControlRecordType) (p : ℕ) (x : Call) (m : TransactionMetadata)
    (c : TransactionCoordinator)
    → lookup p c.txns ≡ some m
    → m.state ≡ prepare_state_of d
    → (n : TransactionMetadata) × (lookup p (call c x).txns ≡ some n)
      × (((n.producer_epoch ≡ m.producer_epoch)
            × ((n.state ≡ prepare_state_of d) ⊎ (n.state ≡ complete_state_of d)))
          ⊎ ((n.producer_epoch ≢ m.producer_epoch) × (find p c.current_epoch ≤ n.producer_epoch)))
unfolding call init_producer_id add_partitions decide on_marker_written tick resume_pending
    take_pending_markers set_coordinator_epoch
call-keeps_decision d p (inits now id) m c e s =
    init_found-Kept d (find p c.current_epoch) p now id m (find_identity id c.identities) c e s
call-keeps_decision d p (begins now q epoch) m c e s = begin-Kept d p now q epoch m c e s
call-keeps_decision d p (adds now q epoch ps) m c e s =
    add_to-Kept d (find p c.current_epoch) p q now ps m (require q epoch c) c
      (λ v. require-found q epoch c v) e s
call-keeps_decision d p (decides k now q epoch) m c e s =
    decide_on-Kept d k (find p c.current_epoch) p q now m (require q epoch c) c
      (λ v. require-found q epoch c v) e s
call-keeps_decision d p (acknowledges q epoch t) m c e s =
    acknowledge_found-Kept d (find p c.current_epoch) p q epoch t m (lookup q c.txns) c refl e s
call-keeps_decision d p (ticks now) m c e s =
    expire-Kept d (find p c.current_epoch) p c.coordinator_epoch c.txn_timeout now m c.txns e s
call-keeps_decision d p resumes m c e s =
    resume-Kept d (find p c.current_epoch) p c.coordinator_epoch m c.txns e s
call-keeps_decision d p takes m c e s = same-Kept d (find p c.current_epoch) p m c.txns e s
call-keeps_decision d p (sets_epoch epoch) m c e s =
    same-Kept d (find p c.current_epoch) p m c.txns e s
