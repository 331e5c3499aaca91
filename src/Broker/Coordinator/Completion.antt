-- ===== src/Broker/Coordinator/Completion.antt =====
-- A transaction that was decided is completed by the acknowledgements of its markers.
use nexus_mq.Base.{
  subst, ℕ, ◌≤◌, ◌≡◌, ◌≢◌, ◌⊎◌, inl, inr, All, ◌==◌, refl, sym, ap, ◌∙◌, List, [], ◌∷◌, ◌++◌, true,
  false, some, ok, ltb, ==_self, if◌then◌else◌, arith,
}
use nexus_mq.Base.Map.{find}
use nexus_mq.Broker.Transactions.{ControlRecordType, commit, abort}
use nexus_mq.Broker.Coordinator.Partitions.{TopicPartition, IsSorted, Left, erase_partition_lem}
use nexus_mq.Broker.Coordinator.Keyed.{Table, lookup, store, lookup-store}
use nexus_mq.Broker.Coordinator.{
  TransactionMetadata, TransactionCoordinator, MarkerWrite, ongoing, prepare_at, enter_prepare,
  markers_for, is_ongoing, is_prepared, is_empty, prepare_state_of, complete_state_of,
}
use nexus_mq.Broker.Coordinator.Operations.{
  require, require_epoch, decide, acknowledge, Call, calls, on_marker_written, erased, decide_on,
  acknowledge_found,
}
use nexus_mq.Broker.Coordinator.Tidy.{IsTidy, calls-IsTidy, lookup-IsTidy}
use nexus_mq.Broker.Coordinator.Decisions.{prepared_facts}

-- The markers of these partitions are acknowledged, in this order.
unfoldable pub acknowledge_each :
    ℕ → ℕ → List TopicPartition → TransactionCoordinator → TransactionCoordinator
acknowledge_each producer epoch [] c = c
acknowledge_each producer epoch (p ∷ ps) c =
    acknowledge_each producer epoch ps (on_marker_written producer epoch p c)

abbrev pub Listed : List TopicPartition → TopicPartition → Type 0
Listed [] p = ⊥
Listed (q ∷ qs) p = (q ≡ p) ⊎ Listed qs p

lookup-store_here :
    (p : ℕ) (v : TransactionMetadata) (t : Table TransactionMetadata)
    → lookup p (store p v t) ≡ some v
lookup-store_here p v t =
    lookup-store p p v t ∙ ap (λ b. if b then some v else lookup p t) (==_self p)

-- The transaction is complete, or the partitions that it waits for are all among `ps`.
abbrev Waits : ControlRecordType → ℕ → List TopicPartition → TransactionMetadata → Type 0
Waits d epoch ps m =
    (m.producer_epoch ≡ epoch)
    × ((m.state ≡ complete_state_of d)
        ⊎ ((m.state ≡ prepare_state_of d)
            × (is_empty m.unacked_partitions ≡ false)
            × IsSorted m.unacked_partitions
            × All (Listed ps) m.unacked_partitions))

complete_facts : (d : ControlRecordType) → is_prepared (complete_state_of d) ≡ false
unfolding is_prepared complete_state_of
complete_facts commit = refl
complete_facts abort = refl

-- The partitions but the one that is acknowledged are among the others.
Listed-rest :
    (p : TopicPartition) (ps qs : List TopicPartition)
    → All (λ (q : TopicPartition). q ≢ p) qs
    → All (Listed (p ∷ ps)) qs
    → All (Listed ps) qs
Listed-rest p ps [] other h = tt
Listed-rest p ps (q ∷ qs) (o, os) (inl e, hs) = absurd (o (sym e))
Listed-rest p ps (q ∷ qs) (o, os) (inr h, hs) = (h, Listed-rest p ps qs os hs)

erased-Waits :
    (d : ControlRecordType) (epoch : ℕ) (p : TopicPartition) (ps : List TopicPartition)
    (m : TransactionMetadata) (left : List TopicPartition)
    → m.producer_epoch ≡ epoch
    → m.state ≡ prepare_state_of d
    → All (Listed (p ∷ ps)) m.unacked_partitions
    → Left p m.unacked_partitions left
    → Waits d epoch ps (erased (some left) m)
unfolding erased is_empty
erased-Waits d epoch p ps m [] same s listed l =
    let (busy, prepared, over, decided) = prepared_facts d m.state s in
    (same, inl (ap complete_state_of decided))
erased-Waits d epoch p ps m (q ∷ qs) same s listed l = (
  same,
  inr (s, refl, l.sorted, Listed-rest p ps (q ∷ qs) l.without (l.part (Listed (p ∷ ps)) listed)),
)

acknowledge-Waits :
    (d : ControlRecordType) (epoch : ℕ) (p : TopicPartition) (ps : List TopicPartition)
    (m : TransactionMetadata)
    → Waits d epoch (p ∷ ps) m
    → Waits d epoch ps (acknowledge epoch p m)
unfolding acknowledge
acknowledge-Waits d epoch p ps m (same, inl over) =
    let at_rest : is_prepared m.state ≡ false = ap is_prepared over ∙ complete_facts d in
    rw (ap (λ e. e == m.producer_epoch) (sym same) ∙ ==_self m.producer_epoch, at_rest)
      (same, inl over)
acknowledge-Waits d epoch p ps m (same, inr (s, some_left, sorted, listed)) =
    let (busy, prepared, over, decided) = prepared_facts d m.state s in
    let mine : (epoch == m.producer_epoch) ≡ true =
      ap (λ e. e == m.producer_epoch) (sym same) ∙ ==_self m.producer_epoch in
    elim (erase_partition_lem p m.unacked_partitions sorted) [
      | inl (missing, others) ↦
          rw (mine, prepared, missing)
            (unfold erased in
              (
                same,
                inr (s, some_left, sorted, Listed-rest p ps m.unacked_partitions others listed),
              ))
      | inr (left, found, l) ↦
          rw (mine, prepared, found) (erased-Waits d epoch p ps m left same s listed l)
    ]

none-Listed : (ps : List TopicPartition) → is_empty ps ≡ false → All (Listed []) ps → ⊥
unfolding is_empty
none-Listed [] h l = ground (arith, h)
none-Listed (p ∷ ps) h (l, ls) = l

-- What the coordinator has of the producer, after the acknowledgements.
acknowledge_each-completes :
    (d : ControlRecordType) (epoch producer : ℕ) (ps : List TopicPartition)
    (m : TransactionMetadata) (c : TransactionCoordinator)
    → lookup producer c.txns ≡ some m
    → Waits d epoch ps m
    → (n : TransactionMetadata) × (lookup producer (acknowledge_each producer epoch ps c).txns
        ≡ some n)
      × (n.state ≡ complete_state_of d)
unfolding acknowledge_each
acknowledge_each-completes d epoch producer [] m c e (same, inl over) = (m, e, over)
acknowledge_each-completes d epoch producer [] m c e (same, inr (s, some_left, sorted, listed)) =
    absurd (none-Listed m.unacked_partitions some_left listed)
acknowledge_each-completes d epoch producer (p ∷ ps) m c e w =
    acknowledge_each-completes d epoch producer ps (acknowledge epoch p m)
      (on_marker_written producer epoch p c)
      (unfold on_marker_written acknowledge_found in
        ap (λ o. lookup producer (acknowledge_found producer epoch p o c).txns) e
        ∙ lookup-store_here producer (acknowledge epoch p m) c.txns)
      (acknowledge-Waits d epoch p ps m w)

require_current :
    (producer : ℕ) (m : TransactionMetadata) (c : TransactionCoordinator)
    → lookup producer c.txns ≡ some m
    → find producer c.current_epoch ≤ m.producer_epoch
    → require producer m.producer_epoch c ≡ ok m
unfolding require require_epoch
require_current producer m c e low =
    let current : ltb m.producer_epoch (find producer c.current_epoch) ≡ false = ground arith in
    let same : ltb m.producer_epoch m.producer_epoch ≡ false = ground arith in
    rw current (ap (require_epoch m.producer_epoch) e ∙ rw same refl)

-- The markers name the partitions in turn, the producer with its epoch, and the decision.
abbrev pub Marks : ControlRecordType → ℕ → ℕ → List TopicPartition → List MarkerWrite → Type 0
Marks d producer epoch [] [] = Unit
Marks d producer epoch [] (w ∷ ws) = ⊥
Marks d producer epoch (p ∷ ps) [] = ⊥
Marks d producer epoch (p ∷ ps) (w ∷ ws) =
    ((w.producer_id ≡ producer) × (w.producer_epoch ≡ epoch) × (w.decision ≡ d) × (w.partition ≡ p))
    × Marks d producer epoch ps ws

markers_for-Marks :
    (epoch : ℕ) (d : ControlRecordType) (m : TransactionMetadata) (ps : List TopicPartition)
    → Marks d m.producer_id m.producer_epoch ps (markers_for epoch m d ps)
unfolding markers_for
markers_for-Marks epoch d m [] = tt
markers_for-Marks epoch d m (p ∷ ps) = ((refl, refl, refl, refl), markers_for-Marks epoch d m ps)

abbrev prepared : ℕ → ControlRecordType → ℕ → TransactionMetadata → TransactionMetadata
prepared epoch d now m = record m {
  state = prepare_state_of d;
  coordinator_epoch = epoch;
  unacked_partitions = m.partitions;
  last_update = now;
}

-- `enter_prepare` marks every partition and waits for all of them.
enter_prepare-Waits :
    (d : ControlRecordType) (epoch now : ℕ) (m : TransactionMetadata)
    (ps acks : List TopicPartition)
    → m.partitions ≡ ps
    → IsSorted ps
    → All (Listed acks) ps
    → Marks d m.producer_id m.producer_epoch ps (enter_prepare epoch d now m).1
      × Waits d m.producer_epoch acks (enter_prepare epoch d now m).0
unfolding enter_prepare is_empty
enter_prepare-Waits d epoch now m [] acks e sorted listed =
    rw (e, enter_prepare) (tt, (refl, inl refl))
enter_prepare-Waits d epoch now m (p ∷ ps) acks e sorted listed =
    rw (e, enter_prepare)
      (
        markers_for-Marks epoch d (prepared epoch d now (record m { partitions = p ∷ ps }))
            (p ∷ ps),
        (refl, inr (refl, refl, sorted, listed)),
      )

-- A coordinator that started without transactions, after any calls: an open transaction that its
-- current producer commits or aborts. The call succeeds, and enqueues a marker for each of its
-- partitions. Once each of those has been acknowledged, in whatever order, repeatedly or not, and
-- between acknowledgements of other partitions, the transaction is complete with that outcome.
pub decide-completes :
    (d : ControlRecordType) (now producer : ℕ) (m : TransactionMetadata)
    (start c : TransactionCoordinator) (xs : List Call) (acks : List TopicPartition)
    → start.txns ≡ []
    → calls start xs ≡ c
    → lookup producer c.txns ≡ some m
    → m.state ≡ ongoing
    → find producer c.current_epoch ≤ m.producer_epoch
    → All (Listed acks) m.partitions
    → let (c', r) = decide d now producer m.producer_epoch c in
      (r ≡ ok tt)
      × ((ws : List MarkerWrite) × (c'.pending_markers ≡ c.pending_markers ++ ws)
          × Marks d producer m.producer_epoch m.partitions ws)
      × (n : TransactionMetadata) × (lookup producer
            (acknowledge_each producer m.producer_epoch acks c').txns
          ≡ some n)
      × (n.state ≡ complete_state_of d)
unfolding decide decide_on prepare_at is_ongoing
decide-completes d now producer m start c xs acks empty run e open_state low listed =
    let tidy : All IsTidy c.txns =
      subst (λ i. All IsTidy i.txns) run
        (calls-IsTidy start xs (subst (All IsTidy) (sym empty) tt)) in
    let (same_id, sorted) = lookup-IsTidy producer m c.txns tidy e in
    let passed : require producer m.producer_epoch c ≡ ok m = require_current producer m c e low in
    let busy : is_ongoing m.state ≡ true = ap is_ongoing open_state in
    let r : TransactionMetadata × List MarkerWrite = enter_prepare c.coordinator_epoch d now m in
    let (marked, waits) =
      enter_prepare-Waits d c.coordinator_epoch now m m.partitions acks refl sorted listed in
    let (n, found, over) =
      acknowledge_each-completes d m.producer_epoch producer acks r.0
        (record c { txns = store producer r.0 c.txns; pending_markers = c.pending_markers ++ r.1 })
        (lookup-store_here producer r.0 c.txns) waits in
    let marked_here : Marks d producer m.producer_epoch m.partitions r.1 =
      subst (λ i. Marks d i m.producer_epoch m.partitions r.1) same_id marked in
    rw (passed, busy) (refl, (r.1, refl, marked_here), n, found, over)
