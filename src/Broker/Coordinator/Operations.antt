-- ===== src/Broker/Coordinator/Operations.antt =====
-- broker/transaction_coordinator.cpp: the calls of the coordinator.
use nexus_mq.Base.{
  ℕ, ◌-◌, List, [], ◌∷◌, ◌++◌, Bool, false, not, ◌&&◌, ◌||◌, Option, none, some, Expected, ok, err,
  ErrorCode, ltb, ◌==◌, max, if◌then◌else◌,
}
use nexus_mq.Base.Map.{find, assign}
use nexus_mq.Wire.Bytes.{Bytes}
use nexus_mq.Broker.Transactions.{ControlRecordType, abort}
use nexus_mq.Broker.Coordinator.Partitions.{TopicPartition, erase_partition, insert_each}
use nexus_mq.Broker.Coordinator.Keyed.{Table, lookup, store}
use nexus_mq.Broker.Coordinator.{
  TransactionMetadata, MarkerWrite, TransactionCoordinator, complete_state_of, is_prepared,
  is_ongoing, is_complete, decision_of, is_empty, markers_for, enter_prepare, prepare_at,
  init_producer_id, ongoing,
}

-- Is there a transaction of that very epoch that is not over?
unfoldable pub is_busy : ℕ → Option TransactionMetadata → Bool
unfolding is_complete
is_busy epoch none = false
is_busy epoch (some cur) = (epoch == cur.producer_epoch) && not (is_complete cur.state)

unfoldable pub begin :
    ℕ → ℕ → ℕ → TransactionCoordinator → TransactionCoordinator × Expected (Unit {0})
unfolding is_busy
begin now producer epoch c =
    if ltb epoch (find producer c.current_epoch)
    then (c, err ErrorCode.fenced)
    else if is_busy epoch (lookup producer c.txns)
    then (c, err ErrorCode.invalid_argument)
    else (
      record c {
        current_epoch = assign producer (max (find producer c.current_epoch) epoch) c.current_epoch;
        txns =
            store producer
              (record {
                producer_id = producer;
                producer_epoch = epoch;
                state = ongoing;
                partitions = [];
                unacked_partitions = [];
                coordinator_epoch = c.coordinator_epoch;
                last_update = now;
              })
              c.txns;
      },
      ok tt,
    )

unfoldable pub require_epoch : ℕ → Option TransactionMetadata → Expected TransactionMetadata
require_epoch epoch none = err ErrorCode.not_found
require_epoch epoch (some txn) =
    if ltb epoch txn.producer_epoch
    then err ErrorCode.fenced
    else if ltb txn.producer_epoch epoch
    then err ErrorCode.invalid_argument
    else ok txn

unfoldable pub require : ℕ → ℕ → TransactionCoordinator → Expected TransactionMetadata
unfolding require_epoch
require producer epoch c =
    if ltb epoch (find producer c.current_epoch)
    then err ErrorCode.fenced
    else require_epoch epoch (lookup producer c.txns)

-- `add_partitions`, for what `require` returned.
unfoldable pub add_to :
    ℕ
    → ℕ
    → List TopicPartition
    → Expected TransactionMetadata
    → TransactionCoordinator
    → TransactionCoordinator × Expected (Unit {0})
unfolding insert_each is_ongoing
add_to now producer partitions (err e) c = (c, err e)
add_to now producer partitions (ok txn) c =
    if is_ongoing txn.state
    then (
      record c {
        txns =
            store producer
              (record txn { partitions = insert_each partitions txn.partitions; last_update = now })
              c.txns;
      },
      ok tt,
    )
    else (c, err ErrorCode.invalid_argument)

unfoldable pub add_partitions :
    ℕ
    → ℕ
    → ℕ
    → List TopicPartition
    → TransactionCoordinator
    → TransactionCoordinator × Expected (Unit {0})
unfolding require add_to
add_partitions now producer epoch partitions c =
    add_to now producer partitions (require producer epoch c) c

-- `commit` and `abort`, which differ in the decision alone, for what `require` returned.
unfoldable pub decide_on :
    ControlRecordType
    → ℕ
    → ℕ
    → Expected TransactionMetadata
    → TransactionCoordinator
    → TransactionCoordinator × Expected (Unit {0})
unfolding prepare_at is_ongoing
decide_on decision now producer (err e) c = (c, err e)
decide_on decision now producer (ok txn) c =
    if is_ongoing txn.state
    then (prepare_at decision now producer txn c, ok tt)
    else (c, err ErrorCode.invalid_argument)

unfoldable pub decide :
    ControlRecordType
    → ℕ
    → ℕ
    → ℕ
    → TransactionCoordinator
    → TransactionCoordinator × Expected (Unit {0})
unfolding require decide_on
decide decision now producer epoch c = decide_on decision now producer (require producer epoch c) c

-- The transaction with what `lower_bound` and `erase` leave.
unfoldable pub erased : Option (List TopicPartition) → TransactionMetadata → TransactionMetadata
unfolding is_empty complete_state_of decision_of
erased none txn = txn
erased (some left) txn = record txn {
  unacked_partitions = left;
  state = if is_empty left then complete_state_of (decision_of txn.state) else txn.state;
}

-- The transaction after the partition is acknowledged.
unfoldable pub acknowledge : ℕ → TopicPartition → TransactionMetadata → TransactionMetadata
unfolding is_prepared erase_partition erased
acknowledge epoch partition txn =
    if not (epoch == txn.producer_epoch) || not (is_prepared txn.state)
    then txn
    else erased (erase_partition partition txn.unacked_partitions) txn

unfoldable pub acknowledge_found :
    ℕ
    → ℕ
    → TopicPartition
    → Option TransactionMetadata
    → TransactionCoordinator
    → TransactionCoordinator
unfolding acknowledge
acknowledge_found producer epoch partition none c = c
acknowledge_found producer epoch partition (some txn) c = record c {
  txns = store producer (acknowledge epoch partition txn) c.txns;
}

unfoldable pub on_marker_written :
    ℕ → ℕ → TopicPartition → TransactionCoordinator → TransactionCoordinator
unfolding acknowledge_found
on_marker_written producer epoch partition c =
    acknowledge_found producer epoch partition (lookup producer c.txns) c

-- One round of the loop of `tick`: the transaction, and the markers that are enqueued.
unfoldable pub expire_one : ℕ → ℕ → ℕ → TransactionMetadata → TransactionMetadata × List MarkerWrite
unfolding enter_prepare is_ongoing
expire_one epoch timeout now txn =
    if is_ongoing txn.state && ltb timeout (now - txn.last_update)
    then enter_prepare epoch abort now txn
    else (txn, [])

unfoldable pub expire :
    ℕ → ℕ → ℕ → Table TransactionMetadata → Table TransactionMetadata × List MarkerWrite
unfolding expire_one
expire epoch timeout now [] = ([], [])
expire epoch timeout now ((producer, txn) ∷ txns) =
    let (txn', markers) = expire_one epoch timeout now txn in
    let (rest, later) = expire epoch timeout now txns in ((producer, txn') ∷ rest, markers ++ later)

unfoldable pub tick : ℕ → TransactionCoordinator → TransactionCoordinator
unfolding expire
tick now c =
    let (txns, markers) = expire c.coordinator_epoch c.txn_timeout now c.txns in
    record c { txns = txns; pending_markers = c.pending_markers ++ markers }

-- One round of the loop of `resume_pending`.
unfoldable pub resume_one : ℕ → TransactionMetadata → TransactionMetadata × List MarkerWrite
unfolding is_prepared decision_of markers_for
resume_one epoch txn =
    if is_prepared txn.state
    then (
      record txn { coordinator_epoch = epoch },
      markers_for epoch txn (decision_of txn.state) txn.unacked_partitions,
    )
    else (txn, [])

unfoldable pub resume : ℕ → Table TransactionMetadata → Table TransactionMetadata × List MarkerWrite
unfolding resume_one
resume epoch [] = ([], [])
resume epoch ((producer, txn) ∷ txns) =
    let (txn', markers) = resume_one epoch txn in
    let (rest, later) = resume epoch txns in ((producer, txn') ∷ rest, markers ++ later)

unfoldable pub resume_pending : TransactionCoordinator → TransactionCoordinator
unfolding resume
resume_pending c =
    let (txns, markers) = resume c.coordinator_epoch c.txns in
    record c { txns = txns; pending_markers = c.pending_markers ++ markers }

unfoldable pub take_pending_markers :
    TransactionCoordinator → TransactionCoordinator × List MarkerWrite
take_pending_markers c = (record c { pending_markers = [] }, c.pending_markers)

unfoldable pub set_coordinator_epoch : ℕ → TransactionCoordinator → TransactionCoordinator
set_coordinator_epoch epoch c = record c { coordinator_epoch = epoch }

-- The calls of the coordinator.
pub data Call : Type 0 where
  inits : ℕ → Bytes → Call
  begins : ℕ → ℕ → ℕ → Call
  adds : ℕ → ℕ → ℕ → List TopicPartition → Call
  decides : ControlRecordType → ℕ → ℕ → ℕ → Call
  acknowledges : ℕ → ℕ → TopicPartition → Call
  ticks : ℕ → Call
  resumes : Call
  takes : Call
  sets_epoch : ℕ → Call

unfoldable pub call : TransactionCoordinator → Call → TransactionCoordinator
unfolding init_producer_id begin add_partitions decide on_marker_written tick resume_pending
    take_pending_markers set_coordinator_epoch
call c (inits now id) = (init_producer_id now id c).0
call c (begins now producer epoch) = (begin now producer epoch c).0
call c (adds now producer epoch partitions) = (add_partitions now producer epoch partitions c).0
call c (decides decision now producer epoch) = (decide decision now producer epoch c).0
call c (acknowledges producer epoch partition) = on_marker_written producer epoch partition c
call c (ticks now) = tick now c
call c resumes = resume_pending c
call c takes = (take_pending_markers c).0
call c (sets_epoch epoch) = set_coordinator_epoch epoch c

unfoldable pub calls : TransactionCoordinator → List Call → TransactionCoordinator
calls c [] = c
calls c (x ∷ xs) = calls (call c x) xs
