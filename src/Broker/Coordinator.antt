-- ===== src/Broker/Coordinator.antt =====
-- broker/transaction_coordinator.cpp: two-phase commit of the transactions, as a machine without input
-- and output. Ids, epochs and times are numbers. The order in which the source walks an
-- `unordered_map` is the order of the list here.
pub mod Operations
pub mod Partitions
pub mod Keyed
pub mod Fencing
pub mod Decisions
pub mod Tidy
pub mod Completion
use nexus_mq.Base.{
  ℕ, ◌+◌, ◌-◌, ◌≡◌, List, [], ◌∷◌, ◌++◌, Bool, true, false, not, ◌&&◌, ◌||◌, Option, none, some,
  Expected, ok, err, ErrorCode, ltb, ◌==◌, max, if◌then◌else◌,
}
use nexus_mq.Base.Map.{Map, find, assign}
use nexus_mq.Wire.Bytes.{Bytes}
use nexus_mq.Broker.Transactions.{ControlRecordType, abort, commit}
use nexus_mq.Broker.Coordinator.Partitions.{
  TopicPartition, same_bytes, insert_partition, erase_partition, insert_each,
}
use nexus_mq.Broker.Coordinator.Keyed.{Table, lookup, store}

pub data TransactionState : Type 0 where
  ongoing prepare_commit prepare_abort complete_commit complete_abort : TransactionState

pub record TransactionMetadata : Type 0 where
  pub producer_id : ℕ
  pub producer_epoch : ℕ
  pub state : TransactionState
  pub partitions : List TopicPartition
  pub unacked_partitions : List TopicPartition
  pub coordinator_epoch : ℕ
  pub last_update : ℕ

pub record MarkerWrite : Type 0 where
  pub producer_id : ℕ
  pub producer_epoch : ℕ
  pub coordinator_epoch : ℕ
  pub decision : ControlRecordType
  pub partition : TopicPartition

pub record ProducerIdentity : Type 0 where
  pub producer_id : ℕ
  pub producer_epoch : ℕ

-- An epoch that is missing in `current_epoch` reads as 0, which fences nobody.
pub record TransactionCoordinator : Type 0 where
  pub coordinator_epoch : ℕ
  pub txn_timeout : ℕ
  pub next_producer_id : ℕ
  pub identities : List (Bytes × ProducerIdentity)
  pub current_epoch : Map
  pub txns : Table TransactionMetadata
  pub pending_markers : List MarkerWrite

unfoldable pub prepare_state_of : ControlRecordType → TransactionState
prepare_state_of commit = prepare_commit
prepare_state_of abort = prepare_abort

unfoldable pub complete_state_of : ControlRecordType → TransactionState
complete_state_of commit = complete_commit
complete_state_of abort = complete_abort

unfoldable pub is_prepared : TransactionState → Bool
is_prepared prepare_commit = true
is_prepared prepare_abort = true
is_prepared _ = false

unfoldable pub is_ongoing : TransactionState → Bool
is_ongoing ongoing = true
is_ongoing _ = false

unfoldable pub is_complete : TransactionState → Bool
is_complete complete_commit = true
is_complete complete_abort = true
is_complete _ = false

unfoldable pub decision_of : TransactionState → ControlRecordType
decision_of prepare_commit = commit
decision_of _ = abort

unfoldable pub is_empty : List TopicPartition → Bool
is_empty [] = true
is_empty (p ∷ ps) = false

-- `enqueue_markers`: the markers for the partitions that are not acknowledged.
unfoldable pub markers_for :
    ℕ → TransactionMetadata → ControlRecordType → List TopicPartition → List MarkerWrite
markers_for epoch txn decision [] = []
markers_for epoch txn decision (p ∷ ps) =
    record {
      producer_id = txn.producer_id;
      producer_epoch = txn.producer_epoch;
      coordinator_epoch = epoch;
      decision = decision;
      partition = p;
    }
    ∷ markers_for epoch txn decision ps

-- `enter_prepare`: the transaction after it, and the markers that it enqueues.
unfoldable pub enter_prepare :
    ℕ → ControlRecordType → ℕ → TransactionMetadata → TransactionMetadata × List MarkerWrite
unfolding is_empty prepare_state_of complete_state_of markers_for
enter_prepare epoch decision now txn =
    let prepared = record txn {
      state = prepare_state_of decision;
      coordinator_epoch = epoch;
      unacked_partitions = txn.partitions;
      last_update = now;
    } in
    if is_empty txn.partitions
    then (record prepared { state = complete_state_of decision }, [])
    else (prepared, markers_for epoch prepared decision txn.partitions)

-- `enter_prepare` on the transaction in its place.
unfoldable pub prepare_at :
    ControlRecordType
    → ℕ
    → ℕ
    → TransactionMetadata
    → TransactionCoordinator
    → TransactionCoordinator
unfolding enter_prepare
prepare_at decision now producer txn c =
    let (txn', markers) = enter_prepare c.coordinator_epoch decision now txn in
    record c { txns = store producer txn' c.txns; pending_markers = c.pending_markers ++ markers }

unfoldable pub find_identity : Bytes → List (Bytes × ProducerIdentity) → Option ProducerIdentity
unfolding same_bytes
find_identity id [] = none
find_identity id ((j, v) ∷ ids) = if same_bytes j id then some v else find_identity id ids

unfoldable pub assign_identity :
    Bytes → ProducerIdentity → List (Bytes × ProducerIdentity) → List (Bytes × ProducerIdentity)
unfolding same_bytes
assign_identity id v [] = (id, v) ∷ []
assign_identity id v ((j, w) ∷ ids) =
    if same_bytes j id then (j, v) ∷ ids else (j, w) ∷ assign_identity id v ids

-- The open transaction of a producer that comes back is aborted.
unfoldable pub abort_found :
    ℕ → ℕ → Option TransactionMetadata → TransactionCoordinator → TransactionCoordinator
unfolding prepare_at is_ongoing
abort_found now producer none c = c
abort_found now producer (some txn) c =
    if is_ongoing txn.state then prepare_at abort now producer txn c else c

unfoldable pub abort_open : ℕ → ℕ → TransactionCoordinator → TransactionCoordinator
unfolding abort_found
abort_open now producer c = abort_found now producer (lookup producer c.txns) c

-- `std::numeric_limits<std::int16_t>::max()`
abbrev pub max_epoch : ℕ
max_epoch = 32_767

-- Gives `id` the identity, whose epoch becomes the current one of its producer.
unfoldable pub set_identity :
    Bytes → ProducerIdentity → TransactionCoordinator → TransactionCoordinator × ProducerIdentity
unfolding assign_identity
set_identity id identity c = (
  record c {
    identities = assign_identity id identity c.identities;
    current_epoch = assign identity.producer_id identity.producer_epoch c.current_epoch;
  },
  identity,
)

unfoldable pub fresh_identity :
    Bytes → TransactionCoordinator → TransactionCoordinator × ProducerIdentity
unfolding set_identity
fresh_identity id c =
    set_identity id (record { producer_id = c.next_producer_id; producer_epoch = 0 })
      (record c { next_producer_id = c.next_producer_id + 1 })

-- `init_producer_id`, for the identity that was found.
unfoldable pub init_found :
    ℕ
    → Bytes
    → Option ProducerIdentity
    → TransactionCoordinator
    → TransactionCoordinator × ProducerIdentity
unfolding abort_open fresh_identity set_identity
init_found now id none c = fresh_identity id c
init_found now id (some identity) c =
    let c' = abort_open now identity.producer_id c in
    if identity.producer_epoch == max_epoch
    then fresh_identity id c'
    else set_identity id (record identity { producer_epoch = identity.producer_epoch + 1 }) c'

unfoldable pub init_producer_id :
    ℕ → Bytes → TransactionCoordinator → TransactionCoordinator × ProducerIdentity
unfolding find_identity init_found
init_producer_id now id c = init_found now id (find_identity id c.identities) c
