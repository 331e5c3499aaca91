-- ===== src/Broker/Tests/Commits.antt =====
-- Runs of broker/transaction_coordinator.cpp.
use nexus_mq.Base.{
  inl, inr, ◌≡◌, ◌≢◌, ◌≤◌, ◌⊎◌, refl, List, [], ◌∷◌, ◌++◌, some, ok, err, ErrorCode, arith,
}
use nexus_mq.Base.Map.{find, assign}
use nexus_mq.Broker.Transactions.{commit}
use nexus_mq.Broker.Coordinator.Partitions.{
  TopicPartition, insert_each, insert_partition, same, less, less_bytes, same_bytes,
}
use nexus_mq.Broker.Coordinator.Keyed.{lookup, store}
use nexus_mq.Broker.Coordinator.{
  TransactionState, is_ongoing, ongoing, prepare_commit, complete_state_of, prepare_state_of,
  TransactionMetadata, MarkerWrite, TransactionCoordinator, find_identity, init_producer_id,
}
use nexus_mq.Broker.Coordinator.Operations.{
  Call, adds, add_to, require, require_epoch, is_busy, begin, add_partitions, decide, begins, ticks,
  call, calls,
}
use nexus_mq.Broker.Coordinator.Fencing.{NoInits, is_init, init_producer_id-fences}
use nexus_mq.Broker.Coordinator.Decisions.Calls.{call-keeps_decision}
use nexus_mq.Broker.Coordinator.Completion.{acknowledge_each, Marks, decide-completes}

abbrev orders : TopicPartition
orders = record { topic = 111 ∷ []; partition = 0 }

abbrev payments : TopicPartition
payments = record { topic = 112 ∷ []; partition = 3 }

-- A transaction of producer 4 in epoch 1, on two partitions.
abbrev txn : TransactionState → List TopicPartition → TransactionMetadata
txn state unacked = record {
  producer_id = 4;
  producer_epoch = 1;
  state = state;
  partitions = orders ∷ payments ∷ [];
  unacked_partitions = unacked;
  coordinator_epoch = 0;
  last_update = 10;
}

abbrev coordinator : TransactionMetadata → TransactionCoordinator
coordinator m = record {
  coordinator_epoch = 0;
  txn_timeout = 60;
  next_producer_id = 5;
  identities = (97 ∷ [], record { producer_id = 4; producer_epoch = 1 }) ∷ [];
  current_epoch = (4, 1) ∷ [];
  txns = (4, m) ∷ [];
  pending_markers = [];
}

init_producer_id-fences_example :
    let e =
      calls (init_producer_id 20 (97 ∷ []) (coordinator (txn ongoing []))).0 (ticks 30 ∷ []) in
    (begin 40 4 1 e ≡ (e, err ErrorCode.fenced))
    × (add_partitions 40 4 1 (orders ∷ []) e ≡ (e, err ErrorCode.fenced))
    × (decide commit 40 4 1 e ≡ (e, err ErrorCode.fenced))
unfolding find_identity same_bytes NoInits is_init
init_producer_id-fences_example =
    init_producer_id-fences 20 40 (97 ∷ []) (coordinator (txn ongoing []))
      (record { producer_id = 4; producer_epoch = 1 }) (ticks 30 ∷ []) 1 (orders ∷ []) commit refl
      (λ e. absurd (omega (arith, e))) (refl, tt) (omega arith)

call-keeps_decision_example :
    (n : TransactionMetadata) × (lookup 4
        (call (coordinator (txn prepare_commit (orders ∷ []))) (begins 30 4 1)).txns
      ≡ some n)
    × (((n.producer_epoch ≡ 1)
          × ((n.state ≡ prepare_state_of commit) ⊎ (n.state ≡ complete_state_of commit)))
        ⊎ ((n.producer_epoch ≢ 1) × (1 ≤ n.producer_epoch)))
unfolding lookup prepare_state_of find
call-keeps_decision_example =
    call-keeps_decision commit 4 (begins 30 4 1) (txn prepare_commit (orders ∷ []))
      (coordinator (txn prepare_commit (orders ∷ []))) refl refl

-- How the transaction came about, in a coordinator that had none.
abbrev beginning : TransactionCoordinator
beginning = record (coordinator (txn ongoing [])) { txns = [] }

abbrev history : List Call
history = begins 10 4 1 ∷ adds 10 4 1 (payments ∷ orders ∷ []) ∷ []

decide-completes_example :
    let (c', r) = decide commit 30 4 1 (coordinator (txn ongoing [])) in
    (r ≡ ok tt)
    × ((ws : List MarkerWrite) × (c'.pending_markers ≡ [] ++ ws)
        × Marks commit 4 1 (orders ∷ payments ∷ []) ws)
    × (n : TransactionMetadata) × (lookup 4
          (acknowledge_each 4 1 (payments ∷ payments ∷ orders ∷ []) c').txns
        ≡ some n)
    × (n.state ≡ complete_state_of commit)
unfolding lookup find calls call begin add_partitions add_to require require_epoch is_busy
    is_ongoing insert_each insert_partition less same same_bytes less_bytes store assign
decide-completes_example =
    decide-completes commit 30 4 (txn ongoing []) beginning (coordinator (txn ongoing [])) history
      (payments ∷ payments ∷ orders ∷ []) refl refl refl refl (omega arith)
      (inr (inr (inl refl)), (inl refl, tt))
