-- ===== src/Broker/Tests.antt =====
-- A partition's producers and transactions on concrete batches.
pub mod Commits
pub mod Groups
use nexus_mq.Base.{
  ℕ, ◌+◌, ◌-◌, ◌≤◌, ◌≡◌, refl, sym, ap, List, ◌++◌, [], ◌∷◌, some, All, ◌↔◌, arith, ok,
}
use nexus_mq.Broker.Producer.{
  Batch, BatchLog, Partition, check, check_batch, produce, append_accepted, lifted,
}
use nexus_mq.Broker.Producer.Sequences.{IsLog, produce-produce}
use nexus_mq.Broker.Transactions.{
  abort, commit, PartitionTxnIndex, open_offset, on_data, on_marker, last_stable_offset,
  aborted_transactions, evict_below, last_stable_offset_bounds, aborted_transactions-evict_below,
  on_marker-on_data,
}

-- A log that is the list of its batches, and its end.
abbrev batch_list : BatchLog
batch_list = record {
  State = List Batch × ℕ;
  append = λ b s. ((s.0 ++ b ∷ [], s.1 + b.record_count), ok (s.1 + b.record_count - 1));
  log_end_offset = λ s. s.1;
}

batch_list-IsLog : IsLog batch_list
batch_list-IsLog = record {
  contents = λ s. s.0;
  appended = λ b s t last e. ap (λ w. w.0.0) (sym e);
  refused = λ b s t x e. absurd (ground (arith, ap (λ w. w.1) e));
}

abbrev batch : ℕ → ℕ → Batch
batch base_sequence record_count = record {
  producer_epoch = 1;
  base_sequence = base_sequence;
  record_count = record_count;
}

-- A producer that has stored three records.
abbrev partition : Partition batch_list
partition = record {
  session = record {
    producer_id = 9;
    epoch = 1;
    last_sequence = 2;
    last_base_sequence = some 0;
    last_base_offset = some 40;
  };
  log = ([], 43);
}

produce-produce_example :
    produce (batch 3 2) (produce (batch 3 2) partition).0
    ≡ ((produce (batch 3 2) partition).0, ok 44)
unfolding produce append_accepted check_batch check lifted
produce-produce_example =
    produce-produce (batch 3 2) 44 partition refl refl (omega arith) (omega arith) (omega arith)

abbrev index : PartitionTxnIndex
index = record {
  open_txns = (4, 12) ∷ (5, 30) ∷ [];
  aborted = record { producer_id = 6; first_offset = 2; marker_offset = 9 } ∷ [];
}

last_stable_offset_bounds_example :
    (12 ≤ last_stable_offset 50 index) ↔ ((12 ≤ 50) × All (λ (t : ℕ × ℕ). 12 ≤ t.1) index.open_txns)
last_stable_offset_bounds_example = last_stable_offset_bounds 12 50 index

aborted_transactions-evict_below_example :
    aborted_transactions 8 (evict_below 7 index) ≡ aborted_transactions 8 index
aborted_transactions-evict_below_example = aborted_transactions-evict_below 7 8 index (omega arith)

on_marker-on_data_example :
    (on_marker 6 commit 60 (on_data 6 55 (on_data 6 51 index)) ≡ index)
    × (on_marker 6 abort 60 (on_data 6 55 (on_data 6 51 index)) ≡ record {
      open_txns = (4, 12) ∷ (5, 30) ∷ [];
      aborted =
          record { producer_id = 6; first_offset = 2; marker_offset = 9 }
          ∷ record { producer_id = 6; first_offset = 51; marker_offset = 60 }
          ∷ [];
    })
unfolding open_offset
on_marker-on_data_example = on_marker-on_data 6 51 55 60 index refl
