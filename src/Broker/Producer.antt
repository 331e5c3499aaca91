-- ===== src/Broker/Producer.antt =====
-- broker/producer_session.hpp and the idempotent path of broker/partition.cpp. A sequence is an i32 as
-- its 32 bits, so -1 is `2 ^ 32 - 1`; a count of records is not negative. Epochs and offsets are
-- numbers that do not reach the end of their width, and the offset -1 is `none`.
pub mod Sequences
use nexus_mq.Base.{
  ◌<◌, ◌%◌, ◌^◌, ◌++◌, refl, append_assoc, append-nil, ℕ, ◌+◌, ◌-◌, ◌≤◌, ◌≡◌, sym, ap, subst, ◌∙◌,
  List, [], ◌∷◌, All, ◌⊎◌, inl, inr, arith, ltb, leb, ◌==◌, if◌then◌else◌, Option, none, some,
  Expected, ok, err, ErrorCode,
}

pub data SeqCheck : Type 0 where
  accept duplicate gap fenced : SeqCheck

pub record ProducerSession : Type 0 where
  pub producer_id : ℕ
  pub epoch : ℕ
  pub last_sequence : ℕ
  pub last_base_sequence : Option ℕ
  pub last_base_offset : Option ℕ

unfoldable pub open_session : ℕ → ℕ → ProducerSession
open_session producer_id epoch = record {
  producer_id = producer_id;
  epoch = epoch;
  last_sequence = 2 ^ 32 - 1;
  last_base_sequence = none;
  last_base_offset = none;
}

-- The value of an i32, moved up by `2 ^ 31`: the order of these is the order of the values.
unfoldable pub lifted : ℕ → ℕ
lifted bits = (bits + 2 ^ 31) % 2 ^ 32

-- The classification of the batch `[base_seq, base_seq + count)`; it changes nothing.
unfoldable pub check : ℕ → ℕ → ℕ → ProducerSession → SeqCheck
unfolding lifted
check epoch base_seq count s =
    let expected = lifted s.last_sequence + 1 in
    let base = lifted base_seq in
    if ltb epoch s.epoch
    then fenced
    else if ltb s.epoch epoch
    then if base_seq == 0 then accept else gap
    else if base == expected
    then accept
    else if ltb expected base
    then gap
    else if leb (base + count) expected
    then duplicate
    else gap

-- `base_seq + count - 1` in 32 bits.
unfoldable pub accept_batch : ℕ → ℕ → ℕ → ℕ → ProducerSession → ProducerSession
accept_batch epoch base_seq count base_offset s = record s {
  epoch = epoch;
  last_sequence = (base_seq + count + (2 ^ 32 - 1)) % 2 ^ 32;
  last_base_sequence = some base_seq;
  last_base_offset = some base_offset;
}

unfoldable pub duplicate_base_offset : ℕ → ProducerSession → Option ℕ
duplicate_base_offset base_seq s = elim s.last_base_sequence [
  | none ↦ none
  | some last ↦ if base_seq == last then s.last_base_offset else none
]

-- What the broker reads of a batch's header, and the log that it appends to, whose append answers
-- with the last offset that it gave out.
pub record Batch : Type 0 where
  pub producer_epoch : ℕ
  pub base_sequence : ℕ
  pub record_count : ℕ

pub record BatchLog : Type 1 where
  pub State : Type 0
  pub append : Batch → State → State × Expected ℕ
  pub log_end_offset : State → ℕ

-- One idempotent producer of the partition, and the partition's log.
pub record Partition (L : BatchLog) : Type 0 where
  pub session : ProducerSession
  pub log : L.State

module _ {L : BatchLog} where
  open L use {State, append, log_end_offset}

  -- The answer to a duplicate: the offset that its last record was given, if that is known.
  unfoldable pub duplicate_offset : Batch → Partition L → ℕ
  unfolding duplicate_base_offset
  duplicate_offset batch p = elim (duplicate_base_offset batch.base_sequence p.session) [
    | some base ↦ base + batch.record_count - 1
    | none ↦ log_end_offset p.log - 1
  ]

  unfoldable pub append_accepted : Batch → Partition L → Partition L × Expected ℕ
  unfolding accept_batch
  append_accepted batch p =
      let (log', appended) = append batch p.log in
      elim appended [
        | err x ↦ (record p { log = log' }, err x)
        | ok last ↦ (
          record {
            session =
                accept_batch batch.producer_epoch batch.base_sequence batch.record_count
                  (last + 1 - batch.record_count) p.session;
            log = log';
          },
          ok last,
        )
      ]

  unfoldable pub check_batch : Batch → Partition L → SeqCheck
  unfolding check
  check_batch batch p = check batch.producer_epoch batch.base_sequence batch.record_count p.session

  unfoldable pub produce : Batch → Partition L → Partition L × Expected ℕ
  unfolding check_batch duplicate_offset append_accepted
  produce batch p = elim (check_batch batch p) [
    | fenced ↦ (p, err ErrorCode.fenced)
    | duplicate ↦ (p, ok (duplicate_offset batch p))
    | gap ↦ (p, err ErrorCode.out_of_range)
    | accept ↦ append_accepted batch p
  ]
