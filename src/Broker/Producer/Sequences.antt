-- ===== src/Broker/Producer/Sequences.antt =====
-- The sequences of an idempotent producer: what its log gains, and what a retry gets.
use nexus_mq.Base.{
  ◌<◌, ◌%◌, ◌^◌, ◌++◌, ℕ, ◌+◌, ◌-◌, ◌≤◌, ◌≡◌, sym, subst, List, [], ◌∷◌, ◌⊎◌, arith, ok, err,
  ErrorCode,
}
use nexus_mq.Broker.Producer.{
  accept, ProducerSession, lifted, check, accept_batch, duplicate_base_offset, Batch, BatchLog,
  Partition, duplicate_offset, append_accepted, check_batch, produce,
}

-- A log that keeps what it appends, in order, and nothing of what it refuses.
pub record IsLog (L : BatchLog) : Type 0 where
  pub contents : L.State → List Batch
  pub appended :
      (b : Batch) (s t : L.State) (last : ℕ)
      → L.append b s ≡ (t, ok last)
      → contents t ≡ contents s ++ b ∷ []
  pub refused :
      (b : Batch) (s t : L.State) (x : ErrorCode)
      → L.append b s ≡ (t, err x)
      → contents t ≡ contents s

-- No sequence of the batch passes the largest i32, nor does the sum that the session computes.
abbrev pub IsI32Batch : Batch → Type 0
IsI32Batch b = b.base_sequence + b.record_count < 2 ^ 31

-- The sequence after the last one that was stored.
unfoldable pub next_sequence : ProducerSession → ℕ
next_sequence s = (s.last_sequence + 1) % 2 ^ 32

-- The last sequence is -1, or it is not negative and has one after it.
abbrev pub IsRunning : ProducerSession → Type 0
IsRunning s = (s.last_sequence < 2 ^ 32) × (next_sequence s < 2 ^ 31)

-- The batches' sequences follow one another from `next` on, without a gap or an overlap.
abbrev pub Follows : ℕ → List Batch → Type 0
Follows next [] = Unit {0}
Follows next (b ∷ bs) = (b.base_sequence ≡ next) × Follows (next + b.record_count) bs

module _ {L : BatchLog} where
  open L use {State, append, log_end_offset}

  -- The session right after the batch, which ended at offset `last`.
  abbrev pub accepted : Batch → ℕ → Partition L → State → Partition L
  accepted batch last p log' = record {
    session =
        accept_batch batch.producer_epoch batch.base_sequence batch.record_count
          (last + 1 - batch.record_count) p.session;
    log = log';
  }

  retry_accepted :
      (batch : Batch) (last : ℕ) (p : Partition L) (log' : State)
      → 1 ≤ batch.record_count
      → batch.record_count ≤ last + 1
      → IsI32Batch batch
      → produce batch (accepted batch last p log') ≡ (accepted batch last p log', ok last)
  unfolding produce check_batch check duplicate_offset duplicate_base_offset accept_batch lifted
  retry_accepted batch last p log' some_records bound fits = ground arith

  produce_accepts :
      (batch : Batch) (last : ℕ) (p : Partition L)
      → check_batch batch p ≡ accept
      → (produce batch p).1 ≡ ok last
      → (produce batch p).0 ≡ accepted batch last p (append batch p.log).0
  unfolding produce append_accepted
  produce_accepts batch last p fits done = ground arith

  -- A batch of at least one record, whose sequences fit an i32, that was appended and answered with its
  -- last offset: sending it again right after that changes neither the session nor the log, and is
  -- answered with the same offset.
  pub produce-produce :
      (batch : Batch) (last : ℕ) (p : Partition L)
      → check_batch batch p ≡ accept
      → (produce batch p).1 ≡ ok last
      → 1 ≤ batch.record_count
      → batch.record_count ≤ last + 1
      → IsI32Batch batch
      → produce batch (produce batch p).0 ≡ ((produce batch p).0, ok last)
  produce-produce batch last p fits done some_records bound narrow =
      subst (λ q. produce batch q ≡ (q, ok last)) (sym (produce_accepts batch last p fits done))
        (retry_accepted batch last p (append batch p.log).0 some_records bound narrow)

  unfoldable pub produce_each : List Batch → Partition L → Partition L
  produce_each [] p = p
  produce_each (b ∷ bs) p = produce_each bs (produce b p).0

  -- What a batch leaves: it is the next one of its session and is in the log, or nothing changed.
  abbrev Taken : IsLog L → Batch → Partition L → Partition L → Type 0
  Taken kept b p q =
      ((kept.contents q.log ≡ kept.contents p.log ++ b ∷ [])
        × (b.base_sequence ≡ next_sequence p.session)
        × (next_sequence q.session ≡ b.base_sequence + b.record_count)
        × (q.session.last_sequence < 2 ^ 32))
      ⊎ ((kept.contents q.log ≡ kept.contents p.log) × (q.session ≡ p.session))
