-- ===== src/Raft/Log.antt =====
-- consensus/raft_log.cpp: the (term, index) view of a partition's log.
pub mod Terms
use nexus_mq.Base.{
  ℕ, zero, suc, ◌+◌, ◌-◌, ◌≤◌, ◌<◌, ◌≡◌, refl, List, [], ◌∷◌, ◌++◌, Bool, true, false, length, take,
  drop, Option, none, some, get_elem?, ltb, leb, ◌==◌, ◌&&◌, ◌||◌, if◌then◌else◌, Expected, ok, err,
  ErrorCode, arith,
}
use nexus_mq.Wire.Bytes.{Bytes}
use nexus_mq.Raft.Types.{RaftEntryType, entry_data, RaftLogEntry}

-- What lives in the sidecar for each entry; the bytes live in the `PartitionLog`.
pub record EntryMeta : Type 0 where
  pub term : ℕ
  pub base_offset : ℕ
  pub last_offset : ℕ
  pub type : RaftEntryType

-- What the log is kept on: the `PartitionLog` below it and its two sidecar files. Each operation
-- may fail and leaves a state either way.
pub record Storage : Type 1 where
  pub State : Type 0
  -- `log_end_offset`, and `RecordBatch::decode` followed by `PartitionLog::append`.
  pub end_offset : State → ℕ
  pub append_batch : Bytes → State → State × Expected ℕ
  pub truncate_to : ℕ → State → State × Expected (Unit {0})
  pub truncate_prefix_to : ℕ → State → State × Expected (Unit {0})
  pub reset_to : ℕ → State → State × Expected (Unit {0})
  pub read_batch : ℕ → State → Expected Bytes
  -- The metadata sidecar, by record number, and the snapshot sidecar: index, term, last offset.
  pub write_meta : ℕ → EntryMeta → State → State × Expected (Unit {0})
  pub truncate_meta : ℕ → State → State × Expected (Unit {0})
  pub sync_meta : State → State × Expected (Unit {0})
  pub write_snapshot : ℕ → ℕ → ℕ → State → State × Expected (Unit {0})

module _ (S : Storage) where
  open S use {
    State, end_offset, append_batch, truncate_to, truncate_prefix_to, reset_to, read_batch,
    write_meta, truncate_meta, sync_meta, write_snapshot,
  }

  pub record RaftLog : Type 0 where
    pub entries : List EntryMeta
    pub snapshot_index : ℕ
    pub snapshot_term : ℕ
    pub snapshot_last_offset : ℕ
    pub store : State

-- The entry of a slot; a slot past the end is not read.
unfoldable pub meta_at : List EntryMeta → ℕ → EntryMeta
meta_at [] slot = record { term = 0; base_offset = 0; last_offset = 0; type = entry_data }
meta_at (m ∷ ms) zero = m
meta_at (m ∷ ms) (suc slot) = meta_at ms slot

-- The term of the last entry, or `d` where there is none.
unfoldable pub back_term : ℕ → List EntryMeta → ℕ
back_term d [] = d
back_term d (m ∷ ms) = back_term m.term ms

module _ {S : Storage} where
  open S use {
    State, end_offset, append_batch, truncate_to, truncate_prefix_to, reset_to, read_batch,
    write_meta, truncate_meta, sync_meta, write_snapshot,
  }

  unfoldable pub last_index : RaftLog S → ℕ
  last_index log = log.snapshot_index + length log.entries

  unfoldable pub last_term : RaftLog S → ℕ
  last_term log = back_term (if ltb 0 log.snapshot_index then log.snapshot_term else 0) log.entries

  abbrev pub slot_of : RaftLog S → ℕ → ℕ
  slot_of log index = index - log.snapshot_index - 1

  unfoldable pub term_at : RaftLog S → ℕ → Expected ℕ
  unfolding last_index
  term_at log index =
      if index == 0
      then ok 0
      else if index == log.snapshot_index
      then ok log.snapshot_term
      else if ltb index log.snapshot_index
      then err ErrorCode.out_of_range
      else if ltb (last_index log) index
      then err ErrorCode.out_of_range
      else ok (meta_at log.entries (slot_of log index)).term

  pub offsets_at : RaftLog S → ℕ → Expected (ℕ × ℕ)
  unfolding last_index
  offsets_at log index =
      let m = meta_at log.entries (slot_of log index) in
      if leb index log.snapshot_index || ltb (last_index log) index
      then err ErrorCode.out_of_range
      else ok (m.base_offset, m.last_offset)

  abbrev meta_of : RaftLogEntry → RaftLog S → ℕ → EntryMeta
  meta_of e log last = record {
    term = e.term;
    base_offset = end_offset log.store;
    last_offset = last;
    type = e.type;
  }

  -- `persist_meta` and `entries_.push_back`.
  unfoldable pub push_meta : EntryMeta → RaftLog S → RaftLog S × Expected (Unit {0})
  push_meta m log =
      let (st, written) = write_meta (length log.entries) m log.store in
      elim written [
        | err x ↦ (record log { store = st }, err x)
        | ok u ↦ (record log { entries = log.entries ++ m ∷ []; store = st }, ok tt)
      ]

  -- One round of the loop of `append`.
  unfoldable pub append_one : RaftLogEntry → RaftLog S → RaftLog S × Expected (Unit {0})
  unfolding push_meta
  append_one e log =
      let (st, appended) = append_batch e.payload log.store in
      elim appended [
        | err x ↦ (record log { store = st }, err x)
        | ok last ↦ push_meta (meta_of e log last) (record log { store = st })
      ]

  -- What was appended before an error stays.
  unfoldable pub append : List RaftLogEntry → RaftLog S → RaftLog S × Expected ℕ
  append [] log = (log, ok (last_index log))
  append (e ∷ es) log =
      let (log', appended) = append_one e log in
      elim appended [ err x ↦ (log', err x) | ok u ↦ append es log' ]

  -- The partition is cut at the first offset of `index`, then the sidecar.
  cut_at : ℕ → RaftLog S → RaftLog S × Expected (Unit {0})
  cut_at index log =
      let slot = slot_of log index in
      let (st, cut) = truncate_to (meta_at log.entries slot).base_offset log.store in
      elim cut [
        | err x ↦ (record log { store = st }, err x)
        | ok u ↦
            let (st', cut_meta) = truncate_meta slot st in
            elim cut_meta [
              | err x ↦ (record log { store = st' }, err x)
              | ok u ↦ (record log { entries = take slot log.entries; store = st' }, ok tt)
            ]
      ]

  pub truncate_from : ℕ → RaftLog S → RaftLog S × Expected (Unit {0})
  unfolding cut_at
  truncate_from index log =
      if ltb index 1
      then (log, err ErrorCode.invalid_argument)
      else if leb index log.snapshot_index
      then (log, err ErrorCode.invalid_argument)
      else if ltb (last_index log) index
      then (log, ok tt)
      else cut_at index log

  -- The loop of `entries_from`, over the live entries from index `i` on.
  entries_loop : RaftLog S → List EntryMeta → ℕ → ℕ → Expected (List RaftLogEntry)
  entries_loop log [] left i = ok []
  entries_loop log (m ∷ ms) zero i = ok []
  entries_loop log (m ∷ ms) (suc left) i = elim (read_batch m.base_offset log.store) [
    | err x ↦ err x
    | ok bytes ↦ elim (entries_loop log ms left (suc i)) [
      | err x ↦ err x
      | ok es ↦ ok (record { term = m.term; index = i; type = m.type; payload = bytes } ∷ es)
    ]
  ]

  pub entries_from : ℕ → ℕ → RaftLog S → Expected (List RaftLogEntry)
  unfolding entries_loop
  entries_from index limit log =
      if ltb index 1
      then err ErrorCode.invalid_argument
      else if leb index log.snapshot_index
      then err ErrorCode.out_of_range
      else entries_loop log (drop (slot_of log index) log.entries) limit index

  persist_snapshot : RaftLog S → RaftLog S × Expected (Unit {0})
  persist_snapshot log =
      let (st, written) =
        write_snapshot log.snapshot_index log.snapshot_term log.snapshot_last_offset log.store in
      (record log { store = st }, written)

  -- The loop of `rewrite_meta` from record `k` on.
  rewrite_loop : List EntryMeta → ℕ → RaftLog S → RaftLog S × Expected (Unit {0})
  rewrite_loop [] k log = (log, ok tt)
  rewrite_loop (m ∷ ms) k log =
      let (st, written) = write_meta k m log.store in
      elim written [
        | err x ↦ (record log { store = st }, err x)
        | ok u ↦ rewrite_loop ms (suc k) (record log { store = st })
      ]

  rewrite_meta : RaftLog S → RaftLog S × Expected (Unit {0})
  unfolding rewrite_loop
  rewrite_meta log =
      let (log', written) = rewrite_loop log.entries 0 log in
      elim written [
        | err x ↦ (log', err x)
        | ok u ↦
            let (st, cut) = truncate_meta (length log.entries) log'.store in
            elim cut [
              | err x ↦ (record log' { store = st }, err x)
              | ok u ↦ let (st', synced) = sync_meta st in (record log' { store = st' }, synced)
            ]
      ]

  -- The end of `compact_to` and `install_snapshot`: the new base is made durable first.
  rebase : RaftLog S → RaftLog S × Expected (Unit {0})
  unfolding persist_snapshot rewrite_meta
  rebase log =
      let (log', persisted) = persist_snapshot log in
      elim persisted [ err x ↦ (log', err x) | ok u ↦ rewrite_meta log' ]

  -- The prefix up to `index` goes, and the snapshot takes its place.
  drop_prefix : ℕ → RaftLog S → RaftLog S × Expected (Unit {0})
  unfolding rebase
  drop_prefix index log =
      let boundary = meta_at log.entries (slot_of log index) in
      let (st, trimmed) = truncate_prefix_to (boundary.last_offset + 1) log.store in
      elim trimmed [
        | err x ↦ (record log { store = st }, err x)
        | ok u ↦ rebase (record {
          entries = drop (slot_of log index + 1) log.entries;
          snapshot_index = index;
          snapshot_term = boundary.term;
          snapshot_last_offset = boundary.last_offset;
          store = st;
        })
      ]

  pub compact_to : ℕ → RaftLog S → RaftLog S × Expected (Unit {0})
  unfolding drop_prefix
  compact_to index log =
      if leb index log.snapshot_index
      then (log, ok tt)
      else if ltb (last_index log) index
      then (log, err ErrorCode.invalid_argument)
      else drop_prefix index log

  -- The log is dropped, and the partition restarts behind the snapshot.
  reset_at : ℕ → ℕ → ℕ → RaftLog S → RaftLog S × Expected (Unit {0})
  reset_at index term last_offset log =
      let (st, reset) = reset_to (last_offset + 1) log.store in
      elim reset [
        | err x ↦ (record log { store = st }, err x)
        | ok u ↦ rebase (record {
          entries = [];
          snapshot_index = index;
          snapshot_term = term;
          snapshot_last_offset = last_offset;
          store = st;
        })
      ]

  -- Is the entry `(index, term)` in the log?
  unfoldable pub holds_entry : ℕ → ℕ → RaftLog S → Bool
  holds_entry index term log = elim (term_at log index) [ ok t ↦ t == term | err x ↦ false ]

  pub install_log_snapshot : ℕ → ℕ → ℕ → RaftLog S → RaftLog S × Expected (Unit {0})
  install_log_snapshot index term last_offset log =
      if leb index log.snapshot_index
      then (log, ok tt)
      else if leb index (last_index log) && holds_entry index term log
      then compact_to index log
      else reset_at index term last_offset log
