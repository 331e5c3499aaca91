-- ===== src/Broker/Transactions.antt =====
-- broker/partition_txn_index.cpp: the last stable offset and the aborted transactions of a
-- partition. Producer ids and offsets are numbers.
use nexus_mq.Base.{
  ℕ, ◌≤◌, ◌≡◌, refl, ◌↔◌, List, [], ◌∷◌, ◌++◌, arith, ltb, leb, ◌==◌, if◌then◌else◌, Option, none,
  some, All, min,
}

pub data ControlRecordType : Type 0 where
  abort commit : ControlRecordType

pub record AbortedTxn : Type 0 where
  pub producer_id : ℕ
  pub first_offset : ℕ

pub record AbortedRange : Type 0 where
  pub producer_id : ℕ
  pub first_offset : ℕ
  pub marker_offset : ℕ

-- The producers' open transactions, by the offset of their first batch, and the aborted ones in the
-- order of their markers.
pub record PartitionTxnIndex : Type 0 where
  pub open_txns : List (ℕ × ℕ)
  pub aborted : List AbortedRange

-- `find` and `erase` of the map of open transactions.
unfoldable pub open_offset : ℕ → List (ℕ × ℕ) → Option ℕ
open_offset producer [] = none
open_offset producer ((p, first) ∷ txns) =
    if p == producer then some first else open_offset producer txns

unfoldable pub erase : ℕ → List (ℕ × ℕ) → List (ℕ × ℕ)
erase producer [] = []
erase producer ((p, first) ∷ txns) =
    let rest = erase producer txns in if p == producer then txns else (p, first) ∷ rest

-- `try_emplace`: the first batch of a transaction fixes its start.
unfoldable pub on_data : ℕ → ℕ → PartitionTxnIndex → PartitionTxnIndex
on_data producer base_offset idx = elim (open_offset producer idx.open_txns) [
  | some first ↦ idx
  | none ↦ record idx { open_txns = idx.open_txns ++ (producer, base_offset) ∷ [] }
]

-- The ranges after a decision.
unfoldable pub decide : ControlRecordType → AbortedRange → List AbortedRange → List AbortedRange
decide abort range ranges = ranges ++ range ∷ []
decide commit range ranges = ranges

unfoldable pub on_marker : ℕ → ControlRecordType → ℕ → PartitionTxnIndex → PartitionTxnIndex
unfolding decide erase
on_marker producer decision marker_offset idx = elim (open_offset producer idx.open_txns) [
  | none ↦ idx
  | some first ↦ record {
    open_txns = erase producer idx.open_txns;
    aborted =
        decide decision
          (record { producer_id = producer; first_offset = first; marker_offset = marker_offset })
          idx.aborted;
  }
]

unfoldable pub lso_loop : ℕ → List (ℕ × ℕ) → ℕ
lso_loop lso [] = lso
lso_loop lso ((p, first) ∷ txns) = lso_loop (min lso first) txns

unfoldable pub last_stable_offset : ℕ → PartitionTxnIndex → ℕ
unfolding lso_loop
last_stable_offset high_watermark idx = lso_loop high_watermark idx.open_txns

unfoldable pub insert_txn : AbortedTxn → List AbortedTxn → List AbortedTxn
insert_txn t [] = t ∷ []
insert_txn t (u ∷ us) =
    if leb t.first_offset u.first_offset then t ∷ (u ∷ us) else u ∷ insert_txn t us

-- The ranges whose marker lies above `fetch_offset`, sorted by their first offset.
unfoldable pub aborted_above : ℕ → List AbortedRange → List AbortedTxn
unfolding insert_txn
aborted_above fetch_offset [] = []
aborted_above fetch_offset (r ∷ rs) =
    let rest = aborted_above fetch_offset rs in
    if ltb fetch_offset r.marker_offset
    then insert_txn (record { producer_id = r.producer_id; first_offset = r.first_offset }) rest
    else rest

unfoldable pub aborted_transactions : ℕ → PartitionTxnIndex → List AbortedTxn
unfolding aborted_above
aborted_transactions fetch_offset idx = aborted_above fetch_offset idx.aborted

unfoldable pub keep_above : ℕ → List AbortedRange → List AbortedRange
keep_above log_start [] = []
keep_above log_start (r ∷ rs) =
    let rest = keep_above log_start rs in if ltb r.marker_offset log_start then rest else r ∷ rest

unfoldable pub evict_below : ℕ → PartitionTxnIndex → PartitionTxnIndex
unfolding keep_above
evict_below log_start idx = record idx { aborted = keep_above log_start idx.aborted }

lso_loop_bounds :
    (x lso : ℕ) (txns : List (ℕ × ℕ))
    → (x ≤ lso_loop lso txns) ↔ ((x ≤ lso) × All (λ (t : ℕ × ℕ). x ≤ t.1) txns)
unfolding lso_loop
lso_loop_bounds x lso [] = (λ h. (h, tt), λ h. h.0)
lso_loop_bounds x lso ((p, first) ∷ txns) = ground (arith, lso_loop_bounds x (min lso first) txns)

-- An offset is at or below the last stable offset exactly if it is at or below the high watermark
-- and the start of every open transaction.
pub last_stable_offset_bounds :
    (x high_watermark : ℕ) (idx : PartitionTxnIndex)
    → (x ≤ last_stable_offset high_watermark idx)
      ↔ ((x ≤ high_watermark) × All (λ (t : ℕ × ℕ). x ≤ t.1) idx.open_txns)
unfolding last_stable_offset
last_stable_offset_bounds x high_watermark idx = lso_loop_bounds x high_watermark idx.open_txns

aborted_above-keep_above :
    (log_start fetch_offset : ℕ) (rs : List AbortedRange)
    → log_start ≤ fetch_offset
    → aborted_above fetch_offset (keep_above log_start rs) ≡ aborted_above fetch_offset rs
unfolding keep_above aborted_above
aborted_above-keep_above log_start fetch_offset [] h = refl
aborted_above-keep_above log_start fetch_offset (r ∷ rs) h =
    ground (arith, aborted_above-keep_above log_start fetch_offset rs h)

-- Dropping the aborted transactions below the log's start changes no fetch at or above it.
pub aborted_transactions-evict_below :
    (log_start fetch_offset : ℕ) (idx : PartitionTxnIndex)
    → log_start ≤ fetch_offset
    → aborted_transactions fetch_offset (evict_below log_start idx)
      ≡ aborted_transactions fetch_offset idx
unfolding aborted_transactions evict_below
aborted_transactions-evict_below log_start fetch_offset idx h =
    aborted_above-keep_above log_start fetch_offset idx.aborted h

open_offset-append :
    (producer first : ℕ) (txns : List (ℕ × ℕ))
    → open_offset producer txns ≡ none
    → open_offset producer (txns ++ (producer, first) ∷ []) ≡ some first
unfolding open_offset
open_offset-append producer first [] h = ground arith
open_offset-append producer first ((p, f) ∷ txns) h =
    ground (arith, open_offset-append producer first txns)

erase-append :
    (producer first : ℕ) (txns : List (ℕ × ℕ))
    → open_offset producer txns ≡ none
    → erase producer (txns ++ (producer, first) ∷ []) ≡ txns
unfolding open_offset erase
erase-append producer first [] h = ground arith
erase-append producer first ((p, f) ∷ txns) h = ground (arith, erase-append producer first txns)

on_data_opens :
    (producer first : ℕ) (idx : PartitionTxnIndex)
    → open_offset producer idx.open_txns ≡ none
    → on_data producer first idx
      ≡ record idx { open_txns = idx.open_txns ++ (producer, first) ∷ [] }
unfolding on_data
on_data_opens producer first idx h = ground arith

on_data_again :
    (producer later first : ℕ) (idx : PartitionTxnIndex)
    → open_offset producer idx.open_txns ≡ some first
    → on_data producer later idx ≡ idx
unfolding on_data
on_data_again producer later first idx h = ground arith

on_marker_closes :
    (producer first marker_offset : ℕ) (decision : ControlRecordType) (idx : PartitionTxnIndex)
    → open_offset producer idx.open_txns ≡ some first
    → on_marker producer decision marker_offset idx ≡ record {
      open_txns = erase producer idx.open_txns;
      aborted =
          decide decision
            (record { producer_id = producer; first_offset = first; marker_offset = marker_offset })
            idx.aborted;
    }
unfolding on_marker
on_marker_closes producer first marker_offset decision idx h = ground arith

-- A transaction of a producer that had none open: its first batch, a later one, and its marker. A
-- commit leaves the index as it was; an abort leaves it so but for the aborted ranges, which gain the
-- one from the first batch to the marker.
pub on_marker-on_data :
    (producer first later marker_offset : ℕ) (idx : PartitionTxnIndex)
    → open_offset producer idx.open_txns ≡ none
    → let sent = on_data producer later (on_data producer first idx) in
      (on_marker producer commit marker_offset sent ≡ idx)
      × (on_marker producer abort marker_offset sent ≡ record idx {
        aborted =
            idx.aborted
            ++ record {
              producer_id = producer;
              first_offset = first;
              marker_offset = marker_offset;
            }
              ∷ [];
      })
unfolding decide
on_marker-on_data producer first later marker_offset idx closed =
    let begun : PartitionTxnIndex = record idx {
      open_txns = idx.open_txns ++ (producer, first) ∷ [];
    } in
    let opened = open_offset-append producer first idx.open_txns closed in
    let closes = λ (decision : ControlRecordType).
      on_marker_closes producer first marker_offset decision begun opened in
    let before = on_data_opens producer first idx closed in
    let again = on_data_again producer later first begun opened in
    let gone = erase-append producer first idx.open_txns closed in
    (rw (before, again, closes commit, gone) refl, rw (before, again, closes abort, gone) refl)
