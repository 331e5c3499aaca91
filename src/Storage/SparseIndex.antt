-- ===== src/Storage/SparseIndex.antt =====
-- storage/index.cpp: the anchors of a segment in memory. The file that mirrors them is left out.
pub mod Floor
use nexus_mq.Base.{ℕ, ◌+◌, ◌-◌, ◌%◌, ◌^◌, List, [], ◌∷◌, ◌++◌, ltb, leb, if◌then◌else◌, min}

pub record IndexEntry : Type 0 where
  pub relative_offset : ℕ
  pub file_position : ℕ

pub record SparseIndex : Type 0 where
  pub base_offset : ℕ
  pub interval : ℕ
  pub bytes_since : ℕ
  pub entries : List IndexEntry

-- `IndexEntry{}`
abbrev pub start : IndexEntry
start = record { relative_offset = 0; file_position = 0 }

-- The new anchor, if enough bytes came since the last one. `static_cast<std::uint32_t>` wraps around.
unfoldable pub anchor : ℕ → ℕ → SparseIndex → SparseIndex
anchor offset file_position idx =
    if leb idx.interval idx.bytes_since
    then record idx {
      entries =
          idx.entries
          ++ record {
            relative_offset = (offset - idx.base_offset) % 2 ^ 32;
            file_position = file_position;
          }
            ∷ [];
      bytes_since = 0;
    }
    else idx

unfoldable pub maybe_append : ℕ → ℕ → ℕ → SparseIndex → SparseIndex
unfolding anchor
maybe_append offset file_position batch_len idx =
    let anchored = anchor offset file_position idx in
    record anchored { bytes_since = anchored.bytes_since + batch_len }

-- `*(it - 1)` for the `upper_bound` of `rel`, or `before` where that is the first entry.
unfoldable pub before_upper_bound : ℕ → IndexEntry → List IndexEntry → IndexEntry
before_upper_bound rel before [] = before
before_upper_bound rel before (e ∷ es) =
    let rest = before_upper_bound rel e es in if ltb rel e.relative_offset then before else rest

abbrev pub max_relative : ℕ
max_relative = 4_294_967_295

unfoldable pub floor : ℕ → SparseIndex → IndexEntry
unfolding before_upper_bound
floor target idx =
    if ltb target idx.base_offset
    then start
    else before_upper_bound (min (target - idx.base_offset) max_relative) start idx.entries
