-- ===== src/Storage/Tests.antt =====
-- A segment's index on concrete batches.
use nexus_mq.Base.{◌-◌, ◌≡◌, List, [], ◌∷◌, min, arith}
use nexus_mq.Storage.SparseIndex.{start, max_relative, floor}
use nexus_mq.Storage.SparseIndex.Floor.{Appended, Rises, append_each, scan, floor-append_each}

abbrev batches : List Appended
batches =
    record { offset = 100; file_position = 0; length = 50 }
    ∷ record { offset = 105; file_position = 50; length = 60 }
    ∷ record { offset = 110; file_position = 110; length = 60 }
    ∷ []

floor-append_each_example :
    let idx =
      append_each batches
        (record { base_offset = 100; interval = 40; bytes_since = 0; entries = [] }) in
    floor 107 idx ≡ scan (min (107 - 100) max_relative) start idx.entries
unfolding Rises
floor-append_each_example =
    floor-append_each 100 40 107 batches
      (omega arith, omega arith, (omega arith, omega arith, (omega arith, omega arith, tt)))
