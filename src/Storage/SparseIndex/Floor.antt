-- ===== src/Storage/SparseIndex/Floor.antt =====
-- The anchor that the index finds is the last one at or below the target.
use nexus_mq.Base.{
  ℕ, suc, ◌+◌, ◌-◌, ◌%◌, ◌^◌, ◌≤◌, ◌<◌, ◌≡◌, refl, sym, ap, ◌∙◌, List, [], ◌∷◌, ◌++◌, Bool, true,
  false, inl, inr, ltb, leb, if◌then◌else◌, min, Bool-cases, arith,
}
use native.Mathlib.Nat.{mod-eq_of_lt}
use nexus_mq.Storage.SparseIndex.{
  IndexEntry, SparseIndex, start, anchor, maybe_append, before_upper_bound, max_relative, floor,
}

-- A batch that is appended to the segment.
pub record Appended : Type 0 where
  pub offset : ℕ
  pub file_position : ℕ
  pub length : ℕ

unfoldable pub append_each : List Appended → SparseIndex → SparseIndex
append_each [] idx = idx
append_each (b ∷ bs) idx = append_each bs (maybe_append b.offset b.file_position b.length idx)

-- The offsets rise from `from` on, and lie within 2 ^ 32 of the base.
unfoldable pub Rises : ℕ → ℕ → List Appended → Type 0
Rises base from [] = Unit
Rises base from (b ∷ bs) =
    (from ≤ b.offset) × (b.offset < base + 2 ^ 32) × Rises base (suc b.offset) bs

-- Every anchor is looked at, in any order; the last one that fits is kept.
unfoldable pub scan : ℕ → IndexEntry → List IndexEntry → IndexEntry
scan rel best [] = best
scan rel best (e ∷ es) = scan rel (if leb e.relative_offset rel then e else best) es

-- The anchors rise from `lo` on and stay below `hi`.
abbrev Sorted : ℕ → List IndexEntry → ℕ → Type 0
Sorted lo [] hi = lo ≤ hi
Sorted lo (e ∷ es) hi = (lo ≤ e.relative_offset) × Sorted (suc e.relative_offset) es hi

Sorted-weaken :
    (lo hi top : ℕ) (es : List IndexEntry) → hi ≤ top → Sorted lo es hi → Sorted lo es top
Sorted-weaken lo hi top [] h s = omega arith
Sorted-weaken lo hi top (e ∷ es) h (low, s) =
    (low, Sorted-weaken (suc e.relative_offset) hi top es h s)

Sorted-snoc :
    (lo hi : ℕ) (es : List IndexEntry) (e : IndexEntry)
    → Sorted lo es hi
    → hi ≤ e.relative_offset
    → Sorted lo (es ++ e ∷ []) (suc e.relative_offset)
Sorted-snoc lo hi [] e s h = (omega arith, omega arith)
Sorted-snoc lo hi (x ∷ es) e (low, s) h = (low, Sorted-snoc (suc x.relative_offset) hi es e s h)

-- No anchor above the target is kept.
scan_above :
    (rel lo hi : ℕ) (best : IndexEntry) (es : List IndexEntry)
    → Sorted lo es hi
    → rel < lo
    → scan rel best es ≡ best
unfolding scan
scan_above rel lo hi best [] s h = refl
scan_above rel lo hi best (e ∷ es) (low, s) h =
    let above : leb e.relative_offset rel ≡ false = ground arith in
    rw above (scan_above rel (suc e.relative_offset) hi best es s (omega arith))

before_upper_bound-scan :
    (rel lo hi : ℕ) (best : IndexEntry) (es : List IndexEntry)
    → Sorted lo es hi
    → before_upper_bound rel best es ≡ scan rel best es
unfolding before_upper_bound scan
before_upper_bound-scan rel lo hi best [] s = refl
before_upper_bound-scan rel lo hi best (e ∷ es) (low, s) =
    elim (Bool-cases (ltb rel e.relative_offset)) [
      | inl above ↦
          let past : leb e.relative_offset rel ≡ false = ground (arith, above) in
          rw (above, past)
            (sym (scan_above rel (suc e.relative_offset) hi best es s (ground (arith, above))))
      | inr fits ↦
          let kept : leb e.relative_offset rel ≡ true = ground (arith, fits) in
          rw (fits, kept) (before_upper_bound-scan rel (suc e.relative_offset) hi e es s)
    ]

-- An index over `base` with its anchors in order below `hi`.
abbrev IsOrdered : ℕ → ℕ → SparseIndex → Type 0
IsOrdered base hi idx = (idx.base_offset ≡ base) × Sorted 0 idx.entries hi

IsOrdered-if :
    (base hi : ℕ) (t : Bool) (x y : SparseIndex)
    → IsOrdered base hi x
    → IsOrdered base hi y
    → IsOrdered base hi (if t then x else y)
IsOrdered-if base hi true x y p q = p
IsOrdered-if base hi false x y p q = q

anchor-IsOrdered :
    (base from offset file_position : ℕ) (idx : SparseIndex)
    → base ≤ from
    → from ≤ offset
    → offset < base + 2 ^ 32
    → IsOrdered base (from - base) idx
    → IsOrdered base (suc offset - base) (anchor offset file_position idx)
unfolding anchor
anchor-IsOrdered base from offset file_position idx low rise near (e, s) =
    let place : (offset - idx.base_offset) % 2 ^ 32 ≡ offset - base =
      ap (λ n. (offset - n) % 2 ^ 32) e ∙ mod-eq_of_lt (omega arith) in
    let added : IndexEntry = record {
      relative_offset = (offset - idx.base_offset) % 2 ^ 32;
      file_position = file_position;
    } in
    IsOrdered-if base (suc offset - base) (leb idx.interval idx.bytes_since)
      (record idx { entries = idx.entries ++ added ∷ []; bytes_since = 0 }) idx
      (
        e,
        Sorted-weaken 0 (suc added.relative_offset) (suc offset - base) _ (omega (arith, place))
            (Sorted-snoc 0 (from - base) idx.entries added s (omega (arith, place))),
      )
      (e, Sorted-weaken 0 (from - base) (suc offset - base) idx.entries (omega arith) s)

append_each-IsOrdered :
    (base from : ℕ) (bs : List Appended) (idx : SparseIndex)
    → base ≤ from
    → Rises base from bs
    → IsOrdered base (from - base) idx
    → (hi : ℕ) × IsOrdered base hi (append_each bs idx)
unfolding append_each Rises maybe_append
append_each-IsOrdered base from [] idx low r o = (from - base, o)
append_each-IsOrdered base from (b ∷ bs) idx low (rise, near, r) o =
    append_each-IsOrdered base (suc b.offset) bs
      (maybe_append b.offset b.file_position b.length idx) (omega arith) r
      (anchor-IsOrdered base from b.offset b.file_position idx low rise near o)

-- For an index that was filled with batches of rising offsets, less than 2 ^ 32 above its base, the
-- search for an offset gives what a look at every anchor gives: the last anchor that is not above
-- the offset, or the start of the segment if there is none or the offset lies before the base.
pub floor-append_each :
    (base interval target : ℕ) (bs : List Appended)
    → Rises base base bs
    → let idx =
        append_each bs
          (record { base_offset = base; interval = interval; bytes_since = 0; entries = [] }) in
      floor target idx ≡ (
        if ltb target base
        then start
        else scan (min (target - base) max_relative) start idx.entries)
unfolding floor
floor-append_each base interval target bs r =
    let empty_index : SparseIndex = record {
      base_offset = base;
      interval = interval;
      bytes_since = 0;
      entries = [];
    } in
    let (hi, (e, s)) =
      append_each-IsOrdered base base bs empty_index (omega arith) r (refl, omega arith) in
    let es : List IndexEntry = (append_each bs empty_index).entries in
    ap
      (λ b.
        if ltb target b then start else before_upper_bound (min (target - b) max_relative) start es)
      e
    ∙ ap (λ x. if ltb target base then start else x)
        (before_upper_bound-scan (min (target - base) max_relative) 0 hi start es s)
