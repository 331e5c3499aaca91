-- ===== src/Raft/Log/Terms.antt =====
-- The terms that a log shows, across its operations that succeed.
use nexus_mq.Base.{
  ℕ, zero, suc, ◌+◌, ◌-◌, ◌≤◌, ◌<◌, ◌≡◌, refl, sym, ap, subst, ◌∙◌, ◌⊎◌, inl, inr, List, [], ◌∷◌,
  ◌++◌, true, arith, length, length-append, take, length-take, Expected, ok, err, ErrorCode,
}
use nexus_mq.Raft.Types.{RaftLogEntry}
use nexus_mq.Raft.Log.{
  Storage, RaftLog, EntryMeta, meta_at, meta_of, last_index, slot_of, term_at, push_meta,
  append_one, append, cut_at, truncate_from, holds_entry,
}

meta_at-append :
    (xs ys : List EntryMeta) (i : ℕ) → i < length xs → meta_at (xs ++ ys) i ≡ meta_at xs i
unfolding meta_at
meta_at-append [] ys i h = absurd (omega arith)
meta_at-append (x ∷ xs) ys zero h = refl
meta_at-append (x ∷ xs) ys (suc i) h = meta_at-append xs ys i (omega arith)

meta_at-append_last : (xs : List EntryMeta) (m : EntryMeta) → meta_at (xs ++ m ∷ []) (length xs) ≡ m
unfolding meta_at
meta_at-append_last [] m = refl
meta_at-append_last (x ∷ xs) m = meta_at-append_last xs m

meta_at-take :
    (k : ℕ) (xs : List EntryMeta) (i : ℕ)
    → i < k
    → i < length xs
    → meta_at (take k xs) i ≡ meta_at xs i
unfolding meta_at
meta_at-take zero xs i h l = absurd (omega arith)
meta_at-take (suc k) [] i h l = refl
meta_at-take (suc k) (x ∷ xs) zero h l = refl
meta_at-take (suc k) (x ∷ xs) (suc i) h l = meta_at-take k xs i (omega arith) (omega arith)

-- The entries' indices follow one another, the first behind `prev`.
abbrev pub Contiguous : ℕ → List RaftLogEntry → Type 0
Contiguous prev [] = Unit {0}
Contiguous prev (e ∷ es) = (e.index ≡ suc prev) × Contiguous e.index es

err≢ok : (x : ErrorCode) (k : ℕ) → err x ≡ ok k → ⊥
err≢ok x k p = cc

pub append_cases : (r : Expected (Unit {0})) → (r ≡ ok tt) ⊎ ((x : ErrorCode) × (r ≡ err x))
append_cases (ok u) = inl refl
append_cases (err x) = inr (x, refl)

module _ {S : Storage} where
  -- The log with other live entries.
  abbrev pub with_entries : RaftLog S → List EntryMeta → S.State → RaftLog S
  with_entries log entries st = record log { entries = entries; store = st }

  term_at-push :
      (log : RaftLog S) (m : EntryMeta) (st : S.State) (i : ℕ)
      → i ≤ last_index log
      → term_at (with_entries log (log.entries ++ m ∷ []) st) i ≡ term_at log i
  unfolding term_at last_index
  term_at-push log m st i h = ground (
    arith,
    length-append log.entries (m ∷ []),
    meta_at-append log.entries (m ∷ []) (slot_of log i),
  )

  term_at-push_last :
      (log : RaftLog S) (m : EntryMeta) (st : S.State)
      → term_at (with_entries log (log.entries ++ m ∷ []) st) (suc (last_index log)) ≡ ok m.term
  unfolding term_at last_index
  term_at-push_last log m st =
      let slot : suc (log.snapshot_index + length log.entries) - log.snapshot_index - 1
          ≡ length log.entries =
        omega arith in
      ground (arith, length-append log.entries (m ∷ []), slot, meta_at-append_last log.entries m)

  term_at-take :
      (log : RaftLog S) (st : S.State) (index i : ℕ)
      → log.snapshot_index < index
      → index ≤ last_index log
      → i < index
      → term_at (with_entries log (take (slot_of log index) log.entries) st) i ≡ term_at log i
  unfolding term_at last_index
  term_at-take log st index i h1 h2 h3 = ground (
    arith,
    length-take (slot_of log index) log.entries,
    meta_at-take (slot_of log index) log.entries (slot_of log i),
  )

  last_index-take :
      (log : RaftLog S) (st : S.State) (index : ℕ)
      → log.snapshot_index < index
      → index ≤ last_index log
      → suc (last_index (with_entries log (take (slot_of log index) log.entries) st)) ≡ index
  unfolding last_index
  last_index-take log st index h1 h2 = omega (arith, length-take (slot_of log index) log.entries)

  last_index-push :
      (log : RaftLog S) (m : EntryMeta) (st : S.State)
      → last_index (with_entries log (log.entries ++ m ∷ []) st) ≡ suc (last_index log)
  unfolding last_index
  last_index-push log m st = omega (arith, length-append log.entries (m ∷ []))

  -- A round of `append` that succeeds adds one entry with the term of its argument.
  append_one_ok :
      (e : RaftLogEntry) (log : RaftLog S)
      → (append_one e log).1 ≡ ok tt
      → (m : EntryMeta) × (st : S.State) × ((append_one e log).0
          ≡ with_entries log (log.entries ++ m ∷ []) st)
        × (m.term ≡ e.term)
  unfolding append_one push_meta
  append_one_ok e log h =
      let r = S.append_batch e.payload log.store in
      let last : ℕ = elim r.1 [ ok l ↦ l | err x ↦ 0 ] in
      let m : EntryMeta = meta_of e log last in
      (m, (S.write_meta (length log.entries) m r.0).0, ground arith, refl)

  -- Every entry stands in the log under its index, with its term.
  abbrev pub HoldsAll : List RaftLogEntry → RaftLog S → Type 0
  HoldsAll [] log = Unit {0}
  HoldsAll (e ∷ es) log = (term_at log e.index ≡ ok e.term) × HoldsAll es log

  -- Both logs show the same terms up to `prev`.
  abbrev pub Agrees : ℕ → RaftLog S → RaftLog S → Type 0
  Agrees prev a b = (i : ℕ) → i ≤ prev → term_at b i ≡ term_at a i

  -- The entries stand in the grown log, and below them nothing moved.
  abbrev pub Extends : List RaftLogEntry → RaftLog S → RaftLog S → Type 0
  Extends es log log' =
      HoldsAll es log'
      × Agrees (last_index log) log log'
      × (log'.snapshot_index ≡ log.snapshot_index)

  append_push :
      (e : RaftLogEntry) (es : List RaftLogEntry) (log log' : RaftLog S) (m : EntryMeta)
      (st : S.State)
      → m.term ≡ e.term
      → e.index ≡ suc (last_index log)
      → Extends es (with_entries log (log.entries ++ m ∷ []) st) log'
      → Extends (e ∷ es) log log'
  append_push e es log log' m st t c (held, agrees, snap) =
      let grown : last_index (with_entries log (log.entries ++ m ∷ []) st) ≡ suc (last_index log) =
        last_index-push log m st in
      (
        (
          rw c (
              agrees (suc (last_index log)) (omega (arith, grown))
              ∙ term_at-push_last log m st
              ∙ ap ok t),
          held,
        ),
        λ i le. agrees i (omega (arith, grown)) ∙ term_at-push log m st i le,
        snap,
      )

  append_step :
      (e : RaftLogEntry) (es : List RaftLogEntry) (log : RaftLog S)
      → (append_one e log).1 ≡ ok tt
      → append (e ∷ es) log ≡ append es (append_one e log).0
  unfolding append
  append_step e es log done = ground arith

  append_fails :
      (e : RaftLogEntry) (es : List RaftLogEntry) (log : RaftLog S) (x : ErrorCode)
      → (append_one e log).1 ≡ err x
      → (append (e ∷ es) log).1 ≡ err x
  unfolding append
  append_fails e es log x failed = ground arith

  -- An append that succeeds: its entries stand in the log, and what was there stays.
  pub append-Extends :
      (es : List RaftLogEntry) (log : RaftLog S) (k : ℕ)
      → Contiguous (last_index log) es
      → (append es log).1 ≡ ok k
      → Extends es log (append es log).0
  unfolding append
  append-Extends [] log k c h = (tt, λ i le. refl, refl)
  append-Extends (e ∷ es) log k c h = elim (append_cases (append_one e log).1) [
    | inr (x, failed) ↦ absurd (err≢ok x k (sym (append_fails e es log x failed) ∙ h))
    | inl done ↦
        let (m, st, grown, t) = append_one_ok e log done in
        let stepped = append_step e es log done in
        let next : last_index (append_one e log).0 ≡ e.index =
          ap last_index grown ∙ last_index-push log m st ∙ sym c.0 in
        let rest =
          append-Extends es (append_one e log).0 k (subst (λ i. Contiguous i es) (sym next) c.1)
            (ap (λ r. r.1) (sym stepped) ∙ h) in
        subst (λ r. Extends (e ∷ es) log r.0) (sym stepped)
          (append_push e es log (append es (append_one e log).0).0 m st t c.0
            (subst (λ l. Extends es l (append es (append_one e log).0).0) grown rest))
  ]

  cut_ok :
      (index : ℕ) (log : RaftLog S)
      → (cut_at index log).1 ≡ ok tt
      → (st : S.State) × ((cut_at index log).0
          ≡ with_entries log (take (slot_of log index) log.entries) st)
  unfolding cut_at
  cut_ok index log h =
      let r = S.truncate_to (meta_at log.entries (slot_of log index)).base_offset log.store in
      ((S.truncate_meta (slot_of log index) r.0).0, ground arith)

  truncate_from_cuts :
      (index : ℕ) (log : RaftLog S)
      → index ≤ last_index log
      → (truncate_from index log).1 ≡ ok tt
      → (log.snapshot_index < index) × (truncate_from index log ≡ cut_at index log)
  unfolding truncate_from
  truncate_from_cuts index log inside h = ground arith

  -- A cut that succeeds inside the log leaves the entries before `index`.
  pub truncate_from_ok :
      (index : ℕ) (log : RaftLog S)
      → index ≤ last_index log
      → (truncate_from index log).1 ≡ ok tt
      → (log.snapshot_index < index)
        × (suc (last_index (truncate_from index log).0) ≡ index)
        × ((i : ℕ) → i < index → term_at (truncate_from index log).0 i ≡ term_at log i)
  truncate_from_ok index log inside h =
      let (bound, same) = truncate_from_cuts index log inside h in
      let (st, cut) = cut_ok index log (ap (λ r. r.1) (sym same) ∙ h) in
      let here = ap (λ r. r.0) same ∙ cut in
      (
        bound,
        ap (λ l. suc (last_index l)) here ∙ last_index-take log st index bound inside,
        λ i lt. ap (λ l. term_at l i) here ∙ term_at-take log st index i bound inside lt,
      )

  pub holds_entry-term_at :
      (index term : ℕ) (log : RaftLog S)
      → holds_entry index term log ≡ true
      → term_at log index ≡ ok term
  unfolding holds_entry
  holds_entry-term_at index term log h =
      elim (term_at log index) as (λ r. r ≡ term_at log index → r ≡ ok term) [
        | ok t ↦ λ e. ground arith
        | err x ↦ λ e. ground arith
      ]
        refl
