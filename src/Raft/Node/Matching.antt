-- ===== src/Raft/Node/Matching.antt =====
-- What an `AppendEntries` that succeeds leaves in the follower's log.
use nexus_mq.Base.{
  ℕ, suc, ◌≤◌, ◌<◌, ◌≡◌, refl, sym, ap, subst, ◌∙◌, ◌⊎◌, inl, inr, List, [], ◌∷◌, true, arith, ltb,
  Expected, ok, err, ErrorCode, Bool-cases, ltb→lt,
}
use nexus_mq.Raft.Types.{RaftLogEntry, AppendEntriesArgs}
use nexus_mq.Raft.Log.{Storage, RaftLog, last_index, term_at, append, truncate_from, holds_entry}
use nexus_mq.Raft.Log.Terms.{
  HoldsAll, Contiguous, Agrees, append_cases, append-Extends, truncate_from_ok, holds_entry-term_at,
}
use nexus_mq.Raft.Node.State.{RaftNode, advance_term, reset_election_timer}
use nexus_mq.Raft.Node.Replication.{set_commit_index}
use nexus_mq.Raft.Node.Election.{become_follower, clear_leader_progress}
use nexus_mq.Raft.Node.Handlers.{
  append_suffix, replace_suffix, append_entries_from, follow, accept_entries, check_entries,
  reject_entries, on_append_entries, raise_commit,
}

number_cases : (r : Expected ℕ) → ((k : ℕ) × (r ≡ ok k)) ⊎ ((x : ErrorCode) × (r ≡ err x))
number_cases (ok k) = inl (k, refl)
number_cases (err x) = inr (x, refl)

module _ {S : Storage} where
  -- The entries stand in the new log, and it shows the old one's terms up to `prev`.
  abbrev pub Matches : ℕ → List RaftLogEntry → RaftLog S → RaftLog S → Type 0
  Matches prev es log log' = HoldsAll es log' × Agrees prev log log'

  append_suffix_shape :
      (es : List RaftLogEntry) (log : RaftLog S)
      → (append_suffix es log).1 ≡ true
      → (k : ℕ) × ((append es log).1 ≡ ok k) × ((append_suffix es log).0 ≡ (append es log).0)
  unfolding append_suffix
  append_suffix_shape es log h = elim (number_cases (append es log).1) [
    | inr (x, failed) ↦ absurd (ground arith)
    | inl (k, done) ↦ (k, done, ground arith)
  ]

  append_suffix-Matches :
      (es : List RaftLogEntry) (log : RaftLog S)
      → Contiguous (last_index log) es
      → (append_suffix es log).1 ≡ true
      → Matches (last_index log) es log (append_suffix es log).0
  append_suffix-Matches es log c h =
      let (k, done, same) = append_suffix_shape es log h in
      let (held, agrees, snap) = append-Extends es log k c done in
      subst (Matches (last_index log) es log) (sym same) (held, agrees)

  replace_suffix_shape :
      (index : ℕ) (es : List RaftLogEntry) (log : RaftLog S)
      → (replace_suffix index es log).1 ≡ true
      → ((truncate_from index log).1 ≡ ok tt)
        × (replace_suffix index es log ≡ append_suffix es (truncate_from index log).0)
  unfolding replace_suffix
  replace_suffix_shape index es log h = elim (append_cases (truncate_from index log).1) [
    | inr (x, failed) ↦ absurd (ground arith)
    | inl done ↦ (done, ground arith)
  ]

  replace_suffix-Matches :
      (prev : ℕ) (es : List RaftLogEntry) (log : RaftLog S)
      → Contiguous prev es
      → suc prev ≤ last_index log
      → (replace_suffix (suc prev) es log).1 ≡ true
      → Matches prev es log (replace_suffix (suc prev) es log).0
  replace_suffix-Matches prev es log c inside h =
      let (done, same) = replace_suffix_shape (suc prev) es log h in
      let (bound, last, kept) = truncate_from_ok (suc prev) log inside done in
      let cut = (truncate_from (suc prev) log).0 in
      let here : last_index cut ≡ prev = omega (arith, last) in
      let (held, agrees) =
        append_suffix-Matches es cut (subst (λ i. Contiguous i es) (sym here) c)
          (ap (λ r. r.1) (sym same) ∙ h) in
      subst (λ r. Matches prev es log r.0) (sym same)
        (held, λ i le. agrees i (omega (arith, here)) ∙ kept i (omega arith))

  -- The three branches of the loop.
  data Round (e : RaftLogEntry) (es : List RaftLogEntry) (log : RaftLog S) : Type 0 where
    past :
        last_index log < e.index
        → append_entries_from (e ∷ es) log ≡ append_suffix (e ∷ es) log
        → Round e es log
    there :
        e.index ≤ last_index log
        → term_at log e.index ≡ ok e.term
        → append_entries_from (e ∷ es) log ≡ append_entries_from es log
        → Round e es log
    conflicts :
        e.index ≤ last_index log
        → append_entries_from (e ∷ es) log ≡ replace_suffix e.index (e ∷ es) log
        → Round e es log

  round : (e : RaftLogEntry) (es : List RaftLogEntry) (log : RaftLog S) → Round e es log
  unfolding append_entries_from
  round e es log = elim (Bool-cases (ltb (last_index log) e.index)) [
    | inl far ↦ past (ltb→lt (last_index log) e.index far) (rw far refl)
    | inr near ↦ elim (Bool-cases (holds_entry e.index e.term log)) [
      | inl held ↦
          there (ground arith) (holds_entry-term_at e.index e.term log held) (rw (near, held) refl)
      | inr other ↦ conflicts (ground arith) (rw (near, other) refl)
    ]
  ]

  append_entries_from-Matches :
      (es : List RaftLogEntry) (prev : ℕ) (log : RaftLog S)
      → Contiguous prev es
      → prev ≤ last_index log
      → (append_entries_from es log).1 ≡ true
      → Matches prev es log (append_entries_from es log).0
  unfolding append_entries_from
  append_entries_from-Matches [] prev log c inside h = (tt, λ i le. refl)
  append_entries_from-Matches (e ∷ es) prev log c inside h = elim (round e es log) [
    | past far same ↦
        let here : last_index log ≡ prev = omega (arith, c.0) in
        let grown =
          append_suffix-Matches (e ∷ es) log (subst (λ i. Contiguous i (e ∷ es)) (sym here) c)
            (ap (λ r. r.1) (sym same) ∙ h) in
        subst (λ r. Matches prev (e ∷ es) log r.0) (sym same)
          (subst (λ i. Matches i (e ∷ es) log (append_suffix (e ∷ es) log).0) here grown)
    | there near held same ↦
        let (rest, agrees) =
          append_entries_from-Matches es e.index log c.1 near (ap (λ r. r.1) (sym same) ∙ h) in
        subst (λ r. Matches prev (e ∷ es) log r.0) (sym same)
          ((agrees e.index (omega arith) ∙ held, rest), λ i le. agrees i (omega (arith, c.0)))
    | conflicts near same ↦
        let same' = same ∙ ap (λ i. replace_suffix i (e ∷ es) log) c.0 in
        subst (λ r. Matches prev (e ∷ es) log r.0) (sym same')
          (replace_suffix-Matches prev (e ∷ es) log c (omega (arith, c.0))
            (ap (λ r. r.1) (sym same') ∙ h))
  ]

  follow-log : (now term leader_id : ℕ) (n : RaftNode S) → (follow now term leader_id n).log ≡ n.log
  unfolding follow become_follower advance_term clear_leader_progress reset_election_timer
  follow-log now term leader_id n = ground arith

  accept_entries_shape :
      (args : AppendEntriesArgs) (n : RaftNode S)
      → (accept_entries args n).1.success ≡ true
      → ((append_entries_from args.entries n.log).1 ≡ true)
        × ((accept_entries args n).0.log ≡ (append_entries_from args.entries n.log).0)
  unfolding accept_entries raise_commit set_commit_index
  accept_entries_shape args n h = ground arith

  check_entries_shape :
      (args : AppendEntriesArgs) (n : RaftNode S)
      → (check_entries args n).1.success ≡ true
      → (args.prev_log_index ≤ last_index n.log)
        × (term_at n.log args.prev_log_index ≡ ok args.prev_log_term)
        × (check_entries args n ≡ accept_entries args n)
  unfolding check_entries reject_entries
  check_entries_shape args n h = elim (number_cases (term_at n.log args.prev_log_index)) [
    | inr (x, failed) ↦ absurd (ground arith)
    | inl (k, done) ↦ ground arith
  ]

  on_append_entries_shape :
      (now : ℕ) (args : AppendEntriesArgs) (n : RaftNode S)
      → (on_append_entries now args n).1.success ≡ true
      → (n.current_term ≤ args.term)
        × (on_append_entries now args n
            ≡ check_entries args (follow now args.term args.leader_id n))
  unfolding on_append_entries reject_entries
  on_append_entries_shape now args n h = elim (Bool-cases (ltb args.term n.current_term)) [
    | inl old ↦ absurd (ground arith)
    | inr fresh ↦ (ground arith, rw fresh refl)
  ]

  -- An `AppendEntries` whose entries follow one another behind `prev_log_index`, answered with
  -- success: its term is not below the node's, and in the follower's new log the term at
  -- `prev_log_index` is `prev_log_term`, every entry of the message stands under its index with its
  -- term, and at every index up to `prev_log_index` the log shows the term it showed before.
  pub on_append_entries-Matches :
      (now : ℕ) (args : AppendEntriesArgs) (n : RaftNode S)
      → Contiguous args.prev_log_index args.entries
      → (on_append_entries now args n).1.success ≡ true
      → (i : ℕ) → i ≤ args.prev_log_index
      → let log' = (on_append_entries now args n).0.log in
        (n.current_term ≤ args.term)
        × (term_at log' args.prev_log_index ≡ ok args.prev_log_term)
        × HoldsAll args.entries log'
        × (term_at log' i ≡ term_at n.log i)
  on_append_entries-Matches now args n c h i le =
      let (fresh, passed) = on_append_entries_shape now args n h in
      let n' = follow now args.term args.leader_id n in
      let kept : n'.log ≡ n.log = follow-log now args.term args.leader_id n in
      let (inside, checked, taken) =
        check_entries_shape args n' (ap (λ r. r.1.success) (sym passed) ∙ h) in
      let route = passed ∙ taken in
      let (written, stored) =
        accept_entries_shape args n' (ap (λ r. r.1.success) (sym route) ∙ h) in
      let (held, agrees) =
        append_entries_from-Matches args.entries args.prev_log_index n'.log c inside written in
      let final = ap (λ r. r.0.log) route ∙ stored in
      let agrees' : Agrees args.prev_log_index n.log (append_entries_from args.entries n'.log).0 =
        subst (λ l. Agrees args.prev_log_index l (append_entries_from args.entries n'.log).0) kept
          agrees in
      subst
        (λ l.
          (n.current_term ≤ args.term)
          × (term_at l args.prev_log_index ≡ ok args.prev_log_term)
          × HoldsAll args.entries l
          × (term_at l i ≡ term_at n.log i))
        (sym final) (fresh, agrees args.prev_log_index (omega arith) ∙ checked, held, agrees' i le)
