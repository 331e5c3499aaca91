-- ===== src/Raft/Node/Evolution.antt =====
-- What no input can undo: the term, the vote of the term, the commit index, and the mark that the
-- persistent state must be saved.
pub mod Parts
pub mod Inputs
pub mod Entries
pub mod Runs
use nexus_mq.Base.{
  ℕ, suc, ◌+◌, ◌≤◌, ◌<◌, ◌≡◌, refl, sym, ap, ◌∙◌, ◌⊎◌, inl, inr, List, [], ◌∷◌, Bool, true, false,
  Option, none, some, arith, ltb, leb, ◌==◌, if◌then◌else◌, Bool-cases,
}
use nexus_mq.Raft.Types.{RaftRole, Payload}
use nexus_mq.Raft.Log.{Storage}
use nexus_mq.Raft.Node.State.{
  RaftNode, RaftPersistentState, advance_term, record_vote, reset_election_timer,
  reset_heartbeat_timer, send,
}
use nexus_mq.Raft.Node.Replication.{
  send_snapshot_to, send_entries_to, replicate_to, replicate_each, replicate_all, set_commit_index,
  advance_commit_index, push_transfer, maybe_transfer_to, majority_match,
}

module _ {S : Storage} where
  pub record Evolves (n m : RaftNode S) : Type 0 where
    pub term_grows : n.current_term ≤ m.current_term
    pub vote_stays :
        (c : ℕ) → n.voted_for ≡ some c → m.current_term ≡ n.current_term → m.voted_for ≡ some c
    pub commit_grows : n.commit_index ≤ m.commit_index
    pub change_marked : (m.persistent ≡ n.persistent) ⊎ (m.persistent_dirty ≡ true)
    pub mark_stays : n.persistent_dirty ≡ true → m.persistent_dirty ≡ true

  pub Evolves-refl : (n : RaftNode S) → Evolves n n
  Evolves-refl n = record {
    term_grows = omega arith;
    vote_stays = λ c e same. e;
    commit_grows = omega arith;
    change_marked = inl refl;
    mark_stays = λ e. e;
  }

  pub Evolves-trans : {a b c : RaftNode S} → Evolves a b → Evolves b c → Evolves a c
  Evolves-trans {a} {b} {c} p q = record {
    term_grows = omega arith;
    vote_stays = λ v e same.
        q.vote_stays v (p.vote_stays v e (omega (arith, p.term_grows, q.term_grows)))
          (omega (arith, p.term_grows, q.term_grows));
    commit_grows = omega arith;
    change_marked = marked p.change_marked q.change_marked;
    mark_stays = λ e. q.mark_stays (p.mark_stays e);
  }
    where
      marked :
          (b.persistent ≡ a.persistent) ⊎ (b.persistent_dirty ≡ true)
          → (c.persistent ≡ b.persistent) ⊎ (c.persistent_dirty ≡ true)
          → (c.persistent ≡ a.persistent) ⊎ (c.persistent_dirty ≡ true)
      marked x (inr d) = inr d
      marked (inl e) (inl f) = inl (f ∙ e)
      marked (inr d) (inl f) = inr (q.mark_stays d)

  -- The persistent state, its mark and the commit index are left alone.
  abbrev pub Keeps : RaftNode S → RaftNode S → Type 0
  Keeps n m =
      (m.persistent ≡ n.persistent)
      × (m.persistent_dirty ≡ n.persistent_dirty)
      × (m.commit_index ≡ n.commit_index)

  pub Evolves-same :
      (n m : RaftNode S)
      → m.persistent ≡ n.persistent
      → m.persistent_dirty ≡ n.persistent_dirty
      → n.commit_index ≤ m.commit_index
      → Evolves n m
  Evolves-same n m e d c = record {
    term_grows = omega (arith, ap (λ (p : RaftPersistentState). p.current_term) e);
    vote_stays = λ v f same. ap (λ (p : RaftPersistentState). p.voted_for) e ∙ f;
    commit_grows = c;
    change_marked = inl e;
    mark_stays = λ f. d ∙ f;
  }

  pub Keeps-Evolves : (n m : RaftNode S) → Keeps n m → Evolves n m
  Keeps-Evolves n m (e, d, c) = Evolves-same n m e d (omega arith)

  pub Keeps-trans : (a b c : RaftNode S) → Keeps a b → Keeps b c → Keeps a c
  Keeps-trans a b c (e, d, k) (e', d', k') = (e' ∙ e, d' ∙ d, k' ∙ k)

  pub Keeps-if :
      (n : RaftNode S) (b : Bool) (x y : RaftNode S)
      → Keeps n x
      → Keeps n y
      → Keeps n (if b then x else y)
  Keeps-if n true x y p q = p
  Keeps-if n false x y p q = q

  -- The part of `Evolves` that is about the persistent state.
  pub record Persists (n m : RaftNode S) : Type 0 where
    pub term_grows : n.current_term ≤ m.current_term
    pub vote_stays :
        (c : ℕ) → n.voted_for ≡ some c → m.current_term ≡ n.current_term → m.voted_for ≡ some c
    pub change_marked : (m.persistent ≡ n.persistent) ⊎ (m.persistent_dirty ≡ true)
    pub mark_stays : n.persistent_dirty ≡ true → m.persistent_dirty ≡ true

  pub Evolves-Persists : {n m : RaftNode S} → Evolves n m → Persists n m
  Evolves-Persists e = record {
    term_grows = e.term_grows;
    vote_stays = e.vote_stays;
    change_marked = e.change_marked;
    mark_stays = e.mark_stays;
  }

  pub Persists-same :
      (n m : RaftNode S)
      → m.persistent ≡ n.persistent
      → m.persistent_dirty ≡ n.persistent_dirty
      → Persists n m
  Persists-same n m e d = record {
    term_grows = omega (arith, ap (λ (p : RaftPersistentState). p.current_term) e);
    vote_stays = λ v f same. ap (λ (p : RaftPersistentState). p.voted_for) e ∙ f;
    change_marked = inl e;
    mark_stays = λ f. d ∙ f;
  }

  pub Persists-refl : (n : RaftNode S) → Persists n n
  Persists-refl n = Persists-same n n refl refl

  pub Persists-trans : {a b c : RaftNode S} → Persists a b → Persists b c → Persists a c
  Persists-trans {a} {b} {c} p q = record {
    term_grows = omega arith;
    vote_stays = λ v e same.
        q.vote_stays v (p.vote_stays v e (omega (arith, p.term_grows, q.term_grows)))
          (omega (arith, p.term_grows, q.term_grows));
    change_marked = marked p.change_marked q.change_marked;
    mark_stays = λ e. q.mark_stays (p.mark_stays e);
  }
    where
      marked :
          (b.persistent ≡ a.persistent) ⊎ (b.persistent_dirty ≡ true)
          → (c.persistent ≡ b.persistent) ⊎ (c.persistent_dirty ≡ true)
          → (c.persistent ≡ a.persistent) ⊎ (c.persistent_dirty ≡ true)
      marked x (inr d) = inr d
      marked (inl e) (inl f) = inl (f ∙ e)
      marked (inr d) (inl f) = inr (q.mark_stays d)
