-- ===== src/Raft/Carrier/Durability.antt =====
-- No message of the node goes out before its term and vote are on disk.
pub mod Recovery
use nexus_mq.Base.{
  ℕ, ◌-◌, ◌≡◌, refl, sym, ap, subst, ◌∙◌, ◌⊎◌, inl, inr, List, [], ◌∷◌, ◌++◌, Bool, true, false,
  Option, none, some, Expected, ok, err, ltb, leb, ◌==◌, ◌||◌, not, if◌then◌else◌, Bool-cases,
  arith,
}
use nexus_mq.Raft.Types.{
  RaftMessage, Payload, request_vote, request_vote_reply, append_entries, append_entries_reply,
  timeout_now, install_snapshot, install_snapshot_reply,
}
use nexus_mq.Raft.Log.{Storage}
use nexus_mq.Raft.Node.State.{RaftNode, RaftPersistentState}
use nexus_mq.Raft.Node.Handlers.{tick, take_messages}
use nexus_mq.Raft.Node.Step.{
  step, ticks, asks_vote, answers_vote, sends_entries, answers_entries, orders_election,
  sends_snapshot, answers_snapshot,
}
use nexus_mq.Raft.Node.Evolution.{Persists}
use nexus_mq.Raft.Node.Evolution.Runs.{step-Persists}
use nexus_mq.Raft.StateStore.{Disk, IsFile, load, save}
use nexus_mq.Raft.StateStore.RoundTrip.{IsStorable, load_crashed-save}
use nexus_mq.Raft.Carrier.{
  RaftCarrier, emit, emit_each, with_node, restore_persistent_state, recover_from, recover,
  clear_persistent_dirty, transport, transport_saved, flush_to, flush_outbox, compact_log,
  maybe_compact, on_tick, deliver, on_message,
}

pub data Event : Type 0 where
  time_passes : ℕ → Event
  message_arrives : ℕ → RaftMessage → Event

-- The term and the vote are loaded from whatever a crash leaves of the file.
abbrev pub IsDurable : (D : Disk) → D.State → RaftPersistentState → Type 0
IsDurable D d s = (u : D.State) → D.Crashes d u → load D u ≡ ok s

module _ {S : Storage} (D : Disk) where
  -- The disk holds the term and the vote, or the node knows that it does not.
  abbrev pub IsSaved : D.State → RaftNode S → Type 0
  IsSaved d n = (n.persistent_dirty ≡ true) ⊎ IsDurable D d n.persistent

  Persists-IsSaved : (d : D.State) (n m : RaftNode S) → Persists n m → IsSaved d n → IsSaved d m
  Persists-IsSaved d n m p (inl dirty) = inl (p.mark_stays dirty)
  Persists-IsSaved d n m p (inr held) = elim p.change_marked [
    | inl same ↦ inr (λ u crash. held u crash ∙ ap ok (sym same))
    | inr dirty ↦ inl dirty
  ]

module _ {S : Storage} {D : Disk} where
  -- What the node does with an event, and its direct reply, before the outbox is flushed.
  unfoldable pub take_in : Event → RaftCarrier S D → RaftCarrier S D
  take_in (time_passes now) c = with_node (tick now c.node) c
  take_in (message_arrives now m) c = deliver now m.sender m.payload c

  unfoldable pub handle : Event → RaftCarrier S D → RaftCarrier S D
  handle (time_passes now) c = on_tick now c
  handle (message_arrives now m) c = on_message now m c

  handle_parts :
      (e : Event) (c : RaftCarrier S D) → handle e c ≡ maybe_compact (flush_outbox (take_in e c))
  unfolding handle take_in on_tick on_message
  handle_parts (time_passes now) c = refl
  handle_parts (message_arrives now m) c = refl

  -- What a flush of `c` leaves: it sent nothing, or what it sent is backed by the disk.
  pub record Flushed (c e : RaftCarrier S D) : Type 0 where
    pub disk : D.State
    pub stored : e.store ≡ some disk
    pub backed :
        ((e.node.persistent_dirty ≡ true) × (e.sent ≡ c.sent)) ⊎ IsDurable D disk e.node.persistent
    pub persistent_same : e.node.persistent ≡ c.node.persistent

  emit_each_keeps :
      (ms : List RaftMessage) (c : RaftCarrier S D)
      → ((emit_each ms c).node ≡ c.node) × ((emit_each ms c).store ≡ c.store)
  unfolding emit_each emit
  emit_each_keeps [] c = (refl, refl)
  emit_each_keeps (m ∷ ms) c = emit_each_keeps ms (emit m c)

  transport_keeps :
      (c : RaftCarrier S D)
      → ((transport c).node.persistent ≡ c.node.persistent) × ((transport c).store ≡ c.store)
  unfolding transport take_messages
  transport_keeps c =
      let (n, s) = emit_each_keeps c.node.outbox (with_node (take_messages c.node).0 c) in
      (ap (λ m. m.persistent) n, s)

  transport-Flushed :
      (c : RaftCarrier S D) (d : D.State)
      → c.store ≡ some d
      → IsDurable D d c.node.persistent
      → Flushed c (transport c)
  transport-Flushed c d stored saved =
      let (persistent, store) = transport_keeps c in
      record {
        disk = d;
        stored = store ∙ stored;
        backed = inr (λ u crash. saved u crash ∙ ap ok (sym persistent));
        persistent_same = persistent;
      }

  saved-Flushed :
      (c : RaftCarrier S D) (d : D.State) (w : D.State × Expected (Unit {0}))
      → IsFile D
      → IsStorable c.node.persistent
      → c.node.persistent_dirty ≡ true
      → save D c.node.persistent d ≡ w
      → Flushed c (transport_saved w c)
  unfolding transport_saved clear_persistent_dirty
  saved-Flushed c d (e, err x) file fits dirty w = record {
    disk = e;
    stored = refl;
    backed = inl (dirty, refl);
    persistent_same = refl;
  }
  saved-Flushed c d (e, ok tt) file fits dirty w =
      let a : RaftCarrier S D = record c { store = some e; node = clear_persistent_dirty c.node } in
      let f =
        transport-Flushed a e refl
          (λ u crash. load_crashed-save D c.node.persistent d e u file fits w crash) in
      record {
        disk = f.disk;
        stored = f.stored;
        backed = elim f.backed [ inl (marked, same) ↦ inl (marked, same) | inr saved ↦ inr saved ];
        persistent_same = f.persistent_same;
      }

  flush_if-Flushed :
      (c : RaftCarrier S D) (d : D.State) (dirty : Bool)
      → IsFile D
      → IsStorable c.node.persistent
      → c.store ≡ some d
      → IsSaved D d c.node
      → c.node.persistent_dirty ≡ dirty
      → Flushed c (if dirty then transport_saved (save D c.node.persistent d) c else transport c)
  flush_if-Flushed c d true file fits stored saved dirty =
      saved-Flushed c d (save D c.node.persistent d) file fits dirty refl
  flush_if-Flushed c d false file fits stored (inl dirty) clean = absurd (ground arith)
  flush_if-Flushed c d false file fits stored (inr held) clean = transport-Flushed c d stored held

  flush_outbox-Flushed :
      (c : RaftCarrier S D) (d : D.State)
      → IsFile D
      → IsStorable c.node.persistent
      → c.store ≡ some d
      → IsSaved D d c.node
      → Flushed c (flush_outbox c)
  unfolding flush_outbox flush_to
  flush_outbox-Flushed c d file fits stored saved =
      subst (λ o. Flushed c (flush_to o c)) (sym stored)
        (flush_if-Flushed c d c.node.persistent_dirty file fits stored saved refl)

  Flushed-if :
      (c : RaftCarrier S D) (b : Bool) (x y : RaftCarrier S D)
      → Flushed c x
      → Flushed c y
      → Flushed c (if b then x else y)
  Flushed-if c true x y p q = p
  Flushed-if c false x y p q = q

  compact_log-Flushed :
      (c e : RaftCarrier S D) (commit : ℕ) → Flushed c e → Flushed c (compact_log commit e)
  unfolding compact_log
  compact_log-Flushed c e commit f = record {
    disk = f.disk;
    stored = f.stored;
    backed = f.backed;
    persistent_same = f.persistent_same;
  }

  maybe_compact-Flushed : (c e : RaftCarrier S D) → Flushed c e → Flushed c (maybe_compact e)
  unfolding maybe_compact
  maybe_compact-Flushed c e f =
      let commit = e.node.commit_index in
      let base = e.node.log.snapshot_index in
      let compacted : RaftCarrier S D = compact_log commit e in
      let early : Bool = leb commit base || ltb (commit - base) e.applied_entries_threshold in
      Flushed-if c (not e.has_log || (e.applied_entries_threshold == 0)) e
        (if early then e else compacted) f
        (Flushed-if c early e compacted f (compact_log-Flushed c e commit f))
