-- ===== src/Raft/Carrier/Durability/Recovery.antt =====
-- What a carrier that is started again finds on the disk.
use nexus_mq.Base.{ℕ, ◌≡◌, refl, sym, ap, none, subst, ◌∙◌, ◌⊎◌, inl, inr, List, [], ◌∷◌, some, ok}
use nexus_mq.Raft.Types.{
  Payload, request_vote, request_vote_reply, append_entries, append_entries_reply, timeout_now,
  install_snapshot, install_snapshot_reply,
}
use nexus_mq.Raft.Log.{Storage}
use nexus_mq.Raft.Node.Step.{
  step, ticks, asks_vote, answers_vote, sends_entries, answers_entries, orders_election,
  sends_snapshot, answers_snapshot,
}
use nexus_mq.Raft.Node.Evolution.{Persists}
use nexus_mq.Raft.Node.Evolution.Runs.{step-Persists}
use nexus_mq.Raft.StateStore.{Disk, IsFile}
use nexus_mq.Raft.StateStore.RoundTrip.{IsStorable}
use nexus_mq.Raft.Carrier.{
  RaftCarrier, emit, restore_persistent_state, recover_from, recover, flush_outbox, deliver,
}
use nexus_mq.Raft.Carrier.Durability.{
  Event, time_passes, message_arrives, IsDurable, IsSaved, Persists-IsSaved, take_in, handle,
  handle_parts, Flushed, flush_outbox-Flushed, maybe_compact-Flushed,
}

disk_inj : {A : Type 0} {x y : A} → some x ≡ some y → x ≡ y
disk_inj {x = x} e = ap (λ o. elim o [ none ↦ x | some z ↦ z ]) e

module _ {S : Storage} {D : Disk} where
  -- Taking an event in is a step of the node, and leaves the store alone.
  take_in_step :
      (e : Event) (c : RaftCarrier S D)
      → Persists c.node (take_in e c).node × ((take_in e c).store ≡ c.store)
  unfolding take_in deliver emit step
  take_in_step (time_passes now) c = (step-Persists c.node (ticks now), refl)
  take_in_step (message_arrives now m) c = by_payload m.sender m.payload
    where
      by_payload :
          (from : ℕ) (p : Payload)
          → Persists c.node (deliver now from p c).node × ((deliver now from p c).store ≡ c.store)
      by_payload from (request_vote args) = (step-Persists c.node (asks_vote now args), refl)
      by_payload from (append_entries args) = (step-Persists c.node (sends_entries now args), refl)
      by_payload from (install_snapshot args) =
          (step-Persists c.node (sends_snapshot now args), refl)
      by_payload from (timeout_now args) = (step-Persists c.node (orders_election now args), refl)
      by_payload from (request_vote_reply r) =
          (step-Persists c.node (answers_vote now from r), refl)
      by_payload from (append_entries_reply r) =
          (step-Persists c.node (answers_entries now from r), refl)
      by_payload from (install_snapshot_reply r) =
          (step-Persists c.node (answers_snapshot now from r), refl)

  handle-Flushed :
      (e : Event) (c : RaftCarrier S D) (d : D.State)
      → IsFile D
      → c.store ≡ some d
      → IsSaved D d c.node
      → IsStorable (take_in e c).node.persistent
      → Flushed (take_in e c) (handle e c)
  handle-Flushed e c d file stored saved fits =
      let a : RaftCarrier S D = take_in e c in
      let (p, store) = take_in_step e c in
      subst (Flushed a) (sym (handle_parts e c)) (
        maybe_compact-Flushed a (flush_outbox a) (
          flush_outbox-Flushed a d file fits (store ∙ stored)
            (Persists-IsSaved D d c.node a.node p saved)))

  unfoldable pub handle_each : List Event → RaftCarrier S D → RaftCarrier S D
  handle_each [] c = c
  handle_each (e ∷ es) c = handle_each es (handle e c)

  -- Over the events, the term and the vote stay in the ranges of their types.
  unfoldable pub StaysStorable : List Event → RaftCarrier S D → Type 0
  StaysStorable [] c = Unit
  StaysStorable (e ∷ es) c =
      IsStorable (take_in e c).node.persistent × StaysStorable es (handle e c)

  handle_each-IsSaved :
      (es : List Event) (c : RaftCarrier S D) (d : D.State)
      → IsFile D
      → c.store ≡ some d
      → IsSaved D d c.node
      → StaysStorable es c
      → (e : D.State) × ((handle_each es c).store ≡ some e) × IsSaved D e (handle_each es c).node
  unfolding handle_each StaysStorable
  handle_each-IsSaved [] c d file stored saved fits = (d, stored, saved)
  handle_each-IsSaved (e ∷ es) c d file stored saved (fit, fits) =
      let f = handle-Flushed e c d file stored saved fit in
      handle_each-IsSaved es (handle e c) f.disk file f.stored
        (elim f.backed [ inl (dirty, same) ↦ inl dirty | inr held ↦ inr held ]) fits

  -- After a run of a carrier from a durable state, in which the term and the vote stay in their ranges:
  -- whatever the next event is, either the carrier gives the network nothing but the direct reply to
  -- that event, or the term and vote with which the messages were sent are durable: whatever a crash
  -- leaves of the file, a carrier that is started again on it, in whatever state, recovers them.
  pub handle-recover :
      (es : List Event) (e : Event) (c r : RaftCarrier S D) (d f u : D.State)
      → IsFile D
      → c.store ≡ some d
      → IsDurable D d c.node.persistent
      → StaysStorable es c
      → IsStorable (take_in e (handle_each es c)).node.persistent
      → (handle e (handle_each es c)).store ≡ some f
      → D.Crashes f u
      → let b = handle_each es c in
        let m = handle e b in
        let restarted = recover (record r { store = some u }) in
        (m.sent ≡ (take_in e b).sent)
        ⊎ ((restarted.1 ≡ ok tt) × (restarted.0.node.persistent ≡ m.node.persistent))
  unfolding recover recover_from restore_persistent_state
  handle-recover es e c r d f u file stored held fits fit left crash =
      let (b, stored_b, saved_b) = handle_each-IsSaved es c d file stored (inr held) fits in
      let g = handle-Flushed e (handle_each es c) b file stored_b saved_b fit in
      elim g.backed [
        | inl (dirty, same) ↦ inl same
        | inr back ↦
            let same : g.disk ≡ f = disk_inj (sym g.stored ∙ left) in
            let loaded =
              subst (λ x. IsDurable D x (handle e (handle_each es c)).node.persistent) same back u
                crash in
            inr (rw loaded (refl, refl))
      ]
