-- ===== src/Raft/Carrier.antt =====
-- consensus/raft_carrier.cpp: the carrier of a node. It hands the node the messages of the network and
-- the time, saves its term and vote, and gives its messages to the network. The metrics are left out.
pub mod Durability
use nexus_mq.Base.{
  ℕ, ◌-◌, List, [], ◌∷◌, ◌++◌, Bool, true, false, Option, none, some, Expected, ok, err, ltb, leb,
  ◌==◌, ◌||◌, not, if◌then◌else◌,
}
use nexus_mq.Raft.Types.{
  RaftMessage, Payload, request_vote, request_vote_reply, append_entries, append_entries_reply,
  timeout_now, install_snapshot, install_snapshot_reply,
}
use nexus_mq.Raft.Log.{Storage, compact_to}
use nexus_mq.Raft.Node.State.{RaftNode, RaftPersistentState}
use nexus_mq.Raft.Node.Handlers.{
  tick, on_request_vote, on_request_vote_reply, on_append_entries, on_append_entries_reply,
  on_timeout_now, on_install_snapshot, on_install_snapshot_reply, take_messages,
}
use nexus_mq.Raft.StateStore.{Disk, load, save}

-- The log that is compacted is the node's own, as broker/topic_manager.cpp sets it up. `sent` is all
-- that was given to the sink.
pub record RaftCarrier (S : Storage) (D : Disk) : Type 0 where
  pub node : RaftNode S
  pub store : Option D.State
  pub has_log : Bool
  pub applied_entries_threshold : ℕ
  pub sent : List RaftMessage

module _ {S : Storage} where
  unfoldable pub restore_persistent_state : RaftPersistentState → RaftNode S → RaftNode S
  restore_persistent_state s n = record n { persistent = s; persistent_dirty = false }

  unfoldable pub clear_persistent_dirty : RaftNode S → RaftNode S
  clear_persistent_dirty n = record n { persistent_dirty = false }

  abbrev pub reply_to : ℕ → Payload → RaftNode S → RaftMessage
  reply_to receiver payload n = record { sender = n.self; receiver = receiver; payload = payload }

module _ {S : Storage} {D : Disk} where
  unfoldable pub emit : RaftMessage → RaftCarrier S D → RaftCarrier S D
  emit m c = record c { sent = c.sent ++ m ∷ [] }

  unfoldable pub emit_each : List RaftMessage → RaftCarrier S D → RaftCarrier S D
  emit_each [] c = c
  emit_each (m ∷ ms) c = emit_each ms (emit m c)

  abbrev pub with_node : RaftNode S → RaftCarrier S D → RaftCarrier S D
  with_node n c = record c { node = n }

  -- `recover`, for what the store was read as.
  unfoldable pub recover_from :
      Expected RaftPersistentState → RaftCarrier S D → RaftCarrier S D × Expected (Unit {0})
  unfolding restore_persistent_state
  recover_from (err e) c = (c, err e)
  recover_from (ok s) c = (with_node (restore_persistent_state s c.node) c, ok tt)

  unfoldable pub recover : RaftCarrier S D → RaftCarrier S D × Expected (Unit {0})
  unfolding recover_from
  recover c = elim c.store [ none ↦ (c, ok tt) | some d ↦ recover_from (load D d) c ]

  -- The end of `flush_outbox`: the messages of the node go out.
  unfoldable pub transport : RaftCarrier S D → RaftCarrier S D
  unfolding take_messages emit_each
  transport c = let (n, messages) = take_messages c.node in emit_each messages (with_node n c)

  -- Nothing goes out if the state could not be saved.
  unfoldable pub transport_saved : D.State × Expected (Unit {0}) → RaftCarrier S D → RaftCarrier S D
  unfolding transport clear_persistent_dirty
  transport_saved (d, err e) c = record c { store = some d }
  transport_saved (d, ok u) c =
      transport (record c { store = some d; node = clear_persistent_dirty c.node })

  -- `flush_outbox`, for the store that the carrier has.
  unfoldable pub flush_to : Option D.State → RaftCarrier S D → RaftCarrier S D
  unfolding transport_saved
  flush_to none c = transport c
  flush_to (some d) c =
      if c.node.persistent_dirty
      then transport_saved (save D c.node.persistent d) c
      else transport c

  unfoldable pub flush_outbox : RaftCarrier S D → RaftCarrier S D
  unfolding flush_to
  flush_outbox c = flush_to c.store c

  unfoldable pub compact_log : ℕ → RaftCarrier S D → RaftCarrier S D
  compact_log commit c = with_node (record (c.node) { log = (compact_to commit c.node.log).0 }) c

  unfoldable pub maybe_compact : RaftCarrier S D → RaftCarrier S D
  unfolding compact_log
  maybe_compact c =
      let commit = c.node.commit_index in
      let base = c.node.log.snapshot_index in
      if not c.has_log || (c.applied_entries_threshold == 0)
      then c
      else if leb commit base || ltb (commit - base) c.applied_entries_threshold
      then c
      else compact_log commit c

  unfoldable pub on_tick : ℕ → RaftCarrier S D → RaftCarrier S D
  unfolding flush_outbox maybe_compact
  on_tick now c = maybe_compact (flush_outbox (with_node (tick now c.node) c))

  -- The node takes a message, and its direct reply goes out.
  unfoldable pub deliver : ℕ → ℕ → Payload → RaftCarrier S D → RaftCarrier S D
  unfolding emit
  deliver now from (request_vote args) c =
      let (n, reply) = on_request_vote now args c.node in
      emit (reply_to from (request_vote_reply reply) n) (with_node n c)
  deliver now from (append_entries args) c =
      let (n, reply) = on_append_entries now args c.node in
      emit (reply_to from (append_entries_reply reply) n) (with_node n c)
  deliver now from (install_snapshot args) c =
      let (n, reply) = on_install_snapshot now args c.node in
      emit (reply_to from (install_snapshot_reply reply) n) (with_node n c)
  deliver now from (timeout_now args) c = with_node (on_timeout_now now args c.node) c
  deliver now from (request_vote_reply reply) c =
      with_node (on_request_vote_reply now from reply c.node) c
  deliver now from (append_entries_reply reply) c =
      with_node (on_append_entries_reply now from reply c.node) c
  deliver now from (install_snapshot_reply reply) c =
      with_node (on_install_snapshot_reply now from reply c.node) c

  unfoldable pub on_message : ℕ → RaftMessage → RaftCarrier S D → RaftCarrier S D
  unfolding deliver flush_outbox maybe_compact
  on_message now message c =
      maybe_compact (flush_outbox (deliver now message.sender message.payload c))
