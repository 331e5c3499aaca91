-- ===== src/Raft/Node/Step.antt =====
-- Every input that a node can receive, as one step function, and the runs that inputs give.
use nexus_mq.Base.{ℕ, List, [], ◌∷◌}
use nexus_mq.Wire.Bytes.{Bytes}
use nexus_mq.Raft.Types.{
  RequestVoteArgs, RequestVoteReply, AppendEntriesArgs, AppendEntriesReply, TimeoutNowArgs,
  InstallSnapshotArgs, InstallSnapshotReply,
}
use nexus_mq.Raft.Log.{Storage}
use nexus_mq.Raft.Node.State.{RaftNode}
use nexus_mq.Raft.Node.Handlers.{
  tick, propose, transfer_leadership, on_request_vote, on_request_vote_reply, on_append_entries,
  on_append_entries_reply, on_timeout_now, on_install_snapshot, on_install_snapshot_reply,
  take_messages,
}

-- The instant comes first, then the sender of a reply.
pub data Input : Type 0 where
  ticks : ℕ → Input
  proposes : Bytes → Input
  transfers : ℕ → Input
  asks_vote : ℕ → RequestVoteArgs → Input
  answers_vote : ℕ → ℕ → RequestVoteReply → Input
  sends_entries : ℕ → AppendEntriesArgs → Input
  answers_entries : ℕ → ℕ → AppendEntriesReply → Input
  orders_election : ℕ → TimeoutNowArgs → Input
  sends_snapshot : ℕ → InstallSnapshotArgs → Input
  answers_snapshot : ℕ → ℕ → InstallSnapshotReply → Input
  drains_outbox : Input

module _ {S : Storage} where
  unfoldable pub step : RaftNode S → Input → RaftNode S
  step n (ticks now) = tick now n
  step n (proposes batch) = (propose batch n).0
  step n (transfers target) = (transfer_leadership target n).0
  step n (asks_vote now args) = (on_request_vote now args n).0
  step n (answers_vote now from reply) = on_request_vote_reply now from reply n
  step n (sends_entries now args) = (on_append_entries now args n).0
  step n (answers_entries now from reply) = on_append_entries_reply now from reply n
  step n (orders_election now args) = on_timeout_now now args n
  step n (sends_snapshot now args) = (on_install_snapshot now args n).0
  step n (answers_snapshot now from reply) = on_install_snapshot_reply now from reply n
  step n drains_outbox = (take_messages n).0

  unfoldable pub run : RaftNode S → List Input → RaftNode S
  run n [] = n
  run n (i ∷ is) = run (step n i) is
