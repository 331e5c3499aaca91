-- ===== src/Raft/Types.antt =====
-- consensus/raft_state.hpp and raft_rpc.hpp: the data of Raft. Terms, indices, offsets, epochs and
-- node ids are signed integers there and never negative in a run; here they are numbers, and they
-- do not reach the end of their width.
use nexus_mq.Base.{ℕ, List, Bool}
use nexus_mq.Wire.Bytes.{Bytes}

pub data RaftRole : Type 0 where
  follower pre_candidate candidate leader : RaftRole

pub data RaftEntryType : Type 0 where
  entry_data entry_config : RaftEntryType

pub record RaftLogEntry : Type 0 where
  pub term : ℕ
  pub index : ℕ
  pub type : RaftEntryType
  pub payload : Bytes

pub record Snapshot : Type 0 where
  pub last_included_index : ℕ
  pub last_included_term : ℕ
  pub last_included_offset : ℕ
  pub state : Bytes

pub record RequestVoteArgs : Type 0 where
  pub term : ℕ
  pub candidate_id : ℕ
  pub last_log_index : ℕ
  pub last_log_term : ℕ
  pub pre_vote : Bool

pub record RequestVoteReply : Type 0 where
  pub term : ℕ
  pub vote_granted : Bool

pub record AppendEntriesArgs : Type 0 where
  pub term : ℕ
  pub leader_id : ℕ
  pub prev_log_index : ℕ
  pub prev_log_term : ℕ
  pub entries : List RaftLogEntry
  pub leader_commit : ℕ
  pub leader_epoch : ℕ

pub record AppendEntriesReply : Type 0 where
  pub term : ℕ
  pub success : Bool
  pub conflict_index : ℕ

pub record TimeoutNowArgs : Type 0 where
  pub term : ℕ
  pub leader_id : ℕ

pub record InstallSnapshotArgs : Type 0 where
  pub term : ℕ
  pub leader_id : ℕ
  pub snapshot : Snapshot

pub record InstallSnapshotReply : Type 0 where
  pub term : ℕ

pub data Payload : Type 0 where
  request_vote : RequestVoteArgs → Payload
  request_vote_reply : RequestVoteReply → Payload
  append_entries : AppendEntriesArgs → Payload
  append_entries_reply : AppendEntriesReply → Payload
  timeout_now : TimeoutNowArgs → Payload
  install_snapshot : InstallSnapshotArgs → Payload
  install_snapshot_reply : InstallSnapshotReply → Payload

pub record RaftMessage : Type 0 where
  pub sender : ℕ
  pub receiver : ℕ
  pub payload : Payload
