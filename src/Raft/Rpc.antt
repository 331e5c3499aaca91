-- ===== src/Raft/Rpc.antt =====
-- consensus/raft_rpc.cpp: the messages of Raft on the wire. A signed integer of the source that is never
-- negative is a number here; one that came in negative reads as its pattern.
pub mod RoundTrip
use nexus_mq.Base.{ℕ, ◌^◌, ◌++◌, ◌==◌, if◌then◌else◌, ErrorCode}
use nexus_mq.Base.Int.{pos, to_bits}
use nexus_mq.Wire.Bytes.{Bytes}
use nexus_mq.Wire.Codec.{
  Decoder, ◌>>=◌, return, fail, put_u8, put_i32, put_i64, put_bytes, put_vector, get_u8, get_i32,
  get_i64, get_bytes, get_vector,
}
use nexus_mq.Wire.Flags.{put_bool, get_bool}
use nexus_mq.Raft.Types.{
  RaftEntryType, entry_data, entry_config, RaftLogEntry, Snapshot, RequestVoteArgs,
  RequestVoteReply, AppendEntriesArgs, AppendEntriesReply, TimeoutNowArgs, InstallSnapshotArgs,
  InstallSnapshotReply,
}

pub put_number64 : ℕ → Bytes
put_number64 value = put_i64 (pos value)

pub put_number32 : ℕ → Bytes
put_number32 value = put_i32 (pos value)

unfoldable pub get_number64 : Decoder ℕ
get_number64 = do value ← get_i64; return (to_bits (2 ^ 63) value)

unfoldable pub get_number32 : Decoder ℕ
get_number32 = do value ← get_i32; return (to_bits (2 ^ 31) value)

unfoldable pub entry_type_code : RaftEntryType → ℕ
entry_type_code entry_data = 0
entry_type_code entry_config = 1

pub put_entry_type : RaftEntryType → Bytes
unfolding entry_type_code
put_entry_type type = put_u8 (entry_type_code type)

-- `if (*type > RaftEntryType::Config)` is an error.
unfoldable pub check_entry_type : ℕ → Decoder RaftEntryType
check_entry_type code =
    if code == 0
    then return entry_data
    else if code == 1
    then return entry_config
    else fail ErrorCode.invalid_argument

pub get_entry_type : Decoder RaftEntryType
unfolding check_entry_type
get_entry_type = do code ← get_u8; check_entry_type code

pub encode_entry : RaftLogEntry → Bytes
encode_entry m =
    put_number64 m.term ++ (put_number64 m.index ++ (put_entry_type m.type ++ put_bytes m.payload))

pub decode_entry : Decoder RaftLogEntry
decode_entry = do
  term ← get_number64
  index ← get_number64
  type ← get_entry_type
  payload ← get_bytes
  return (record { term = term; index = index; type = type; payload = payload })

pub encode_snapshot : Snapshot → Bytes
encode_snapshot m =
    put_number64 m.last_included_index
    ++ (put_number64 m.last_included_term
        ++ (put_number64 m.last_included_offset ++ put_bytes m.state))

pub decode_snapshot : Decoder Snapshot
decode_snapshot = do
  last_included_index ← get_number64
  last_included_term ← get_number64
  last_included_offset ← get_number64
  state ← get_bytes
  return (record {
    last_included_index = last_included_index;
    last_included_term = last_included_term;
    last_included_offset = last_included_offset;
    state = state;
  })

pub encode_request_vote_args : RequestVoteArgs → Bytes
encode_request_vote_args m =
    put_number64 m.term
    ++ (put_number32 m.candidate_id
        ++ (put_number64 m.last_log_index ++ (put_number64 m.last_log_term ++ put_bool m.pre_vote)))

pub decode_request_vote_args : Decoder RequestVoteArgs
decode_request_vote_args = do
  term ← get_number64
  candidate_id ← get_number32
  last_log_index ← get_number64
  last_log_term ← get_number64
  pre_vote ← get_bool
  return (record {
    term = term;
    candidate_id = candidate_id;
    last_log_index = last_log_index;
    last_log_term = last_log_term;
    pre_vote = pre_vote;
  })

pub encode_request_vote_reply : RequestVoteReply → Bytes
encode_request_vote_reply m = put_number64 m.term ++ put_bool m.vote_granted

pub decode_request_vote_reply : Decoder RequestVoteReply
decode_request_vote_reply = do
  term ← get_number64
  vote_granted ← get_bool
  return (record { term = term; vote_granted = vote_granted })

pub encode_append_entries_args : AppendEntriesArgs → Bytes
encode_append_entries_args m =
    put_number64 m.term
    ++ (put_number32 m.leader_id
        ++ (put_number64 m.prev_log_index
            ++ (put_number64 m.prev_log_term
                ++ (put_vector encode_entry m.entries
                    ++ (put_number64 m.leader_commit ++ put_number32 m.leader_epoch)))))

pub decode_append_entries_args : Decoder AppendEntriesArgs
decode_append_entries_args = do
  term ← get_number64
  leader_id ← get_number32
  prev_log_index ← get_number64
  prev_log_term ← get_number64
  entries ← get_vector decode_entry
  leader_commit ← get_number64
  leader_epoch ← get_number32
  return (record {
    term = term;
    leader_id = leader_id;
    prev_log_index = prev_log_index;
    prev_log_term = prev_log_term;
    entries = entries;
    leader_commit = leader_commit;
    leader_epoch = leader_epoch;
  })

pub encode_append_entries_reply : AppendEntriesReply → Bytes
encode_append_entries_reply m =
    put_number64 m.term ++ (put_bool m.success ++ put_number64 m.conflict_index)

pub decode_append_entries_reply : Decoder AppendEntriesReply
decode_append_entries_reply = do
  term ← get_number64
  success ← get_bool
  conflict_index ← get_number64
  return (record { term = term; success = success; conflict_index = conflict_index })

pub encode_timeout_now_args : TimeoutNowArgs → Bytes
encode_timeout_now_args m = put_number64 m.term ++ put_number32 m.leader_id

pub decode_timeout_now_args : Decoder TimeoutNowArgs
decode_timeout_now_args = do
  term ← get_number64
  leader_id ← get_number32
  return (record { term = term; leader_id = leader_id })

pub encode_install_snapshot_args : InstallSnapshotArgs → Bytes
encode_install_snapshot_args m =
    put_number64 m.term ++ (put_number32 m.leader_id ++ encode_snapshot m.snapshot)

pub decode_install_snapshot_args : Decoder InstallSnapshotArgs
decode_install_snapshot_args = do
  term ← get_number64
  leader_id ← get_number32
  snapshot ← decode_snapshot
  return (record { term = term; leader_id = leader_id; snapshot = snapshot })

pub encode_install_snapshot_reply : InstallSnapshotReply → Bytes
encode_install_snapshot_reply m = put_number64 m.term

pub decode_install_snapshot_reply : Decoder InstallSnapshotReply
decode_install_snapshot_reply = do term ← get_number64; return (record { term = term })
