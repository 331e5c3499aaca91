-- ===== src/Raft/Rpc/RoundTrip.antt =====
-- Every message of Raft is decoded to what was encoded, whatever follows it.
use nexus_mq.Base.{◌^◌, ◌≤◌, ◌<◌, refl, ap, ok, append_assoc, All, length, arith}
use nexus_mq.Base.Int.{pos, to_bits}
use nexus_mq.Wire.Codec.RoundTrip.{
  IsSized, Undoes, get_u8-put_u8, get_i32-put_i32, get_i64-put_i64, get_bytes-put_bytes,
  get_vector-put_vector, put_i64_filled, filled-append,
}
use nexus_mq.Wire.Flags.{get_bool-put_bool}
use nexus_mq.Raft.Types.{
  RaftEntryType, entry_data, entry_config, RaftLogEntry, Snapshot, RequestVoteArgs,
  RequestVoteReply, AppendEntriesArgs, AppendEntriesReply, TimeoutNowArgs, InstallSnapshotArgs,
  InstallSnapshotReply,
}
use nexus_mq.Raft.Rpc.{
  put_number64, put_number32, get_number64, get_number32, entry_type_code, put_entry_type,
  check_entry_type, get_entry_type, encode_entry, decode_entry, encode_snapshot, decode_snapshot,
  encode_request_vote_args, decode_request_vote_args, encode_request_vote_reply,
  decode_request_vote_reply, encode_append_entries_args, decode_append_entries_args,
  encode_append_entries_reply, decode_append_entries_reply, encode_timeout_now_args,
  decode_timeout_now_args, encode_install_snapshot_args, decode_install_snapshot_args,
  encode_install_snapshot_reply, decode_install_snapshot_reply,
}

get_number64-put_number64 : Undoes (λ v. v < 2 ^ 63) put_number64 get_number64
unfolding get_number64 put_number64 to_bits
get_number64-put_number64 v h rest =
    rw (get_i64-put_i64 (pos v) h rest) (ap (λ i. ok (i, rest)) (omega arith))

pub get_number32-put_number32 : Undoes (λ v. v < 2 ^ 31) put_number32 get_number32
unfolding get_number32 put_number32 to_bits
get_number32-put_number32 v h rest =
    rw (get_i32-put_i32 (pos v) h rest) (ap (λ i. ok (i, rest)) (omega arith))

abbrev IsEntryType : RaftEntryType → Type 0
IsEntryType type = Unit

get_entry_type-put_entry_type : Undoes IsEntryType put_entry_type get_entry_type
unfolding get_entry_type put_entry_type entry_type_code check_entry_type
get_entry_type-put_entry_type entry_data h rest = rw (get_u8-put_u8 0 (omega arith) rest) refl
get_entry_type-put_entry_type entry_config h rest = rw (get_u8-put_u8 1 (omega arith) rest) refl

pub record IsRaftLogEntry (m : RaftLogEntry) : Type 0 where
  pub term : m.term < 2 ^ 63
  pub index : m.index < 2 ^ 63
  pub payload : IsSized m.payload

encode_entry_filled : (m : RaftLogEntry) → 1 ≤ length (encode_entry m)
unfolding encode_entry put_number64
encode_entry_filled m = filled-append _ _ (put_i64_filled (pos m.term))

pub decode_entry-encode_entry : Undoes IsRaftLogEntry encode_entry decode_entry
unfolding encode_entry decode_entry
decode_entry-encode_entry m v rest = simp (
  append_assoc,
  get_number64-put_number64 m.term v.term,
  get_number64-put_number64 m.index v.index,
  get_entry_type-put_entry_type m.type tt,
  get_bytes-put_bytes m.payload v.payload,
)

pub record IsSnapshot (m : Snapshot) : Type 0 where
  pub last_included_index : m.last_included_index < 2 ^ 63
  pub last_included_term : m.last_included_term < 2 ^ 63
  pub last_included_offset : m.last_included_offset < 2 ^ 63
  pub state : IsSized m.state

pub decode_snapshot-encode_snapshot : Undoes IsSnapshot encode_snapshot decode_snapshot
unfolding encode_snapshot decode_snapshot
decode_snapshot-encode_snapshot m v rest = simp (
  append_assoc,
  get_number64-put_number64 m.last_included_index v.last_included_index,
  get_number64-put_number64 m.last_included_term v.last_included_term,
  get_number64-put_number64 m.last_included_offset v.last_included_offset,
  get_bytes-put_bytes m.state v.state,
)

pub record IsRequestVoteArgs (m : RequestVoteArgs) : Type 0 where
  pub term : m.term < 2 ^ 63
  pub candidate_id : m.candidate_id < 2 ^ 31
  pub last_log_index : m.last_log_index < 2 ^ 63
  pub last_log_term : m.last_log_term < 2 ^ 63

pub decode_request_vote_args-encode_request_vote_args :
    Undoes IsRequestVoteArgs encode_request_vote_args decode_request_vote_args
unfolding encode_request_vote_args decode_request_vote_args
decode_request_vote_args-encode_request_vote_args m v rest = simp (
  append_assoc,
  get_number64-put_number64 m.term v.term,
  get_number32-put_number32 m.candidate_id v.candidate_id,
  get_number64-put_number64 m.last_log_index v.last_log_index,
  get_number64-put_number64 m.last_log_term v.last_log_term,
  get_bool-put_bool m.pre_vote tt,
)

pub record IsRequestVoteReply (m : RequestVoteReply) : Type 0 where
  pub term : m.term < 2 ^ 63

pub decode_request_vote_reply-encode_request_vote_reply :
    Undoes IsRequestVoteReply encode_request_vote_reply decode_request_vote_reply
unfolding encode_request_vote_reply decode_request_vote_reply
decode_request_vote_reply-encode_request_vote_reply m v rest =
    simp
      (append_assoc, get_number64-put_number64 m.term v.term, get_bool-put_bool m.vote_granted tt)

pub record IsAppendEntriesArgs (m : AppendEntriesArgs) : Type 0 where
  pub term : m.term < 2 ^ 63
  pub leader_id : m.leader_id < 2 ^ 31
  pub prev_log_index : m.prev_log_index < 2 ^ 63
  pub prev_log_term : m.prev_log_term < 2 ^ 63
  pub sized : IsSized m.entries
  pub entries : All IsRaftLogEntry m.entries
  pub leader_commit : m.leader_commit < 2 ^ 63
  pub leader_epoch : m.leader_epoch < 2 ^ 31

pub decode_append_entries_args-encode_append_entries_args :
    Undoes IsAppendEntriesArgs encode_append_entries_args decode_append_entries_args
unfolding encode_append_entries_args decode_append_entries_args
decode_append_entries_args-encode_append_entries_args m v rest = simp (
  append_assoc,
  get_number64-put_number64 m.term v.term,
  get_number32-put_number32 m.leader_id v.leader_id,
  get_number64-put_number64 m.prev_log_index v.prev_log_index,
  get_number64-put_number64 m.prev_log_term v.prev_log_term,
  get_vector-put_vector IsRaftLogEntry encode_entry decode_entry decode_entry-encode_entry
      encode_entry_filled m.entries v.sized v.entries,
  get_number64-put_number64 m.leader_commit v.leader_commit,
  get_number32-put_number32 m.leader_epoch v.leader_epoch,
)

pub record IsAppendEntriesReply (m : AppendEntriesReply) : Type 0 where
  pub term : m.term < 2 ^ 63
  pub conflict_index : m.conflict_index < 2 ^ 63

pub decode_append_entries_reply-encode_append_entries_reply :
    Undoes IsAppendEntriesReply encode_append_entries_reply decode_append_entries_reply
unfolding encode_append_entries_reply decode_append_entries_reply
decode_append_entries_reply-encode_append_entries_reply m v rest = simp (
  append_assoc,
  get_number64-put_number64 m.term v.term,
  get_bool-put_bool m.success tt,
  get_number64-put_number64 m.conflict_index v.conflict_index,
)

pub record IsTimeoutNowArgs (m : TimeoutNowArgs) : Type 0 where
  pub term : m.term < 2 ^ 63
  pub leader_id : m.leader_id < 2 ^ 31

pub decode_timeout_now_args-encode_timeout_now_args :
    Undoes IsTimeoutNowArgs encode_timeout_now_args decode_timeout_now_args
unfolding encode_timeout_now_args decode_timeout_now_args
decode_timeout_now_args-encode_timeout_now_args m v rest = simp (
  append_assoc,
  get_number64-put_number64 m.term v.term,
  get_number32-put_number32 m.leader_id v.leader_id,
)

pub record IsInstallSnapshotArgs (m : InstallSnapshotArgs) : Type 0 where
  pub term : m.term < 2 ^ 63
  pub leader_id : m.leader_id < 2 ^ 31
  pub snapshot : IsSnapshot m.snapshot

pub decode_install_snapshot_args-encode_install_snapshot_args :
    Undoes IsInstallSnapshotArgs encode_install_snapshot_args decode_install_snapshot_args
unfolding encode_install_snapshot_args decode_install_snapshot_args
decode_install_snapshot_args-encode_install_snapshot_args m v rest = simp (
  append_assoc,
  get_number64-put_number64 m.term v.term,
  get_number32-put_number32 m.leader_id v.leader_id,
  decode_snapshot-encode_snapshot m.snapshot v.snapshot,
)

pub record IsInstallSnapshotReply (m : InstallSnapshotReply) : Type 0 where
  pub term : m.term < 2 ^ 63

pub decode_install_snapshot_reply-encode_install_snapshot_reply :
    Undoes IsInstallSnapshotReply encode_install_snapshot_reply decode_install_snapshot_reply
unfolding encode_install_snapshot_reply decode_install_snapshot_reply
decode_install_snapshot_reply-encode_install_snapshot_reply m v rest =
    rw (get_number64-put_number64 m.term v.term rest) refl
