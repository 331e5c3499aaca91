-- ===== src/Wire/Messages/Group.antt =====
-- protocol/messages.hpp and .cpp: consumer groups. Each message is a record, the bytes that its
-- `encode` appends, and its `decode`.
pub mod RoundTrip
use nexus_mq.Base.{◌++◌, ◌≤◌, append_assoc, List, Bool, All, arith, length}
use nexus_mq.Base.Int.{ℤ}
use Prim.Native.Nat.{ℕ}
use nexus_mq.Wire.Bytes.{Bytes}
use nexus_mq.Wire.Errors.{
  WireError, IsWireError, put_wire_error, get_wire_error, get_wire_error-put_wire_error,
}
use nexus_mq.Wire.Frame.{
  ApiKey, IsApiKey, put_api_key, get_api_key, get_api_key-put_api_key, put_api_key_filled,
  ApiVersionRange,
}
use nexus_mq.Wire.Codec.{
  Decoder, ◌>>=◌, return, put_u16, put_i16, put_i32, put_i64, put_bytes, put_string, put_vector,
  get_u16, get_i16, get_i32, get_i64, get_bytes, get_string, get_vector,
}
use nexus_mq.Wire.Codec.RoundTrip.{
  IsU16, IsI16, IsI32, IsI64, IsSized, Undoes, get_u16-put_u16, get_i16-put_i16, get_i32-put_i32,
  get_i64-put_i64, get_bytes-put_bytes, get_string-put_string, get_vector-put_vector,
  put_u16_filled, put_i32_filled, put_string_filled, filled-append,
}
use nexus_mq.Wire.Flags.{
  Acks, IsAcks, put_acks, get_acks, get_acks-put_acks, IsBool, put_bool, get_bool,
  get_bool-put_bool,
}

pub record GroupMember : Type 0 where
  pub member_id : Bytes
  pub subscription : Bytes

pub encode_group_member : GroupMember → Bytes
encode_group_member m = put_string m.member_id ++ put_bytes m.subscription

pub decode_group_member : Decoder GroupMember
decode_group_member = do
  member_id ← get_string
  subscription ← get_bytes
  return (record { member_id = member_id; subscription = subscription })

pub record GroupAssignment : Type 0 where
  pub member_id : Bytes
  pub assignment : Bytes

pub encode_group_assignment : GroupAssignment → Bytes
encode_group_assignment m = put_string m.member_id ++ put_bytes m.assignment

pub decode_group_assignment : Decoder GroupAssignment
decode_group_assignment = do
  member_id ← get_string
  assignment ← get_bytes
  return (record { member_id = member_id; assignment = assignment })

pub record JoinGroupRequest : Type 0 where
  pub group : Bytes
  pub member_id : Bytes
  pub session_timeout_ms : ℤ
  pub subscription : Bytes

pub encode_join_group_request : JoinGroupRequest → Bytes
encode_join_group_request m =
    put_string m.group
    ++ (put_string m.member_id ++ (put_i32 m.session_timeout_ms ++ put_bytes m.subscription))

pub decode_join_group_request : Decoder JoinGroupRequest
decode_join_group_request = do
  group ← get_string
  member_id ← get_string
  session_timeout_ms ← get_i32
  subscription ← get_bytes
  return (record {
    group = group;
    member_id = member_id;
    session_timeout_ms = session_timeout_ms;
    subscription = subscription;
  })

pub record JoinGroupResponse : Type 0 where
  pub error_code : WireError
  pub generation : ℤ
  pub member_id : Bytes
  pub leader_id : Bytes
  pub is_leader : Bool
  pub members : List GroupMember

pub encode_join_group_response : JoinGroupResponse → Bytes
encode_join_group_response m =
    put_wire_error m.error_code
    ++ (put_i32 m.generation
        ++ (put_string m.member_id
            ++ (put_string m.leader_id
                ++ (put_bool m.is_leader ++ put_vector encode_group_member m.members))))

pub decode_join_group_response : Decoder JoinGroupResponse
decode_join_group_response = do
  error_code ← get_wire_error
  generation ← get_i32
  member_id ← get_string
  leader_id ← get_string
  is_leader ← get_bool
  members ← get_vector decode_group_member
  return (record {
    error_code = error_code;
    generation = generation;
    member_id = member_id;
    leader_id = leader_id;
    is_leader = is_leader;
    members = members;
  })

pub record SyncGroupRequest : Type 0 where
  pub group : Bytes
  pub member_id : Bytes
  pub generation : ℤ
  pub assignments : List GroupAssignment

pub encode_sync_group_request : SyncGroupRequest → Bytes
encode_sync_group_request m =
    put_string m.group
    ++ (put_string m.member_id
        ++ (put_i32 m.generation ++ put_vector encode_group_assignment m.assignments))

pub decode_sync_group_request : Decoder SyncGroupRequest
decode_sync_group_request = do
  group ← get_string
  member_id ← get_string
  generation ← get_i32
  assignments ← get_vector decode_group_assignment
  return (record {
    group = group;
    member_id = member_id;
    generation = generation;
    assignments = assignments;
  })

pub record SyncGroupResponse : Type 0 where
  pub error_code : WireError
  pub assignment : Bytes

pub encode_sync_group_response : SyncGroupResponse → Bytes
encode_sync_group_response m = put_wire_error m.error_code ++ put_bytes m.assignment

pub decode_sync_group_response : Decoder SyncGroupResponse
decode_sync_group_response = do
  error_code ← get_wire_error
  assignment ← get_bytes
  return (record { error_code = error_code; assignment = assignment })

pub record HeartbeatRequest : Type 0 where
  pub group : Bytes
  pub member_id : Bytes
  pub generation : ℤ

pub encode_heartbeat_request : HeartbeatRequest → Bytes
encode_heartbeat_request m = put_string m.group ++ (put_string m.member_id ++ put_i32 m.generation)

pub decode_heartbeat_request : Decoder HeartbeatRequest
decode_heartbeat_request = do
  group ← get_string
  member_id ← get_string
  generation ← get_i32
  return (record { group = group; member_id = member_id; generation = generation })

pub record HeartbeatResponse : Type 0 where
  pub error_code : WireError

pub encode_heartbeat_response : HeartbeatResponse → Bytes
encode_heartbeat_response m = put_wire_error m.error_code

pub decode_heartbeat_response : Decoder HeartbeatResponse
decode_heartbeat_response = do
  error_code ← get_wire_error
  return (record { error_code = error_code })

pub record LeaveGroupRequest : Type 0 where
  pub group : Bytes
  pub member_id : Bytes

pub encode_leave_group_request : LeaveGroupRequest → Bytes
encode_leave_group_request m = put_string m.group ++ put_string m.member_id

pub decode_leave_group_request : Decoder LeaveGroupRequest
decode_leave_group_request = do
  group ← get_string
  member_id ← get_string
  return (record { group = group; member_id = member_id })

pub record LeaveGroupResponse : Type 0 where
  pub error_code : WireError

pub encode_leave_group_response : LeaveGroupResponse → Bytes
encode_leave_group_response m = put_wire_error m.error_code

pub decode_leave_group_response : Decoder LeaveGroupResponse
decode_leave_group_response = do
  error_code ← get_wire_error
  return (record { error_code = error_code })
