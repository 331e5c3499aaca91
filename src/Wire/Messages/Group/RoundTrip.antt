-- ===== src/Wire/Messages/Group/RoundTrip.antt =====
-- Every message of the parent is decoded to what was encoded, whatever follows it.
use nexus_mq.Base.{◌≡◌, ok, ◌++◌, ◌≤◌, append_assoc, All, length}
use nexus_mq.Wire.Bytes.{Bytes}
use nexus_mq.Wire.Errors.{IsWireError, get_wire_error-put_wire_error}
use nexus_mq.Wire.Codec.RoundTrip.{
  IsI32, IsSized, get_i32-put_i32, get_bytes-put_bytes, get_string-put_string,
  get_vector-put_vector, put_string_filled, filled-append,
}
use nexus_mq.Wire.Flags.{IsBool, get_bool-put_bool}
use nexus_mq.Wire.Messages.Group.{
  GroupMember, encode_group_member, decode_group_member, GroupAssignment, encode_group_assignment,
  decode_group_assignment, JoinGroupRequest, encode_join_group_request, decode_join_group_request,
  JoinGroupResponse, encode_join_group_response, decode_join_group_response, SyncGroupRequest,
  encode_sync_group_request, decode_sync_group_request, SyncGroupResponse,
  encode_sync_group_response, decode_sync_group_response, HeartbeatRequest,
  encode_heartbeat_request, decode_heartbeat_request, HeartbeatResponse, encode_heartbeat_response,
  decode_heartbeat_response, LeaveGroupRequest, encode_leave_group_request,
  decode_leave_group_request, LeaveGroupResponse, encode_leave_group_response,
  decode_leave_group_response,
}

pub record IsGroupMember (m : GroupMember) : Type 0 where
  pub member_id : IsSized m.member_id
  pub subscription : IsSized m.subscription

encode_group_member_filled : (m : GroupMember) → 1 ≤ length (encode_group_member m)
unfolding encode_group_member
encode_group_member_filled m = filled-append _ _ (put_string_filled m.member_id)

-- Decoding what `GroupMember` encodes gives it back and leaves what follows, for a
-- message whose fields fit their width on the wire.
pub decode_group_member-encode_group_member :
    (m : GroupMember)
    → IsGroupMember m
    → (rest : Bytes) → decode_group_member (encode_group_member m ++ rest) ≡ ok (m, rest)
unfolding encode_group_member decode_group_member
decode_group_member-encode_group_member m v rest = simp (
  append_assoc,
  get_string-put_string m.member_id v.member_id,
  get_bytes-put_bytes m.subscription v.subscription,
)

pub record IsGroupAssignment (m : GroupAssignment) : Type 0 where
  pub member_id : IsSized m.member_id
  pub assignment : IsSized m.assignment

encode_group_assignment_filled : (m : GroupAssignment) → 1 ≤ length (encode_group_assignment m)
unfolding encode_group_assignment
encode_group_assignment_filled m = filled-append _ _ (put_string_filled m.member_id)

-- Decoding what `GroupAssignment` encodes gives it back and leaves what follows, for a
-- message whose fields fit their width on the wire.
pub decode_group_assignment-encode_group_assignment :
    (m : GroupAssignment)
    → IsGroupAssignment m
    → (rest : Bytes) → decode_group_assignment (encode_group_assignment m ++ rest) ≡ ok (m, rest)
unfolding encode_group_assignment decode_group_assignment
decode_group_assignment-encode_group_assignment m v rest = simp (
  append_assoc,
  get_string-put_string m.member_id v.member_id,
  get_bytes-put_bytes m.assignment v.assignment,
)

pub record IsJoinGroupRequest (m : JoinGroupRequest) : Type 0 where
  pub group : IsSized m.group
  pub member_id : IsSized m.member_id
  pub session_timeout_ms : IsI32 m.session_timeout_ms
  pub subscription : IsSized m.subscription

-- Decoding what `JoinGroupRequest` encodes gives it back and leaves what follows, for a
-- message whose fields fit their width on the wire.
pub decode_join_group_request-encode_join_group_request :
    (m : JoinGroupRequest)
    → IsJoinGroupRequest m
    → (rest : Bytes)
    → decode_join_group_request (encode_join_group_request m ++ rest) ≡ ok (m, rest)
unfolding encode_join_group_request decode_join_group_request
decode_join_group_request-encode_join_group_request m v rest = simp (
  append_assoc,
  get_string-put_string m.group v.group,
  get_string-put_string m.member_id v.member_id,
  get_i32-put_i32 m.session_timeout_ms v.session_timeout_ms,
  get_bytes-put_bytes m.subscription v.subscription,
)

pub record IsJoinGroupResponse (m : JoinGroupResponse) : Type 0 where
  pub error_code : IsWireError m.error_code
  pub generation : IsI32 m.generation
  pub member_id : IsSized m.member_id
  pub leader_id : IsSized m.leader_id
  pub is_leader : IsBool m.is_leader
  pub members_sized : IsSized m.members
  pub members : All IsGroupMember m.members

-- Decoding what `JoinGroupResponse` encodes gives it back and leaves what follows, for a
-- message whose fields fit their width on the wire.
pub decode_join_group_response-encode_join_group_response :
    (m : JoinGroupResponse)
    → IsJoinGroupResponse m
    → (rest : Bytes)
    → decode_join_group_response (encode_join_group_response m ++ rest) ≡ ok (m, rest)
unfolding encode_join_group_response decode_join_group_response
decode_join_group_response-encode_join_group_response m v rest = simp (
  append_assoc,
  get_wire_error-put_wire_error m.error_code v.error_code,
  get_i32-put_i32 m.generation v.generation,
  get_string-put_string m.member_id v.member_id,
  get_string-put_string m.leader_id v.leader_id,
  get_bool-put_bool m.is_leader v.is_leader,
  get_vector-put_vector IsGroupMember encode_group_member decode_group_member
      decode_group_member-encode_group_member encode_group_member_filled m.members v.members_sized
      v.members,
)

pub record IsSyncGroupRequest (m : SyncGroupRequest) : Type 0 where
  pub group : IsSized m.group
  pub member_id : IsSized m.member_id
  pub generation : IsI32 m.generation
  pub assignments_sized : IsSized m.assignments
  pub assignments : All IsGroupAssignment m.assignments

-- Decoding what `SyncGroupRequest` encodes gives it back and leaves what follows, for a
-- message whose fields fit their width on the wire.
pub decode_sync_group_request-encode_sync_group_request :
    (m : SyncGroupRequest)
    → IsSyncGroupRequest m
    → (rest : Bytes)
    → decode_sync_group_request (encode_sync_group_request m ++ rest) ≡ ok (m, rest)
unfolding encode_sync_group_request decode_sync_group_request
decode_sync_group_request-encode_sync_group_request m v rest = simp (
  append_assoc,
  get_string-put_string m.group v.group,
  get_string-put_string m.member_id v.member_id,
  get_i32-put_i32 m.generation v.generation,
  get_vector-put_vector IsGroupAssignment encode_group_assignment decode_group_assignment
      decode_group_assignment-encode_group_assignment encode_group_assignment_filled m.assignments
      v.assignments_sized v.assignments,
)

pub record IsSyncGroupResponse (m : SyncGroupResponse) : Type 0 where
  pub error_code : IsWireError m.error_code
  pub assignment : IsSized m.assignment

-- Decoding what `SyncGroupResponse` encodes gives it back and leaves what follows, for a
-- message whose fields fit their width on the wire.
pub decode_sync_group_response-encode_sync_group_response :
    (m : SyncGroupResponse)
    → IsSyncGroupResponse m
    → (rest : Bytes)
    → decode_sync_group_response (encode_sync_group_response m ++ rest) ≡ ok (m, rest)
unfolding encode_sync_group_response decode_sync_group_response
decode_sync_group_response-encode_sync_group_response m v rest = simp (
  append_assoc,
  get_wire_error-put_wire_error m.error_code v.error_code,
  get_bytes-put_bytes m.assignment v.assignment,
)

pub record IsHeartbeatRequest (m : HeartbeatRequest) : Type 0 where
  pub group : IsSized m.group
  pub member_id : IsSized m.member_id
  pub generation : IsI32 m.generation

-- Decoding what `HeartbeatRequest` encodes gives it back and leaves what follows, for a
-- message whose fields fit their width on the wire.
pub decode_heartbeat_request-encode_heartbeat_request :
    (m : HeartbeatRequest)
    → IsHeartbeatRequest m
    → (rest : Bytes) → decode_heartbeat_request (encode_heartbeat_request m ++ rest) ≡ ok (m, rest)
unfolding encode_heartbeat_request decode_heartbeat_request
decode_heartbeat_request-encode_heartbeat_request m v rest = simp (
  append_assoc,
  get_string-put_string m.group v.group,
  get_string-put_string m.member_id v.member_id,
  get_i32-put_i32 m.generation v.generation,
)

pub record IsHeartbeatResponse (m : HeartbeatResponse) : Type 0 where
  pub error_code : IsWireError m.error_code

-- Decoding what `HeartbeatResponse` encodes gives it back and leaves what follows, for a
-- message whose fields fit their width on the wire.
pub decode_heartbeat_response-encode_heartbeat_response :
    (m : HeartbeatResponse)
    → IsHeartbeatResponse m
    → (rest : Bytes)
    → decode_heartbeat_response (encode_heartbeat_response m ++ rest) ≡ ok (m, rest)
unfolding encode_heartbeat_response decode_heartbeat_response
decode_heartbeat_response-encode_heartbeat_response m v rest =
    simp (get_wire_error-put_wire_error m.error_code v.error_code)

pub record IsLeaveGroupRequest (m : LeaveGroupRequest) : Type 0 where
  pub group : IsSized m.group
  pub member_id : IsSized m.member_id

-- Decoding what `LeaveGroupRequest` encodes gives it back and leaves what follows, for a
-- message whose fields fit their width on the wire.
pub decode_leave_group_request-encode_leave_group_request :
    (m : LeaveGroupRequest)
    → IsLeaveGroupRequest m
    → (rest : Bytes)
    → decode_leave_group_request (encode_leave_group_request m ++ rest) ≡ ok (m, rest)
unfolding encode_leave_group_request decode_leave_group_request
decode_leave_group_request-encode_leave_group_request m v rest = simp (
  append_assoc,
  get_string-put_string m.group v.group,
  get_string-put_string m.member_id v.member_id,
)

pub record IsLeaveGroupResponse (m : LeaveGroupResponse) : Type 0 where
  pub error_code : IsWireError m.error_code

-- Decoding what `LeaveGroupResponse` encodes gives it back and leaves what follows, for a
-- message whose fields fit their width on the wire.
pub decode_leave_group_response-encode_leave_group_response :
    (m : LeaveGroupResponse)
    → IsLeaveGroupResponse m
    → (rest : Bytes)
    → decode_leave_group_response (encode_leave_group_response m ++ rest) ≡ ok (m, rest)
unfolding encode_leave_group_response decode_leave_group_response
decode_leave_group_response-encode_leave_group_response m v rest =
    simp (get_wire_error-put_wire_error m.error_code v.error_code)
