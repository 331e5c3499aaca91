-- ===== src/Wire/Messages/Offsets.antt =====
-- protocol/messages.hpp and .cpp: committed offsets. Each message is a record, the bytes that its
-- `encode` appends, and its `decode`.
pub mod RoundTrip
use nexus_mq.Base.{◌++◌, ◌≤◌, append_assoc, List, Bool, All, arith, length}
use nexus_mq.Base.Int.{ℤ}
use Prim.Native.Nat.{ℕ}
use nexus_mq.Wire.Bytes.{Bytes}
use nexus_mq.Wire.Errors.{
  WireError, IsWireError, put_wire_error, get_wire_error, get_wire_error-put_wire_error,
}
use nexus_mq.Wire.Frame.{
  ApiKey, IsApiKey, put_api_key, get_api_key, get_api_key-put_api_key, put_api_key_filled,
  ApiVersionRange,
}
use nexus_mq.Wire.Codec.{
  Decoder, ◌>>=◌, return, put_u16, put_i16, put_i32, put_i64, put_bytes, put_string, put_vector,
  get_u16, get_i16, get_i32, get_i64, get_bytes, get_string, get_vector,
}
use nexus_mq.Wire.Codec.RoundTrip.{
  IsU16, IsI16, IsI32, IsI64, IsSized, Undoes, get_u16-put_u16, get_i16-put_i16, get_i32-put_i32,
  get_i64-put_i64, get_bytes-put_bytes, get_string-put_string, get_vector-put_vector,
  put_u16_filled, put_i32_filled, put_string_filled, filled-append,
}
use nexus_mq.Wire.Flags.{
  Acks, IsAcks, put_acks, get_acks, get_acks-put_acks, IsBool, put_bool, get_bool,
  get_bool-put_bool,
}

pub record OffsetCommitRequest : Type 0 where
  pub group : Bytes
  pub topic : Bytes
  pub partition : ℤ
  pub offset : ℤ
  pub metadata : Bytes

pub encode_offset_commit_request : OffsetCommitRequest → Bytes
encode_offset_commit_request m =
    put_string m.group
    ++ (put_string m.topic ++ (put_i32 m.partition ++ (put_i64 m.offset ++ put_string m.metadata)))

pub decode_offset_commit_request : Decoder OffsetCommitRequest
decode_offset_commit_request = do
  group ← get_string
  topic ← get_string
  partition ← get_i32
  offset ← get_i64
  metadata ← get_string
  return (record {
    group = group;
    topic = topic;
    partition = partition;
    offset = offset;
    metadata = metadata;
  })

pub record OffsetCommitResponse : Type 0 where
  pub error_code : WireError

pub encode_offset_commit_response : OffsetCommitResponse → Bytes
encode_offset_commit_response m = put_wire_error m.error_code

pub decode_offset_commit_response : Decoder OffsetCommitResponse
decode_offset_commit_response = do
  error_code ← get_wire_error
  return (record { error_code = error_code })

pub record OffsetFetchRequest : Type 0 where
  pub group : Bytes
  pub topic : Bytes
  pub partition : ℤ

pub encode_offset_fetch_request : OffsetFetchRequest → Bytes
encode_offset_fetch_request m = put_string m.group ++ (put_string m.topic ++ put_i32 m.partition)

pub decode_offset_fetch_request : Decoder OffsetFetchRequest
decode_offset_fetch_request = do
  group ← get_string
  topic ← get_string
  partition ← get_i32
  return (record { group = group; topic = topic; partition = partition })

pub record OffsetFetchResponse : Type 0 where
  pub offset : ℤ
  pub error_code : WireError

pub encode_offset_fetch_response : OffsetFetchResponse → Bytes
encode_offset_fetch_response m = put_i64 m.offset ++ put_wire_error m.error_code

pub decode_offset_fetch_response : Decoder OffsetFetchResponse
decode_offset_fetch_response = do
  offset ← get_i64
  error_code ← get_wire_error
  return (record { offset = offset; error_code = error_code })
