-- ===== src/Wire/Messages/Data.antt =====
-- protocol/messages.hpp and .cpp: produce, fetch and topic administration. Each message is a record, the bytes that its
-- `encode` appends, and its `decode`.
pub mod RoundTrip
use nexus_mq.Base.{◌++◌, ◌≤◌, append_assoc, List, Bool, All, arith, length}
use nexus_mq.Base.Int.{ℤ}
use Prim.Native.Nat.{ℕ}
use nexus_mq.Wire.Bytes.{Bytes}
use nexus_mq.Wire.Errors.{
  WireError, IsWireError, put_wire_error, get_wire_error, get_wire_error-put_wire_error,
}
use nexus_mq.Wire.Frame.{
  ApiKey, IsApiKey, put_api_key, get_api_key, get_api_key-put_api_key, put_api_key_filled,
  ApiVersionRange,
}
use nexus_mq.Wire.Codec.{
  Decoder, ◌>>=◌, return, put_u16, put_i16, put_i32, put_i64, put_bytes, put_string, put_vector,
  get_u16, get_i16, get_i32, get_i64, get_bytes, get_string, get_vector,
}
use nexus_mq.Wire.Codec.RoundTrip.{
  IsU16, IsI16, IsI32, IsI64, IsSized, Undoes, get_u16-put_u16, get_i16-put_i16, get_i32-put_i32,
  get_i64-put_i64, get_bytes-put_bytes, get_string-put_string, get_vector-put_vector,
  put_u16_filled, put_i32_filled, put_string_filled, filled-append,
}
use nexus_mq.Wire.Flags.{
  Acks, IsAcks, put_acks, get_acks, get_acks-put_acks, IsBool, put_bool, get_bool,
  get_bool-put_bool,
}

pub record ProduceRequest : Type 0 where
  pub topic : Bytes
  pub partition : ℤ
  pub acks : Acks
  pub batch : Bytes

pub encode_produce_request : ProduceRequest → Bytes
encode_produce_request m =
    put_string m.topic ++ (put_i32 m.partition ++ (put_acks m.acks ++ put_bytes m.batch))

pub decode_produce_request : Decoder ProduceRequest
decode_produce_request = do
  topic ← get_string
  partition ← get_i32
  acks ← get_acks
  batch ← get_bytes
  return (record { topic = topic; partition = partition; acks = acks; batch = batch })

pub record ProduceResponse : Type 0 where
  pub base_offset : ℤ
  pub error_code : WireError
  pub throttle_ms : ℤ

pub encode_produce_response : ProduceResponse → Bytes
encode_produce_response m =
    put_i64 m.base_offset ++ (put_wire_error m.error_code ++ put_i32 m.throttle_ms)

pub decode_produce_response : Decoder ProduceResponse
decode_produce_response = do
  base_offset ← get_i64
  error_code ← get_wire_error
  throttle_ms ← get_i32
  return (record { base_offset = base_offset; error_code = error_code; throttle_ms = throttle_ms })

pub record FetchRequest : Type 0 where
  pub topic : Bytes
  pub partition : ℤ
  pub fetch_offset : ℤ
  pub max_bytes : ℤ
  pub min_bytes : ℤ
  pub max_wait_ms : ℤ

pub encode_fetch_request : FetchRequest → Bytes
encode_fetch_request m =
    put_string m.topic
    ++ (put_i32 m.partition
        ++ (put_i64 m.fetch_offset
            ++ (put_i32 m.max_bytes ++ (put_i32 m.min_bytes ++ put_i32 m.max_wait_ms))))

pub decode_fetch_request : Decoder FetchRequest
decode_fetch_request = do
  topic ← get_string
  partition ← get_i32
  fetch_offset ← get_i64
  max_bytes ← get_i32
  min_bytes ← get_i32
  max_wait_ms ← get_i32
  return (record {
    topic = topic;
    partition = partition;
    fetch_offset = fetch_offset;
    max_bytes = max_bytes;
    min_bytes = min_bytes;
    max_wait_ms = max_wait_ms;
  })

pub record FetchResponse : Type 0 where
  pub batches : Bytes
  pub high_watermark : ℤ
  pub log_start_offset : ℤ
  pub error_code : WireError

pub encode_fetch_response : FetchResponse → Bytes
encode_fetch_response m =
    put_bytes m.batches
    ++ (put_i64 m.high_watermark ++ (put_i64 m.log_start_offset ++ put_wire_error m.error_code))

pub decode_fetch_response : Decoder FetchResponse
decode_fetch_response = do
  batches ← get_bytes
  high_watermark ← get_i64
  log_start_offset ← get_i64
  error_code ← get_wire_error
  return (record {
    batches = batches;
    high_watermark = high_watermark;
    log_start_offset = log_start_offset;
    error_code = error_code;
  })

pub record CreateTopicRequest : Type 0 where
  pub name : Bytes
  pub partition_count : ℤ
  pub replication_factor : ℤ

pub encode_create_topic_request : CreateTopicRequest → Bytes
encode_create_topic_request m =
    put_string m.name ++ (put_i32 m.partition_count ++ put_i16 m.replication_factor)

pub decode_create_topic_request : Decoder CreateTopicRequest
decode_create_topic_request = do
  name ← get_string
  partition_count ← get_i32
  replication_factor ← get_i16
  return (record {
    name = name;
    partition_count = partition_count;
    replication_factor = replication_factor;
  })

pub record CreateTopicResponse : Type 0 where
  pub error_code : WireError

pub encode_create_topic_response : CreateTopicResponse → Bytes
encode_create_topic_response m = put_wire_error m.error_code

pub decode_create_topic_response : Decoder CreateTopicResponse
decode_create_topic_response = do
  error_code ← get_wire_error
  return (record { error_code = error_code })

pub record DeleteTopicRequest : Type 0 where
  pub name : Bytes

pub encode_delete_topic_request : DeleteTopicRequest → Bytes
encode_delete_topic_request m = put_string m.name

pub decode_delete_topic_request : Decoder DeleteTopicRequest
decode_delete_topic_request = do name ← get_string; return (record { name = name })

pub record DeleteTopicResponse : Type 0 where
  pub error_code : WireError

pub encode_delete_topic_response : DeleteTopicResponse → Bytes
encode_delete_topic_response m = put_wire_error m.error_code

pub decode_delete_topic_response : Decoder DeleteTopicResponse
decode_delete_topic_response = do
  error_code ← get_wire_error
  return (record { error_code = error_code })
