-- ===== src/Wire/Messages/Data/RoundTrip.antt =====
-- Every message of the parent is decoded to what was encoded, whatever follows it.
use nexus_mq.Base.{◌≡◌, ok, ◌++◌, append_assoc}
use nexus_mq.Wire.Bytes.{Bytes}
use nexus_mq.Wire.Errors.{IsWireError, get_wire_error-put_wire_error}
use nexus_mq.Wire.Codec.RoundTrip.{
  IsI16, IsI32, IsI64, IsSized, get_i16-put_i16, get_i32-put_i32, get_i64-put_i64,
  get_bytes-put_bytes, get_string-put_string,
}
use nexus_mq.Wire.Flags.{IsAcks, get_acks-put_acks}
use nexus_mq.Wire.Messages.Data.{
  ProduceRequest, encode_produce_request, decode_produce_request, ProduceResponse,
  encode_produce_response, decode_produce_response, FetchRequest, encode_fetch_request,
  decode_fetch_request, FetchResponse, encode_fetch_response, decode_fetch_response,
  CreateTopicRequest, encode_create_topic_request, decode_create_topic_request, CreateTopicResponse,
  encode_create_topic_response, decode_create_topic_response, DeleteTopicRequest,
  encode_delete_topic_request, decode_delete_topic_request, DeleteTopicResponse,
  encode_delete_topic_response, decode_delete_topic_response,
}

pub record IsProduceRequest (m : ProduceRequest) : Type 0 where
  pub topic : IsSized m.topic
  pub partition : IsI32 m.partition
  pub acks : IsAcks m.acks
  pub batch : IsSized m.batch

-- Decoding what `ProduceRequest` encodes gives it back and leaves what follows, for a
-- message whose fields fit their width on the wire.
pub decode_produce_request-encode_produce_request :
    (m : ProduceRequest)
    → IsProduceRequest m
    → (rest : Bytes) → decode_produce_request (encode_produce_request m ++ rest) ≡ ok (m, rest)
unfolding encode_produce_request decode_produce_request
decode_produce_request-encode_produce_request m v rest = simp (
  append_assoc,
  get_string-put_string m.topic v.topic,
  get_i32-put_i32 m.partition v.partition,
  get_acks-put_acks m.acks v.acks,
  get_bytes-put_bytes m.batch v.batch,
)

pub record IsProduceResponse (m : ProduceResponse) : Type 0 where
  pub base_offset : IsI64 m.base_offset
  pub error_code : IsWireError m.error_code
  pub throttle_ms : IsI32 m.throttle_ms

-- Decoding what `ProduceResponse` encodes gives it back and leaves what follows, for a
-- message whose fields fit their width on the wire.
pub decode_produce_response-encode_produce_response :
    (m : ProduceResponse)
    → IsProduceResponse m
    → (rest : Bytes) → decode_produce_response (encode_produce_response m ++ rest) ≡ ok (m, rest)
unfolding encode_produce_response decode_produce_response
decode_produce_response-encode_produce_response m v rest = simp (
  append_assoc,
  get_i64-put_i64 m.base_offset v.base_offset,
  get_wire_error-put_wire_error m.error_code v.error_code,
  get_i32-put_i32 m.throttle_ms v.throttle_ms,
)

pub record IsFetchRequest (m : FetchRequest) : Type 0 where
  pub topic : IsSized m.topic
  pub partition : IsI32 m.partition
  pub fetch_offset : IsI64 m.fetch_offset
  pub max_bytes : IsI32 m.max_bytes
  pub min_bytes : IsI32 m.min_bytes
  pub max_wait_ms : IsI32 m.max_wait_ms

-- Decoding what `FetchRequest` encodes gives it back and leaves what follows, for a
-- message whose fields fit their width on the wire.
pub decode_fetch_request-encode_fetch_request :
    (m : FetchRequest)
    → IsFetchRequest m
    → (rest : Bytes) → decode_fetch_request (encode_fetch_request m ++ rest) ≡ ok (m, rest)
unfolding encode_fetch_request decode_fetch_request
decode_fetch_request-encode_fetch_request m v rest = simp (
  append_assoc,
  get_string-put_string m.topic v.topic,
  get_i32-put_i32 m.partition v.partition,
  get_i64-put_i64 m.fetch_offset v.fetch_offset,
  get_i32-put_i32 m.max_bytes v.max_bytes,
  get_i32-put_i32 m.min_bytes v.min_bytes,
  get_i32-put_i32 m.max_wait_ms v.max_wait_ms,
)

pub record IsFetchResponse (m : FetchResponse) : Type 0 where
  pub batches : IsSized m.batches
  pub high_watermark : IsI64 m.high_watermark
  pub log_start_offset : IsI64 m.log_start_offset
  pub error_code : IsWireError m.error_code

-- Decoding what `FetchResponse` encodes gives it back and leaves what follows, for a
-- message whose fields fit their width on the wire.
pub decode_fetch_response-encode_fetch_response :
    (m : FetchResponse)
    → IsFetchResponse m
    → (rest : Bytes) → decode_fetch_response (encode_fetch_response m ++ rest) ≡ ok (m, rest)
unfolding encode_fetch_response decode_fetch_response
decode_fetch_response-encode_fetch_response m v rest = simp (
  append_assoc,
  get_bytes-put_bytes m.batches v.batches,
  get_i64-put_i64 m.high_watermark v.high_watermark,
  get_i64-put_i64 m.log_start_offset v.log_start_offset,
  get_wire_error-put_wire_error m.error_code v.error_code,
)

pub record IsCreateTopicRequest (m : CreateTopicRequest) : Type 0 where
  pub name : IsSized m.name
  pub partition_count : IsI32 m.partition_count
  pub replication_factor : IsI16 m.replication_factor

-- Decoding what `CreateTopicRequest` encodes gives it back and leaves what follows, for a
-- message whose fields fit their width on the wire.
pub decode_create_topic_request-encode_create_topic_request :
    (m : CreateTopicRequest)
    → IsCreateTopicRequest m
    → (rest : Bytes)
    → decode_create_topic_request (encode_create_topic_request m ++ rest) ≡ ok (m, rest)
unfolding encode_create_topic_request decode_create_topic_request
decode_create_topic_request-encode_create_topic_request m v rest = simp (
  append_assoc,
  get_string-put_string m.name v.name,
  get_i32-put_i32 m.partition_count v.partition_count,
  get_i16-put_i16 m.replication_factor v.replication_factor,
)

pub record IsCreateTopicResponse (m : CreateTopicResponse) : Type 0 where
  pub error_code : IsWireError m.error_code

-- Decoding what `CreateTopicResponse` encodes gives it back and leaves what follows, for a
-- message whose fields fit their width on the wire.
pub decode_create_topic_response-encode_create_topic_response :
    (m : CreateTopicResponse)
    → IsCreateTopicResponse m
    → (rest : Bytes)
    → decode_create_topic_response (encode_create_topic_response m ++ rest) ≡ ok (m, rest)
unfolding encode_create_topic_response decode_create_topic_response
decode_create_topic_response-encode_create_topic_response m v rest =
    simp (get_wire_error-put_wire_error m.error_code v.error_code)

pub record IsDeleteTopicRequest (m : DeleteTopicRequest) : Type 0 where
  pub name : IsSized m.name

-- Decoding what `DeleteTopicRequest` encodes gives it back and leaves what follows, for a
-- message whose fields fit their width on the wire.
pub decode_delete_topic_request-encode_delete_topic_request :
    (m : DeleteTopicRequest)
    → IsDeleteTopicRequest m
    → (rest : Bytes)
    → decode_delete_topic_request (encode_delete_topic_request m ++ rest) ≡ ok (m, rest)
unfolding encode_delete_topic_request decode_delete_topic_request
decode_delete_topic_request-encode_delete_topic_request m v rest =
    simp (get_string-put_string m.name v.name)

pub record IsDeleteTopicResponse (m : DeleteTopicResponse) : Type 0 where
  pub error_code : IsWireError m.error_code

-- Decoding what `DeleteTopicResponse` encodes gives it back and leaves what follows, for a
-- message whose fields fit their width on the wire.
pub decode_delete_topic_response-encode_delete_topic_response :
    (m : DeleteTopicResponse)
    → IsDeleteTopicResponse m
    → (rest : Bytes)
    → decode_delete_topic_response (encode_delete_topic_response m ++ rest) ≡ ok (m, rest)
unfolding encode_delete_topic_response decode_delete_topic_response
decode_delete_topic_response-encode_delete_topic_response m v rest =
    simp (get_wire_error-put_wire_error m.error_code v.error_code)
