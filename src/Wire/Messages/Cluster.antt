-- ===== src/Wire/Messages/Cluster.antt =====
-- protocol/messages.hpp and .cpp: cluster metadata and version negotiation. Each message is a record, the bytes that its
-- `encode` appends, and its `decode`.
pub mod RoundTrip
use nexus_mq.Base.{◌++◌, ◌≤◌, append_assoc, List, Bool, All, arith, length}
use nexus_mq.Base.Int.{ℤ}
use Prim.Native.Nat.{ℕ}
use nexus_mq.Wire.Bytes.{Bytes}
use nexus_mq.Wire.Errors.{
  WireError, IsWireError, put_wire_error, get_wire_error, get_wire_error-put_wire_error,
}
use nexus_mq.Wire.Frame.{
  ApiKey, IsApiKey, put_api_key, get_api_key, get_api_key-put_api_key, put_api_key_filled,
  ApiVersionRange,
}
use nexus_mq.Wire.Codec.{
  Decoder, ◌>>=◌, return, put_u16, put_i16, put_i32, put_i64, put_bytes, put_string, put_vector,
  get_u16, get_i16, get_i32, get_i64, get_bytes, get_string, get_vector,
}
use nexus_mq.Wire.Codec.RoundTrip.{
  IsU16, IsI16, IsI32, IsI64, IsSized, Undoes, get_u16-put_u16, get_i16-put_i16, get_i32-put_i32,
  get_i64-put_i64, get_bytes-put_bytes, get_string-put_string, get_vector-put_vector,
  put_u16_filled, put_i32_filled, put_string_filled, filled-append,
}
use nexus_mq.Wire.Flags.{
  Acks, IsAcks, put_acks, get_acks, get_acks-put_acks, IsBool, put_bool, get_bool,
  get_bool-put_bool,
}

pub record ApiVersionsRequest : Type 0 where
  pub client_version : ℕ

pub encode_api_versions_request : ApiVersionsRequest → Bytes
encode_api_versions_request m = put_u16 m.client_version

pub decode_api_versions_request : Decoder ApiVersionsRequest
decode_api_versions_request = do
  client_version ← get_u16
  return (record { client_version = client_version })

pub encode_api_version_range : ApiVersionRange → Bytes
encode_api_version_range m = put_api_key m.key ++ (put_u16 m.min_version ++ put_u16 m.max_version)

pub decode_api_version_range : Decoder ApiVersionRange
decode_api_version_range = do
  key ← get_api_key
  min_version ← get_u16
  max_version ← get_u16
  return (record { key = key; min_version = min_version; max_version = max_version })

pub record ApiVersionsResponse : Type 0 where
  pub ranges : List ApiVersionRange

pub encode_api_versions_response : ApiVersionsResponse → Bytes
encode_api_versions_response m = put_vector encode_api_version_range m.ranges

pub decode_api_versions_response : Decoder ApiVersionsResponse
decode_api_versions_response = do
  ranges ← get_vector decode_api_version_range
  return (record { ranges = ranges })

pub record BrokerMeta : Type 0 where
  pub node_id : ℤ
  pub host : Bytes
  pub port : ℕ

pub encode_broker_meta : BrokerMeta → Bytes
encode_broker_meta m = put_i32 m.node_id ++ (put_string m.host ++ put_u16 m.port)

pub decode_broker_meta : Decoder BrokerMeta
decode_broker_meta = do
  node_id ← get_i32
  host ← get_string
  port ← get_u16
  return (record { node_id = node_id; host = host; port = port })

pub record PartitionMeta : Type 0 where
  pub id : ℤ
  pub leader_node_id : ℤ
  pub replicas : List ℤ
  pub leader_epoch : ℤ

pub encode_partition_meta : PartitionMeta → Bytes
encode_partition_meta m =
    put_i32 m.id
    ++ (put_i32 m.leader_node_id ++ (put_vector put_i32 m.replicas ++ put_i32 m.leader_epoch))

pub decode_partition_meta : Decoder PartitionMeta
decode_partition_meta = do
  id ← get_i32
  leader_node_id ← get_i32
  replicas ← get_vector get_i32
  leader_epoch ← get_i32
  return (record {
    id = id;
    leader_node_id = leader_node_id;
    replicas = replicas;
    leader_epoch = leader_epoch;
  })

pub record TopicMeta : Type 0 where
  pub name : Bytes
  pub error : WireError
  pub partitions : List PartitionMeta

pub encode_topic_meta : TopicMeta → Bytes
encode_topic_meta m =
    put_string m.name ++ (put_wire_error m.error ++ put_vector encode_partition_meta m.partitions)

pub decode_topic_meta : Decoder TopicMeta
decode_topic_meta = do
  name ← get_string
  error ← get_wire_error
  partitions ← get_vector decode_partition_meta
  return (record { name = name; error = error; partitions = partitions })

pub record MetadataRequest : Type 0 where
  pub topics : List Bytes

pub encode_metadata_request : MetadataRequest → Bytes
encode_metadata_request m = put_vector put_string m.topics

pub decode_metadata_request : Decoder MetadataRequest
decode_metadata_request = do topics ← get_vector get_string; return (record { topics = topics })

pub record MetadataResponse : Type 0 where
  pub brokers : List BrokerMeta
  pub topics : List TopicMeta

pub encode_metadata_response : MetadataResponse → Bytes
encode_metadata_response m =
    put_vector encode_broker_meta m.brokers ++ put_vector encode_topic_meta m.topics

pub decode_metadata_response : Decoder MetadataResponse
decode_metadata_response = do
  brokers ← get_vector decode_broker_meta
  topics ← get_vector decode_topic_meta
  return (record { brokers = brokers; topics = topics })
