-- ===== src/Wire/Messages/Cluster/RoundTrip.antt =====
-- Every message of the parent is decoded to what was encoded, whatever follows it.
use nexus_mq.Base.{◌≡◌, ok, ◌++◌, ◌≤◌, append_assoc, All, length}
use nexus_mq.Wire.Bytes.{Bytes}
use nexus_mq.Wire.Errors.{IsWireError, get_wire_error-put_wire_error}
use nexus_mq.Wire.Frame.{IsApiKey, get_api_key-put_api_key, put_api_key_filled, ApiVersionRange}
use nexus_mq.Wire.Codec.{put_i32, put_string, get_i32, get_string}
use nexus_mq.Wire.Codec.RoundTrip.{
  IsU16, IsI32, IsSized, get_u16-put_u16, get_i32-put_i32, get_string-put_string,
  get_vector-put_vector, put_i32_filled, put_string_filled, filled-append,
}
use nexus_mq.Wire.Messages.Cluster.{
  ApiVersionsRequest, encode_api_versions_request, decode_api_versions_request,
  encode_api_version_range, decode_api_version_range, ApiVersionsResponse,
  encode_api_versions_response, decode_api_versions_response, BrokerMeta, encode_broker_meta,
  decode_broker_meta, PartitionMeta, encode_partition_meta, decode_partition_meta, TopicMeta,
  encode_topic_meta, decode_topic_meta, MetadataRequest, encode_metadata_request,
  decode_metadata_request, MetadataResponse, encode_metadata_response, decode_metadata_response,
}

pub record IsApiVersionsRequest (m : ApiVersionsRequest) : Type 0 where
  pub client_version : IsU16 m.client_version

-- Decoding what `ApiVersionsRequest` encodes gives it back and leaves what follows, for a
-- message whose fields fit their width on the wire.
pub decode_api_versions_request-encode_api_versions_request :
    (m : ApiVersionsRequest)
    → IsApiVersionsRequest m
    → (rest : Bytes)
    → decode_api_versions_request (encode_api_versions_request m ++ rest) ≡ ok (m, rest)
unfolding encode_api_versions_request decode_api_versions_request
decode_api_versions_request-encode_api_versions_request m v rest =
    simp (get_u16-put_u16 m.client_version v.client_version)

pub record IsApiVersionRange (m : ApiVersionRange) : Type 0 where
  pub key : IsApiKey m.key
  pub min_version : IsU16 m.min_version
  pub max_version : IsU16 m.max_version

encode_api_version_range_filled : (m : ApiVersionRange) → 1 ≤ length (encode_api_version_range m)
unfolding encode_api_version_range
encode_api_version_range_filled m = filled-append _ _ (put_api_key_filled m.key)

-- Decoding what `ApiVersionRange` encodes gives it back and leaves what follows, for a
-- message whose fields fit their width on the wire.
pub decode_api_version_range-encode_api_version_range :
    (m : ApiVersionRange)
    → IsApiVersionRange m
    → (rest : Bytes) → decode_api_version_range (encode_api_version_range m ++ rest) ≡ ok (m, rest)
unfolding encode_api_version_range decode_api_version_range
decode_api_version_range-encode_api_version_range m v rest = simp (
  append_assoc,
  get_api_key-put_api_key m.key v.key,
  get_u16-put_u16 m.min_version v.min_version,
  get_u16-put_u16 m.max_version v.max_version,
)

pub record IsApiVersionsResponse (m : ApiVersionsResponse) : Type 0 where
  pub ranges_sized : IsSized m.ranges
  pub ranges : All IsApiVersionRange m.ranges

-- Decoding what `ApiVersionsResponse` encodes gives it back and leaves what follows, for a
-- message whose fields fit their width on the wire.
pub decode_api_versions_response-encode_api_versions_response :
    (m : ApiVersionsResponse)
    → IsApiVersionsResponse m
    → (rest : Bytes)
    → decode_api_versions_response (encode_api_versions_response m ++ rest) ≡ ok (m, rest)
unfolding encode_api_versions_response decode_api_versions_response
decode_api_versions_response-encode_api_versions_response m v rest = simp (
    get_vector-put_vector IsApiVersionRange encode_api_version_range decode_api_version_range
      decode_api_version_range-encode_api_version_range encode_api_version_range_filled m.ranges
      v.ranges_sized v.ranges)

pub record IsBrokerMeta (m : BrokerMeta) : Type 0 where
  pub node_id : IsI32 m.node_id
  pub host : IsSized m.host
  pub port : IsU16 m.port

encode_broker_meta_filled : (m : BrokerMeta) → 1 ≤ length (encode_broker_meta m)
unfolding encode_broker_meta
encode_broker_meta_filled m = filled-append _ _ (put_i32_filled m.node_id)

-- Decoding what `BrokerMeta` encodes gives it back and leaves what follows, for a
-- message whose fields fit their width on the wire.
pub decode_broker_meta-encode_broker_meta :
    (m : BrokerMeta)
    → IsBrokerMeta m
    → (rest : Bytes) → decode_broker_meta (encode_broker_meta m ++ rest) ≡ ok (m, rest)
unfolding encode_broker_meta decode_broker_meta
decode_broker_meta-encode_broker_meta m v rest = simp (
  append_assoc,
  get_i32-put_i32 m.node_id v.node_id,
  get_string-put_string m.host v.host,
  get_u16-put_u16 m.port v.port,
)

pub record IsPartitionMeta (m : PartitionMeta) : Type 0 where
  pub id : IsI32 m.id
  pub leader_node_id : IsI32 m.leader_node_id
  pub replicas_sized : IsSized m.replicas
  pub replicas : All IsI32 m.replicas
  pub leader_epoch : IsI32 m.leader_epoch

encode_partition_meta_filled : (m : PartitionMeta) → 1 ≤ length (encode_partition_meta m)
unfolding encode_partition_meta
encode_partition_meta_filled m = filled-append _ _ (put_i32_filled m.id)

-- Decoding what `PartitionMeta` encodes gives it back and leaves what follows, for a
-- message whose fields fit their width on the wire.
pub decode_partition_meta-encode_partition_meta :
    (m : PartitionMeta)
    → IsPartitionMeta m
    → (rest : Bytes) → decode_partition_meta (encode_partition_meta m ++ rest) ≡ ok (m, rest)
unfolding encode_partition_meta decode_partition_meta
decode_partition_meta-encode_partition_meta m v rest = simp (
  append_assoc,
  get_i32-put_i32 m.id v.id,
  get_i32-put_i32 m.leader_node_id v.leader_node_id,
  get_vector-put_vector IsI32 put_i32 get_i32 get_i32-put_i32 put_i32_filled m.replicas
      v.replicas_sized v.replicas,
  get_i32-put_i32 m.leader_epoch v.leader_epoch,
)

pub record IsTopicMeta (m : TopicMeta) : Type 0 where
  pub name : IsSized m.name
  pub error : IsWireError m.error
  pub partitions_sized : IsSized m.partitions
  pub partitions : All IsPartitionMeta m.partitions

encode_topic_meta_filled : (m : TopicMeta) → 1 ≤ length (encode_topic_meta m)
unfolding encode_topic_meta
encode_topic_meta_filled m = filled-append _ _ (put_string_filled m.name)

-- Decoding what `TopicMeta` encodes gives it back and leaves what follows, for a
-- message whose fields fit their width on the wire.
pub decode_topic_meta-encode_topic_meta :
    (m : TopicMeta)
    → IsTopicMeta m
    → (rest : Bytes) → decode_topic_meta (encode_topic_meta m ++ rest) ≡ ok (m, rest)
unfolding encode_topic_meta decode_topic_meta
decode_topic_meta-encode_topic_meta m v rest = simp (
  append_assoc,
  get_string-put_string m.name v.name,
  get_wire_error-put_wire_error m.error v.error,
  get_vector-put_vector IsPartitionMeta encode_partition_meta decode_partition_meta
      decode_partition_meta-encode_partition_meta encode_partition_meta_filled m.partitions
      v.partitions_sized v.partitions,
)

pub record IsMetadataRequest (m : MetadataRequest) : Type 0 where
  pub topics_sized : IsSized m.topics
  pub topics : All IsSized m.topics

-- Decoding what `MetadataRequest` encodes gives it back and leaves what follows, for a
-- message whose fields fit their width on the wire.
pub decode_metadata_request-encode_metadata_request :
    (m : MetadataRequest)
    → IsMetadataRequest m
    → (rest : Bytes) → decode_metadata_request (encode_metadata_request m ++ rest) ≡ ok (m, rest)
unfolding encode_metadata_request decode_metadata_request
decode_metadata_request-encode_metadata_request m v rest = simp (
    get_vector-put_vector IsSized put_string get_string get_string-put_string put_string_filled
      m.topics v.topics_sized v.topics)

pub record IsMetadataResponse (m : MetadataResponse) : Type 0 where
  pub brokers_sized : IsSized m.brokers
  pub brokers : All IsBrokerMeta m.brokers
  pub topics_sized : IsSized m.topics
  pub topics : All IsTopicMeta m.topics

-- Decoding what `MetadataResponse` encodes gives it back and leaves what follows, for a
-- message whose fields fit their width on the wire.
pub decode_metadata_response-encode_metadata_response :
    (m : MetadataResponse)
    → IsMetadataResponse m
    → (rest : Bytes) → decode_metadata_response (encode_metadata_response m ++ rest) ≡ ok (m, rest)
unfolding encode_metadata_response decode_metadata_response
decode_metadata_response-encode_metadata_response m v rest = simp (
  append_assoc,
  get_vector-put_vector IsBrokerMeta encode_broker_meta decode_broker_meta
      decode_broker_meta-encode_broker_meta encode_broker_meta_filled m.brokers v.brokers_sized
      v.brokers,
  get_vector-put_vector IsTopicMeta encode_topic_meta decode_topic_meta
      decode_topic_meta-encode_topic_meta encode_topic_meta_filled m.topics v.topics_sized v.topics,
)
