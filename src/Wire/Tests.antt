-- ===== src/Wire/Tests.antt =====
-- The wire format on concrete messages and bytes.
use nexus_mq.Base.{
  ◌≤◌, ◌<◌, ◌+◌, ◌≡◌, ◌^◌, ◌⊎◌, ◌↔◌, refl, [], ◌∷◌, ◌++◌, true, ok, err, ErrorCode, All, arith,
  length,
}
use nexus_mq.Base.Int.{pos, negsuc}
use nexus_mq.Wire.Bytes.{Bytes, IsByte, load_le}
use nexus_mq.Wire.Varint.{
  put_varint, get_varint, max_varint_bytes, get_varint-put_varint, put_varint_shape,
  get_varint_takes,
}
use nexus_mq.Wire.Codec.{get_vector, get_u8, get_bytes, get_list, get_count, take_bytes, get_uint}
use nexus_mq.Wire.Codec.Bounds.{length-get_vector, get_bytes_content}
use nexus_mq.Wire.Errors.{
  WireError, is_retryable, to_error, from_error, is_retryable_iff_io_error, to_error-from_error,
}
use nexus_mq.Wire.Frame.{
  ApiKey, FrameHeader, encode_frame_header, decode_frame_header,
  decode_frame_header-encode_frame_header, ApiVersionRange, negotiate, negotiate_best,
}
use nexus_mq.Wire.Flags.{Acks}
use nexus_mq.Wire.Messages.Cluster.{
  MetadataResponse, encode_metadata_response, decode_metadata_response,
}
use nexus_mq.Wire.Messages.Cluster.RoundTrip.{decode_metadata_response-encode_metadata_response}
use nexus_mq.Wire.Messages.Data.{
  ProduceRequest, encode_produce_request, decode_produce_request, FetchResponse,
  encode_fetch_response, decode_fetch_response,
}
use nexus_mq.Wire.Messages.Data.RoundTrip.{
  decode_produce_request-encode_produce_request, decode_fetch_response-encode_fetch_response,
}
use nexus_mq.Wire.Messages.Group.{
  JoinGroupResponse, encode_join_group_response, decode_join_group_response,
}
use nexus_mq.Wire.Messages.Group.RoundTrip.{decode_join_group_response-encode_join_group_response}

get_varint-put_varint_example : get_varint (put_varint 300 ++ 7 ∷ []) ≡ ok (300, 7 ∷ [])
get_varint-put_varint_example = get_varint-put_varint 300 (omega arith) (7 ∷ [])

put_varint_shape_example :
    All IsByte (put_varint 300)
    × (1 ≤ length (put_varint 300))
    × (length (put_varint 300) ≤ max_varint_bytes)
    × ((length (put_varint 300) ≤ 2) ↔ (300 < 128 ^ 2))
put_varint_shape_example = put_varint_shape 300 1 (omega arith)

get_varint_takes_example : (1 < 3) × (3 ≤ 1 + max_varint_bytes)
unfolding put_varint
get_varint_takes_example =
    get_varint_takes (172 ∷ 2 ∷ 7 ∷ []) 300 (7 ∷ [])
      (get_varint-put_varint 300 (omega arith) (7 ∷ []))

length-get_vector_example : 2 < 4
unfolding get_vector get_list get_count get_u8 get_uint take_bytes get_varint load_le
length-get_vector_example = length-get_vector get_u8 (2 ∷ 9 ∷ 8 ∷ 7 ∷ []) (9 ∷ 8 ∷ []) (7 ∷ []) refl

abbrev content : Bytes
content = 9 ∷ 8 ∷ 7 ∷ []

get_bytes_content_example :
    ((xs : Bytes) × (rest : Bytes) × (get_bytes (2 ∷ content) ≡ ok (xs, rest))
      × (length xs ≡ 2)
      × (xs ++ rest ≡ content))
    ⊎ ((get_bytes (2 ∷ content) ≡ err ErrorCode.invalid_argument) × (length content < 2))
unfolding get_varint
get_bytes_content_example = get_bytes_content (2 ∷ content) content 2 refl

is_retryable_iff_io_error_example :
    (is_retryable WireError.throttled ≡ true) ↔ (to_error WireError.throttled ≡ ErrorCode.io_error)
is_retryable_iff_io_error_example = is_retryable_iff_io_error WireError.throttled

to_error-from_error_example :
    (to_error (from_error ErrorCode.shutdown) ≡ ErrorCode.shutdown)
    ⊎ ((to_error (from_error ErrorCode.shutdown) ≡ ErrorCode.io_error)
        × ((ErrorCode.shutdown ≡ ErrorCode.out_of_space)
            ⊎ (ErrorCode.shutdown ≡ ErrorCode.shutdown)))
to_error-from_error_example = to_error-from_error ErrorCode.shutdown

abbrev header : FrameHeader
header = record {
  length_field = 20;
  api_key = ApiKey.fetch;
  api_version = 1;
  correlation_id = 70_000;
  flags = 0;
}

decode_frame_header-encode_frame_header_example :
    decode_frame_header (encode_frame_header header ++ 1 ∷ []) ≡ ok (header, 1 ∷ [])
decode_frame_header-encode_frame_header_example =
    decode_frame_header-encode_frame_header header
      (record {
        length_field = omega arith;
        api_version = omega arith;
        correlation_id = omega arith;
        flags = omega arith;
      })
      (1 ∷ [])

abbrev versions : ApiVersionRange
versions = record { key = ApiKey.fetch; min_version = 1; max_version = 4 }

negotiate_best_example :
    ((1 ≤ negotiate 3 versions)
      × (negotiate 3 versions ≤ 4)
      × (negotiate 3 versions ≤ 3)
      × ((2 ≤ negotiate 3 versions) ⊎ (4 < 2) ⊎ (3 < 2)))
    ⊎ ((negotiate 3 versions ≡ 0) × ((2 < 1) ⊎ (4 < 2) ⊎ (3 < 2)))
negotiate_best_example = negotiate_best 3 versions 2

abbrev broker_list : MetadataResponse
broker_list = record {
  brokers = record { node_id = pos 1; host = 104 ∷ []; port = 9092 } ∷ [];
  topics =
      record {
        name = 116 ∷ [];
        error = WireError.no_error;
        partitions =
            record {
              id = pos 0;
              leader_node_id = negsuc 0;
              replicas = pos 1 ∷ [];
              leader_epoch = pos 3;
            }
            ∷ [];
      }
      ∷ [];
}

decode_metadata_response-encode_metadata_response_example :
    decode_metadata_response (encode_metadata_response broker_list ++ 5 ∷ [])
    ≡ ok (broker_list, 5 ∷ [])
decode_metadata_response-encode_metadata_response_example =
    decode_metadata_response-encode_metadata_response broker_list
      (record {
        brokers_sized = omega arith;
        brokers = (record { node_id = omega arith; host = omega arith; port = omega arith }, tt);
        topics_sized = omega arith;
        topics = (
          record {
            name = omega arith;
            error = tt;
            partitions_sized = omega arith;
            partitions = (
              record {
                id = omega arith;
                leader_node_id = omega arith;
                replicas_sized = omega arith;
                replicas = (omega arith, tt);
                leader_epoch = omega arith;
              },
              tt,
            );
          },
          tt,
        );
      })
      (5 ∷ [])

abbrev batch_of_two : ProduceRequest
batch_of_two = record {
  topic = 116 ∷ [];
  partition = pos 3;
  acks = Acks.quorum;
  batch = 1 ∷ 2 ∷ [];
}

decode_produce_request-encode_produce_request_example :
    decode_produce_request (encode_produce_request batch_of_two ++ []) ≡ ok (batch_of_two, [])
decode_produce_request-encode_produce_request_example =
    decode_produce_request-encode_produce_request batch_of_two
      (record { topic = omega arith; partition = omega arith; acks = tt; batch = omega arith }) []

abbrev fetched : FetchResponse
fetched = record {
  batches = 1 ∷ 2 ∷ [];
  high_watermark = pos 12;
  log_start_offset = pos 0;
  error_code = WireError.no_error;
}

decode_fetch_response-encode_fetch_response_example :
    decode_fetch_response (encode_fetch_response fetched ++ []) ≡ ok (fetched, [])
decode_fetch_response-encode_fetch_response_example =
    decode_fetch_response-encode_fetch_response fetched
      (record {
        batches = omega arith;
        high_watermark = omega arith;
        log_start_offset = omega arith;
        error_code = tt;
      })
      []

abbrev joined : JoinGroupResponse
joined = record {
  error_code = WireError.no_error;
  generation = pos 2;
  member_id = 109 ∷ [];
  leader_id = 109 ∷ [];
  is_leader = true;
  members = record { member_id = 109 ∷ []; subscription = 116 ∷ [] } ∷ [];
}

decode_join_group_response-encode_join_group_response_example :
    decode_join_group_response (encode_join_group_response joined ++ []) ≡ ok (joined, [])
decode_join_group_response-encode_join_group_response_example =
    decode_join_group_response-encode_join_group_response joined
      (record {
        error_code = tt;
        generation = omega arith;
        member_id = omega arith;
        leader_id = omega arith;
        is_leader = tt;
        members_sized = omega arith;
        members = (record { member_id = omega arith; subscription = omega arith }, tt);
      })
      []
