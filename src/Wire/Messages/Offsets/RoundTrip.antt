-- ===== src/Wire/Messages/Offsets/RoundTrip.antt =====
-- Every message of the parent is decoded to what was encoded, whatever follows it.
use nexus_mq.Base.{◌≡◌, ok, ◌++◌, append_assoc}
use nexus_mq.Wire.Bytes.{Bytes}
use nexus_mq.Wire.Errors.{IsWireError, get_wire_error-put_wire_error}
use nexus_mq.Wire.Codec.RoundTrip.{
  IsI32, IsI64, IsSized, get_i32-put_i32, get_i64-put_i64, get_string-put_string,
}
use nexus_mq.Wire.Messages.Offsets.{
  OffsetCommitRequest, encode_offset_commit_request, decode_offset_commit_request,
  OffsetCommitResponse, encode_offset_commit_response, decode_offset_commit_response,
  OffsetFetchRequest, encode_offset_fetch_request, decode_offset_fetch_request, OffsetFetchResponse,
  encode_offset_fetch_response, decode_offset_fetch_response,
}

pub record IsOffsetCommitRequest (m : OffsetCommitRequest) : Type 0 where
  pub group : IsSized m.group
  pub topic : IsSized m.topic
  pub partition : IsI32 m.partition
  pub offset : IsI64 m.offset
  pub metadata : IsSized m.metadata

-- Decoding what `OffsetCommitRequest` encodes gives it back and leaves what follows, for a
-- message whose fields fit their width on the wire.
pub decode_offset_commit_request-encode_offset_commit_request :
    (m : OffsetCommitRequest)
    → IsOffsetCommitRequest m
    → (rest : Bytes)
    → decode_offset_commit_request (encode_offset_commit_request m ++ rest) ≡ ok (m, rest)
unfolding encode_offset_commit_request decode_offset_commit_request
decode_offset_commit_request-encode_offset_commit_request m v rest = simp (
  append_assoc,
  get_string-put_string m.group v.group,
  get_string-put_string m.topic v.topic,
  get_i32-put_i32 m.partition v.partition,
  get_i64-put_i64 m.offset v.offset,
  get_string-put_string m.metadata v.metadata,
)

pub record IsOffsetCommitResponse (m : OffsetCommitResponse) : Type 0 where
  pub error_code : IsWireError m.error_code

-- Decoding what `OffsetCommitResponse` encodes gives it back and leaves what follows, for a
-- message whose fields fit their width on the wire.
pub decode_offset_commit_response-encode_offset_commit_response :
    (m : OffsetCommitResponse)
    → IsOffsetCommitResponse m
    → (rest : Bytes)
    → decode_offset_commit_response (encode_offset_commit_response m ++ rest) ≡ ok (m, rest)
unfolding encode_offset_commit_response decode_offset_commit_response
decode_offset_commit_response-encode_offset_commit_response m v rest =
    simp (get_wire_error-put_wire_error m.error_code v.error_code)

pub record IsOffsetFetchRequest (m : OffsetFetchRequest) : Type 0 where
  pub group : IsSized m.group
  pub topic : IsSized m.topic
  pub partition : IsI32 m.partition

-- Decoding what `OffsetFetchRequest` encodes gives it back and leaves what follows, for a
-- message whose fields fit their width on the wire.
pub decode_offset_fetch_request-encode_offset_fetch_request :
    (m : OffsetFetchRequest)
    → IsOffsetFetchRequest m
    → (rest : Bytes)
    → decode_offset_fetch_request (encode_offset_fetch_request m ++ rest) ≡ ok (m, rest)
unfolding encode_offset_fetch_request decode_offset_fetch_request
decode_offset_fetch_request-encode_offset_fetch_request m v rest = simp (
  append_assoc,
  get_string-put_string m.group v.group,
  get_string-put_string m.topic v.topic,
  get_i32-put_i32 m.partition v.partition,
)

pub record IsOffsetFetchResponse (m : OffsetFetchResponse) : Type 0 where
  pub offset : IsI64 m.offset
  pub error_code : IsWireError m.error_code

-- Decoding what `OffsetFetchResponse` encodes gives it back and leaves what follows, for a
-- message whose fields fit their width on the wire.
pub decode_offset_fetch_response-encode_offset_fetch_response :
    (m : OffsetFetchResponse)
    → IsOffsetFetchResponse m
    → (rest : Bytes)
    → decode_offset_fetch_response (encode_offset_fetch_response m ++ rest) ≡ ok (m, rest)
unfolding encode_offset_fetch_response decode_offset_fetch_response
decode_offset_fetch_response-encode_offset_fetch_response m v rest = simp (
  append_assoc,
  get_i64-put_i64 m.offset v.offset,
  get_wire_error-put_wire_error m.error_code v.error_code,
)
