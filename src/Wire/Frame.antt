-- ===== src/Wire/Frame.antt =====
-- protocol/frame.cpp and protocol/versioning.cpp: the frame header and the version range.
use nexus_mq.Base.{
  ok, ℕ, ◌+◌, ◌-◌, ◌%◌, ◌≤◌, ◌<◌, ◌⊎◌, ◌^◌, ◌≡◌, refl, List, [], ◌∷◌, ◌++◌, append_assoc, none,
  some, min, leb, if◌then◌else◌, get_elem?, ErrorCode, arith, length,
}
use nexus_mq.Wire.Bytes.{Bytes}
use nexus_mq.Wire.Codec.{Decoder, ◌>>=◌, return, fail, put_u16, put_u32, get_u16, get_u32}
use nexus_mq.Wire.Codec.RoundTrip.{
  IsU16, IsU32, Undoes, get_u16-put_u16, get_u32-put_u32, put_u16_filled,
}

pub data ApiKey : Type 0 where
  api_versions metadata produce fetch offset_commit offset_fetch : ApiKey
  join_group sync_group heartbeat leave_group create_topic delete_topic : ApiKey

abbrev api_keys : List ApiKey
api_keys =
    api_versions ∷ metadata ∷ produce ∷ fetch ∷ offset_commit ∷ offset_fetch ∷ join_group
    ∷ sync_group ∷ heartbeat ∷ leave_group ∷ create_topic ∷ delete_topic ∷ []

pub api_key_code : ApiKey → ℕ
api_key_code api_versions = 0
api_key_code metadata = 1
api_key_code produce = 2
api_key_code fetch = 3
api_key_code offset_commit = 4
api_key_code offset_fetch = 5
api_key_code join_group = 6
api_key_code sync_group = 7
api_key_code heartbeat = 8
api_key_code leave_group = 9
api_key_code create_topic = 10
api_key_code delete_topic = 11

pub put_api_key : ApiKey → Bytes
put_api_key key = put_u16 (api_key_code key)

-- A code past the last key is refused.
check_api_key : ℕ → Decoder ApiKey
check_api_key code = elim (get_elem? api_keys code) [
  | some key ↦ return key
  | none ↦ fail ErrorCode.invalid_argument
]

pub get_api_key : Decoder ApiKey
unfolding check_api_key
get_api_key = do code ← get_u16; check_api_key code

api_key_code-lt : (key : ApiKey) → IsU16 (api_key_code key)
unfolding api_key_code
api_key_code-lt api_versions = omega arith
api_key_code-lt _ = omega arith

check_api_key_lem :
    (key : ApiKey) (rest : Bytes) → check_api_key (api_key_code key) rest ≡ return key rest
unfolding check_api_key api_key_code
check_api_key_lem api_versions rest = refl
check_api_key_lem _ rest = refl

abbrev pub IsApiKey : ApiKey → Type 0
IsApiKey key = Unit

pub get_api_key-put_api_key : Undoes IsApiKey put_api_key get_api_key
unfolding get_api_key put_api_key
get_api_key-put_api_key key h rest =
    rw (get_u16-put_u16 (api_key_code key) (api_key_code-lt key) rest) (check_api_key_lem key rest)

pub put_api_key_filled : (key : ApiKey) → 1 ≤ length (put_api_key key)
unfolding put_api_key
put_api_key_filled key = put_u16_filled (api_key_code key)

pub record FrameHeader : Type 0 where
  pub length_field : ℕ
  pub api_key : ApiKey
  pub api_version : ℕ
  pub correlation_id : ℕ
  pub flags : ℕ

abbrev pub encoded_size : ℕ
encoded_size = 14

-- `length` counts what follows its own four bytes; the cast keeps 32 bits.
pub length_for : ℕ → ℕ
length_for payload_size = (encoded_size - 4 + payload_size) % 2 ^ 32

pub encode_frame_header : FrameHeader → Bytes
encode_frame_header h =
    put_u32 h.length_field
    ++ (put_api_key h.api_key
        ++ (put_u16 h.api_version ++ (put_u32 h.correlation_id ++ put_u16 h.flags)))

pub decode_frame_header : Decoder FrameHeader
decode_frame_header = do
  length_field ← get_u32
  api_key ← get_api_key
  api_version ← get_u16
  correlation_id ← get_u32
  flags ← get_u16
  return (record {
    length_field = length_field;
    api_key = api_key;
    api_version = api_version;
    correlation_id = correlation_id;
    flags = flags;
  })

pub record IsFrameHeader (h : FrameHeader) : Type 0 where
  pub length_field : IsU32 h.length_field
  pub api_version : IsU16 h.api_version
  pub correlation_id : IsU32 h.correlation_id
  pub flags : IsU16 h.flags

-- A frame header whose fields fit their widths is decoded to what was encoded, whatever payload
-- follows.
pub decode_frame_header-encode_frame_header :
    (h : FrameHeader)
    → IsFrameHeader h
    → (rest : Bytes) → decode_frame_header (encode_frame_header h ++ rest) ≡ ok (h, rest)
unfolding decode_frame_header encode_frame_header
decode_frame_header-encode_frame_header h v rest = simp (
  append_assoc,
  get_u32-put_u32 h.length_field v.length_field,
  get_api_key-put_api_key h.api_key tt,
  get_u16-put_u16 h.api_version v.api_version,
  get_u32-put_u32 h.correlation_id v.correlation_id,
  get_u16-put_u16 h.flags v.flags,
)

pub record ApiVersionRange : Type 0 where
  pub key : ApiKey
  pub min_version : ℕ
  pub max_version : ℕ

pub negotiate : ℕ → ApiVersionRange → ℕ
negotiate client_max server =
    let common = min client_max server.max_version in
    if leb server.min_version common then common else 0

-- Either the negotiated version is supported by both sides, and every such version is at most it; or
-- no version is supported by both sides, and it is 0.
pub negotiate_best :
    (client_max : ℕ) (server : ApiVersionRange) (v : ℕ)
    → let n = negotiate client_max server in
      ((server.min_version ≤ n)
        × (n ≤ server.max_version)
        × (n ≤ client_max)
        × ((v ≤ n) ⊎ (server.max_version < v) ⊎ (client_max < v)))
      ⊎ ((n ≡ 0) × ((v < server.min_version) ⊎ (server.max_version < v) ⊎ (client_max < v)))
unfolding negotiate
negotiate_best client_max server v = ground arith
