-- ===== src/Raft/Envelope/RoundTrip.antt =====
-- An envelope is decoded to what was encoded, whatever follows it.
use nexus_mq.Base.{◌^◌, ◌<◌, ◌≡◌, refl, ok, ◌++◌, append_assoc, arith}
use nexus_mq.Wire.Bytes.{Bytes}
use nexus_mq.Wire.Codec.RoundTrip.{IsSized, get_u8-put_u8, get_string-put_string}
use nexus_mq.Raft.Types.{
  Payload, request_vote, request_vote_reply, append_entries, append_entries_reply, timeout_now,
  install_snapshot, install_snapshot_reply,
}
use nexus_mq.Raft.Rpc.RoundTrip.{
  IsRequestVoteArgs, IsRequestVoteReply, IsAppendEntriesArgs, IsAppendEntriesReply,
  IsTimeoutNowArgs, IsInstallSnapshotArgs, IsInstallSnapshotReply, get_number32-put_number32,
  decode_request_vote_args-encode_request_vote_args,
  decode_request_vote_reply-encode_request_vote_reply,
  decode_append_entries_args-encode_append_entries_args,
  decode_append_entries_reply-encode_append_entries_reply,
  decode_timeout_now_args-encode_timeout_now_args,
  decode_install_snapshot_args-encode_install_snapshot_args,
  decode_install_snapshot_reply-encode_install_snapshot_reply,
}
use nexus_mq.Raft.Envelope.{
  RaftEnvelope, message_type, encode_payload, decode_payload, encode_envelope, decode_envelope,
}

-- The fields of the message fit their width on the wire.
unfoldable pub IsPayload : Payload → Type 0
IsPayload (request_vote args) = IsRequestVoteArgs args
IsPayload (request_vote_reply reply) = IsRequestVoteReply reply
IsPayload (append_entries args) = IsAppendEntriesArgs args
IsPayload (append_entries_reply reply) = IsAppendEntriesReply reply
IsPayload (timeout_now args) = IsTimeoutNowArgs args
IsPayload (install_snapshot args) = IsInstallSnapshotArgs args
IsPayload (install_snapshot_reply reply) = IsInstallSnapshotReply reply

pub record IsEnvelope (e : RaftEnvelope) : Type 0 where
  pub topic : IsSized e.topic
  pub partition : e.partition < 2 ^ 31
  pub sender : e.message.sender < 2 ^ 31
  pub receiver : e.message.receiver < 2 ^ 31
  pub payload : IsPayload e.message.payload

-- The type that stands before a message names the decoder of that very message.
decode_payload-encode_payload :
    (p : Payload)
    → IsPayload p
    → (rest : Bytes) → decode_payload (message_type p) (encode_payload p ++ rest) ≡ ok (p, rest)
unfolding decode_payload encode_payload message_type IsPayload
decode_payload-encode_payload (request_vote rpc) v rest =
    rw (decode_request_vote_args-encode_request_vote_args rpc v rest) refl
decode_payload-encode_payload (request_vote_reply rpc) v rest =
    rw (decode_request_vote_reply-encode_request_vote_reply rpc v rest) refl
decode_payload-encode_payload (append_entries rpc) v rest =
    rw (decode_append_entries_args-encode_append_entries_args rpc v rest) refl
decode_payload-encode_payload (append_entries_reply rpc) v rest =
    rw (decode_append_entries_reply-encode_append_entries_reply rpc v rest) refl
decode_payload-encode_payload (timeout_now rpc) v rest =
    rw (decode_timeout_now_args-encode_timeout_now_args rpc v rest) refl
decode_payload-encode_payload (install_snapshot rpc) v rest =
    rw (decode_install_snapshot_args-encode_install_snapshot_args rpc v rest) refl
decode_payload-encode_payload (install_snapshot_reply rpc) v rest =
    rw (decode_install_snapshot_reply-encode_install_snapshot_reply rpc v rest) refl

message_type-lt : (p : Payload) → message_type p < 2 ^ 8
unfolding message_type
message_type-lt (request_vote args) = omega arith
message_type-lt (request_vote_reply reply) = omega arith
message_type-lt (append_entries args) = omega arith
message_type-lt (append_entries_reply reply) = omega arith
message_type-lt (timeout_now args) = omega arith
message_type-lt (install_snapshot args) = omega arith
message_type-lt (install_snapshot_reply reply) = omega arith

-- Decoding what an envelope encodes gives it back, with the message of whichever of the seven types,
-- and leaves what follows, for an envelope whose fields fit their width on the wire.
pub decode_envelope-encode_envelope :
    (e : RaftEnvelope)
    → IsEnvelope e
    → (rest : Bytes) → decode_envelope (encode_envelope e ++ rest) ≡ ok (e, rest)
unfolding encode_envelope decode_envelope
decode_envelope-encode_envelope e v rest = simp (
  append_assoc,
  get_string-put_string e.topic v.topic,
  get_number32-put_number32 e.partition v.partition,
  get_number32-put_number32 e.message.sender v.sender,
  get_number32-put_number32 e.message.receiver v.receiver,
  get_u8-put_u8 (message_type e.message.payload) (message_type-lt e.message.payload),
  decode_payload-encode_payload e.message.payload v.payload,
)
