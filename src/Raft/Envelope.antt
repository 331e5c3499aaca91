-- ===== src/Raft/Envelope.antt =====
-- consensus/raft_wire.cpp: a message of Raft with the partition that it is for, on the wire between the
-- nodes.
pub mod RoundTrip
use nexus_mq.Base.{ℕ, ◌++◌, ◌==◌, if◌then◌else◌, ErrorCode}
use nexus_mq.Base.Int.{ℤ}
use nexus_mq.Wire.Bytes.{Bytes}
use nexus_mq.Wire.Codec.{
  Decoder, ◌>>=◌, return, fail, put_u8, put_i32, put_string, get_u8, get_i32, get_string,
}
use nexus_mq.Raft.Types.{
  Payload, request_vote, request_vote_reply, append_entries, append_entries_reply, timeout_now,
  install_snapshot, install_snapshot_reply, RaftMessage,
}
use nexus_mq.Raft.Rpc.{
  put_number32, get_number32, encode_request_vote_args, decode_request_vote_args,
  encode_request_vote_reply, decode_request_vote_reply, encode_append_entries_args,
  decode_append_entries_args, encode_append_entries_reply, decode_append_entries_reply,
  encode_timeout_now_args, decode_timeout_now_args, encode_install_snapshot_args,
  decode_install_snapshot_args, encode_install_snapshot_reply, decode_install_snapshot_reply,
}

pub record RaftEnvelope : Type 0 where
  pub topic : Bytes
  pub partition : ℕ
  pub message : RaftMessage

-- `payload.index()`: the `RaftMessageType` of the message.
unfoldable pub message_type : Payload → ℕ
message_type (request_vote args) = 0
message_type (request_vote_reply reply) = 1
message_type (append_entries args) = 2
message_type (append_entries_reply reply) = 3
message_type (timeout_now args) = 4
message_type (install_snapshot args) = 5
message_type (install_snapshot_reply reply) = 6

unfoldable pub encode_payload : Payload → Bytes
encode_payload (request_vote args) = encode_request_vote_args args
encode_payload (request_vote_reply reply) = encode_request_vote_reply reply
encode_payload (append_entries args) = encode_append_entries_args args
encode_payload (append_entries_reply reply) = encode_append_entries_reply reply
encode_payload (timeout_now args) = encode_timeout_now_args args
encode_payload (install_snapshot args) = encode_install_snapshot_args args
encode_payload (install_snapshot_reply reply) = encode_install_snapshot_reply reply

unfoldable pub decode_payload : ℕ → Decoder Payload
decode_payload type =
    if type == 0
    then (decode_request_vote_args >>= λ rpc. return (request_vote rpc))
    else if type == 1
    then (decode_request_vote_reply >>= λ rpc. return (request_vote_reply rpc))
    else if type == 2
    then (decode_append_entries_args >>= λ rpc. return (append_entries rpc))
    else if type == 3
    then (decode_append_entries_reply >>= λ rpc. return (append_entries_reply rpc))
    else if type == 4
    then (decode_timeout_now_args >>= λ rpc. return (timeout_now rpc))
    else if type == 5
    then (decode_install_snapshot_args >>= λ rpc. return (install_snapshot rpc))
    else if type == 6
    then (decode_install_snapshot_reply >>= λ rpc. return (install_snapshot_reply rpc))
    else fail ErrorCode.invalid_argument

pub encode_envelope : RaftEnvelope → Bytes
unfolding message_type encode_payload
encode_envelope e =
    put_string e.topic
    ++ (put_number32 e.partition
        ++ (put_number32 e.message.sender
            ++ (put_number32 e.message.receiver
                ++ (put_u8 (message_type e.message.payload) ++ encode_payload e.message.payload))))

pub decode_envelope : Decoder RaftEnvelope
unfolding decode_payload
decode_envelope = do
  topic ← get_string
  partition ← get_number32
  sender ← get_number32
  receiver ← get_number32
  type ← get_u8
  payload ← decode_payload type
  return (record {
    topic = topic;
    partition = partition;
    message = record { sender = sender; receiver = receiver; payload = payload };
  })
