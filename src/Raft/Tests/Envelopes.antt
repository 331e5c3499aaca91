-- ===== src/Raft/Tests/Envelopes.antt =====
-- Concrete envelopes of consensus/raft_wire.cpp.
use nexus_mq.Base.{◌≡◌, [], ◌∷◌, ◌++◌, ok, arith}
use nexus_mq.Raft.Types.{entry_data, append_entries}
use nexus_mq.Raft.Envelope.{RaftEnvelope, encode_envelope, decode_envelope}
use nexus_mq.Raft.Envelope.RoundTrip.{IsPayload, decode_envelope-encode_envelope}

-- Node 1 sends an entry of term 2 to node 3, for partition 4 of the topic "ab".
abbrev envelope : RaftEnvelope
envelope = record {
  topic = 97 ∷ 98 ∷ [];
  partition = 4;
  message = record {
    sender = 1;
    receiver = 3;
    payload = append_entries (record {
      term = 2;
      leader_id = 1;
      prev_log_index = 0;
      prev_log_term = 0;
      entries = record { term = 2; index = 1; type = entry_data; payload = 9 ∷ [] } ∷ [];
      leader_commit = 0;
      leader_epoch = 1;
    });
  };
}

decode_envelope-encode_envelope_example :
    decode_envelope (encode_envelope envelope ++ 5 ∷ []) ≡ ok (envelope, 5 ∷ [])
unfolding IsPayload
decode_envelope-encode_envelope_example =
    decode_envelope-encode_envelope envelope
      (record {
        topic = omega arith;
        partition = omega arith;
        sender = omega arith;
        receiver = omega arith;
        payload = record {
          term = omega arith;
          leader_id = omega arith;
          prev_log_index = omega arith;
          prev_log_term = omega arith;
          sized = omega arith;
          entries = (record { term = omega arith; index = omega arith; payload = omega arith }, tt);
          leader_commit = omega arith;
          leader_epoch = omega arith;
        };
      })
      (5 ∷ [])
