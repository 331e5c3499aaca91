-- ===== src/Raft/Tests/Restarts.antt =====
-- A carrier and its disk on concrete states: consensus/raft_carrier.cpp and raft_state_store.cpp.
use nexus_mq.Base.{
  ℕ, ◌+◌, ◌%◌, ◌^◌, ◌≡◌, ◌⊎◌, refl, sym, ap, ◌∙◌, [], ◌∷◌, ◌++◌, true, some, ok, arith, length,
  take, drop, take-length-append, length-append,
}
use nexus_mq.Wire.Bytes.{Bytes, store_le}
use nexus_mq.Raft.Types.{timeout_now}
use nexus_mq.Raft.Node.State.{
  contains, is_voter, has_majority, cluster_size, count_voters, advance_term, record_vote,
  reset_election_timer, send,
}
use nexus_mq.Raft.Node.Election.{become_candidate, stand, broadcast_request_vote, ask_votes}
use nexus_mq.Raft.Node.Handlers.{observe_term, on_timeout_now, take_messages}
use nexus_mq.Raft.StateStore.{
  Disk, IsFile, encode_record, encode_state, load, load_sized, save, sync_written, has_vote_byte,
  vote_or_zero,
}
use nexus_mq.Raft.StateStore.RoundTrip.{IsVote, load-save}
use nexus_mq.Raft.Carrier.{
  RaftCarrier, recover, deliver, on_message, flush_outbox, flush_to, transport_saved, transport,
  maybe_compact, emit_each, emit, compact_log, clear_persistent_dirty,
}
use nexus_mq.Raft.Carrier.Durability.{Event, message_arrives, take_in, handle}
use nexus_mq.Raft.Carrier.Durability.Recovery.{handle_each, StaysStorable, handle-recover}
use nexus_mq.Raft.Tests.Elections.{counter, created}

unfoldable sum : Bytes → ℕ
sum [] = 0
sum (b ∷ bs) = b + sum bs

-- A file in memory: what is read and written, and what was there when it was last synced, which alone
-- is left by a crash. The checksum is the sum of the bytes.
abbrev memory : Disk
memory = record {
  State = Bytes × Bytes;
  size = λ s. ok (length s.0);
  read_at = λ count offset s. ok (take count (drop offset s.0));
  write_at = λ bytes offset s.
      ((take offset s.0 ++ bytes ++ drop (offset + length bytes) s.0, s.1), ok tt);
  sync = λ s. ((s.0, s.0), ok tt);
  Crashes = λ s t. t ≡ (s.1, s.1);
  crc32c = λ bytes. sum bytes % 2 ^ 32;
}

-- What a write at the start leaves.
written :
    (bytes : Bytes) (s t : memory.State)
    → memory.write_at bytes 0 s ≡ (t, ok tt)
    → t.0 ≡ bytes ++ drop (length bytes) s.0
written bytes s t e = sym (ap (λ w. w.0.0) e) ∙ ap (λ n. bytes ++ drop n s.0) (omega arith)

-- What a crash after a sync leaves.
crashed : (s t u : memory.State) → memory.sync s ≡ (t, ok tt) → memory.Crashes t u → u.0 ≡ s.0
crashed s t u e crash = ap (λ w. w.0) crash ∙ ap (λ w. w.0.1) (sym e)

memory-IsFile : IsFile memory
memory-IsFile = record {
  written_read = λ bytes s t e.
      ap (λ (r : Bytes). ok (take (length bytes) r)) (written bytes s t e)
      ∙ ap ok (take-length-append bytes (drop (length bytes) s.0));
  written_size = λ bytes s t e. (
    length t.0,
    refl,
    omega (
      arith,
      ap (λ (r : Bytes). length r) (written bytes s t e),
      length-append bytes (drop (length bytes) s.0),
    ),
  );
  synced_read = λ count s t e. ap (λ w. ok (take count w.0.0)) (sym e);
  synced_size = λ s t e. ap (λ w. ok (length w.0.0)) (sym e);
  crashed_read =
      λ count s t u e crash. ap (λ (r : Bytes). ok (take count r)) (crashed s t u e crash);
  crashed_size = λ s t u e crash. ap (λ (r : Bytes). ok (length r)) (crashed s t u e crash);
  crc32c-lt = λ bytes. omega arith;
}

load-save_example :
    let saved = encode_record memory (record { current_term = 7; voted_for = some 2 }) in
    load memory (saved, saved) ≡ ok (record { current_term = 7; voted_for = some 2 })
unfolding save sync_written encode_record encode_state store_le has_vote_byte vote_or_zero IsVote
    sum
load-save_example =
    load-save memory (record { current_term = 7; voted_for = some 2 }) ([], []) _ memory-IsFile
      (record { term_fits = omega arith; vote_fits = omega arith }) refl

abbrev carrier : RaftCarrier counter memory
carrier = record {
  node = created 1;
  store = some ([], []);
  has_log = true;
  applied_entries_threshold = 10;
  sent = [];
}

-- Node 1 is told to stand in term 1.
abbrev ordered : Event
ordered = message_arrives 10 (record {
  sender = 3;
  receiver = 1;
  payload = timeout_now (record { term = 0; leader_id = 3 });
})

-- What the carrier has written is on the disk.
abbrev on_disk : Bytes
on_disk = encode_record memory (record { current_term = 1; voted_for = some 1 })

handle-recover_example :
    ((handle ordered carrier).sent ≡ (take_in ordered carrier).sent)
    ⊎ (((recover (record carrier { store = some (on_disk, on_disk) })).1 ≡ ok tt)
        × ((recover (record carrier { store = some (on_disk, on_disk) })).0.node.persistent
            ≡ (handle ordered carrier).node.persistent))
unfolding load load_sized handle_each StaysStorable take_in deliver on_timeout_now observe_term
    become_candidate stand broadcast_request_vote ask_votes advance_term record_vote
    reset_election_timer is_voter contains send has_majority cluster_size count_voters IsVote handle
    on_message flush_outbox flush_to transport_saved save sync_written encode_record encode_state
    store_le has_vote_byte vote_or_zero sum transport maybe_compact take_messages emit_each emit
    compact_log clear_persistent_dirty
handle-recover_example =
    handle-recover [] ordered carrier carrier ([], []) (on_disk, on_disk) (on_disk, on_disk)
      memory-IsFile refl (λ u crash. ap (load memory) crash) tt
      (record { term_fits = omega arith; vote_fits = omega arith }) refl refl
