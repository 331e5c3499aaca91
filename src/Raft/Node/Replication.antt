-- ===== src/Raft/Node/Replication.antt =====
-- The leader's side: what it sends to each peer, and how the commit index advances.
use nexus_mq.Base.{
  ℕ, zero, suc, ◌-◌, ◌/◌, List, [], ◌∷◌, none, some, length, leb, ◌==◌, if◌then◌else◌, ok, err,
}
use nexus_mq.Base.Map.{find, assign}
use nexus_mq.Raft.Types.{append_entries, timeout_now, install_snapshot, RaftLogEntry}
use nexus_mq.Raft.Log.{Storage, last_index, term_at, entries_from, holds_entry}
use nexus_mq.Raft.Node.State.{RaftNode, is_voter, send}

abbrev pub max_entries_per_append : ℕ
max_entries_per_append = 64

-- `payload.empty() ? prev_index : payload.back().index`
unfoldable pub last_entry_index : ℕ → List RaftLogEntry → ℕ
last_entry_index d [] = d
last_entry_index d (e ∷ es) = last_entry_index e.index es

-- `std::ranges::sort(matches, std::ranges::greater{})`
unfoldable pub insert_desc : ℕ → List ℕ → List ℕ
insert_desc a [] = a ∷ []
insert_desc a (x ∷ xs) = if leb x a then a ∷ (x ∷ xs) else x ∷ insert_desc a xs

unfoldable pub sort_desc : List ℕ → List ℕ
unfolding insert_desc
sort_desc [] = []
sort_desc (x ∷ xs) = insert_desc x (sort_desc xs)

-- The element at a position; the source reads none past the end.
unfoldable pub nth : List ℕ → ℕ → ℕ
nth [] i = 0
nth (x ∷ xs) zero = x
nth (x ∷ xs) (suc i) = nth xs i

module _ {S : Storage} where
  unfoldable pub send_snapshot_to : ℕ → RaftNode S → RaftNode S
  unfolding send
  send_snapshot_to peer n =
      send peer
        (install_snapshot (record {
          term = n.current_term;
          leader_id = n.self;
          snapshot = record {
            last_included_index = n.log.snapshot_index;
            last_included_term = n.log.snapshot_term;
            last_included_offset = n.log.snapshot_last_offset;
            state = [];
          };
        }))
        (record n { last_sent = assign peer n.log.snapshot_index n.last_sent })

  abbrev payload_from : RaftNode S → ℕ → List RaftLogEntry
  payload_from n next = elim (entries_from next max_entries_per_append n.log) [
    | ok es ↦ es
    | err x ↦ []
  ]

  abbrev prev_term_of : RaftNode S → ℕ → ℕ
  prev_term_of n prev = elim (term_at n.log prev) [ ok t ↦ t | err x ↦ 0 ]

  -- `AppendEntries` from `next_index` on; with no entries it is a heartbeat.
  unfoldable pub send_entries_to : ℕ → RaftNode S → RaftNode S
  unfolding send last_entry_index
  send_entries_to peer n =
      let next = find peer n.next_index in
      let payload = payload_from n next in
      send peer
        (append_entries (record {
          term = n.current_term;
          leader_id = n.self;
          prev_log_index = next - 1;
          prev_log_term = prev_term_of n (next - 1);
          entries = payload;
          leader_commit = n.commit_index;
          leader_epoch = n.leader_epoch;
        }))
        (record n { last_sent = assign peer (last_entry_index (next - 1) payload) n.last_sent })

  unfoldable pub replicate_to : ℕ → RaftNode S → RaftNode S
  unfolding send_snapshot_to send_entries_to
  replicate_to peer n =
      if leb (find peer n.next_index) n.log.snapshot_index
      then send_snapshot_to peer n
      else send_entries_to peer n

  unfoldable pub replicate_each : List ℕ → RaftNode S → RaftNode S
  unfolding replicate_to
  replicate_each [] n = n
  replicate_each (peer ∷ peers) n = replicate_each peers (replicate_to peer n)

  unfoldable pub replicate_all : RaftNode S → RaftNode S
  unfolding replicate_each
  replicate_all n = replicate_each n.peers n

  -- The match indices of the voters among the peers.
  unfoldable pub peer_matches : RaftNode S → List ℕ → List ℕ
  unfolding is_voter
  peer_matches n [] = []
  peer_matches n (peer ∷ peers) =
      let rest = peer_matches n peers in
      if is_voter n peer then find peer n.match_index ∷ rest else rest

  -- The voters' match indices, the node's own being its last index.
  unfoldable pub matches : RaftNode S → List ℕ
  unfolding is_voter peer_matches
  matches n =
      let rest = peer_matches n n.peers in
      if is_voter n n.self then last_index n.log ∷ rest else rest

  unfoldable pub majority_match : RaftNode S → ℕ
  unfolding matches sort_desc nth
  majority_match n = nth (sort_desc (matches n)) (length (matches n) / 2)

  unfoldable pub set_commit_index : ℕ → RaftNode S → RaftNode S
  set_commit_index index n = record n { progress = record (n.progress) { commit_index = index } }

  unfoldable pub advance_commit_index : RaftNode S → RaftNode S
  unfolding majority_match set_commit_index
  advance_commit_index n =
      let candidate = majority_match n in
      if leb candidate n.commit_index
      then n
      else if holds_entry candidate n.current_term n.log
      then set_commit_index candidate n
      else n

  -- The peer is told to start an election once it has the whole log.
  unfoldable pub push_transfer : ℕ → RaftNode S → RaftNode S
  unfolding send replicate_to
  push_transfer peer n =
      if leb (last_index n.log) (find peer n.match_index)
      then record (send peer (timeout_now (record { term = n.current_term; leader_id = n.self }))
          n) { transfer_target = none }
      else replicate_to peer n

  unfoldable pub maybe_transfer_to : ℕ → RaftNode S → RaftNode S
  unfolding push_transfer
  maybe_transfer_to peer n = elim n.transfer_target [
    | none ↦ n
    | some target ↦ if target == peer then push_transfer peer n else n
  ]
