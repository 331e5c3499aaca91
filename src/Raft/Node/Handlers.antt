-- ===== src/Raft/Node/Handlers.antt =====
-- The inputs of a node: the clock, the client's calls, and each kind of message.
use nexus_mq.Base.{
  ℕ, ◌+◌, ◌-◌, List, [], ◌∷◌, Bool, true, false, not, Option, none, some, length, ltb, leb, ◌==◌,
  ◌||◌, ◌&&◌, if◌then◌else◌, Expected, ok, err, ErrorCode, min, max,
}
use nexus_mq.Base.Map.{find, assign}
use nexus_mq.Wire.Bytes.{Bytes}
use nexus_mq.Raft.Types.{
  RaftRole, follower, pre_candidate, candidate, leader, RequestVoteArgs, RequestVoteReply,
  AppendEntriesArgs, AppendEntriesReply, TimeoutNowArgs, InstallSnapshotArgs, InstallSnapshotReply,
  RaftLogEntry, entry_data, RaftMessage,
}
use nexus_mq.Raft.Log.{
  Storage, RaftLog, last_index, term_at, append, truncate_from, holds_entry, install_log_snapshot,
}
use nexus_mq.Raft.Node.State.{
  RaftNode, contains, insert, is_voter, has_majority, record_vote, reset_election_timer,
  reset_heartbeat_timer,
}
use nexus_mq.Raft.Node.Replication.{
  replicate_all, replicate_to, advance_commit_index, maybe_transfer_to, set_commit_index,
}
use nexus_mq.Raft.Node.Election.{
  become_follower, become_candidate, become_leader, start_pre_election, log_is_up_to_date,
  make_pre_vote_reply,
}

unfoldable pub is_follower : RaftRole → Bool
is_follower follower = true
is_follower _ = false

unfoldable pub is_leader : RaftRole → Bool
is_leader leader = true
is_leader _ = false

-- Has this node's vote of the term not gone to another candidate?
unfoldable pub can_vote : Option ℕ → ℕ → Bool
can_vote none candidate_id = true
can_vote (some voted) candidate_id = voted == candidate_id

module _ {S : Storage} where
  unfoldable pub tick_started : ℕ → RaftNode S → RaftNode S
  unfolding is_leader
  tick_started now n =
      if is_leader n.role
      then if leb n.heartbeat_deadline now then replicate_all (reset_heartbeat_timer now n) else n
      else if leb n.election_deadline now && is_voter n n.self
      then start_pre_election now n
      else n

  -- The first tick only arms the timer.
  unfoldable pub tick : ℕ → RaftNode S → RaftNode S
  unfolding tick_started
  tick now n =
      if n.started
      then tick_started now n
      else reset_election_timer now (record n { started = true })

  unfoldable pub observe_term : ℕ → ℕ → RaftNode S → RaftNode S
  observe_term now term n = if ltb n.current_term term then become_follower now term n else n

  unfoldable pub cast_vote : ℕ → RequestVoteArgs → RaftNode S → RaftNode S × RequestVoteReply
  unfolding can_vote
  cast_vote now args n =
      if ltb args.term n.current_term
      then (n, record { term = n.current_term; vote_granted = false })
      else if can_vote n.voted_for args.candidate_id
          && log_is_up_to_date args.last_log_index args.last_log_term n
      then (
        reset_election_timer now (record_vote args.candidate_id n),
        record { term = n.current_term; vote_granted = true },
      )
      else (n, record { term = n.current_term; vote_granted = false })

  unfoldable pub on_request_vote : ℕ → RequestVoteArgs → RaftNode S → RaftNode S × RequestVoteReply
  unfolding observe_term cast_vote
  on_request_vote now args n =
      if args.pre_vote
      then (n, make_pre_vote_reply now args n)
      else cast_vote now args (observe_term now args.term n)

  unfoldable pub count_vote : ℕ → RaftNode S → RaftNode S
  count_vote from n = record n { votes_granted = insert from n.votes_granted }

  unfoldable pub count_pre_vote : ℕ → ℕ → RaftNode S → RaftNode S
  unfolding count_vote
  count_pre_vote now from n =
      let n' = count_vote from n in
      if has_majority n' (length n'.votes_granted) then become_candidate now n' else n'

  unfoldable pub count_real_vote : ℕ → ℕ → RaftNode S → RaftNode S
  unfolding count_vote
  count_real_vote now from n =
      let n' = count_vote from n in
      if has_majority n' (length n'.votes_granted) then become_leader now n' else n'

  -- A vote counts if it is granted in this term by a voter.
  unfoldable pub vote_counts : ℕ → RequestVoteReply → RaftNode S → Bool
  vote_counts from reply n = reply.term == n.current_term && (reply.vote_granted && is_voter n from)

  unfoldable pub on_request_vote_reply : ℕ → ℕ → RequestVoteReply → RaftNode S → RaftNode S
  unfolding vote_counts
  on_request_vote_reply now from reply n =
      if ltb n.current_term reply.term then become_follower now reply.term n else elim n.role [
        | pre_candidate ↦ if vote_counts from reply n then count_pre_vote now from n else n
        | candidate ↦ if vote_counts from reply n then count_real_vote now from n else n
        | _ ↦ n
      ]

  unfoldable pub append_suffix : List RaftLogEntry → RaftLog S → RaftLog S × Bool
  append_suffix es log =
      let (log', appended) = append es log in
      elim appended [ ok index ↦ (log', true) | err x ↦ (log', false) ]

  unfoldable pub replace_suffix : ℕ → List RaftLogEntry → RaftLog S → RaftLog S × Bool
  unfolding append_suffix
  replace_suffix index es log =
      let (log', cut) = truncate_from index log in
      elim cut [ ok u ↦ append_suffix es log' | err x ↦ (log', false) ]

  -- Entries that are there are skipped; the log is cut at the first that conflicts, and the rest
  -- is appended.
  unfoldable pub append_entries_from : List RaftLogEntry → RaftLog S → RaftLog S × Bool
  unfolding append_suffix replace_suffix
  append_entries_from [] log = (log, true)
  append_entries_from (e ∷ es) log =
      let skipped = append_entries_from es log in
      if ltb (last_index log) e.index
      then append_suffix (e ∷ es) log
      else if holds_entry e.index e.term log
      then skipped
      else replace_suffix e.index (e ∷ es) log

  -- A message of a leader that is not obsolete.
  unfoldable pub follow : ℕ → ℕ → ℕ → RaftNode S → RaftNode S
  unfolding is_follower
  follow now term leader_id n =
      let n' =
        if ltb n.current_term term || not (is_follower n.role)
        then become_follower now term n
        else n in
      record (reset_election_timer now (record n' { leader_id = some leader_id })) {
        last_leader_contact = now;
      }

  unfoldable pub raise_commit : ℕ → RaftNode S → RaftNode S
  raise_commit leader_commit n =
      if ltb n.commit_index leader_commit
      then set_commit_index (min leader_commit (last_index n.log)) n
      else n

  unfoldable pub accept_entries : AppendEntriesArgs → RaftNode S → RaftNode S × AppendEntriesReply
  unfolding append_entries_from raise_commit
  accept_entries args n =
      let (log', written) = append_entries_from args.entries n.log in
      let n' = record n { log = log' } in
      if written
      then (
        raise_commit args.leader_commit n',
        record { term = n.current_term; success = true; conflict_index = 0 },
      )
      else (n', record { term = n.current_term; success = false; conflict_index = 0 })

  unfoldable pub reject_entries : ℕ → RaftNode S → RaftNode S × AppendEntriesReply
  reject_entries conflict n =
      (n, record { term = n.current_term; success = false; conflict_index = conflict })

  -- The consistency check on the entry before the first one.
  unfoldable pub check_entries : AppendEntriesArgs → RaftNode S → RaftNode S × AppendEntriesReply
  unfolding accept_entries reject_entries
  check_entries args n =
      if ltb (last_index n.log) args.prev_log_index
      then reject_entries (last_index n.log + 1) n
      else elim (term_at n.log args.prev_log_index) [
        | err x ↦ reject_entries (last_index n.log + 1) n
        | ok t ↦
            if t == args.prev_log_term
            then accept_entries args n
            else reject_entries args.prev_log_index n
      ]

  unfoldable pub on_append_entries :
      ℕ → AppendEntriesArgs → RaftNode S → RaftNode S × AppendEntriesReply
  on_append_entries now args n =
      if ltb args.term n.current_term
      then reject_entries 0 n
      else check_entries args (follow now args.term args.leader_id n)

  -- A confirmed peer has the log up to what was sent to it last.
  unfoldable pub confirm : ℕ → RaftNode S → RaftNode S
  confirm from n =
      let matched = max (find from n.match_index) (find from n.last_sent) in
      record n {
        progress = record (n.progress) {
          match_index = assign from matched n.match_index;
          next_index = assign from (matched + 1) n.next_index;
        };
      }

  unfoldable pub back_off : ℕ → ℕ → RaftNode S → RaftNode S
  back_off from conflict n =
      let hint = if ltb 0 conflict then conflict else find from n.next_index - 1 in
      record n {
        progress = record (n.progress) { next_index = assign from (max 1 hint) n.next_index };
      }

  -- Is a reply one to the leader of the current term?
  unfoldable pub is_current_leader : ℕ → RaftNode S → Bool
  unfolding is_leader
  is_current_leader term n = is_leader n.role && term == n.current_term

  unfoldable pub on_append_entries_reply : ℕ → ℕ → AppendEntriesReply → RaftNode S → RaftNode S
  unfolding is_current_leader confirm back_off
  on_append_entries_reply now from reply n =
      if ltb n.current_term reply.term
      then become_follower now reply.term n
      else if is_current_leader reply.term n
      then if reply.success
        then maybe_transfer_to from (advance_commit_index (confirm from n))
        else replicate_to from (back_off from reply.conflict_index n)
      else n

  -- What follows the append of a proposal.
  unfoldable pub proposed : RaftNode S → RaftLog S × Expected ℕ → RaftNode S × Expected ℕ
  proposed n (log', err x) = (record n { log = log' }, err x)
  proposed n (log', ok index) =
      (advance_commit_index (replicate_all (record n { log = log' })), ok index)

  unfoldable pub proposal : Bytes → RaftNode S → RaftLogEntry
  proposal batch n = record {
    term = n.current_term;
    index = last_index n.log + 1;
    type = entry_data;
    payload = batch;
  }

  unfoldable pub propose : Bytes → RaftNode S → RaftNode S × Expected ℕ
  unfolding is_leader
  propose batch n =
      if is_leader n.role
      then proposed n (append (proposal batch n ∷ []) n.log)
      else (n, err ErrorCode.unsupported)

  unfoldable pub transfer_leadership : ℕ → RaftNode S → RaftNode S × Expected (Unit {0})
  unfolding is_leader
  transfer_leadership target n =
      if not (is_leader n.role)
      then (n, err ErrorCode.unsupported)
      else if not (contains n.peers target)
      then (n, err ErrorCode.invalid_argument)
      else if not (is_voter n target)
      then (n, err ErrorCode.invalid_argument)
      else (maybe_transfer_to target (record n { transfer_target = some target }), ok tt)

  unfoldable pub on_timeout_now : ℕ → TimeoutNowArgs → RaftNode S → RaftNode S
  unfolding observe_term
  on_timeout_now now args n =
      if ltb args.term n.current_term || not (is_voter n n.self)
      then n
      else become_candidate now (observe_term now args.term n)

  unfoldable pub adopt_snapshot : InstallSnapshotArgs → RaftNode S → RaftNode S
  adopt_snapshot args n =
      let (log', installed) =
        install_log_snapshot args.snapshot.last_included_index args.snapshot.last_included_term
          args.snapshot.last_included_offset n.log in
      let n' = record n { log = log' } in
      elim installed [
        | err x ↦ n'
        | ok u ↦
            if ltb n.commit_index args.snapshot.last_included_index
            then set_commit_index args.snapshot.last_included_index n'
            else n'
      ]

  unfoldable pub on_install_snapshot :
      ℕ → InstallSnapshotArgs → RaftNode S → RaftNode S × InstallSnapshotReply
  unfolding follow adopt_snapshot
  on_install_snapshot now args n =
      let n' = follow now args.term args.leader_id n in
      if ltb args.term n.current_term
      then (n, record { term = n.current_term })
      else (adopt_snapshot args n', record { term = n'.current_term })

  unfoldable pub on_install_snapshot_reply : ℕ → ℕ → InstallSnapshotReply → RaftNode S → RaftNode S
  unfolding is_current_leader confirm
  on_install_snapshot_reply now from reply n =
      if ltb n.current_term reply.term
      then become_follower now reply.term n
      else if is_current_leader reply.term n
      then replicate_to from (advance_commit_index (confirm from n))
      else n

  unfoldable pub take_messages : RaftNode S → RaftNode S × List RaftMessage
  take_messages n = (record n { outbox = [] }, n.outbox)
