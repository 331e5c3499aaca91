-- ===== src/Raft/Node/Evolution/Entries.antt =====
-- The handlers that replace the log or a peer's progress, and the step function as a whole.
use nexus_mq.Base.{
  ℕ, refl, inl, inr, [], ◌∷◌, not, some, Expected, ok, err, arith, ltb, ◌||◌, if◌then◌else◌,
  Bool-cases,
}
use nexus_mq.Wire.Bytes.{Bytes}
use nexus_mq.Raft.Types.{
  AppendEntriesReply, TimeoutNowArgs, InstallSnapshotArgs, InstallSnapshotReply,
}
use nexus_mq.Raft.Log.{Storage, RaftLog, append}
use nexus_mq.Raft.Node.State.{RaftNode, is_voter, contains}
use nexus_mq.Raft.Node.Replication.{
  replicate_all, replicate_to, set_commit_index, advance_commit_index, maybe_transfer_to,
}
use nexus_mq.Raft.Node.Handlers.{
  is_leader, follow, confirm, back_off, is_current_leader, on_append_entries_reply, proposal,
  proposed, propose, transfer_leadership, observe_term, on_timeout_now, on_install_snapshot,
  on_install_snapshot_reply,
}
use nexus_mq.Raft.Node.Evolution.{Evolves, Evolves-refl, Evolves-trans, Keeps-Evolves}
use nexus_mq.Raft.Node.Evolution.Parts.{
  Evolves-if, replicate_to-Evolves, replicate_all-Evolves, set_commit_index-Evolves,
  advance_commit_index-Evolves, maybe_transfer_to-Evolves, become_follower-Evolves,
  become_candidate-Evolves,
}
use nexus_mq.Raft.Node.Evolution.Inputs.{observe_term-Evolves, follow-Evolves}

module _ {S : Storage} where
  confirmed-Evolves :
      (from : ℕ) (n : RaftNode S) → Evolves n (advance_commit_index (confirm from n))
  unfolding confirm
  confirmed-Evolves from n =
      Evolves-trans (Keeps-Evolves n (confirm from n) (refl, refl, refl))
        (advance_commit_index-Evolves (confirm from n))

  backed_off-Evolves :
      (from conflict : ℕ) (n : RaftNode S)
      → Evolves n (replicate_to from (back_off from conflict n))
  unfolding back_off
  backed_off-Evolves from conflict n =
      Evolves-trans (Keeps-Evolves n (back_off from conflict n) (refl, refl, refl))
        (replicate_to-Evolves from (back_off from conflict n))

  pub on_append_entries_reply-Evolves :
      (now from : ℕ) (reply : AppendEntriesReply) (n : RaftNode S)
      → Evolves n (on_append_entries_reply now from reply n)
  unfolding on_append_entries_reply
  on_append_entries_reply-Evolves now from reply n =
      Evolves-if n (ltb n.current_term reply.term) (become_follower-Evolves now reply.term n) (
        Evolves-if n (is_current_leader reply.term n)
          (Evolves-if n reply.success
            (Evolves-trans (confirmed-Evolves from n)
              (maybe_transfer_to-Evolves from (advance_commit_index (confirm from n))))
            (backed_off-Evolves from reply.conflict_index n))
          (Evolves-refl n))

  pub on_install_snapshot_reply-Evolves :
      (now from : ℕ) (reply : InstallSnapshotReply) (n : RaftNode S)
      → Evolves n (on_install_snapshot_reply now from reply n)
  unfolding on_install_snapshot_reply
  on_install_snapshot_reply-Evolves now from reply n =
      Evolves-if n (ltb n.current_term reply.term) (become_follower-Evolves now reply.term n) (
        Evolves-if n (is_current_leader reply.term n)
          (Evolves-trans (confirmed-Evolves from n)
            (replicate_to-Evolves from (advance_commit_index (confirm from n))))
          (Evolves-refl n))

  -- A new log in a node changes nothing else.
  log-Evolves : (n : RaftNode S) (log : RaftLog S) → Evolves n (record n { log = log })
  log-Evolves n log = Keeps-Evolves n (record n { log = log }) (refl, refl, refl)

  proposed-Evolves : (n : RaftNode S) (r : RaftLog S × Expected ℕ) → Evolves n (proposed n r).0
  unfolding proposed
  proposed-Evolves n (log', err x) = log-Evolves n log'
  proposed-Evolves n (log', ok index) =
      let n' : RaftNode S = record n { log = log' } in
      Evolves-trans (log-Evolves n log')
        (Evolves-trans (replicate_all-Evolves n') (advance_commit_index-Evolves (replicate_all n')))

  pub propose-Evolves : (batch : Bytes) (n : RaftNode S) → Evolves n (propose batch n).0
  unfolding propose
  propose-Evolves batch n = elim (Bool-cases (is_leader n.role)) [
    | inl lead ↦ rw lead (proposed-Evolves n (append (proposal batch n ∷ []) n.log))
    | inr other ↦ rw other (Evolves-refl n)
  ]

  pub transfer_leadership-Evolves :
      (target : ℕ) (n : RaftNode S) → Evolves n (transfer_leadership target n).0
  unfolding transfer_leadership
  transfer_leadership-Evolves target n = elim (Bool-cases (is_leader n.role)) [
    | inr other ↦ rw other (Evolves-refl n)
    | inl lead ↦ elim (Bool-cases (contains n.peers target)) [
      | inr stranger ↦ rw (lead, stranger) (Evolves-refl n)
      | inl peer ↦ elim (Bool-cases (is_voter n target)) [
        | inr learner ↦ rw (lead, peer, learner) (Evolves-refl n)
        | inl voter ↦ rw (lead, peer, voter) started
      ]
    ]
  ]
    where
      n' : RaftNode S
      n' = record n { transfer_target = some target }

      started : Evolves n (maybe_transfer_to target n')
      started =
          Evolves-trans (Keeps-Evolves n n' (refl, refl, refl))
            (maybe_transfer_to-Evolves target n')

  pub on_timeout_now-Evolves :
      (now : ℕ) (args : TimeoutNowArgs) (n : RaftNode S) → Evolves n (on_timeout_now now args n)
  unfolding on_timeout_now
  on_timeout_now-Evolves now args n =
      Evolves-if n (ltb args.term n.current_term || not (is_voter n n.self)) (Evolves-refl n) (
        Evolves-trans (observe_term-Evolves now args.term n)
          (become_candidate-Evolves now (observe_term now args.term n)))

  adopted-Evolves :
      (args : InstallSnapshotArgs) (n : RaftNode S) (r : RaftLog S × Expected (Unit {0}))
      → Evolves n (elim r.1 [
        | err x ↦ record n { log = r.0 }
        | ok u ↦
            if ltb n.commit_index args.snapshot.last_included_index
            then set_commit_index args.snapshot.last_included_index (record n { log = r.0 })
            else record n { log = r.0 }
      ])
  adopted-Evolves args n (log', err x) = log-Evolves n log'
  adopted-Evolves args n (log', ok u) =
      elim (Bool-cases (ltb n.commit_index args.snapshot.last_included_index)) [
        | inl beyond ↦ rw beyond (
            Evolves-trans (log-Evolves n log') (
              set_commit_index-Evolves args.snapshot.last_included_index (record n { log = log' })
                (ground arith)))
        | inr behind ↦ rw behind (log-Evolves n log')
      ]

  pub on_install_snapshot-Evolves :
      (now : ℕ) (args : InstallSnapshotArgs) (n : RaftNode S)
      → Evolves n (on_install_snapshot now args n).0
  unfolding on_install_snapshot
  on_install_snapshot-Evolves now args n = elim (Bool-cases (ltb args.term n.current_term)) [
    | inl old ↦ rw old (Evolves-refl n)
    | inr fresh ↦ rw fresh (
        Evolves-trans (follow-Evolves now args.term args.leader_id n)
          (adopted-Evolves args (follow now args.term args.leader_id n) _))
  ]
