-- ===== src/Lib.antt =====
-- NexusMQ: the consensus core, the wire protocol, the broker's producers and transactions, the queue
-- between cores, a segment's index, and the circuit breaker.
--
-- NexusMQ is a message broker. Clients speak a binary protocol (src/protocol), whose frames and
-- messages are built from varints and little-endian integers (src/common). Each partition is a
-- Raft group (src/consensus): a `RaftNode` is a synchronous state machine that the reactor feeds
-- with instants, proposals and messages, and whose outbox the reactor empties; it keeps its entries
-- in a `RaftLog`, which lies on the partition's log and two sidecar files. A `RaftCarrier` stands
-- around the node: it saves the node's term and vote with a `RaftStateStore`, and passes the messages
-- of the node to the network. In front of the log the broker (src/broker) keeps a session for each
-- idempotent producer and an index of transactions; a `TransactionCoordinator` decides the
-- transactions that span partitions and has their markers written; a `ConsumerGroup` keeps the
-- members of a group and the rounds in which they share its partitions. The cores of a server hand work
-- to each other through rings for one producer and one consumer (src/reactor). A circuit breaker
-- (src/ingress) guards the calls to a dependency.
--
-- The files, and the code that each models:
--
--   Base, Base/*          shared names: Boolean tests on numbers, lists, signed integers by their
--                         bits, a map from numbers to numbers, and src/common/error.hpp
--   Wire/Bytes, Varint    src/common/types.hpp (`store_le`, `load_le`), src/common/varint.cpp
--   Wire/Codec            src/protocol/codec.cpp (`Encoder`, `Decoder`) and the counted vectors of
--                         src/protocol/messages.cpp
--   Wire/Errors           src/protocol/error_code.cpp
--   Wire/Frame            src/protocol/frame.cpp and versioning.cpp
--   Wire/Flags            the one-byte fields: Boolean flags and `Acks`
--   Wire/Messages/*       src/protocol/messages.cpp, one record, `encode` and `decode` per message:
--                         Cluster (metadata, versions), Data (produce, fetch, topics), Offsets, Group
--   Raft/Types            src/consensus/raft_state.hpp and raft_rpc.hpp, the data
--   Raft/Log              src/consensus/raft_log.cpp, every operation on an open log
--   Raft/Log/Terms        lemmas: the terms that a log shows after a push, a cut, an append
--   Raft/Node/State       src/consensus/raft_node.hpp, raft_state.cpp: the node's state, its timers
--   Raft/Node/Replication the leader's side of src/consensus/raft_node.cpp
--   Raft/Node/Election    the changes of role, the votes
--   Raft/Node/Handlers    `tick`, `propose`, `transfer_leadership`, and a handler per message
--   Raft/Node/Step        `Input` is everything a node can receive, `step` calls its handler, `run`
--                         is a sequence of steps
--   Raft/Node/Evolution   how term, vote and commit index move (Parts, Inputs, Entries, Runs)
--   Raft/Node/Roles       who becomes a leader (Leaders), what learners do (Learners)
--   Raft/Node/Campaign    what a handler does to a campaign: its term and its votes
--   Raft/Node/Commit      the order of the match indices, and the majority behind a commit
--   Raft/Node/Voting      when a vote is granted
--   Raft/Node/Matching    what a successful `AppendEntries` leaves in the log
--   Raft/Cluster          several nodes and the votes that are on the network between them; Majority
--                         and Votes hold the lemmas, Safety the invariant and the theorem
--   Raft/Rpc, Envelope    src/consensus/raft_rpc.cpp and raft_wire.cpp: the messages on the wire
--   Raft/StateStore       src/consensus/raft_state_store.cpp (`load`, `save`)
--   Raft/Carrier          src/consensus/raft_carrier.cpp; Durability is about what is on the disk
--                         when a message goes out
--   Broker/Producer       src/broker/producer_session.hpp and the idempotent path of
--                         src/broker/partition.cpp; Sequences holds the theorems
--   Broker/Transactions   src/broker/partition_txn_index.cpp
--   Broker/Coordinator    src/broker/transaction_coordinator.cpp: its state, Operations its calls;
--                         Tidy is about all its transactions; Fencing, Decisions and Completion
--                         hold the theorems
--   Broker/Group          src/broker/consumer_group.cpp; Membership is about the list of the members,
--                         Invariant about what holds after any calls
--   Reactor/SpscQueue     src/reactor/spsc_queue.hpp: the accesses of the two threads; Fifo is the list
--                         that the ring stands for, Refinement relates the two
--   Storage/SparseIndex   src/storage/index.cpp, the anchors in memory; Floor is about their search
--   Ingress/CircuitBreaker  src/ingress/circuit_breaker.cpp; Window and Probes hold its invariants
--   */Tests, */Tests/*    concrete messages, nodes, runs, batches and calls
--
-- Conventions. A decoder is a function from bytes to a result with the bytes that are left; an
-- encoder gives the bytes that the code appends to its buffer. A handler that changes the node
-- returns the new node, with its reply where it has one. A signed field on the wire is a signed
-- integer with its width as a condition; Raft's terms, indices, offsets and instants, which no run
-- makes negative, are natural numbers, and are not taken to overflow. A producer's sequence is an i32
-- by its 32 bits; where its sum would pass the largest i32, which the language leaves undefined, the
-- theorems exclude it. Instants are nanoseconds.
--
-- What is a parameter. `Raft.Log.Storage` is a record of the operations that `RaftLog` calls on the
-- partition's log (src/storage) and on its sidecar files. Each of them may fail at any call and
-- leaves a state either way; nothing else is assumed of them. `Broker.Producer.BatchLog` is the same
-- for the log that `Partition::produce` appends to; `Broker.Producer.Sequences.IsLog` says that it keeps what it appends, in
-- order, and nothing of what it refuses. `Raft.StateStore.Disk` is the file below the state store,
-- with what a crash may leave of it, and the checksum, which the code leaves to the processor;
-- `IsFile` says that what was written at the start of a file is read back, that what was there at a
-- sync is there afterwards, also after a crash, and that a checksum has 32 bits. It says nothing of
-- what a crash leaves of a write that was not synced. The comparison of a quotient of two doubles with
-- the breaker's `failure_ratio` is the function `reaches` of its configuration.
--
-- The network of `Raft.Cluster` keeps every granted vote for ever, so that a vote may arrive late or
-- twice, and delivers it only to the candidate that it was granted to. Every other message may be made
-- up. A reply that a candidate would count without such a grant is left out: the code cannot tell the
-- answer to a pre-vote from the answer to a vote. `Reactor.SpscQueue` interleaves the two threads at
-- each access of a counter or a cell, in one order for both; acquire and release order in the code are
-- taken to give that.
--
-- Fuel. `put_varint` runs on nine rounds of fuel, one less than the bytes of the longest 64-bit
-- varint; `put_varint_step` shows that they are enough, since it satisfies the loop's own equation; `get_varint` has the code's own bound of
-- ten bytes. Every other loop follows a list.
--
-- Not modelled: the text of an error, logging and metrics; opening a `RaftLog` and reading its
-- sidecars; opening the state store's file; `filter_committed`; the index's file and
-- the rest of storage, the group coordinator and the offsets, the rest of ingress and of the reactor, the Kafka protocol, clients and servers.
pub mod Base
pub mod Wire
pub mod Raft
pub mod Broker
pub mod Ingress
pub mod Reactor
pub mod Storage
