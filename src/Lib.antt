-- ===== src/Lib.antt =====
-- node-zmq-raft: a Raft peer over ZeroMQ with a log on files. A peer answers the requests of other
-- peers (lib/server/raft_router.js) and of clients (lib/server/raft_server.js), holds elections and
-- leads (lib/server/raft_leader.js), over the state and the methods of lib/server/raft.js. It keeps its
-- entries in a file log
-- (lib/server/filelog.js), whose entries have the layout of lib/common/log_entry.js with integers
-- written by lib/utils/bufconv.js, and counts votes and stored indexes in its cluster
-- configuration (lib/common/cluster_configuration.js).
--
-- Prelude: native numbers, lists, results of calls that may throw, and JavaScript's Map.
-- Bufconv: writeBufUIntLE, readBufUIntLE, writeBufIntLE and readBufIntLE, on lists of bytes. Numbers
--   are exact here, as doubles are for the lengths that entries use.
-- LogEntry: LogEntry.build, the readers, lastConfigOffsetOf and the age checks of request ids.
-- Cluster: ClusterConfiguration, with parsePeers, majorityOf and mergeMaps of lib/utils/helpers.js.
-- FileLog: the log as its entries, its indexes and terms, its snapshot and the request ids it
--   remembers; the index files are one list, and entries are as their readers give them. Whether a
--   request id has expired, which depends on the clock, is a parameter. The cleanup of the request ids
--   is an operation of the log, but none of the events of Server.Updates.
-- FileLog.Search: bSearch, on fuel as long as the list of names, which is enough as each step
--   shortens the range.
-- Table: typed arrays of offsets and positional writes of bytes, as lib/common/indexfile.js uses them.
-- IndexFile: lib/common/indexfile.js. A log file is its table of offsets in memory, the table on disk
--   and the data behind it. IndexFile.Writing has what changes it, IndexFile.Opening what is on disk and
--   readIndexFile, IndexFile.Spec the list of entries that it promises. The loops run on fuel as long as
--   the slots or the count they go over, which is enough as each step passes one or shortens the range;
--   the search of countEntriesFitSize gives an error of its own when its fuel is spent.
-- Raft: the state of a peer and _updateState, _updateConfig and their kin. A handler gives the state
--   it leaves, in order the effects it has (what it persists, replies, sends and emits), and whether it
--   threw. The steps of one handler's promises are run in one go: a reply that comes while a handler waits
--   for the log or the disk, and what it may change under that handler, is not modelled.
-- Raft.Router: requestVoteHandler, appendEntryHandler and installSnapshotHandler.
-- Raft.Leader: onElectionTimeout, onVoteResponse, becomeLeader, becomeFollower,
--   onAppendEntriesResponse, updateFollower, sendAppendEntries and sendInstallSnapshot.
-- Raft.History: events at one peer in sequence, and restarts from what it stored.
--
-- Server: requestUpdateHandler, configUpdateHandler, requestConfigHandler and requestLogInfoHandler of
--   lib/server/raft_server.js and _applyToStateMachine of lib/server/raft.js. A request is one step and
--   the write of its entry another, between which other events may happen; Server.Updates has the
--   events. The entries to write are in a queue, as appendEntry of the file log keeps them.
--   Server.Stream has requestEntriesHandler, with the chunks of the log's read stream and the client's
--   confirmations as the events of Server.Conversation. Which requests are pending, under which key, and
--   the expiry of those that are not confirmed are not part of it.
-- Lock: lib/utils/lock.js. A promise is the list of the callbacks that it settles after.
--
-- Not modelled: sockets, failing file operations and streams, the clients, the sending of snapshots
-- to clients, the frames of messages, and the state machine, which the library's user writes. The url format, MessagePack,
-- the clock and how many entries fit in a follower's buffer are parameters.
pub mod Prelude
pub mod Bufconv
pub mod Cluster
pub mod LogEntry
pub mod FileLog
pub mod Table
pub mod IndexFile
pub mod Raft
pub mod Server
pub mod Lock
