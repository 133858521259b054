-- ===== src/Lib.antt =====
-- Verification of parts of swifty.go, a monorepo of Go libraries and applications.
--
-- The libraries are an HTTP framework (swifty_http), an ORM for MongoDB (swifty_orm), a distributed
-- cache (swifty_cache) and an RPC framework (swifty_rpc), which do not depend on each other but for the
-- dashboard of the cache, served by the HTTP framework. The applications under apps stand alone; one of
-- them, apps/raft_demo, holds a Raft implementation with a key-value store on top of it. The chat and
-- agent services use the libraries. Modelled are the Raft implementation, the fault tolerance of the
-- RPC framework, with its frames, the routes of the HTTP framework, the store and the hash ring of the
-- cache, the time wheel of apps/time_wheel, the Bloom filter and the log of apps/lsm_tree, the
-- transaction manager of apps/tcc_demo and the service of apps/consistent_hash.
--
-- Raft models apps/raft_demo/raft, one function of the model for each function of the source, with its
-- name in snake_case:
--   Raft/Model: model.go, and the outcomes of calls;
--   Raft/Storage: MemoryStorage of storage.go;
--   Raft/Unstable, Raft/Log: `unstable` and `raftLog` of log.go;
--   Raft/Progress, Raft/ReadOnly: progress.go and `readOnly` of read.go;
--   Raft/Core: the record `raft` and the helpers of raft.go, with becomeFollower and util.go;
--   Raft/Follower, Raft/Candidate, Raft/Leader: follower.go, candidate.go and leader.go, and `campaign`;
--   Raft/Step: newRaft, Step and the ticks of raft.go;
--   Raft/Node: ready.go, and the loop of node.go, one turn at a time.
-- A message that arrives goes through Step: first the terms are compared (observe_higher), then
-- dispatch handles a campaign or a vote, and leaves the rest to the function of the role (call_step).
-- The roles append to the log (maybeAppend at a follower, appendEntry at the leader), the leader counts
-- the acknowledgements in its progress records and commits by them, and messages to send are collected
-- in the state. The node loop hands these and the unstable entries out as a Ready.
--
-- Rpc models parts of swifty_rpc/internal, which do not call each other: Rpc/Breaker is
-- breaker/breaker.go, Rpc/Limiter is limiter/token_bucket.go, Rpc/Balance is load_balance/round_robin.go
-- and random.go, and Rpc/Frame is Encode and Decode of protocol/message.go, with Compress and
-- Decompress of codec/compress.go, and the PacketBuffer of transport/tcp_connection.go, which cuts the
-- incoming bytes into frames for Decode.
--
-- Http/Trie is swifty_http/trie.go: a node with its children as one data type, changed by building a new
-- tree, where the source changes the nodes behind pointers (a node has one parent). Http/Router is
-- router.go on top of it: a pattern is cut into its parts, put into the trie of its method, and a path is
-- searched there by its own parts.
--
-- Cache models parts of swifty_cache. Of lru.go:
--   Cache/Lru: `cache`, one level of a bucket, with put, peek, del, drop, evictOldest, walk and adjust;
--   Cache/Store: `lruStore`, with NewStore, Get, SetWithExpiration, Delete, Clear and the cleanup, each on
--     the bucket whose lock it holds, HashBKRD and MaskOfNextPowOf2;
--   Cache/Store/Totals: Len, Walk, Bytes, Evictions and Clear over all buckets.
--   Cache/Store/Levels, Cache/Store/Evict, Cache/Store/Absent: a put and a Get of its key, one eviction, and
--     when a level has a key no more;
--   Cache/Store/Rounds, Cache/Store/Sets, Cache/Store/Ending: the eviction loop of a Set, the Get after
--     the Set, and how the loop ends.
-- A Set puts the key into the first level and drops it from the second; a Get moves it from the first to
-- the second. The directory Cache/Lru has the proofs on the linked arrays: Chain and Move read the links
-- as a sequence of slots, Valid says when a level is well formed, Spec is the list that a level stands
-- for, and Refine and Bury show that put and del do what it says.
-- Cache/Ring models consistent_hash.go, the ring by which the cache picks the node of a key: Search is
-- the binary search of Get, Next says which key of the ring a hash belongs to whatever their order,
-- Valid, Grow and Shrink are about what Add and Remove do to the ring, Moves about which keys change
-- their node, and Runs about sequences of calls.
--
-- Wheel is apps/time_wheel/time_wheel.go: ticks, additions and removals, one at a time, as its goroutine
-- handles them.
--
-- Lsm/Bloom is apps/lsm_tree/filter/bloom_filter.go, the filter by which the LSM tree skips the blocks that
-- do not have a key: Bits is about the bytes of the bitmap, Sets about the loops, Members about keys.
-- Lsm/Wal is apps/lsm_tree/wal, the log that is written before the memtable and read into one after a crash.
--
-- Tcc models the transaction manager of apps/tcc_demo over components and a log that the user supplies:
--   Tcc: the registry and getStatus, and the second phase (advanceProgress);
--   Tcc/Manager: Transaction with its first phase, and the rounds of the monitor;
--   Tcc/Contract: what is relied on of the log;
--   Tcc/Trying, Tcc/Atomic, Tcc/Registry, Tcc/Outcome: the tries against the log, what the second phase
--     does then, which components take part, and the whole of Transaction.
-- A goroutine of the first phase makes two steps, the try and the update of the log; a schedule says which
-- goroutine is next, and what it leaves open is finished in order, as the manager waits for all of them.
--
-- Hash models the service of apps/consistent_hash over a ring that the user supplies:
--   Hash: the interface, AddNode with migrateIn, and GetNode; Hash/Removal: RemoveNode with migrateOut;
--   Hash/Contract: what is relied on of the ring; Hash/Plain: a ring for which it holds;
--   Hash/Arc, Hash/Range: the scores next to a score, and the range that migrateIn tests in int32;
--   Hash/Owned, Hash/Migrate, Hash/Settle, Hash/Between, Hash/Adding, Hash/Getting: which node a data key
--     belongs to, and what one virtual node after another, AddNode and GetNode make of the recorded keys;
--   Hash/Without, Hash/Passing, Hash/Leaving, Hash/Parting, Hash/Handing, Hash/Handed, Hash/Removed: the ring
--     without a node, the node that getValidNextNode comes to, what a virtual node that leaves makes of the
--     recorded keys (migrateOut on each of its branches), and RemoveNode;
--   Hash/Ending, Hash/Names: the recursion of getValidNextNode, and the keys of virtual nodes.
--
-- Conventions:
-- - A method that changes a struct takes the record and returns the changed one. A mutex that a method
--   holds throughout makes it one step; the clock, the ticker and the generator of random numbers are
--   arguments.
-- - uint64 is ℕ with the wrap-around written out (add64 and sub64 of Prelude/Words). A well-formed log
--   keeps its indices below 2 ^ 63, which no log in memory reaches. int32 is its bit pattern.
-- - A panic and an error are values: Outcome of Raft/Model and Result of Rpc/Frame, whose binds stop at
--   the first of them, and `none` of an insertion into the trie.
-- - A field that holds a function of the source (step, tick) is an enumeration of the functions that
--   are assigned to it.
-- - A map is an association list, of which the order stands for the order of the iteration (Key,
--   lookup, insert and delete of Prelude/Maps). A slice is a list: the sharing of backing arrays is not
--   modelled.
-- - The comparison of the breaker's failure rate is in float64; it is a function that the breaker is
--   given.
-- - encoding/json and the compressors are parameters of Encode and Decode (Codecs of Rpc/Frame).
-- - The callbacks of the cache (onEvicted) and of the wheel (the tasks) are not run: an operation
--   returns the list of its calls.
-- - Recursion is structural, but for the loops over the linked arrays of the cache: walk and evictOldest
--   have one step more than the level has slots, which are as many as a chain without repetition can
--   visit; the eviction loop of a Set has one step more than both levels have slots, of which each
--   round that goes on makes one dead; the binary search of the ring has as many steps as there are keys,
--   of which each halves the range at least by one; and the digits of a number have one step more than it. A
--   varint has the ten bytes of encoding/binary, and the reading of a log one round more than it has bytes,
--   of which every round takes some. getValidNextNode has fuel, two calls more than there are scores in use.
-- - A read out of the range of an array of the cache gives a default, where the source panics; a
--   well-formed level has its indices in range.
--
-- - The world outside of a component that the source has behind an interface (the ring, the log of
--   transactions) is a state, and the calls are a record of functions on it; what is relied on of them is
--   a record of laws. Contexts and time limits show only in what the calls answer.
--
-- Not modelled: goroutines and channels (the node loop is the function of the event that its select
-- takes, and the tries of a transaction follow a schedule), networks, files and databases, and with them the rest of the repository: the store and proxy
-- of the Raft demo, the groups and peers of the cache, the rest of the HTTP framework, the ORM, transport, client and server of the RPC
-- framework, the other applications and the front ends.
pub mod Prelude
pub mod Raft
pub mod Rpc
pub mod Http
pub mod Cache
pub mod Wheel
pub mod Lsm
pub mod Tcc
pub mod Hash
