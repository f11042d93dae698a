-- ===== src/Lib.antt =====
-- A verification library for Olric, a distributed in-memory key/value store and lock service.
--
-- The parts of the program and the files that model them:
--
--   internal/storage (Storage). A `Storage` keeps the entries of one DMap on one partition in a list
--     of tables, each a mapped area with an index. Storage/Memory has the area and the slice
--     operations of Go that reach it, each with its panic; Storage/Entry the layout of an entry,
--     `VData` and `DecodeRaw`; Storage/Table the table's `put`, `putRaw`, `get`, `getRaw` and
--     `delete`; Storage/Store the `Put`, `PutRaw`, `Get`, `GetRaw`, `Delete`, `Len`, `Check` and
--     `Range` of storage.go; Storage/Merge the chunks of merge.go; Storage/Transport `Export` and
--     `Import`.
--   internal/protocol (Protocol). Protocol/Code has the codes, the header, the message and its
--     `Error` and `Success`; Protocol/Wire has `Write` and `Read` over the bytes of a connection.
--   internal/transport/server.go (Server). The loop over the requests of a connection, as the bytes to
--     come and the bytes sent; a write of a response is taken to succeed.
--   locker.go (Locker). The named locks as a state machine: each call up to its wait is a step of
--     `Step`, and `Reach` are the states that the steps reach in any order.
--   discovery.go (Discovery). The members of the cluster, who coordinates, and the events that a
--     change raises for the subscribers.
--   routing.go and the ownership of partitions in olric.go (Routing). The coordinator's distribution
--     of primary copies and backups, a member's take-over of the routing table, and the location of
--     a key's owner.
--   olric.go and the files dmap_*.go (DMap). DMap.antt has the registry of DMaps, the requests to other
--     nodes with their status, and TTLs; DMap/Put the write of a key with its backups and its
--     handlers; DMap/Get the lookup and DMap/Delete the removal with theirs; DMap/Stale the janitor of
--     empty DMaps; DMap/Destroy the removal of a whole DMap; DMap/Eviction the passes over expired
--     keys; DMap/Atomic the counters and GetPut; DMap/Locks the locks on keys over the nodes.
--     DMap/Local, DMap/Removal, DMap/Forward, DMap/Backups and DMap/Expiry have the theorems.
--   fsck.go (DMap/Fsck). The moves of DMaps to new owners, with the merge on the receiver; the
--     theorems are in DMap/Fsck/Move.
--   internal/snapshot (Snapshot). Snapshot/Database is the interface of Badger, Snapshot.antt the
--     operation log and its synchronization, Snapshot/Record the registry of the DMaps, Snapshot/Loader
--     the restoring of DMaps.
--     Snapshot/Batches and Snapshot/Sync have the theorems of `syncDMap`, Snapshot/Restore those of the
--     loader, Snapshot/Registry and Snapshot/Destroy those of the registry.
--   olric.go, restoring at the start (Startup). The loop over the loader, which registers each DMap
--     and stores it in its partition; Startup/Turn and Startup/Reloaded have the theorems.
--   internal/transport/client.go and client (Client). The requests of a client and what it makes of the
--     responses; Client/Answers joins them with the handlers of a node.
--   cmd/olric-cli (Cli). What a line of the command line client means.
--
-- Prelude has what they share: Boolean tests on numbers, lists over the native numbers, `Outcome`
-- (a value, an error, a panic, or no result within the fuel), association lists for maps, big-endian
-- numbers, and the interface of a serializer.
--
-- How the code's state and types appear:
--   * `tables` of a storage is the slice backwards, so that its head is the last table.
--   * A map is an association list, and a `range` over a map takes the list's order: every
--     list is a map, and so every order is one that a `range` may take.
--   * Integers are natural numbers. A conversion to a narrower type wraps as in the source; the
--     lengths that Go keeps in an `int` are taken to fit it. A TTL is the bit pattern of its int64.
--   * `mmap` is a parameter that says for each size whether the system grants it.
--   * The serializer msgpack is a parameter, `Codec`; where a theorem needs it, it is assumed to give
--     back what it was given (`IsLossless`).
--   * The ratio 0.40 of the garbage check is compared as an exact fraction.
--   * The channel `done` of a lock is a number, and `closed` says whether that channel is closed.
--   * The list of memberlist, the consistent hash ring, and the answers of other nodes to OpIsPartEmpty
--     are parameters of the distribution. A birthdate is a natural number.
--   * A node of DMap takes the answers of other nodes, the hash function and the clock from an `Env`.
--     An operation gives the node as it leaves it, and what it returns.
--
-- Fuel: `Put` and `PutRaw` are loops without a bound. `retry` takes fuel and is `stuck` without it:
-- two turns are enough where the entry fits the last table or the next one. `merge_tables` takes the
-- number of ticks of its timer; a single chunk needs no fuel. `handle_conn` takes the number of turns,
-- and so does `restore_all`: more turns than the registry has names are enough.
--
-- Not modelled: what start-up does after the restoring, and shutdown; sockets, the cluster membership library, the consistent hash ring, the pools of
-- connections, timers, logging, the terminal, the configuration and the server command. Badger is the
-- parameter `Badger`, of which `IsBadger` says that a flush or a commit that succeeds has made its writes.
-- A synchronization with the disk is one step: a write of the DMap during it is not interleaved. The
-- goroutines that send requests run one after the other. Each operation of
-- a storage is one function, and no two of them interleave: the storage's mutex has it so, except for
-- `Delete`, which changes the tables under the read lock.
pub mod Prelude
pub mod Storage
pub mod Protocol
pub mod Locker
pub mod Cli
pub mod Client
pub mod DMap
pub mod Discovery
pub mod Routing
pub mod Server
pub mod Snapshot
pub mod Startup
