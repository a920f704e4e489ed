-- ===== src/Lib.antt =====
-- Verification of blockchain-clustering: two Go programs that turn the balance changes of a chain into
-- clusters of addresses with one owner. `blockchain-indexer` follows a chain and publishes balance
-- changes and rollbacks to Kafka; `blockchain_cluster` consumes them, keeps a log of evidence in
-- PostgreSQL, and derives the clusters from that log.
--
-- How a message becomes a cluster. The consumer (blockchain_cluster/internal/consumer) decodes
-- messages, gathers the deltas of a block and runs the pipeline (internal/pipeline) on them: the batch
-- is ingested (internal/ingestor), hubs, collaborative transactions and dust are marked
-- (internal/preprocessor), six engines (internal/heuristic) propose pairs of addresses, the merge
-- engine (internal/merge) appends them to the evidence (internal/evidence) unless a hub is touched, and
-- the clusters are rebuilt (internal/cluster) by a replay of the active evidence over a union-find
-- (internal/unionfind). A rollback (internal/reorg) strikes evidence and rebuilds.
--
-- Files, with the code each is about, in blockchain_cluster/ where no other root is named:
--   Base          numbers, tests, lists, Go maps, float64, JSON and decimal text
--   UnionFind     internal/unionfind: Dsu, find, union; the forest against connected components
--   Domain        internal/domain/types.go
--   Replay        internal/cluster/replay.go: gather, combined_edges, unite_all, components, replay
--   Derive        internal/ingestor/derive.go: group_by_tx, spent_addresses, received_entries
--   Db            the tables and the calls on them: Exec, statement, transaction, fold_m; and rules for
--                 what a method keeps (Respects), computes (Effects), and leaves on failure (Atomic)
--   Stores        one module per store: evidence, address, audit, sweeptarget, label, registry, the
--                 table excluded_tx, and the ingested deltas with the cursors
--   Merge         internal/merge/engine.go
--   Clusters      internal/cluster/store.go
--   Reorg         internal/reorg/handler.go; Calls, sequences of batches, rollbacks and corrections
--   Preprocessor  internal/preprocessor
--   Heuristic     internal/heuristic: one module per engine
--   Pipeline      internal/pipeline, and Live, the wiring of cmd/consumer/main.go
--   Consumer      internal/consumer: Message, the batcher, and the loop as events
--   Indexer       blockchain-indexer: internal/reorg/detector.go, the loop of cmd/indexer/main.go, and
--                 the queries of internal/state that they use; Extract, the deltas of a transaction,
--                 and Ethereum, the calls of the adapter, in internal/adapter/ethereum/ethereum.go;
--                 Workers, the loops of all chains; Publish, the messages of
--                 internal/kafka/publisher.go
--   Metrics       internal/metrics: the collector, as what a scrape sends
--   QueryService  internal/queryservice: the handlers, from a request to a reply
--   Server        cmd/server/main.go: the loop that maintains the labels
--   Tests         concrete inputs
--
-- State. A method of a store is a function on a world, the tables and the faults to come: each call
-- of the pool consumes one fault and fails or succeeds, so that every error path is a path of the
-- model. A statement runs whole or not at all, and a transaction goes back to the tables before it. A
-- result is `ok` or `err`; the text of an error is not modelled. The consumer and the indexer have
-- their own states; the consumer takes the pipeline, the rollback handler and the broker as
-- parameters, and the indexer takes the node and the instants at which calls fail.
--
-- Numbers. A float64 is a type with the operations of the interface Float64; nothing is assumed of
-- them but three facts on the strict order. The columns of confidences are NUMERIC(4,3)
-- (migrations/0001_init.sql): a value is rounded to three decimals when it is written, which is the
-- operation `column`; a value that such a column refuses is a call that fails. Amounts are integers; heights and counts are integers and
-- natural numbers without the bounds of int64, which block heights and counts of rows stay far from.
-- The index of a delta that the indexer extracts is an int32 and wraps, kept as its 32 bits.
-- The order in which Go ranges over a map is a parameter, any permutation of the entries where a
-- theorem needs to know.
--
-- Bounds. `find` goes up at most one step more than the largest rank, and ranks grow along parents;
-- the walk of a cluster has a round for each address seen and one; the search for the common ancestor
-- has a round for each stored block and one, which Indexer.Rollback shows to be enough; decimal text
-- has a round for each unit of the number.
--
-- Not modelled: concurrency between processes on one database, the routing of chi and the text of a
-- response, configuration, and the text of log lines. The signer and the topics of a transaction are
-- read by go-ethereum, which the extraction takes as parameters. SQL is modelled by what each
-- statement does to the rows it names; NUMERIC(78,0) holds an amount exactly, so the conversions of
-- internal/pgnumeric are the identity on what is not nil. A call of the broker writes all its messages
-- or fails and writes none. Of Kafka's offsets, Consumer has what a commit passes: the messages of
-- its partition up to it.
pub mod Base
pub mod UnionFind
pub mod Domain
pub mod Replay
pub mod Derive
pub mod Db
pub mod Stores
pub mod Merge
pub mod Clusters
pub mod Reorg
pub mod Preprocessor
pub mod Heuristic
pub mod Pipeline
pub mod Consumer
pub mod Indexer
pub mod Metrics
pub mod QueryService
pub mod Server
pub mod Tests
