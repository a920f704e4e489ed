-- ===== src/Tests.antt =====
-- Concrete inputs for the properties, and runs of the code on them.
mod Samples
mod Clustering
mod Batches
mod Consuming
mod Indexing
mod Rollbacks
mod Extraction
mod Heuristics
mod Serving
mod Labels
mod Ingesting
