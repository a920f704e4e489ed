-- ===== src/Stores.antt =====
-- The stores of blockchain_cluster: each SQL statement of the Go code as a function of the tables.
pub mod Evidence
pub mod Addresses
pub mod Audit
pub mod SweepTargets
pub mod Excluded
pub mod Labels
pub mod Registry
pub mod Deltas
