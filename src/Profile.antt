-- ===== src/Profile.antt =====
-- recommendation/profile-store.ts: the in-memory store of the profiles that are derived from signals.
pub mod Entry
pub mod Store
pub mod Operations
pub mod Totals
pub mod Invariant
pub mod Trim
pub mod Dropped
pub mod Prune
pub mod Ingest
pub mod Batch
pub mod Snapshot
pub mod Laws
pub mod Reads
pub mod Runs
pub mod Apart
