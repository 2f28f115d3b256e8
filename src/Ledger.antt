-- ===== src/Ledger.antt =====
-- recommendation/signal-ledger.ts: the ledger of applied and retracted interest signals.
pub mod Canonical
pub mod Event
pub mod State
pub mod Batch
pub mod Invariant
pub mod Laws
pub mod Replay
pub mod Retraction
pub mod Tally
pub mod BatchLaws
pub mod Listing
pub mod Again
