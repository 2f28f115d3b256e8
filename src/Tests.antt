-- ===== src/Tests.antt =====
-- Runs of the model on concrete inputs.
pub mod Samples
pub mod Consent
pub mod Enforcement
pub mod Storage
pub mod Signals
pub mod Ledger
pub mod Profile
pub mod Sources
pub mod Graph
pub mod Runtime
