-- ===== src/Consent.antt =====
-- recommendation/consent.ts: consent policies, their evaluation for a request, and the deletion of
-- derived data.
pub mod Words
pub mod Request
pub mod Evaluate
pub mod Permits
pub mod Decisions
pub mod Deletion
pub mod Asked
pub mod Revocation
