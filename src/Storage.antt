-- ===== src/Storage.antt =====
-- recommendation/storage-authority.ts and recommendation/state-placement-policy.ts: which storage
-- may hold which state of the recommender.
pub mod Authority
pub mod Placement
pub mod Evaluate
pub mod Laws
pub mod Contract
