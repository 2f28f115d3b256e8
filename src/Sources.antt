-- ===== src/Sources.antt =====
-- recommendation/source-adapter.ts and recommendation/consent-gated-source-adapter.ts: the adapters
-- of the sources, and reading one with consent.
pub mod Words
pub mod Timestamp
pub mod Moment
pub mod TimestampLaws
pub mod Item
pub mod Adapter
pub mod Gated
pub mod Laws
mod GatedInput
pub mod GatedLaws
pub mod Signal
pub mod SignalLaws
