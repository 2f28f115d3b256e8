-- ===== src/Signals.antt =====
-- recommendation/interest-signal.ts and recommendation/public-signal-policy.ts: interest signals,
-- their validation, and the policy that keeps private evidence out of affinity.
pub mod Words
pub mod Fields
pub mod Policy
pub mod PolicyLaws
pub mod TargetKey
pub mod Signal
pub mod Laws
