-- ===== src/Enforcement.antt =====
-- recommendation/consent-enforcement.ts: the audit of consent decisions, the gate in front of an
-- operation, and the execution of a deletion.
-- The audit sink, the operation and the deleter are the caller's: functions of a world `W`, which
-- they may change. What other tasks do to the world while one of these is awaited is not modelled.
pub mod Gate
pub mod GateLaws
pub mod Deletion
pub mod DeletionLaws
