-- ===== src/Runtime.antt =====
-- runtime/hash.ts: SHA-256 of a text.
pub mod Hash
pub mod HashLaws
pub mod Padding
