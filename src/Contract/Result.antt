-- ===== src/Contract/Result.antt =====
-- packages/contracts/src/decision/v1/invariants.ts, errors.ts and the end of index.ts: what a result must
-- satisfy beyond its schema.
pub mod RunEvents
pub mod Semantics
pub mod Decisions
pub mod Conditions
pub mod Invariants
