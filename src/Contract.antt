-- ===== src/Contract.antt =====
-- packages/contracts/src/decision/v1: the versioned decision contracts and the checks that they must pass.
pub mod Types
pub mod Issues
pub mod Statuses
pub mod Basis
pub mod Result
pub mod Recovery
pub mod Tests
