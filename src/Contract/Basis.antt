-- ===== src/Contract/Basis.antt =====
-- packages/contracts/src/decision/v1/decision-basis.ts: what a decision may rest on.
pub mod Graph
pub mod Constraints
pub mod Assessments
pub mod Selection
pub mod Eliminations
pub mod Checks
