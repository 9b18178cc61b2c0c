-- ===== src/Security.antt =====
-- packages/security/src/index.ts: who may reach a secret, which outbound operations are allowed,
-- and what is written to the audit trail before they happen.
pub mod Actors
pub mod RiskPolicy
pub mod Egress
pub mod Vault
pub mod Tests
