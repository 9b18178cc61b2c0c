-- ===== src/SourceAccess.antt =====
-- packages/source-access/src/index.ts: login sessions at sources and the credentials that they yield.
pub mod Tables
pub mod Logins
pub mod Credentials
pub mod Vaults
pub mod Secrets
pub mod Tests
