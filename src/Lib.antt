-- ===== src/Lib.antt =====
-- ChoiceMind: a service that researches a purchase and answers with a decision which every reader can
-- check against its evidence. This library models the contract that such a decision must meet and the
-- guard of the secrets that the research uses, and proves what they promise.
--
-- The parts and the modules that model them:
-- Contract models packages/contracts/src/decision/v1. `Contract.Types` has the records of index.ts. The checks
--   of decision-basis.ts are in `Contract.Basis`: `Graph` indexes a bundle and derives an assessment of each
--   claim (`evaluateDecisionBasisWithGraph`, `deriveClaimAssessment`), `Constraints` decides whether a
--   candidate satisfies a constraint (`assessCandidateConstraint` and its kin), `Assessments`, `Selection`,
--   `Eliminations` and `Checks` are the validators that `checkDecisionBasisV1` calls in turn. The checks of
--   invariants.ts are in `Contract.Result`: `RunEvents`, `Semantics` (with the results of errors.ts),
--   `Decisions`, `Conditions`, and `Invariants`, which composes them and ends with decoding, finalizing
--   and the HTTP status of index.ts. `Contract.Recovery` is `evaluateRuntimeRecoveryPermissionV1`, whether a
--   paused run may be resumed.
-- Security models packages/security/src/index.ts. `Vault` is `createCredentialVault` (`store`, `use` as
--   `use_credential`, `delete` as `delete_credential`), `RiskPolicy` is `evaluateRiskPolicy`, and `Egress`
--   is `createEgressGuard`.
-- GoldGate models `evaluateP0GoldGate` of packages/p0-gold-gate/src/index.ts, the verdict over a release.
-- Research models packages/source-research/src/index.ts. `Tables` has the rows, `Queue` has `claimNext`,
--   `renewLease`, `saveCheckpoint` and `complete`, `Batches` has `execute` and
--   `purgePrivateDataForOwner`, `Views` has `read`, and `Calls` runs any sequence of the calls that change the tables.
--   `Consistency` is what holds between two calls.
-- SourceAccess models packages/source-access/src/index.ts: `Logins` has `BEGIN_LOGIN` and
--   `COMPLETE_LOGIN` of `execute`, `Credentials` its other commands, `read`, `withCredential` and the purge, over
--   the rows of `Tables` and a vault that is handed in; `Vaults` hands in that of Security.
-- Worker models `createSourceWorker` of apps/source-worker/src/worker.ts over its ports, `Research.Publisher`
--   models `runOnce` of packages/source-research/src/notification-publisher.ts.
-- Js has what the sources use of the language: `===`, `Set`, `Map` and sorting. Prelude: shared names, tests
--   and lemmas on lists. Files below a component state and prove what it does; Tests modules run the
--   definitions on samples.
--
-- How they interact: `finalize_successful_decision_task_result` has a draft evaluated by `Contract.Basis`,
-- adds the derived assessments and passes the whole through `check_decision_task_result_invariants`, which
-- a reader's `decode_decision_task_result` runs again, and which calls `check_decision_basis`. A round of the
-- worker claims a job of the research queue, looks up the account's status in the source access, runs the
-- adapter under the account's credential, which source access keeps in the vault, and completes the job with
-- what came of it; creating a batch writes the outbox that the publisher sends.
--
-- How the model stands to the code: a check that pushes issues is the list of the issues that it pushes, in
-- order; a path is its parts. A number is a natural number: amounts of money and counters are whole, and a
-- quantity is counted in units of 2^-1074, as it is only compared. A timestamp carries the milliseconds that
-- `Date.parse` reads. A call of the vault is a function on the world (storage, audit trail, clock, plaintexts
-- handed out, last lease) that returns or throws. A call of the research queue is one transaction: a function
-- on the four tables, which an error leaves as they were; concurrent callers are a sequence of calls, and the
-- rows that others have locked are an argument. All loops are over lists, so nothing needs fuel.
--
-- Parameters: AES-256-GCM, base64 and UTF-8 with their round trips, the storage and audit ports, the clock,
-- `toUpperCase`, the origin that `new URL` reads, what the version scans and schemas read from the unknown
-- inputs of a recovery, the answers of the worker's ports, what Redis accepts, `trim`, `localeCompare`, the
-- SHA-256 of a request, and the ids that the database draws.
--
-- Not modelled: the schemas and the scan for versions that run before the checks (a library's and a walk over
-- untyped JSON), the other services over a database (identity, tasks, conversations), the
-- orchestrator, the routes and the web application.
pub mod Prelude
pub mod Js
pub mod Security
pub mod Contract
pub mod GoldGate
pub mod Research
pub mod SourceAccess
pub mod Worker
