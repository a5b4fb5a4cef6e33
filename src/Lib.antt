-- ===== src/Lib.antt =====
-- The compliance platform of this repository: its API rate limiter, its background job queue, the
-- trust badges of its tenants, the insurance warranties that the badges follow, and the billing and
-- underwriting of its tenants.
--
-- How the parts interact: each request passes the rate limiter (src/middleware/rateLimiter.ts), and
-- the guards of planes and roles (src/middleware/dualPlaneAuth.ts), which leave a metric each time.
-- The insurance routes (src/routes/insurance.ts) evaluate a tenant's access metrics, move its
-- warranties between states, and have the badge follow (src/lib/badge-sync.ts) under a secret
-- (src/lib/badge-secrets.ts) whose change is found at boot (src/lib/badge-rotation.ts). The
-- scheduler (src/lib/recompute-scheduler.ts) does the same for all active warranties. Work that is
-- not done in a request goes through the queue (src/services/queue.ts). The commercial engine
-- (src/services/commercialEngine.ts) counts runs against a subscription and invoices them; its
-- audits score a tenant's logs and issue tokens, which an invoice of the tenant spends.
--
-- Prelude: numbers, lists, texts and integers. The texts' functions (to_lower, trim, split) are
-- for ASCII.
-- RateLimit: Bucket is the class TokenBucket, whose tokens are counted in sixty-thousandths so that
-- every refill is a whole number; Store is BucketStore, an association list with the least recently
-- used key first; Middleware is resolveTier, resolveTierConfig, buildBucketKey, evaluateRateLimit
-- and createRateLimiter. The readings of the clock in one request are a record of four.
-- Queue: Job has the types, Table the SQL statements on job_queue as functions on a list of rows,
-- Worker the class ProcessingQueue as a state with one function per method (processJob is begin_job
-- up to the handler, finish_job after it), Worker.Steps the event loop as a relation. The loop in
-- tick runs as many rounds as there are free slots, which is the bound that the source's loop has.
-- Database: the rows of the tables that badges and warranties use; a transaction is a function
-- on the whole of them. What comes from the runtime and from node's crypto module is a record of
-- functions, Runtime, that the definitions take. Ratios are exact fractions.
-- Badge: Secrets is badge-secrets.ts, Sync is computeBadgeState and syncBadge, Rotation is
-- detectAndApplyRotation and resignAllBadges.
-- Insurance: Evaluate is evaluatePolicyState, Recompute is applyStateTransition, commercialAuditLog
-- (src/lib/audit.ts) and the transaction of recomputePolicy, Handlers the five handlers, Scheduler
-- is recomputeAllWarranties with the faults of its transactions decided by the environment.
-- Engine: Domain is src/types/domain.ts, Policy the store of src/engine/policy.ts, Condition and
-- Verification src/engine/verification.ts, which verifies an event against the policies that apply.
-- JavaScript's conversions, inherited properties and regular expressions are a record of functions,
-- Js; a number is the text that it converts to.
-- Access: Roles has the planes, roles and capabilities, Boundary is evaluateBoundary, Middleware
-- requireDualPlane with resolvePrincipal and writeAccessMetric, Guards the guards made of it; Metrics
-- joins the metrics to what Insurance.Evaluate counts.
-- Evidence: the evidence rows, meters, trials and exported ledger of src/evidenceDb.ts, without its
-- agents, components and report; Trials and Laws prove of them.
-- Commercial: Money has the amounts and their rounding, Tables the rows, Results the chain of calls
-- that throw; Digest is loadHmacSecret and the signed texts, Subscriptions getSubscription,
-- createSubscription and recordValidationRun, Commitment evaluateMonthlyCommitment, Invoices
-- generateInvoice, Scores and Underwriting computeUnderwritingRiskScore and registerPolicy, Tokens
-- applyPremiumReductionToken, Reads the retrieval helpers. System has the calls that change a table
-- and sequences of them, over which Lifecycle follows the tokens and Underwriting.Trace the hashes.
-- Fees and rates count ten-thousandths of a dollar and invoices cents; in between a grain is the
-- 120,000th of a dollar, so that a twelfth of a premium is whole.
--
-- Not modelled: HTTP and SQL syntax, logging, request validation, timers, the handlers of jobs,
-- the arithmetic of doubles, whose rounding is a parameter of the commitment and exact elsewhere,
-- and the components beside these (pricing, payouts, replication, tokens of authentication,
-- analytics, migrations, scripts).
pub mod Prelude
pub mod RateLimit
pub mod Queue
pub mod Database
pub mod Badge
pub mod Insurance
pub mod Engine
pub mod Commercial
pub mod Access
pub mod Evidence
