-- ===== src/Lib.antt =====
-- CGAO, the Claude GitHub automation orchestrator: models of its core components and what is
-- proved of them.
--
-- The program takes issues from intake to merge. Every authoritative action is bound to SHAs; a
-- merge goes from the gate signals of a run (reader and aggregator), through the final evaluator,
-- which reads the PR again, to the merge service, which calls GitHub.
--
-- Base: numbers, texts, lists, the source's Map (Base.Dict) and Set (Base.Sets), its stable sort
--   (Base.Sort) and the order of texts.
-- Schemas.StableJson: packages/schemas/src/stable-json.ts, stableJsonStringify.
-- Policy: packages/policy/src/gates.ts, GateGuard.check, HashBindingService.bind and
--   classifyStaleness.
-- Db.Findings: packages/db/src/repos/review-finding-repo.ts, the in-memory repository.
-- Artifacts: packages/artifacts/src, index.ts and InMemoryArtifactStore of store.ts; Store is the Map
--   from keys to artifacts. Access and Retention are access-policy.ts and retention-scheduler.ts,
--   with ages in milliseconds in place of fractions of days.
-- Gate.TestFix and Gate.Fingerprint: apps/runner-broker/src/gate/test-fix-loop.ts and fingerprint.ts.
--   The loop is recursion on the rounds that are left, of which it starts with the maximum, so it
--   ends. What the gate, the parser, the agents and the clock answer is a function of the round.
-- Gate.Verifier: verifier-runner.ts there.
-- Budget: packages/db/src/repos/budget-ledger-repo.ts and apps/orchestrator/src/modules/budget. The
--   two halves of BudgetService.consume, prior_of and settle, are steps of Budget.Race when calls
--   overlap. Budget.RateLimiter counts thousandths of tokens in place of floating point, for a
--   whole number of tokens per second.
-- Commands: apps/orchestrator/src/modules/commands, authorization.ts and plan-approval.ts.
-- Review.Lifecycle: apps/orchestrator/src/modules/review/finding-lifecycle.ts, over Db.Findings.
-- Db.WorkflowRuns and Db.RunLock: packages/db/src/repos/workflow-run-repo.ts, the rows with their
--   versions, and the lock of a run. The calls of `with` are a step relation: a call comes, a woken
--   one goes on, one that is inside ends.
-- Intake.Clarifier and Intake.Dedup: apps/orchestrator/src/modules/intake/clarifier.ts and dedup.ts.
-- Audit: packages/audit/src, canonicalize of index.ts and the in-memory service of chain-service.ts.
--   Its queue runs appends one after the other, so an append is one step.
-- Merge.Gates: apps/orchestrator/src/modules/merge/gate-results-reader.ts and gate-aggregator.ts.
-- Merge.Evaluator: github-state-hydrator.ts and merge-final-evaluator.ts there.
-- Merge.Execution: merge-credential-profile.ts, branch-protection-checker.ts and merge-service.ts.
-- Issues: apps/orchestrator/src/modules/issues. Words is the regular expressions of triage.ts;
--   Categories, Labels and Triage are triage.ts and label-projection.ts; Marker and StatusComment are
--   status-comment.ts.
-- Reconcile: apps/orchestrator/src/modules/reconcile. Drift is github-hydrator.ts and
--   drift-detector.ts; Projection is label-reconciler.ts, status-comment-reconciler.ts and
--   projection-reconciler.ts, which append to Audit.Chain. GitHub is a state behind ports.
-- Webhooks: apps/orchestrator/src/webhook, with packages/github-events/src/mapper.ts and the
--   signature of packages/github/src/index.ts. The schemas are a parameter.
-- Commits: apps/orchestrator/src/modules/commits (Message, Builder), over what apps/runner-broker/src
--   gives it: Paths is sandbox/path-write-policy.ts and policy/protected-file-detector.ts, Overlay is
--   sandbox/write-overlay.ts, Patch is sandbox/patch-validator.ts and clean-checkout-applier.ts. Git
--   is a state behind its port, whose calls succeed.
-- EventBus: packages/eventbus/src/bus.ts. A drain has fuel for its loop and for the dead letters
--   that it publishes; four more than the unread messages of the topic are enough where dead letters
--   are accepted, and no fuel is where a consumer of the topic and one of them always fail.
-- Examples: tests, and the theorems at concrete inputs.
--
-- A promise is the value that it resolves to, and an exception is a result of its own. Numbers are
-- natural, times are milliseconds or ISO texts. A clock, a fresh id and the answer of an injected
-- port are arguments; SHA-256 is a parameter, of which nothing is assumed. Texts that only explain
-- a decision are constructors which hold what the text interpolates, except where the program
-- stores or hashes them.
--
-- Not modelled: the Postgres and file-system adapters, HTTP, the agents' processes, the dashboard
-- and the Zod schemas, which are glue or input and output; and, of the program's own logic, the
-- audit checkpoints, the rest of intake, the parser of commands, specs, plans, branches and pull
-- requests, the timer of the reconcilers and the merging of worktrees. The audit entries
-- of the services are lists, each with the content of its record. An exception of an injected port
-- passes through the code untouched, and is left out unless the code says what happens then.
pub mod Base
pub mod Schemas
pub mod Policy
pub mod Artifacts
pub mod Gate
pub mod Budget
pub mod Commands
pub mod Review
pub mod Audit
pub mod Intake
pub mod Db
pub mod Merge
pub mod Issues
pub mod Reconcile
pub mod Webhooks
pub mod EventBus
pub mod Commits
pub mod Examples
