-- ===== src/Lib.antt =====
-- The development is about the parts of dsh-backend-team that keep state and decide: the personnel
-- and customer services that the team delivers (src/personnel, src/customers), the team of agents
-- that delivers it (packages/agent-team), the policy that their actions meet
-- (packages/policy-engine), and the control of a task's phases (packages/core).
--
-- Base: shared names and helpers. Tests: Boolean tests. Lists, Distinct, Sorting: lists over the
-- native numbers, `Array.prototype.sort`. Strings and Texts: JavaScript strings as UTF-16 code
-- units. Maps and MapPairs: a `Map` as the list of its entries. Outcomes: results that may be
-- errors.
--
-- Personnel, for src/personnel. Action is a call on the store, a state and an exception: what a
-- throw leaves is a state too, so that rollback is a statement. Rows and Store are domain/store.ts
-- (`InMemoryPersonnelStore`, one function for each method, in the order of its guards). Json, Input
-- and PersonInput are the validation of requests (domain/validation.ts and the readers of
-- domain/assignment.ts). Audit, Effective, Assignment with Assignment/ReportLine, Service, Status,
-- Lifecycle and Roster are the files of the same names under domain. Laws has the theorems on the
-- use cases together: Frames shows once, for any relation that the store's writes keep, that each
-- use case keeps it, and Validity takes it for the invariant Store/Invariant and for the log. The
-- identifiers, clock readings and date that a caller injects are functions in `Context`, any at
-- all. The loop up the chain of managers has fuel for every assignment and two rounds more.
--
-- Customers, for src/customers. Customer is the aggregate of domain/customer.ts, on a body as
-- `Json` has it, Patterns the regular expressions and domain/phone-key.ts, Changelog
-- domain/changelog.ts with support/redaction.ts. Repository and Repository/Calls are
-- persistence/memory-customer-repository.ts: checks are `Outcome`s, and a method gives what it
-- returns or throws with the repository after it. UseCases are the files of application;
-- `updateCustomer` has an argument for what other writers do between its read and its write, and in
-- sequences the calls come one after the other. A use case has its own function for the phone key,
-- which need not be the repository's. A `Date` is its ISO text; new identifiers and clock readings
-- are arguments.
--
-- Team, for packages/agent-team/src. Queue is task-queue.ts. Budget and Budget/Ledger are
-- budget-ledger.ts with the schemas of packages/contracts/src/budget.ts; a reservation carries a
-- number for its identity as an object. Paths, Scopes and Capabilities are
-- capability-intersection.ts; what the schema of packages/contracts/src/agent-task.ts refuses is
-- none. Scheduler and Scheduler/Runs are task-scheduler.ts as the steps between two waits: a
-- submission, a cancellation, the end of a run with what it came to, a disposal. A run that fails
-- has a step before the wait of its error path and one behind it. The loop of `drain` has fuel for
-- each queued task and one round more.
--
-- Core, for packages/core/src. Phase is state-machine.ts, Invalidation artifact-invalidation.ts,
-- Delivery delivery-lifecycle.ts, and State the fields of `BackendTeamState` that these read with
-- `transact` of state-store.ts.
--
-- Policy, for packages/policy-engine/src. Actions are the types of
-- packages/contracts/src/policy.ts. Rules is rules.ts, with what it reads in a command in Commands,
-- Git and Installs and the functions of node:path in Paths; Rules/GlobalOptions and Rules/Losses
-- describe Git commands by Git's own options. Targets is canonical-path.ts, and Canonical says what
-- its targets are, on a file system that does not change during the call, and Engine the
-- `authorize` and `preflightOwnedWrite` of policy-engine.ts. Tokens has the texts of tokens and
-- `transactWithRetry` of approval-token.ts, where a `Turn` says what other writers do in an
-- attempt, Tokens/Digests the digest of an action, and Tokens/Service has `issue` and `consume`
-- over the state of Core. A limit of 200 attempts is the code's. Parameters are what Node gives:
-- the host name of a URL, `realpath` and `lstat`, SHA-256, and the digest of an executable file; a
-- canonical timestamp is its milliseconds.
--
-- Numbers are natural numbers, as the schemas of the code demand; where the code subtracts, what
-- holds before is stated. The order of strings is that of code units, which for ISO dates is also
-- that of `localeCompare`; where the code orders identifiers by `localeCompare`, in the history of
-- a person, that comparison is a parameter.
pub mod Base
pub mod Personnel
pub mod Team
pub mod Core
pub mod Customers
pub mod Policy
pub mod Json
