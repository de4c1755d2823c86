-- ===== src/Lib.antt =====
-- A verification library of the support desk: models of the core of its API server, apps/api/src, and
-- what is proved of them.
--
-- The program is a multi-tenant help desk. Agents and end users work on tickets; users ask for
-- services of a catalog, and a request goes through a form, steps of approval and fulfilment, which
-- may generate a ticket. Each change is one database transaction, which also appends an audit event
-- and events of a transactional outbox; workers claim those from the outbox and feed the workflows.
-- Notices and the SLA engine are called after the commit. Users log in
-- with a password and get a session and refresh tokens. Assets have a lifecycle, assignments and a
-- hierarchy.
--
-- The parts and their files:
--   Base: lists, results, texts, sorting, and Base.Actions for methods of several transactions.
--   Audit: the rows of audit_events (apps/api/src/audit/audit-event.ts).
--   Outbox: apps/api/src/outbox/outbox-publisher.service.ts and outbox.repository.ts; its children
--     are about claiming, retries and the cleanup.
--   Ticketing.Ticket: apps/api/src/ticketing/domain/ticket.aggregate.ts, with the table of statuses in
--     Ticketing.Ticket.Status; Moves and Invariant are about transitionTo and all the methods.
--   Ticketing.Store: apps/api/src/ticketing/tickets.repository.ts, the transactions with the optimistic
--     lock on the version; Conflicts and References are about it.
--   Ticketing.Service: apps/api/src/ticketing/tickets.service.ts; Effects is about it.
--   Catalog.Status, Catalog.Gate: request-status.ts and approval-gate.ts of
--     apps/api/src/catalog/domain.
--   Catalog.Requests: apps/api/src/catalog/catalog-requests.repository.ts, with its transactions in
--     Catalog.Requests.Transactions; Transitions and Tickets are about these.
--   Catalog.Requests.Service, Catalog.Requests.Fulfillment: catalog-requests.service.ts of
--     apps/api/src/catalog; Guards and Terminal are about both.
--   Catalog.Forms: apps/api/src/catalog/domain/form-engine.ts, with validateFormSchema in
--     Catalog.Forms.Schema and validateAnswers in Catalog.Forms.Answers; Structure, Accepted and Laws
--     are about them.
--   Sla.Matcher: apps/api/src/sla/domain/sla-policy-matcher.ts; Laws is about it.
--   Auth: the rows of users, sessions and refresh tokens. Auth.Tokens: auth-token.service.ts and
--     auth-token.repository.ts of apps/api/src/auth/tokens, with Reuse. Auth.Login:
--     auth-session.service.ts and auth-session.repository.ts of apps/api/src/auth/session, with
--     Attempts, Lockout and Logout. Auth.Password: apps/api/src/auth/password and validation, with
--     Laws. Auth.RateLimit: apps/api/src/auth/rate-limit/auth-rate-limit.service.ts, with Bounds.
--     Auth.Reset: apps/api/src/auth/password-reset; Once and Delivery are about the links.
--   Assets: apps/api/src/assets/assets.repository.ts, with domain/asset-lifecycle.ts in
--     Assets.Lifecycle, its operations in Assets.Operations and Assets.Assignment, and the
--     relationships in Assets.Relationships; Moves, Hierarchy and Walk are about them.
--   Workflows: workflow-executor.service.ts and workflow-recursion-budget.ts of
--     apps/api/src/workflows; Attempts and Resumption are about executeActions.
--   Workflows.Conditions: apps/api/src/workflows/domain/workflow-condition-evaluator.ts, with Laws.
--   Workflows.Tables, Workflows.Dispatcher: workflow-dispatcher.service.ts of
--     apps/api/src/workflows/runtime, with processOutboxBatch in Workflows.Dispatcher.Batch; Appends and
--     Cascade are about what a dispatch adds to the outbox, Completion is about the executions, and
--     Redelivery about a second dispatch.
--   Workflows.Actions: apps/api/src/workflows/runtime/action-executors, in its children Tickets and
--     Others, and the table of the executors in Registry; Depth and Reopening are about them.
--   Base.Json: the values of JSON and what the source does with a value of unknown type.
--   Workflows.Tests, Workflows.Dispatcher.Tests, Workflows.Actions.Tests, Catalog.Forms.Tests,
--     Auth.Reset.Tests, Assets.Tests, Auth.Tests, Ticketing.Tests, Ticketing.Scenarios, Outbox.Tests,
--     Catalog.Tests, Sla.Tests: runs at concrete data.
--
-- How state and code correspond: a table is the list of its rows in the order of insertion, and an
-- update changes the rows that its WHERE selects. A transaction is a function from the tables to the
-- changed tables or an error, which leaves them as they were. A method of the tickets service makes
-- one transaction and is such a function too; one of the requests service makes several, and returns
-- the state also with an error, so that what was committed before the error stays. Isolation is that
-- of whole transactions: each runs on the tables that the one before left. What the runtime supplies
-- is an argument: the time, random ids, the jitter of the backoff, the rows that another transaction
-- has locked, and whether the user has a permission. Texts are lists of code points and instants are
-- numbers of milliseconds. Recursion is on lists, but for the walk over the parents of an
-- asset, which has one round more than there are relationships; that is enough, since each round
-- meets a relationship with a source that is new to it. The events that workflows append to the outbox
-- are not run by fuel: Workflows.Dispatcher.Cascade counts the dispatches of a sequence that may go on
-- as long as it likes.
--
-- The executors of actions stand behind their interface for the dispatcher, which asks of them only how
-- many events they append and at which depth; Workflows.Actions.Depth shows that the registered ones
-- keep to it. Numbers of JSON are of any type, with the comparisons and conversions of the runtime as
-- parameters, as are Argon2, SHA-256, letter case, dates and regular expressions that users write.
--
-- Not modelled: payloads of events, metadata of audits, the wording of notices and most messages; of
-- the service requests, submission and the editing of answers, and attachments; the lists and
-- searches, which only read; the validation of workflow definitions and their publication; the SLA
-- engine and its clock; registration; the service of the assets with their categories, types and
-- locations; the knowledge base, roles and the web application.
pub mod Base
pub mod Ticketing
pub mod Audit
pub mod Outbox
pub mod Catalog
pub mod Sla
pub mod Auth
pub mod Assets
pub mod Workflows
