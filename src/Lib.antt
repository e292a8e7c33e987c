-- ===== src/Lib.antt =====
-- BirthHub 360: the workflow engine, the agents' policies and plans, the budgets,
-- authentication, the service of the workflows, the cache, and the quotas.
--
-- The program is a platform on which tenants run agents. Its core logic, as far as it is modelled here:
--   * a workflow is a graph of steps that is validated when it is saved
--     (packages/workflows-core/src/parser/dagValidator.ts): modules Dag and below;
--   * the worker runs a workflow step by step from a queue of jobs (apps/worker/src/engine/runner.ts):
--     modules Runner and below. The transitions of a workflow have the routes of the graph's edges
--     (Dag.Route), and the limit on the depth of an execution bounds what the graph does not;
--   * the plan executor runs the tool calls of an agent with retries, circuit breakers, ceilings on
--     time, cost and size, a lock and a stored result (apps/worker/src/executors/planExecutor.ts):
--     modules Plan and below;
--   * the policy engine decides which actions an agent may do
--     (packages/agents-core/src/policy/engine.ts): modules Policy and below;
--   * the budget service charges agents' runs (apps/api/src/modules/budget/budget.service.ts): modules
--     Budget and below;
--   * the authentication service keeps sessions, second factors, API keys and roles
--     (apps/api/src/modules/auth/auth.service.ts): modules Auth and below;
--   * the workflow service saves, changes and starts workflows (apps/api/src/modules/workflows/service.ts):
--     modules Workflows and below. It validates with Dag and shares its tables and its queue with Runner;
--     Workflows.System is the two at work on one database;
--   * the cache keeps texts, and tenants under each of their names (apps/api/src/common/cache/cache-store.ts
--     and tenant-cache.ts): modules Cache and below;
--   * the quota service counts what a tenant uses in a month (apps/api/src/services/QuotaService.ts):
--     modules Quota and below.
-- Base holds what these share: tests, lists, association lists for maps, JSON values and results.
--
-- Correspondence. A function of the source in camel case is the definition of the same words in snake
-- case, in the module named for its part:
--   * Dag.Build the maps of validateDag and its checks of nodes and edges, Dag.Cycle getCyclePath,
--     Dag.Connect assertConnectedFromRoot, Dag.Sort topologicalSort, Dag.Validate validateDag;
--     Dag.Graph the graph that a list of edges stands for; the modules below them hold proofs;
--   * Policy.Pattern matchesAction, Policy.Engine PolicyEngine, Policy.Template createPolicyTemplate,
--     Policy.Store InMemoryPolicyAdminStore;
--   * Runner the rows (packages/database/prisma/schema.prisma) and the queue, Runner.Output the small
--     functions, Runner.Budget consumeSharedAgentBudget, Runner.Trigger processTriggerJob, Runner.Step
--     and Runner.Retry the body and the end of a step, Runner.Job processExecutionJob; Runner.Cases,
--     Runner.Queue, Runner.Jobs, Runner.Depth, Runner.Rows, Runner.Linked, Runner.Forward and
--     Runner.Progress hold proofs;
--   * Plan.Redis the keys, Plan.Circuit the breakers, Plan.Retry executeWithRetry, Plan.Steps the loop of
--     execute with its checks, Plan.Execute execute;
--   * Budget.View what is shown, Budget.Consume setLimit, getRecord and consumeBudget; Budget.Laws,
--     Budget.Spent and Budget.Balance hold proofs;
--   * Auth the rows, Auth.Sessions the sessions, Auth.Login loginWithPassword and
--     verifyMfaChallenge, Auth.Mfa the setup of second factors, Auth.Totp the one-time codes
--     (mfa.service.ts in the same folder), Auth.Password the hash of a password and its check
--     (crypto.ts there), Auth.ApiKeys the API keys, Auth.Request authenticateRequest and
--     refreshSession, Auth.Roles roles and suspension; Auth.Refresh, Auth.Safety, Auth.Once,
--     Auth.Windows and Auth.Hashed hold proofs;
--   * Workflows the rows and inputs, Workflows.Canvas ensureCanvasIsDag and persistCanvas,
--     Workflows.Service what creating and reading take, Workflows.Update updateWorkflow, archiveWorkflow and
--     runWorkflowNow; Workflows.Linked, Workflows.Complete, Workflows.Refused and
--     Workflows.Run hold proofs;
--   * Cache the state, Cache.Store cache-store.ts, Cache.Tenant tenant-cache.ts; Cache.Refine has the
--     specification of the store in memory, and Cache.Fresh proofs on cached tenants;
--   * Quota the rows, Quota.Consume checkAndConsume, Quota.Page listUsage; Quota.Within and Quota.Pages
--     hold proofs.
-- The modules called Examples apply the results to concrete inputs.
--
-- State is passed explicitly. A table is the list of its rows in the order of their creation; a
-- handler is one step on the store, so two handlers at one time are not modelled. The queue of the
-- runner ignores a job under an id that it holds; which ids it has dropped is left open
-- (Workflows.System.remove). A thrown error is the constructor `err` of Result; where it leaves
-- changes behind, the store is answered with it.
--
-- Fuel. The depth-first search has one unit more than there are nodes, since each call deeper
-- enters another node; the reachability loop has one more than there are edges, since each edge is
-- pushed at most once; the topological sort has one for each node. The pages of a listing are read
-- with one unit more than there are rows, since each page but the last shows a row. All other loops
-- are recursions on lists, on the number of attempts or on that of windows.
--
-- Parameters, not modelled: executeStep with the tools and connectors behind it, JSON.stringify,
-- SHA-256, Number(x), the step schema and the error text of the database (Runner.Host); the
-- planner, the tools' run, the cost estimator, random numbers and the JSON text of results
-- (Plan.Host); ids and texts of the database (Budget.Consume.Env); hashes, HMAC, scrypt, bcrypt,
-- base64url, toUpperCase and encryption (Auth.Host); tokens and ids that are drawn (Auth.Draw,
-- Workflows.Draw); the limits of a plan (Workflows.Host, Quota.Host), the patterns that the queue
-- takes (Workflows.Host) and the calendar (Quota.Host); the Redis client (Cache.Client), trim,
-- toLowerCase and JSON (Cache.Tenant.Language); the clock, read at named moments. Costs are whole
-- cents in Plan, the unit to which the code rounds, and whole hundred-millionths in Budget, where
-- the code rounds to ten-thousandths; errors of floating-point sums are not modelled, and neither
-- are negative costs and limits. Hooks and logging are left out, and so are setCacheStoreForTests,
-- the wrapping of the database client that invalidates cached tenants, the web applications, the
-- HTTP layers, the connectors and the Python agents.
pub mod Base
pub mod Dag
pub mod Policy
pub mod Runner
pub mod Plan
pub mod Budget
pub mod Auth
pub mod Workflows
pub mod Cache
pub mod Quota
