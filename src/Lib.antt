-- ===== src/Lib.antt =====
-- The policy engine of ai_pr_orchestrator: how a foreman recovers work items after a crash, gates a
-- merge on CI, keeps claims and lanes, and places its work on models.
--
-- Parts. GitHub is the authoritative store: each issue carries a workflow state, with the claim of the
-- foreman that owns it. The planner compares that state with the sessions, worktrees and pull requests
-- that are observed, and orders recovery actions. The scheduler takes one work item at a time and lets the
-- policy loop of the foreman drive it: development, review by other lanes, the CI gate. The gate decides
-- on the checks of a head. The lane registry names the lanes in which sessions run. The catalog says
-- which models exist, telemetry what is live, and the broker ranks the one by the other and hands out
-- concurrency slots.
--
-- - Config.antt: src/ai_pr_orchestrator/v3/config.py, the sections that the other parts read.
-- - Domain.antt and Domain/: src/ai_pr_orchestrator/v3/domain.py. The closed sets of words are data
--   types. `post_init` is `WorkflowState.__post_init__` and `transition` its method, with the clock as
--   an argument.
-- - Interfaces.antt: `GateDecision` of src/ai_pr_orchestrator/v3/interfaces.py.
-- - Lanes.antt and Lanes/: src/ai_pr_orchestrator/v3/lanes.py. `registry` is the constructor.
-- - CiGate.antt and CiGate/: `CIPRGateImpl.evaluate` of src/ai_pr_orchestrator/v3/ci_gate.py, by its
--   loops `count_reports` and its branches `with_reports` and `without_reports`. What the client
--   returns is an argument.
-- - Numbers.antt: the floating-point numbers, as a parameter with the operations that the code uses; the
--   laws of their order are a separate record, which only the sorting of a ranking assumes.
-- - Catalog.antt and Catalog/: src/ai_pr_orchestrator/v3/catalog.py, entries with their checks
--   (Entry.antt), prices and eligibility, and the catalog.
-- - Telemetry.antt and Telemetry/: src/ai_pr_orchestrator/v3/telemetry.py, windows, health and
--   snapshots; Ledger.antt is `ProviderHealthLedger`, Sources.antt `CatalogTelemetrySource`, Registry.antt
--   `TelemetryRegistry`, whose sources are an interface that may raise. What the regular expressions
--   mask in a text is a parameter.
-- - Broker.antt and Broker/: src/ai_pr_orchestrator/v3/broker.py with its configuration. Capacity.antt is
--   `reserve` and `release`; Windows.antt, Filters.antt, Scoring.antt and Select.antt are `select` by its
--   helpers under their names without the underscore.
-- - Queue.antt and Queue/: src/ai_pr_orchestrator/v3/queue.py, the comment store (Store.antt, over a
--   service and a codec of bodies that are parameters), the operations on a claim (Lifecycle.antt, where
--   `move` is `transition`), the listings by label (Listing.antt), the claim and its place in the extras
--   of a state (Claim.antt), the lifecycle labels of an issue (Labels.antt, where the GitHub service is
--   a record of calls with what they do), the arbitration between foremen (Arbitration.antt,
--   with a relation of single calls in any order; a body is represented by whether it holds a state
--   block), and `_compacted` (Compaction.antt, where the length of the
--   serialized payload is a parameter).
-- - Scheduler.antt and Scheduler/: `ContinuousForeman` of src/ai_pr_orchestrator/v3/scheduler.py, over the
--   queue; the policy loop that it starts is an interface, which Assembly.antt fills with the foreman's
--   loop over the verbs of the queue.
-- - Foreman.antt and Foreman/: `ForemanPolicyLoop` of src/ai_pr_orchestrator/v3/foreman.py, its methods
--   under their names without the underscore, as calls that take the world to the next one (Act.antt).
--   Services.antt has the interfaces: queue, GitHub, git, lanes, gate, clock. Claims.antt is the hold on
--   the authoritative state, Publication.antt the checkout and the pull request, Gate.antt the CI gate
--   and the deadline, Rounds.antt and Review.antt the review rounds, Proposals.antt the proposals and the
--   histories, Development.antt a round, Loop.antt `_run_loop` and Runs.antt `run_work` and
--   `resume_work`. The turns of the coder, the reading of an issue's body, the conduct of a wave of
--   reviewers and the text of a pull request's summary are interfaces; a reason for an escalation stands without interpolated values, and
--   the arguments for an injected clock are left out.
-- - Findings.antt and Findings/: `apply_disposition` and `compact` of `FindingRegistry` in
--   src/ai_pr_orchestrator/v3/findings.py; whether `str.strip` leaves nothing of a text is a parameter.
-- - Reconcile.antt and Reconcile/: src/ai_pr_orchestrator/v3/reconcile.py. Reconcile.antt has the
--   observations, Table.antt the decision table, Context.antt the decision context, Planner.antt
--   and Planner/ the methods of `ReconcilePlanner` under their names without the underscore, and
--   Helpers.antt the public orphan helpers.
-- - Prelude.antt and Prelude/: the lists, dictionaries, equality tests and results that all parts use.
--
-- Choices. A timestamp is a number of microseconds, and a clock says if it carries a timezone. A
-- dictionary is an association list in insertion order, a set a list. An exception is a value of
-- `Error`. Loops are structural recursion, but for two with fuel: `decimal_from`, which prints a number,
-- has one round more than the number, and each round takes a digit off; the loop of a run takes its
-- fuel as an argument, and each review of a fresh wave counts one towards the limit on iterations. Texts for the operator (`reason`,
-- `detail`) are left out where no code reads them; a value of the extras is a `Value`, which is JSON
-- with timestamps as numbers.
--
-- Not modelled: the rest of the findings registry, the foreman's spend accounting, prompts and model
-- leases, the cleanup sweep, the serialization and coercion of untyped data, and what is I/O (GitHub
-- client, git, the Hermes adapter, the session server, the command line, logging).
pub mod Prelude
pub mod Config
pub mod Domain
pub mod Interfaces
pub mod Numbers
pub mod Lanes
pub mod CiGate
pub mod Catalog
pub mod Telemetry
pub mod Broker
pub mod Queue
pub mod Foreman
pub mod Scheduler
pub mod Findings
pub mod Reconcile
