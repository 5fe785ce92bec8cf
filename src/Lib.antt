-- ===== src/Lib.antt =====
-- Agent ROI Console: the model gateway, the runner of tasks with its execution paths and validators,
-- the writes of the tool servers, the ROI guard, the ROI of runs, and the run limiter of the API.
--
-- The gateway (backend/src/roiconsole/gateway) answers chat completions. `complete` of
-- service.py checks the metadata of a request, plans the models to try, waits for the rate
-- limit, looks into two caches, fits the plan to the budget, tries the models in turn behind
-- their circuit breakers, charges the cost, and writes a row. The guard
-- (backend/src/roiconsole/guard) reads the runs of a workflow and downgrades, pauses or
-- recovers it by their net return, which backend/src/roiconsole/roi computes.
--
-- A run of a task (backend/src/roiconsole/runner) resets the workspace, renders the inputs of the
-- workflow, and executes one of three paths (backend/src/roiconsole/paths): the declared steps in
-- order, a plan that a model writes and the path validates, or an agent that calls tools turn by
-- turn. Each calls the gateway and the tools, whose writes (backend/src/roiconsole/mcp_servers) go
-- by an idempotency key. The runner then reads the end state, applies the validators of the task
-- (backend/src/roiconsole/validators), and finishes the row of the run, which the guard reads later.
--
-- Files, by the source that they model:
--   Gateway/Breaker.antt    gateway/breaker.py: CircuitBreaker (`refresh` is `_refresh`, `open_at`
--                           is `_open`, `read_state` the property) and BreakerRegistry
--   Gateway/Router.antt     gateway/router.py: RoutingTable.load, plan_route
--   Gateway/Pricing.antt    gateway/pricing.py: PriceTable, price_per_mtok and the rest of it
--   Gateway/Store.antt      gateway/store.py: MemoryStore
--   Gateway/Budgets.antt    gateway/budgets.py: BudgetConfig, BudgetTracker
--   Gateway/RateLimit.antt  gateway/ratelimit.py: WorkflowRateLimiter
--   Gateway/Calls.antt      gateway/service.py: _call_model; gateway/adapters/base.py
--   Gateway/Planning.antt   gateway/service.py: _metadata, _plan, _fit_budget; gateway/schemas.py
--   Gateway/Service.antt    gateway/service.py: complete, with its state, in three children:
--                           Cached (the caches of gateway/cache.py and _serve_cached), Fallback (the
--                           loop over the candidates) and Complete (the whole call)
--   Gateway/Streaming.antt  gateway/schemas.py: stream_chunks
--   Api.antt                api/rate_limit.py: SlidingWindowRateLimiter
--   Guard.antt              guard/state_machine.py: evaluate, window_for
--   Guard/Service.antt      guard/service.py: load_state, save_state, record_action, trailing_runs,
--                           path_stats_for, evaluate_workflow
--   Roi.antt                roi/compute.py: task_roi, summarize_runs, sensitivity_grid; the rate
--                           summary with its Wilson interval is left out
--   Json.antt               the values of Python's `json`
--   Mcp.antt                mcp_servers/common.py: IdempotencyStore and idempotent_write
--   Workflows.antt          workflows/schema.py, with templating.py in Rendering and transforms.py in
--                           Transforms
--   Paths.antt              paths/base.py: PathContext (Context is its fixed part, Trail the rest),
--                           llm_step, tool_step, finish; Output is parse_json_output of runner/llm.py
--   Paths/Pipeline.antt     paths/pipeline.py: execute_step by the type of a step, PipelinePath
--   Paths/Planner.antt      paths/planner_executor.py: validate_plan; in Execute the placeholders
--                           (follow is a part of _lookup), in Graph PlannerExecutorPath
--   Paths/React.antt        paths/react.py: ReactPath, a function for each node
--   Validators.antt         validators/state.py and the text helpers of validators/library.py; in
--                           Checks its checks, in Binding VALIDATORS_DICT, in Engine engine.py
--   Runner.antt             runner/runner.py: its tables (`insert_run` is _insert_run, `complete_run`
--                           is _complete_run) and outcomes, and paths/registry.py; TaskRunner.run is
--                           in Execution, a function for each of its steps
-- The other children of each are the proofs about it, named for what they prove. Common and Float are
-- shared: Python's dict, sorted and comprehensions, and its floats. Tests has runs of the models.
--
-- Correspondence. A dict with text keys is an association list in insertion order. A float is
-- an element of an abstract type with the operations that the code uses (Float.antt); theorems
-- that need order or rounding to nearest name the laws (IsMonotone, HasRepr), and
-- Float/Scaled.antt is an instance of them all. NaN is left out. A reading of a clock, the UTC
-- date and an id that is made are arguments; what a provider does in one round is a reply of an
-- infinite sequence of trials. State is passed from call to call, and an exception of Python is
-- a value of its own. A method that holds a lock, or one between two awaits, is one step.
-- The calls of idempotent_write that share a table are a list of writers, and a step of the system
-- is one SQL statement or one reading of the clock of any of them.
-- A run passes a world along, which the gateway, the tools and the backends act on, and which they
-- are functions of. Regular expressions, templates of Jinja, the texts of `json` and the tables of
-- Unicode are functions that a model is given. In a path, PathError is the value `stops` and any
-- other exception is `crashes`; a run without an outcome is one that ended in an exception.
--
-- Loops. The retry loop recurs on the rounds left and the fallback loop on the list of
-- candidates, so that they end by their form.
-- The wait for the rate limit recurs on the readings of the clocks in its rounds, as many of them
-- as it is given; the code leaves the loop at the end of a round past the longest wait.
-- The graphs of the planner and of the agent recur on the recursion limit that the code gives to
-- LangGraph, which counts nodes: 12 * 2 + 5 for at most 12 steps of a plan, and max_iterations * 2 + 5
-- for two nodes in each turn. A graph that meets it crashes, as in the code. That of a pipeline
-- recurs on the steps of the workflow; LangGraph's own limit for it is left out.
--
-- Not modelled: Redis and its Lua script, the vector index of the semantic cache (a parameter), the
-- hash of a cache key (a parameter), HTTP clients, metrics, spans, logs, latencies, sleeps, the
-- recorder, the loops of the guard over all workflows, the throttle and the call context of the tool
-- servers, their backends and the sandbox's store (an interface of the runner), the sessions of the
-- MCP client (an interface of the paths), the loading of workflows and tasks from YAML, the detail
-- texts of validators, evaluation, the API's routes and the dashboard.
pub mod Api
pub mod Common
pub mod Float
pub mod Gateway
pub mod Guard
pub mod Json
pub mod Mcp
pub mod Paths
pub mod Roi
pub mod Runner
pub mod Tests
pub mod Validators
pub mod Workflows
