-- ===== src/Lib.antt =====
-- A verification library of newser, a service that plans, dispatches and supervises research runs.
--
-- Which part models which code (paths from the repository's root):
--   Prelude, Value   numbers, texts, maps, durations, and Go's dynamic values, for all parts.
--   Dag              Kahn's algorithm, as internal/executor/executor.go and
--                    internal/planner/schema.go both write it, with its invariant.
--   Store            the checkpoint record of internal/store/store.go.
--   Executor         internal/executor: `execute` is Execute, `run_task` its loop over attempts,
--                    `settle` what follows an attempt; Executor.Store is checkpoint_store.go.
--   Planner          internal/planner/schema.go: Validate is validatePlanStructure and
--                    validateExecutionOrder, Schedule is computeExecutionHints, Normalize the part
--                    of NormalizePlanDocument behind the decoding.
--   Budget           internal/budget: limits and their overlay, Monitor, Estimate, Report.
--   Worker           internal/worker: Gate is enforceBudgetGate, Handle is handleRunEnqueued with the
--                    runner of runner.go, Resume is buildResumePayload and the first part of
--                    ResumePending.
--   Capability       internal/capability/registry.go: Versions is versionGreater, Registry is
--                    NewRegistry; Order and Sound are about them.
--   Memory           internal/memory/manager/manager.go and the memory jobs of
--                    internal/store/store.go: Delta is Delta with the loops over the items and the
--                    candidates, Texts its texts and keys, Jobs Summarize and
--                    PruneSemanticEmbeddings, JobStore CreateMemoryJob and CompleteMemoryJob.
--   Agents           internal/agent/core: Cycles is checkCircularDependencies, Validate the rest of
--                    ValidatePlan (both of planner.go), Rounds a goroutine of executeTasks with
--                    findBestAgent, Execute its loop (both of orchestrator.go).
--   Policies         internal/policy/policy.go with config/fairness.go and config/crawl_policy.go.
--   Streams          internal/queue/streams: envelope.go and crawler.go; Registry is registry.go.
--   Manifests        SignRunManifest and VerifyRunManifest of internal/manifest/manifest.go, for any
--                    type of payload.
--   Security         internal/policy/security.go and the enforcer of internal/runtime/sandbox.go.
--   Tests            runs and theorems at concrete inputs.
--
-- How the parts meet: a run message passes the worker's idempotency claim and the budget gate
-- (which reads a Budget.Config); the run is checkpointed, and a graph of one task goes through the
-- executor, which writes checkpoints through the worker's store and calls the worker's runner,
-- which publishes the dispatch. Resume reads those checkpoints back. The orchestrator runs the tasks of
-- a plan in rounds, which Agents joins with the validation of the plan and with the budget monitor.
-- Memory filters the items of a run and opens and completes its jobs through the store.
--
-- What stands for code outside the repository:
--   `W` is the world behind the store, the queue and the clock, which calls pass on as a state, and
--   `E` their errors; `StoreApi` holds the store's operations, `Claims` what idempotency asks of it.
--   float64 is the interface FloatOps, with what IEEE 754 promises of comparisons in FloatLaws.
--   `MemoryStore` and `Embed` are what the memory calls, `JobStatements` the SQL behind its jobs, with
--   `Logs` and `CountsOpen` for what the theorems ask of them. `Agent` is an agent, `Setting` what a run
--   gives to its tasks. `Urls`, `Codec` and `SchemaTools` are the URL helpers, JSON, and the schema
--   compiler of the queue; `SigningTools` is JSON, SHA-256 and HMAC for manifests; `HostReading` is
--   letter case and URL parsing for the policies.
--   `Formats` is how fmt and time print numbers; `Tools` the JSON schema compiler, the hashes and
--   the scanning of integers; `Reading` letter case, the parsing of URLs and the reading of floats.
--
-- Bounds and fuel: int64 sums and products are written with their wrap-around. The walk over a graph
-- has the number of tasks as fuel, the loop over attempts MaxRetries + 1 (its bound does not rest on that), the loop over layers the
-- number of tasks, the search for cycles one more than the ids that the plan names, the rounds of
-- executeTasks one more than the tasks; that this is enough is among the results. The goroutines of a
-- round run one after the other, in an order that is an argument. Go ranges over a map in any order: the
-- keys' order in Execute is the argument `seed`, the units' order of a memory size an argument, and
-- where the code sorts afterwards the order is immaterial.
--
-- Not modelled: metrics, logs, traces and waits; the JSON decoding and schema validation of a plan,
-- and the texts of its errors (an Issue names place and reason); the worker's polling and AutoClaim
-- loops and its goroutines; interleavings inside the tasks of a round; a nil request of the sandbox;
-- the loading of YAML; of the memory the episodes, the health statistics, the templates and the
-- semantic ingestion; of the agents the thought around the execution of its tasks, the prompts, the
-- synthesis and the sources; of the queue the clients of Redis; the building of
-- a manifest from an episode; the rest of the store, the server,
-- the commands and the web interface. The fraction of a parsed duration is rounded down exactly,
-- where Go multiplies floats. Texts are lists of code points: a byte slice that cuts a code point
-- drops it.
-- Of the policies, the explainability and accessibility policies and the number types that only other
-- decoders than plain JSON give are left out. Values are immutable, so that a cloned map is separate
-- from its original is not stated.
pub mod Prelude
pub mod Value
pub mod Dag
pub mod Store
pub mod Executor
pub mod Manifests
pub mod Memory
pub mod Agents
pub mod Planner
pub mod Policies
pub mod Budget
pub mod Streams
pub mod Worker
pub mod Capability
pub mod Security
pub mod Tests
