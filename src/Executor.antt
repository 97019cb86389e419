-- ===== src/Executor.antt =====
-- internal/executor/executor.go and checkpoint.go: the walk over a graph of tasks, with checkpoints
-- and retries. `W` is the state of what the executor only calls (the store, the queue, the clock)
-- and `E` the errors of these. A map is a list of entries; since each `range` over `g.Tasks` may
-- choose its own order, the keys in the order of the second one are an argument, `seed`.
mod Effects
pub mod Store
pub mod Scan
pub mod Retries
pub mod Walk
pub mod Order
pub mod Frame
pub use Effects.*
use newser.Prelude.{
  ℕ, zero, suc, ◌+◌, ◌≡◌, Bool, true, false, String, Option, none, some, List, [], ◌∷◌, ◌++◌, ltb,
  ◌==◌, str_eq, if◌then◌else◌, contains, length, is_empty,
}
use newser.Prelude.Int.{ℤ, pos, negsuc}
use newser.Value.{Fields, end}
use newser.Dag.{Node, Degrees, no_edges, add_edge, release_all, sources}

pub record Task (F : Type 0) : Type 0 where
  pub id : String
  pub stage : String
  pub depends_on : List String
  pub payload : Fields F
  pub checkpoint_token : String
  pub max_retries : ℤ
  pub retry_delay : ℤ

-- `g.Tasks`.
abbrev pub Graph : Type 0 → Type 0
Graph F = List (String × Task F)

abbrev pub keys : {F : Type 0} → Graph F → List String
keys [] = []
keys ((id, task) ∷ g) = id ∷ keys g

abbrev pub nodes : {F : Type 0} → Graph F → List Node
nodes [] = []
nodes ((id, task) ∷ g) = record { id = id; depends_on = task.depends_on } ∷ nodes g

abbrev pub no_task : {F : Type 0} → Task F
no_task = record {
  id = "";
  stage = "";
  depends_on = [];
  payload = end;
  checkpoint_token = "";
  max_retries = pos 0;
  retry_delay = pos 0;
}

-- `g.Tasks[id]`: the zero task where the key is missing.
unfoldable pub task_of : {F : Type 0} → Graph F → String → Task F
task_of [] id = no_task
task_of ((key, task) ∷ g) id = if str_eq key id then task else task_of g id

pub record CheckpointManager (F W E : Type 0) : Type 0 where
  pub start_run : String → W → W × Option E
  pub save_task_start : String → Task F → ℕ → W → W × Option E
  pub save_task_success : String → Task F → ℕ → W → W × Option E
  pub save_task_failure : String → Task F → ℕ → E → W → W × Option E

unfoldable pub noop_checkpoint_manager : {F W E : Type 0} → CheckpointManager F W E
noop_checkpoint_manager = record {
  start_run = λ run w. (w, none);
  save_task_start = λ run task attempt w. (w, none);
  save_task_success = λ run task attempt w. (w, none);
  save_task_failure = λ run task attempt e w. (w, none);
}

-- The optional callbacks. The elapsed time that `Duration` is given is the callback's to know.
pub record Metrics (F W : Type 0) : Type 0 where
  pub retry_counter : Option (Task F → ℕ → W → W)
  pub duration : Option (Task F → W → W)

pub record Executor (F W E : Type 0) : Type 0 where
  pub checkpoints : Option (CheckpointManager F W E)
  pub metrics : Metrics F W

-- `runner.RunTask`, which may be nil.
abbrev pub TaskRunner : Type 0 → Type 0 → Type 0 → Type 0
TaskRunner F W E = Option (String → Task F → W → W × Option E)

module _ {F W E : Type 0} where
  unfoldable pub with_checkpoint_manager : CheckpointManager F W E → Executor F W E → Executor F W E
  with_checkpoint_manager mgr ex = record ex { checkpoints = some mgr }

  unfoldable pub with_metrics : Metrics F W → Executor F W E → Executor F W E
  with_metrics m ex = record ex { metrics = m }

  apply_options : List (Executor F W E → Executor F W E) → Executor F W E → Executor F W E
  apply_options [] ex = ex
  apply_options (opt ∷ opts) ex = apply_options opts (opt ex)

  unfoldable pub new : List (Executor F W E → Executor F W E) → Executor F W E
  unfolding apply_options
  new opts =
      apply_options opts
        (record { checkpoints = none; metrics = record { retry_counter = none; duration = none } })

-- The first pass: dependencies are checked while the degrees and the adjacency are built.
unfoldable pub scan_deps :
    {E : Type 0} → List String → String → List String → Degrees → Result E Degrees
scan_deps known id [] m = ok m
scan_deps known id (dep ∷ deps) m =
    let rest = scan_deps known id deps (add_edge id m dep) in
    if contains dep known then rest else err (unknown_dependency id dep)

unfoldable pub scan : {F E : Type 0} → List String → Graph F → Degrees → Result E Degrees
unfolding scan_deps
scan known [] m = ok m
scan known ((id, task) ∷ g) m = elim (scan_deps known id task.depends_on m) [
  | ok m' ↦ scan known g m'
  | err e ↦ err e
]

-- The defaults that `Execute` fills in before a task runs.
unfoldable pub fill_task : {F : Type 0} → Task F → Task F
fill_task task = record task {
  stage = if is_empty task.stage then task.id else task.stage;
  checkpoint_token = if is_empty task.checkpoint_token then task.id else task.checkpoint_token;
}

unfoldable pub retries_of : {F : Type 0} → Task F → ℕ
retries_of task = elim task.max_retries [ pos n ↦ n | negsuc n ↦ 0 ]

module _ {F W E : Type 0} where
  abbrev pub call_runner : TaskRunner F W E → String → Task F → Action W E (Option E)
  call_runner none run task w = (w, ok none)
  call_runner (some runner) run task w = let (w', e) = runner run task w in (w', ok e)

  abbrev pub observe_duration : Metrics F W → Task F → Action W E (Unit {0})
  observe_duration metrics task w =
      (elim metrics.duration [ none ↦ w | some callback ↦ callback task w ], ok tt)

  abbrev pub count_retry : Metrics F W → Task F → ℕ → Action W E (Unit {0})
  count_retry metrics task attempt w =
      (elim metrics.retry_counter [ none ↦ w | some callback ↦ callback task attempt w ], ok tt)

module _ {F W E : Type 0} (mgr : CheckpointManager F W E) (metrics : Metrics F W)
    (runner : TaskRunner F W E) (run : String) where
  -- What follows a run of the task: success ends the loop; a failure ends it or goes round `again`.
  -- The wait between two attempts changes nothing.
  unfoldable pub settle : Task F → ℕ → ℕ → Action W E (Unit {0}) → Option E → Action W E (Unit {0})
  settle task max_retries attempt again none = do
    check (mgr.save_task_success run task attempt)
    observe_duration metrics task
  settle task max_retries attempt again (some e) = do
    check (mgr.save_task_failure run task (attempt + 1) e)
    count_retry metrics task (attempt + 1)
    if ltb max_retries (attempt + 1) then throw (failed e) else again

  -- The body of the loop over attempts; `again` is the next round.
  unfoldable pub one_attempt : Task F → ℕ → ℕ → Action W E (Unit {0}) → Action W E (Unit {0})
  unfolding settle
  one_attempt task max_retries attempt again = do
    check (mgr.save_task_start run task attempt)
    run_err ← call_runner runner run task
    settle task max_retries attempt again run_err

  unfoldable pub run_attempts : ℕ → Task F → ℕ → ℕ → Action W E (Unit {0})
  unfolding one_attempt
  run_attempts zero task max_retries attempt = throw out_of_fuel
  run_attempts (suc fuel) task max_retries attempt =
      one_attempt task max_retries attempt (run_attempts fuel task max_retries (attempt + 1))

  unfoldable pub run_task : Task F → Action W E (Unit {0})
  unfolding run_attempts fill_task retries_of
  run_task task = run_attempts (suc (retries_of task)) (fill_task task) (retries_of task) 0

  -- `for len(queue) > 0`.
  unfoldable pub run_queue :
      Graph F
      → (String → List String)
      → ℕ
      → (String → ℤ)
      → List String
      → List String
      → Action W E (List String)
  unfolding run_task
  run_queue g adjacency fuel indegree [] order = pure order
  run_queue g adjacency zero indegree (current ∷ queue) order = throw out_of_fuel
  run_queue g adjacency (suc fuel) indegree (current ∷ queue) order = do
    run_task (task_of g current)
    let f = release_all (adjacency current) (record { indegree = indegree; queue = queue })
    run_queue g adjacency fuel f.indegree f.queue (order ++ current ∷ [])

  unfoldable pub run_graph : Graph F → List String → Degrees → Action W E (List String)
  unfolding run_queue
  run_graph g seed m = do
    check (mgr.start_run run)
    order ← run_queue g m.adjacency (length g) m.indegree (sources m.indegree seed) []
    elim (length order == length g) [ true ↦ pure order | false ↦ throw cycle_detected ]

abbrev pub manager_of :
    {F W E : Type 0} → Option (CheckpointManager F W E) → CheckpointManager F W E
manager_of none = noop_checkpoint_manager
manager_of (some mgr) = mgr

module _ {F W E : Type 0} where
  -- What follows the first pass.
  unfoldable pub run_scanned :
      Executor F W E
      → String
      → Graph F
      → List String
      → TaskRunner F W E
      → W
      → Result E Degrees
      → Executor F W E × W × Result E (List String)
  unfolding run_graph
  run_scanned ex run g seed runner w (err e) = (ex, w, err e)
  run_scanned ex run g seed runner w (ok m) =
      let mgr = manager_of ex.checkpoints in
      let (w', r) = run_graph mgr ex.metrics runner run g seed m w in
      (record ex { checkpoints = some mgr }, w', r)

  -- `Execute`, with the executor as it is left: the default manager is put in on the way.
  unfoldable pub execute :
      Executor F W E
      → String
      → Graph F
      → List String
      → TaskRunner F W E
      → W
      → Executor F W E × W × Result E (List String)
  unfolding scan run_scanned
  execute ex run g seed runner w = run_scanned ex run g seed runner w (scan (keys g) g no_edges)
