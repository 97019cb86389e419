-- ===== src/Agents/Rounds.antt =====
-- executeTasks and findBestAgent of internal/agent/core/orchestrator.go. The goroutines of a round
-- run one after the other here, in an order that is an argument; the spans and the telemetry are
-- left out.
use newser.Prelude.{
  ℕ, suc, Bool, true, not, ◌&&◌, String, Option, none, some, List, [], ◌∷◌, ◌++◌, contains, is_nil,
  length, if◌then◌else◌, is_some,
}
use newser.Prelude.Int.{ℤ}
use newser.Prelude.Floats.{FloatOps}
use newser.Prelude.Dict.{lookup, insert}
use newser.Value.{Any, Fields, put, get}
use newser.Store.{Reply, reply, fault}
use newser.Budget.Usage.{ErrExceeded, Formats}
use newser.Budget.Monitor.{Monitor, add, check_time}
use newser.Agents.{AgentTask, AgentResult, Source}

-- The task that an agent is given. `inputs` and `sources` are the parameters of those names that the
-- code adds; it leaves out sources where the task has some or the inputs have none.
pub record Enriched (F T : Type 0) : Type 0 where
  pub task : AgentTask F T
  pub parameters : Fields F
  pub inputs : List (AgentResult F T)
  pub sources : Option (List (Source F T))

-- An agent: its confidence in a task, and what it does.
pub record Agent (F T W E : Type 0) : Type 0 where
  pub confidence : AgentTask F T → F
  pub run : Enriched F T → W → W × Reply E (AgentResult F T)

-- The parts of an EpisodicStep that are not those of its task or its result.
pub record Trace (F T : Type 0) : Type 0 where
  pub step_index : ℕ
  pub task : Enriched F T
  pub result : AgentResult F T

-- What a goroutine sends; `exceeded` is without the usage that NewBreach adds where the plan has a
-- budget.
pub data TaskError (E : Type 0) : Type 0 where
  no_tool_card no_agent : String → TaskError E
  task_failed : String → E → TaskError E
  exceeded : ErrExceeded → TaskError E

-- The shared variables of the goroutines; `errors` is what the channel holds.
pub record Board (F T E : Type 0) : Type 0 where
  pub results : List (AgentResult F T)
  pub traces : List (Trace F T)
  pub results_by_id : List (String × AgentResult F T)
  pub executed : List String
  pub completed_tasks : ℕ
  pub current_task : String
  pub monitor : Option (Monitor F)
  pub errors : List (TaskError E)

-- What the orchestrator and the run give to each task.
pub record Setting (F T W E : Type 0) : Type 0 where
  pub registry : Option (String → Bool)
  pub agents : List (Agent F T W E)
  pub context : Option (Any F)
  pub preferences : Option (Any F)
  pub elapsed : W → ℤ
  pub deduplicate : List (Source F T) → List (Source F T)

abbrev with_param : {F : Type 0} → String → Option (Any F) → Fields F → Fields F
with_param key none m = m
with_param key (some v) m = put key v m

-- Whether every dependency is executed.
unfoldable pub all_executed : List String → List String → Bool
all_executed executed [] = true
all_executed executed (dep ∷ deps) = contains dep executed && all_executed executed deps

-- `executed[id] = true`.
abbrev pub mark : String → List String → List String
mark id executed = if contains id executed then executed else id ∷ executed

module _ {F T : Type 0} where
  -- The tasks that are not executed and whose dependencies are.
  unfoldable pub ready_tasks : List String → List (AgentTask F T) → List (AgentTask F T)
  ready_tasks executed [] = []
  ready_tasks executed (t ∷ ts) =
      let more = ready_tasks executed ts in
      if not (contains t.id executed) && all_executed executed t.depends_on then t ∷ more else more

  unfoldable pub inputs_of : List (String × AgentResult F T) → List String → List (AgentResult F T)
  inputs_of done [] = []
  inputs_of done (dep ∷ deps) = elim (lookup dep done) [
    | none ↦ inputs_of done deps
    | some r ↦ r ∷ inputs_of done deps
  ]

  unfoldable pub all_sources : List (AgentResult F T) → List (Source F T)
  all_sources [] = []
  all_sources (r ∷ rs) = r.sources ++ all_sources rs

unfoldable pub fail : {F T E : Type 0} → TaskError E → Board F T E → Board F T E
fail e b = record b { errors = b.errors ++ e ∷ [] }

-- What a goroutine writes under the lock when its task is done.
unfoldable pub record_result :
    {F T E : Type 0} → Enriched F T → AgentResult F T → Board F T E → Board F T E
record_result e result b = record b {
  results = b.results ++ result ∷ [];
  executed = mark e.task.id b.executed;
  results_by_id = insert e.task.id result b.results_by_id;
  traces = b.traces ++ record { step_index = length b.traces; task = e; result = result } ∷ [];
  completed_tasks = suc b.completed_tasks;
  current_task = e.task.description;
}

abbrev pub has_card : Option (String → Bool) → String → Bool
has_card none type = true
has_card (some registered) type = registered type

module _ {F T W E : Type 0} (set : Setting F T W E) where
  unfoldable pub enrich : AgentTask F T → List (String × AgentResult F T) → Enriched F T
  enrich t done =
      let params =
        with_param "preferences" set.preferences (with_param "context" set.context t.parameters) in
      let inputs = inputs_of done t.depends_on in
      let found = all_sources inputs in
      record {
        task = t;
        parameters = params;
        inputs = inputs;
        sources =
            if not (is_some (get "sources" params)) && not (is_nil found)
            then some (set.deduplicate found)
            else none;
      }

module _ {F T : Type 0} (fl : FloatOps F) (fmt : Formats F) where
  -- The two checks of the budget after a task, at this time.
  unfoldable pub charge :
      ℤ → AgentResult F T → Option (Monitor F) → Option (Monitor F) × Option ErrExceeded
  charge elapsed result none = (none, none)
  charge elapsed result (some m) =
      let (m', over) = add fl fmt result.cost result.tokens_used m in
      (some m', elim over [ some x ↦ some x | none ↦ check_time fl fmt elapsed m' ])

-- A task that was charged is recorded, unless the budget is exceeded.
unfoldable pub on_charge :
    {F T E : Type 0}
    → Enriched F T
    → AgentResult F T
    → Board F T E
    → Option (Monitor F) × Option ErrExceeded
    → Board F T E
on_charge e result b (m, some x) = fail (exceeded x) (record b { monitor = m })
on_charge e result b (m, none) = record_result e result (record b { monitor = m })

module _ {F T W E : Type 0} (fl : FloatOps F) where
  -- `findBestAgent`: the first of the greatest confidence above zero, in the order of the list.
  unfoldable pub best_from :
      AgentTask F T → Option (Agent F T W E) → F → List (Agent F T W E) → Option (Agent F T W E)
  best_from t best confidence [] = best
  best_from t best confidence (a ∷ agents) =
      let better = best_from t (some a) (a.confidence t) agents in
      let same = best_from t best confidence agents in
      if fl.lt_f confidence (a.confidence t) then better else same

  unfoldable pub find_best_agent : List (Agent F T W E) → AgentTask F T → Option (Agent F T W E)
  find_best_agent agents t = best_from t none fl.zero_f agents

  module _ (fmt : Formats F) (set : Setting F T W E) where
    unfoldable pub settle_result :
        Enriched F T → W × Reply E (AgentResult F T) → Board F T E → W × Board F T E
    settle_result e (w, fault x) b = (w, fail (task_failed e.task.id x) b)
    settle_result e (w, reply result) b =
        (w, on_charge e result b (charge fl fmt (set.elapsed w) result b.monitor))

    unfoldable pub run_with :
        Option (Agent F T W E) → AgentTask F T → W → Board F T E → W × Board F T E
    run_with none t w b = (w, fail (no_agent t.id) b)
    run_with (some a) t w b = let e = enrich set t b.results_by_id in settle_result e (a.run e w) b

    -- One goroutine.
    unfoldable pub run_task : AgentTask F T → W → Board F T E → W × Board F T E
    run_task t w b =
        if has_card set.registry t.type
        then run_with (find_best_agent set.agents t) t w b
        else (w, fail (no_tool_card t.type) b)
