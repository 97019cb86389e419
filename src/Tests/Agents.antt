-- ===== src/Tests/Agents.antt =====
-- Plans of three tasks, on one agent that answers with the ids of the tasks.
use newser.Prelude.{ℕ, suc, ◌≡◌, ◌≢◌, ◌⊎◌, refl, true, String, none, some, List, [], ◌∷◌}
use newser.Prelude.Int.{pos}
use newser.Value.{end, get, put}
use newser.Store.{reply, fault}
use newser.Agents.{AgentTask, AgentResult}
use newser.Agents.Cycles.{
  Marks, cycle, clear, check_circular_dependencies, search_from, has_cycle, any_cycle, deps_map,
}
use newser.Prelude.Dict.{lookup, insert}
use newser.Agents.Decides.{Ranked, check_circular_dependencies_decides}
use newser.Agents.Validate.{validate_plan, missing_dependency}
use newser.Agents.Rounds.{
  Agent, Setting, Trace, ready_tasks, all_executed, run_task, run_with, find_best_agent, best_from,
  settle_result, on_charge, charge, record_result, enrich, inputs_of, all_sources,
}
use newser.Agents.Execute.{
  execute_tasks, rounds, timed_round, start_round, after_round, run_round, stuck, out_of_rounds,
}
use newser.Agents.Traces.{Good, execute_tasks-Good}
use newser.Agents.Unstuck.{execute_tasks-unstuck}
use newser.Tests.Floats.{exact, plain}

abbrev task : String → String → List String → AgentTask ℕ ℕ
task id type deps = record {
  id = id;
  type = type;
  description = id;
  priority = pos 1;
  parameters = end;
  depends_on = deps;
  timeout = pos 0;
  created_at = 0;
}

abbrev plan : List (AgentTask ℕ ℕ)
plan =
    task "s" "synthesis" ("r" ∷ "k" ∷ [])
    ∷ task "k" "knowledge_graph" []
    ∷ task "r" "research" []
    ∷ []

abbrev answer : String → AgentResult ℕ ℕ
answer id = record {
  id = id;
  task_id = id;
  agent_type = "a";
  success = true;
  values = end;
  sources = [];
  confidence = 1;
  error = "";
  processing_time = pos 0;
  cost = 1;
  tokens_used = pos 1;
  model_used = "m";
  prompt = "";
  created_at = 0;
}

abbrev agent : Agent ℕ ℕ ℕ String
agent = record { confidence = λ t. 1; run = λ e w. (suc w, reply (answer e.task.id)) }

abbrev setting : Setting ℕ ℕ ℕ String
setting = record {
  registry = none;
  agents = agent ∷ [];
  context = none;
  preferences = none;
  elapsed = λ w. pos w;
  deduplicate = λ s. s;
}

-- In the first round the second ready task finishes first.
abbrev places : ℕ → List ℕ
places n = 1 ∷ 0 ∷ []

abbrev step : ℕ → AgentTask ℕ ℕ → List (AgentResult ℕ ℕ) → Trace ℕ ℕ
step n t inputs = record {
  step_index = n;
  task = record { task = t; parameters = end; inputs = inputs; sources = none };
  result = answer t.id;
}

abbrev results : List (AgentResult ℕ ℕ)
results = answer "r" ∷ answer "k" ∷ answer "s" ∷ []

abbrev traces : List (Trace ℕ ℕ)
traces =
    step 0 (task "r" "research" []) []
    ∷ step 1 (task "k" "knowledge_graph" []) []
    ∷ step 2 (task "s" "synthesis" ("r" ∷ "k" ∷ [])) (answer "r" ∷ answer "k" ∷ [])
    ∷ []

valid : validate_plan none plan ≡ none
unfolding validate_plan check_circular_dependencies search_from has_cycle any_cycle lookup deps_map
valid = refl

executed : (execute_tasks exact plain setting places plan none 0).2 ≡ reply (results, traces)
unfolding execute_tasks rounds timed_round start_round ready_tasks all_executed after_round
    run_round run_task run_with find_best_agent best_from settle_result on_charge charge
    record_result enrich inputs_of all_sources lookup insert get put
executed = refl

execute_tasks-Good_example :
    Good plan (execute_tasks exact plain setting places plan none 0).1 (reply (results, traces))
execute_tasks-Good_example =
    execute_tasks-Good exact plain setting places plan none 0 results traces refl executed

execute_tasks-unstuck_example :
    ((execute_tasks exact plain setting places plan none 0).2 ≢ fault stuck)
    × ((execute_tasks exact plain setting places plan none 0).2 ≢ fault out_of_rounds)
execute_tasks-unstuck_example =
    execute_tasks-unstuck exact plain setting none places plan none 0 valid refl

check_circular_dependencies_decides_example :
    ((check_circular_dependencies plan ≡ cycle) × ((rank : String → ℕ) → ¬ Ranked plan rank))
    ⊎ ((s : Marks) × (check_circular_dependencies plan ≡ clear s)
        × (rank : String → ℕ) × Ranked plan rank)
check_circular_dependencies_decides_example = check_circular_dependencies_decides plan

circular :
    check_circular_dependencies
      (task "a" "research" ("b" ∷ []) ∷ task "b" "research" ("a" ∷ []) ∷ [])
    ≡ cycle
unfolding check_circular_dependencies search_from has_cycle any_cycle lookup deps_map
circular = refl

missing :
    validate_plan none (task "a" "research" ("b" ∷ []) ∷ []) ≡ some (missing_dependency "a" "b")
unfolding validate_plan check_circular_dependencies search_from has_cycle any_cycle lookup deps_map
missing = refl

-- Two tasks of one id: both run, but the loop waits for a second id and reports a cycle.
repeated :
    (execute_tasks exact plain setting places
      (task "a" "research" [] ∷ task "a" "research" [] ∷ [])
      none
      0).2
    ≡ fault stuck
unfolding execute_tasks rounds timed_round start_round ready_tasks all_executed after_round
    run_round run_task run_with find_best_agent best_from settle_result on_charge charge
    record_result enrich inputs_of all_sources lookup insert get put
repeated = refl
