-- ===== src/Tests/Executor.antt =====
-- The executor on a graph of two tasks, and on one of two that wait for each other.
use newser.Prelude.{
  ℕ, ◌+◌, ◌≤◌, ◌≡◌, ◌≢◌, ◌↔◌, refl, true, String, none, some, List, [], ◌∷◌, arith, distinct,
}
use newser.Prelude.Int.{pos}
use newser.Value.{end}
use newser.Dag.{DependenciesFirst, sources, add_edge, release_all}
use newser.Dag.Run.{SameNames, IsRanked}
use newser.Executor.{
  Executor, Task, Graph, TaskRunner, keys, nodes, task_of, err, unknown_dependency, out_of_fuel,
  execute, noop_checkpoint_manager, run_task, run_attempts, retries_of,
}
use newser.Executor.Scan.{first_unknown}
use newser.Executor.Order.{execute-ok, execute_total, execute-cycle_detected}
use newser.Executor.Retries.{run_attempts_count}

abbrev task : String → List String → Task ℕ
task id deps = record {
  id = id;
  stage = "";
  depends_on = deps;
  payload = end;
  checkpoint_token = "";
  max_retries = pos 1;
  retry_delay = pos 0;
}

abbrev chain : Graph ℕ
chain = ("b", task "b" ("a" ∷ [])) ∷ ("a", task "a" []) ∷ []

abbrev ring : Graph ℕ
ring = ("b", task "b" ("a" ∷ [])) ∷ ("a", task "a" ("b" ∷ [])) ∷ []

abbrev names : List String
names = "a" ∷ "b" ∷ []

names_same : SameNames names ("b" ∷ "a" ∷ [])
names_same k = ground arith

-- A world that counts the runs of tasks.
abbrev counting : TaskRunner ℕ ℕ String
counting = some (λ run task w. (w + 1, none))

abbrev failing : TaskRunner ℕ ℕ String
failing = some (λ run task w. (w + 1, some "down"))

abbrev plain : Executor ℕ ℕ String
plain = record { checkpoints = none; metrics = record { retry_counter = none; duration = none } }

chain_runs : (execute plain "r" chain names counting 0).1 ≡ 2
unfolding execute noop_checkpoint_manager sources add_edge release_all
chain_runs = refl

fails_twice :
    (run_attempts noop_checkpoint_manager plain.metrics failing "r" 9
      (task "a" [])
      (retries_of (task "a" []))
      0
      0).0
    ≡ 2
unfolding run_task noop_checkpoint_manager
fails_twice = refl

execute-ok_example :
    (distinct names ≡ true)
    × SameNames names (keys chain)
    × DependenciesFirst (λ id. (task_of chain id).depends_on) [] names
unfolding execute noop_checkpoint_manager sources add_edge release_all
execute-ok_example = execute-ok chain names refl names_same plain counting "r" 0 names refl

execute-cycle_detected_example : ¬ IsRanked (λ k. 0) (keys ring) (nodes ring)
unfolding execute noop_checkpoint_manager sources add_edge release_all
execute-cycle_detected_example =
    execute-cycle_detected ring names refl names_same plain counting "r" 0 refl refl (λ k. 0)

execute_total_example :
    ((execute plain "r" ring names counting 0).2 ≢ err out_of_fuel)
    × ((id dep : String)
        → ((execute plain "r" ring names counting 0).2 ≡ err (unknown_dependency id dep))
          ↔ (first_unknown (keys ring) ring ≡ some (id, dep)))
execute_total_example = execute_total ring names refl names_same plain counting "r" 0

run_attempts_count_example :
    (run_attempts noop_checkpoint_manager plain.metrics failing "r" 9
      (task "a" [])
      (retries_of (task "a" []))
      0
      0).0
    ≤ 0 + (retries_of (task "a" []) + 1)
unfolding noop_checkpoint_manager
run_attempts_count_example =
    run_attempts_count noop_checkpoint_manager plain.metrics failing "r" (λ w. w)
      (record {
        runs = λ task w. omega arith;
        start_free = λ w. omega arith;
        save_start_free = λ task n w. omega arith;
        save_success_free = λ task n w. omega arith;
        save_failure_free = λ task n e w. omega arith;
        duration_free = λ task w. omega arith;
        retry_free = λ task n w. omega arith;
      })
      9 (task "a" []) 0
