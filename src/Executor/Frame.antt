-- ===== src/Executor/Frame.antt =====
-- What every call of the executor's surroundings keeps, `Execute` keeps.
use newser.Prelude.{
  ℕ, zero, suc, ◌+◌, Bool, true, false, String, Option, none, some, List, [], ◌∷◌, ◌++◌,
  if◌then◌else◌, ltb, length, ◌==◌,
}
use newser.Prelude.Int.{ℤ}
use newser.Dag.{Degrees, no_edges, sources}
use newser.Executor.{
  Action, Result, ok, err, failed, and_then, ◌>>◌, check, throw, pure, cycle_detected,
  CheckpointManager, Metrics, TaskRunner, Executor, Task, Graph, keys, task_of, retries_of,
  fill_task, call_runner, observe_duration, count_retry, settle, one_attempt, run_attempts,
  run_task, run_queue, run_graph, run_scanned, execute, manager_of, scan,
}

abbrev pub Keeps : {W E A : Type 0} → (W → Type 0) → Action W E A → Type 0
Keeps {W} P m = (w : W) → P w → P (m w).0

pub record KeepsCalls {F W E : Type 0} (P : W → Type 0) (mgr : CheckpointManager F W E)
    (metrics : Metrics F W) (runner : TaskRunner F W E) (run : String) : Type 0 where
  pub start : (w : W) → P w → P (mgr.start_run run w).0
  pub save_start : (task : Task F) (n : ℕ) (w : W) → P w → P (mgr.save_task_start run task n w).0
  pub save_success :
      (task : Task F) (n : ℕ) (w : W) → P w → P (mgr.save_task_success run task n w).0
  pub save_failure :
      (task : Task F) (n : ℕ) (e : E) (w : W) → P w → P (mgr.save_task_failure run task n e w).0
  pub runs : (task : Task F) (w : W) → P w → P (call_runner runner run task w).0
  pub duration : (task : Task F) (w : W) → P w → P (observe_duration {E = E} metrics task w).0
  pub retry : (task : Task F) (n : ℕ) (w : W) → P w → P (count_retry {E = E} metrics task n w).0

and_then-Keeps :
    {W E A B : Type 0} (P : W → Type 0) (r : Result E A) (f : A → Action W E B)
    → ((a : A) → Keeps P (f a))
    → Keeps P (and_then r f)
and_then-Keeps P (ok a) f h w p = h a w p
and_then-Keeps P (err e) f h w p = p

check-Keeps :
    {W E B : Type 0} (P : W → Type 0) (call : W → W × Option E) (m : Action W E B)
    → ((w : W) → P w → P (call w).0)
    → Keeps P m
    → Keeps P (check call >> m)
check-Keeps P call m c h w p =
    and_then-Keeps P (check call w).1 (λ _. m) (λ _. h) (check call w).0 (c w p)

module _ {F W E : Type 0} (P : W → Type 0) (mgr : CheckpointManager F W E) (metrics : Metrics F W)
    (runner : TaskRunner F W E) (run : String) (k : KeepsCalls P mgr metrics runner run) where
  ended :
      (b : Bool) (e : E) (again : Action W E Unit)
      → Keeps P again
      → Keeps P (if b then throw (failed e) else again)
  ended true e again h w p = p
  ended false e again h w p = h w p

  settle-Keeps :
      (task : Task F) (max attempt : ℕ) (again : Action W E Unit) (a : Option E)
      → Keeps P again
      → Keeps P (settle mgr metrics runner run task max attempt again a)
  unfolding settle
  settle-Keeps task max attempt again none h =
      check-Keeps P (mgr.save_task_success run task attempt) (observe_duration metrics task)
        (k.save_success task attempt) (k.duration task)
  settle-Keeps task max attempt again (some e) h =
      check-Keeps P (mgr.save_task_failure run task (attempt + 1) e) _
        (k.save_failure task (attempt + 1) e)
        λ w p. ended (ltb max (attempt + 1)) e again h _ (k.retry task (attempt + 1) w p)

  run_attempts-Keeps :
      (fuel : ℕ) (task : Task F) (max attempt : ℕ)
      → Keeps P (run_attempts mgr metrics runner run fuel task max attempt)
  unfolding run_attempts one_attempt
  run_attempts-Keeps zero task max attempt = λ w p. p
  run_attempts-Keeps (suc fuel) task max attempt =
      check-Keeps P (mgr.save_task_start run task attempt) _ (k.save_start task attempt) λ w p.
        and_then-Keeps P (call_runner runner run task w).1 _
          (λ a. settle-Keeps task max attempt _ a (run_attempts-Keeps fuel task max (attempt + 1)))
          _ (k.runs task w p)

  run_task-Keeps : (task : Task F) → Keeps P (run_task mgr metrics runner run task)
  unfolding run_task
  run_task-Keeps task =
      run_attempts-Keeps (suc (retries_of task)) (fill_task task) (retries_of task) 0

  run_queue-Keeps :
      (g : Graph F) (adjacency : String → List String) (fuel : ℕ) (indegree : String → ℤ)
      (queue order : List String)
      → Keeps P (run_queue mgr metrics runner run g adjacency fuel indegree queue order)
  unfolding run_queue
  run_queue-Keeps g adjacency fuel indegree [] order w p = p
  run_queue-Keeps g adjacency zero indegree (cur ∷ queue) order w p = p
  run_queue-Keeps g adjacency (suc fuel) indegree (cur ∷ queue) order w p =
      and_then-Keeps P (run_task mgr metrics runner run (task_of g cur) w).1 _
        (λ _. run_queue-Keeps g adjacency fuel _ _ (order ++ cur ∷ [])) _
        (run_task-Keeps (task_of g cur) w p)

  compared-Keeps :
      (b : Bool) (order : List String)
      → Keeps {E = E} P (elim b as (λ _. Action W E (List String)) [
        | true ↦ pure order
        | false ↦ throw cycle_detected
      ])
  compared-Keeps true order w p = p
  compared-Keeps false order w p = p

  pub run_graph-Keeps :
      (g : Graph F) (seed : List String) (m : Degrees)
      → Keeps P (run_graph mgr metrics runner run g seed m)
  unfolding run_graph
  run_graph-Keeps g seed m = check-Keeps P (mgr.start_run run) _ k.start λ w p.
      and_then-Keeps P
        (run_queue mgr metrics runner run g m.adjacency (length g) m.indegree
          (sources m.indegree seed) [] w).1
        _ (λ order. compared-Keeps (length order == length g) order) _
        (run_queue-Keeps g m.adjacency (length g) m.indegree (sources m.indegree seed) [] w p)

-- Whatever property of the world the checkpoint manager, the runner and the callbacks keep,
-- `Execute` keeps, also when it fails.
pub execute-Keeps :
    {F W E : Type 0} (P : W → Type 0) (ex : Executor F W E) (run : String) (g : Graph F)
    (seed : List String) (runner : TaskRunner F W E)
    → KeepsCalls P (manager_of ex.checkpoints) ex.metrics runner run
    → (w : W) → P w
    → P (execute ex run g seed runner w).1
unfolding execute
execute-Keeps {E} P ex run g seed runner k w p = scanned (scan {E = E} (keys g) g no_edges)
  where
    scanned : (r : Result E Degrees) → P (run_scanned ex run g seed runner w r).1
    scanned (err e) = p
    scanned (ok m) =
        run_graph-Keeps P (manager_of ex.checkpoints) ex.metrics runner run k g seed m w p
