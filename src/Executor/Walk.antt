-- ===== src/Executor/Walk.antt =====
-- The loop of `Execute` over its queue keeps the invariant of Kahn's algorithm.
use mathlib.Core.List.{append_assoc, append-nil}
use newser.Prelude.{
  ℕ, zero, suc, ◌+◌, ◌≤◌, ◌≡◌, refl, true, false, String, List, [], ◌∷◌, ◌++◌, arith, contains,
  distinct, length, length-append, All, eq_iff,
}
use newser.Prelude.Int.{ℤ}
use newser.Dag.{Node, ids, Frontier, release_all, DependenciesFirst}
use newser.Dag.Counts.{pending-All, deps_of, dependents, dependents-ids}
use newser.Dag.Loop.{IsFrontier, release_all-IsFrontier}
use newser.Dag.Run.{shift-IsFrontier, finish-IsFrontier, seen-length-le}
use newser.Dag.Sets.{contains-append}
use newser.Executor.{CheckpointManager, Metrics, TaskRunner, Graph, run_queue, run_task, task_of}
use newser.Executor.Retries.{OnResult, and_then-OnResult, run_task-OnResult}

pub DependenciesFirst-snoc :
    (deps : String → List String) (seen xs : List String) (x : String)
    → DependenciesFirst deps seen xs
    → All (λ dep. contains dep (seen ++ xs) ≡ true) (deps x)
    → DependenciesFirst deps seen (xs ++ x ∷ [])
DependenciesFirst-snoc deps seen [] x h a = (rw append-nil at a, tt)
DependenciesFirst-snoc deps seen (y ∷ ys) x h a =
    (h.0, DependenciesFirst-snoc deps (seen ++ y ∷ []) ys x h.1 (rw append_assoc a))

-- What the loop has when it ends well.
pub record Finished (ns : List Node) (order : List String) : Type 0 where
  pub indegree : String → ℤ
  pub frontier : IsFrontier ns order order [] (record { indegree = indegree; queue = [] })
  pub dependencies_first : DependenciesFirst (deps_of ns) [] order

abbrev state : (String → ℤ) → List String → Frontier
state indegree queue = record { indegree = indegree; queue = queue }

-- The node that is taken off the queue: nothing of it is pending, and it was not finished before.
module _ (ns : List Node) (order queue : List String) (cur : String) (indegree : String → ℤ)
    (inv : IsFrontier ns order order [] (state indegree (cur ∷ queue))) where
  pub head_ready : All (λ dep. contains dep order ≡ true) (deps_of ns cur)
  head_ready = pending-All ns order cur (
      omega (
        arith,
        (inv.seen_zero cur
            (ground (arith, eq_iff cur cur, contains-append cur order (cur ∷ queue)))).1,
      ))

  pub head_fresh : contains cur order ≡ false
  head_fresh = fresh order inv.nodup
    where
      fresh : (xs : List String) → distinct (xs ++ cur ∷ queue) ≡ true → contains cur xs ≡ false
      fresh [] d = refl
      fresh (x ∷ xs) d = ground (
        arith,
        eq_iff x cur,
        eq_iff cur x,
        eq_iff x x,
        contains-append x xs (cur ∷ queue),
        fresh xs,
      )

  pub step-IsFrontier :
      IsFrontier ns
        (order ++ cur ∷ [])
        (order ++ cur ∷ [])
        []
        (release_all (dependents ns cur) (state indegree queue))
  step-IsFrontier =
      release_all-IsFrontier ns (order ++ cur ∷ []) (order ++ cur ∷ []) (dependents ns cur) _
        (finish-IsFrontier ns order (order ++ cur ∷ []) cur _
          (shift-IsFrontier ns order order cur _ queue inv refl) head_fresh)
        (dependents-ids ns cur)

module _ {F W E : Type 0} (mgr : CheckpointManager F W E) (metrics : Metrics F W)
    (runner : TaskRunner F W E) (run : String) (g : Graph F) (ns : List Node)
    (adjacency : String → List String) (spec : (s : String) → adjacency s ≡ dependents ns s) where
  pub run_queue-OnResult :
      (fuel : ℕ) (indegree : String → ℤ) (queue order : List String) (w : W)
      → length (ids ns) ≤ length order + fuel
      → DependenciesFirst (deps_of ns) [] order
      → IsFrontier ns order order [] (state indegree queue)
      → OnResult
          (Finished ns)
          (run_queue mgr metrics runner run g adjacency fuel indegree queue order w).1
  unfolding run_queue
  run_queue-OnResult fuel indegree [] order w enough first inv = record {
    indegree = indegree;
    frontier = inv;
    dependencies_first = first;
  }
  run_queue-OnResult zero indegree (cur ∷ queue) order w enough first inv =
      absurd (omega (arith, seen-length-le inv, length-append order (cur ∷ queue)))
  run_queue-OnResult (suc fuel) indegree (cur ∷ queue) order w enough first inv =
      and_then-OnResult (λ _. Unit) (Finished ns)
        (run_task mgr metrics runner run (task_of g cur) w).1 _
        (run_task mgr metrics runner run (task_of g cur) w).0
        (run_task-OnResult mgr metrics runner run (task_of g cur) w)
        λ _ _.
          run_queue-OnResult fuel _ _ (order ++ cur ∷ []) _
            (omega (arith, length-append order (cur ∷ [])))
            (DependenciesFirst-snoc (deps_of ns) [] order cur first
              (head_ready ns order queue cur indegree inv))
            (rw (spec cur) (step-IsFrontier ns order queue cur indegree inv))
