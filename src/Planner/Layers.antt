-- ===== src/Planner/Layers.antt =====
-- What computeExecutionHints returns.
use mathlib.Core.List.{append-nil}
use newser.Prelude.{
  ℕ, suc, ◌+◌, ◌≡◌, ◌≢◌, refl, Bool, true, false, ◌||◌, String, some, List, [], ◌∷◌, arith,
  contains, distinct, length, sym, ap, subst, ◌==◌, ==_iff, if◌then◌else◌,
}
use newser.Prelude.Dict.{
  insert, entries, sort, contains-entries-insert, distinct-entries-insert, text_le,
}
use newser.Dag.{Node, ids, no_edges, build, sources}
use newser.Dag.Counts.{deps_of, build-adjacency}
use newser.Dag.Run.{SameNames, start-IsFrontier, IsRanked, ranked_complete}
use newser.Dag.Sets.{full_of_length, distinct-length-le}
use newser.Planner.{PlanTask}
use newser.Planner.Validate.{Index}
use newser.Planner.Schedule.{
  task_nodes, positions, by_position, Schedule, stuck, Hints, scheduled, cycle, out_of_fuel,
  finish_hints, compute_execution_hints,
}
use newser.Planner.Hints.{LayersOk, concat, Layered, walk_layers-Layered, sort-IsFrontier}

abbrev pub task_ids : {F : Type 0} → List (PlanTask F) → List String
task_ids tasks = ids (task_nodes tasks)

pub length-task_ids :
    {F : Type 0} (tasks : List (PlanTask F)) → length (task_ids tasks) ≡ length tasks
length-task_ids [] = refl
length-task_ids (task ∷ tasks) = ap suc (length-task_ids tasks)

positions-contains :
    {F : Type 0} (k : String) (i : ℕ) (tasks : List (PlanTask F)) (m : Index)
    → contains k (entries (positions i tasks m))
      ≡ (contains k (task_ids tasks) || contains k (entries m))
unfolding positions
positions-contains k i [] m = refl
positions-contains k i (task ∷ tasks) m = ground (
  arith,
  positions-contains k (suc i) tasks (insert task.id i m),
  contains-entries-insert task.id k i m,
)

positions-distinct :
    {F : Type 0} (i : ℕ) (tasks : List (PlanTask F)) (m : Index)
    → distinct (entries m) ≡ true
    → distinct (entries (positions i tasks m)) ≡ true
unfolding positions
positions-distinct i [] m h = h
positions-distinct i (task ∷ tasks) m h =
    positions-distinct (suc i) tasks (insert task.id i m) (distinct-entries-insert task.id i m h)

-- How the hints came about.
abbrev Origin : List Node → ℕ → Hints → Type 0
Origin ns n (scheduled order layers) =
    (s : Schedule) × Layered ns s × (length order ≡ n) × (s.order ≡ order) × (s.layers ≡ layers)
Origin ns n (cycle names) = (s : Schedule) × Layered ns s × (length s.order ≢ n)
Origin ns n out_of_fuel = ⊥

module _ {F : Type 0} (tasks : List (PlanTask F)) where
  finished :
      (names : List String) (s : Schedule)
      → Layered (task_nodes tasks) s
      → Origin (task_nodes tasks) (length tasks) (finish_hints (length tasks) names (some s))
  unfolding finish_hints
  finished names s l = compared (length s.order == length tasks) refl
    where
      compared :
          (b : Bool)
          → (length s.order == length tasks) ≡ b
          → Origin (task_nodes tasks) (length tasks) (
              if b
              then scheduled s.order s.layers
              else cycle (sort text_le (stuck s.indegree names)))
      compared true h = (s, l, (==_iff _ _).0 h, refl, refl)
      compared false h = (s, l, λ e. ground arith)

  hints-Origin : Origin (task_nodes tasks) (length tasks) (compute_execution_hints tasks)
  unfolding compute_execution_hints
  hints-Origin =
      let index = positions 0 tasks [] in
      let m = build (task_nodes tasks) no_edges in
      let (s, ran, l) =
        walk_layers-Layered (task_nodes tasks) m.adjacency (build-adjacency (task_nodes tasks))
          index (length tasks) m.indegree
          (sort (by_position index) (sources m.indegree (entries index))) [] []
          (omega (arith, length-task_ids tasks)) tt refl
          (sort-IsFrontier (by_position index) (task_nodes tasks) [] [] _ (
            start-IsFrontier (task_nodes tasks) (entries index) (positions-distinct 0 tasks [] refl)
              (λ k. ground (arith, positions-contains k 0 tasks [])))) in
      subst
        (λ o.
          Origin (task_nodes tasks) (length tasks) (finish_hints (length tasks) (entries index) o))
        (sym ran) (finished (entries index) s l)

  origin_of :
      (h : Hints) → compute_execution_hints tasks ≡ h → Origin (task_nodes tasks) (length tasks) h
  origin_of h e = subst (Origin (task_nodes tasks) (length tasks)) e hints-Origin

  -- If the task ids are distinct: a schedule lists each task id exactly once, its layers in a row are the order, and every
  -- dependency of a task lies in a layer before the task's own.
  pub hints-scheduled :
      (order : List String) (layers : List (List String))
      → distinct (task_ids tasks) ≡ true
      → compute_execution_hints tasks ≡ scheduled order layers
      → (distinct order ≡ true)
        × SameNames order (task_ids tasks)
        × (concat layers ≡ order)
        × LayersOk (deps_of (task_nodes tasks)) [] layers
  hints-scheduled order layers unique e =
      let (s, l, full, same_order, same_layers) = origin_of (scheduled order layers) e in
      let once : distinct s.order ≡ true = rw append-nil at l.frontier.nodup in
      let inside : (k : String) → contains k s.order ≡ true → contains k (task_ids tasks) ≡ true =
        λ k m. (l.frontier.seen_zero k (rw append-nil m)).0 in
      (
        rw (← same_order) once,
        λ k. rw (← same_order) (
            both _ _ (inside k) (
              full_of_length s.order (task_ids tasks) once inside
                (omega (arith, ap length same_order, full, length-task_ids tasks)) k)),
        rw (← same_layers, ← same_order) l.flat,
        rw (← same_layers) l.layers_ok,
      )
    where
      both : (a b : Bool) → (a ≡ true → b ≡ true) → (b ≡ true → a ≡ true) → a ≡ b
      both a b p q = ground arith

  -- If the task ids are distinct and no task depends on itself through others (the dependencies
  -- are ids of tasks, and some ranking puts each below the task that has it), there is a schedule:
  -- no cycle is reported, and the loop over the layers ends within its fuel.
  pub hints_ranked :
      (rank : String → ℕ)
      → distinct (task_ids tasks) ≡ true
      → IsRanked rank (task_ids tasks) (task_nodes tasks)
      → (order : List String) × (layers : List (List String)) × (compute_execution_hints tasks
          ≡ scheduled order layers)
  hints_ranked rank unique ranked = found (compute_execution_hints tasks) refl
    where
      complete : (s : Schedule) → Layered (task_nodes tasks) s → length s.order ≡ length tasks
      complete s l = omega (
        arith,
        length-task_ids tasks,
        distinct-length-le (task_ids tasks) s.order unique (λ k m.
            ranked_complete rank (task_nodes tasks) s.order _ ranked l.frontier refl (rank k + 1) k
              (omega arith) m),
        distinct-length-le s.order (task_ids tasks) (rw append-nil at l.frontier.nodup)
            (λ k m. (l.frontier.seen_zero k (rw append-nil m)).0),
      )

      found :
          (h : Hints)
          → compute_execution_hints tasks ≡ h
          → (order : List String) × (layers : List (List String)) × (compute_execution_hints tasks
              ≡ scheduled order layers)
      found (scheduled order layers) e = (order, layers, e)
      found (cycle names) e =
          let (s, l, short) = origin_of (cycle names) e in absurd (short (complete s l))
      found out_of_fuel e = absurd (origin_of out_of_fuel e)
