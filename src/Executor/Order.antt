-- ===== src/Executor/Order.antt =====
-- What `Execute` returns: an order of all tasks with dependencies first, or a telling error.
use mathlib.Core.Path.{fun_ext}
use newser.Prelude.{
  ℕ, suc, ◌+◌, ◌≤◌, ◌≡◌, ◌≢◌, refl, Bool, true, false, String, Option, none, some, List, [], ◌∷◌,
  arith, contains, distinct, length, ap, sym, ◌∙◌, subst, inl, inr, ◌==◌, ==_iff, Option-cases, ◌↔◌,
  ◌⊎◌,
}
use mathlib.Core.List.{append-nil}
use newser.Dag.{Node, ids, Degrees, no_edges, build, sources, DependenciesFirst}
use newser.Dag.Counts.{deps_of, build-adjacency}
use newser.Dag.Run.{SameNames, start-IsFrontier, IsRanked, ranked_complete}
use newser.Dag.Sets.{full_of_length, distinct-length-le}
use newser.Executor.{
  Action, Result, ok, err, unknown_dependency, cycle_detected, out_of_fuel, failed, and_then, ◌>>=◌,
  pure, throw, CheckpointManager, Metrics, TaskRunner, Executor, Graph, keys, nodes, task_of,
  run_queue, run_graph, execute, run_scanned, manager_of, scan,
}
use newser.Executor.Retries.{OnResult}
use newser.Executor.Scan.{first_unknown, scan_lem, ids-nodes}
use newser.Executor.Walk.{Finished, run_queue-OnResult}

-- How a result of the loop over `n` tasks came about.
abbrev Outcome : {E : Type 0} → List Node → ℕ → Result E (List String) → Type 0
Outcome ns n (ok order) = Finished ns order × (length order ≡ n)
Outcome ns n (err (unknown_dependency id dep)) = ⊥
Outcome ns n (err cycle_detected) = (order : List String) × Finished ns order × (length order ≢ n)
Outcome ns n (err out_of_fuel) = ⊥
Outcome ns n (err (failed e)) = Unit

length-keys : {F : Type 0} (g : Graph F) → length (keys g) ≡ length g
length-keys [] = refl
length-keys ((id, task) ∷ g) = ap suc (length-keys g)

pub deps_of-nodes :
    {F : Type 0} (g : Graph F) (id : String) → deps_of (nodes g) id ≡ (task_of g id).depends_on
unfolding task_of
deps_of-nodes [] id = refl
deps_of-nodes ((key, task) ∷ g) id = ground (arith, deps_of-nodes g id)

module _ {F W E : Type 0} (g : Graph F) (seed : List String) (nodup : distinct seed ≡ true)
    (same : SameNames seed (keys g)) where
  module _ (mgr : CheckpointManager F W E) (metrics : Metrics F W) (runner : TaskRunner F W E)
      (run : String) where
    compared :
        (order : List String) (w : W) (b : Bool)
        → (length order == length g) ≡ b
        → Finished (nodes g) order
        → Outcome {E = E}
            (nodes g)
            (length g)
            ((elim b as (λ _. Action W E (List String)) [
              | true ↦ pure order
              | false ↦ throw cycle_detected
            ])
              w).1
    compared order w true h f = (f, (==_iff _ _).0 h)
    compared order w false h f = (order, f, λ e. ground arith)

    closed :
        (r : Result E (List String)) (w : W)
        → OnResult (Finished (nodes g)) r
        → Outcome
            (nodes g)
            (length g)
            (and_then r
              (λ order. elim (length order == length g) [
                | true ↦ pure order
                | false ↦ throw cycle_detected
              ])
              w).1
    closed (ok order) w f = compared order w (length order == length g) refl f
    closed (err (unknown_dependency id dep)) w f = f
    closed (err cycle_detected) w f = absurd f
    closed (err out_of_fuel) w f = f
    closed (err (failed e)) w f = f

    pub run_graph-Outcome :
        (w : W)
        → Outcome
            (nodes g)
            (length g)
            (run_graph mgr metrics runner run g seed (build (nodes g) no_edges) w).1
    unfolding run_graph
    run_graph-Outcome w = started (mgr.start_run run w).1
      where
        m : Degrees
        m = build (nodes g) no_edges

        started :
            (e : Option E)
            → Outcome
                (nodes g)
                (length g)
                (and_then
                  (elim e [ none ↦ ok tt | some e ↦ err (failed e) ])
                  (λ _.
                    run_queue mgr metrics runner run g m.adjacency
                      (length g)
                      m.indegree
                      (sources m.indegree seed)
                      []
                    >>= λ order. elim (length order == length g) [
                      | true ↦ pure order
                      | false ↦ throw cycle_detected
                    ])
                  (mgr.start_run run w).0).1
        started (some e) = tt
        started none = closed _ _ (
            run_queue-OnResult mgr metrics runner run g (nodes g) m.adjacency
              (build-adjacency (nodes g)) (length g) m.indegree (sources m.indegree seed) []
              (mgr.start_run run w).0 (omega (arith, ap length (ids-nodes g), length-keys g)) tt
              (start-IsFrontier (nodes g) seed nodup (rw (ids-nodes g) same)))

  module _ (ex : Executor F W E) (runner : TaskRunner F W E) (run : String) (w : W) where
    scanned :
        {id dep : String}
        → first_unknown (keys g) g ≡ some (id, dep)
        → scan {E = E} (keys g) g no_edges ≡ err (unknown_dependency id dep)
    scanned h = ground (arith, scan_lem E (keys g) g no_edges)

    scanned_known :
        first_unknown (keys g) g ≡ none
        → scan {E = E} (keys g) g no_edges ≡ ok (build (nodes g) no_edges)
    scanned_known h = ground (arith, scan_lem E (keys g) g no_edges)

    pub execute_unknown :
        (id dep : String)
        → first_unknown (keys g) g ≡ some (id, dep)
        → execute ex run g seed runner w ≡ (ex, w, err (unknown_dependency id dep))
    unfolding execute
    execute_unknown id dep h = ap (run_scanned ex run g seed runner w) (scanned h)

    pub execute_known :
        first_unknown (keys g) g ≡ none
        → (execute ex run g seed runner w).2
          ≡ (run_graph
              (manager_of ex.checkpoints)
              ex.metrics
              runner
              run
              g
              seed
              (build (nodes g) no_edges)
              w).1
    unfolding execute
    execute_known h = ap (λ r. (run_scanned ex run g seed runner w r).2) (scanned_known h)

    execute_cases :
        (r : Result E (List String))
        → (execute ex run g seed runner w).2 ≡ r
        → ((id : String) × (dep : String) × (first_unknown (keys g) g ≡ some (id, dep))
            × (r ≡ err (unknown_dependency id dep)))
          ⊎ ((first_unknown (keys g) g ≡ none) × Outcome (nodes g) (length g) r)
    execute_cases r h = elim (Option-cases (first_unknown (keys g) g)) [
      | inl known ↦ inr (
        known,
        subst (Outcome (nodes g) (length g)) (sym (execute_known known) ∙ h)
            (run_graph-Outcome (manager_of ex.checkpoints) ex.metrics runner run w),
      )
      | inr (p, e) ↦ inl (p.0, p.1, e, sym h ∙ ap (λ t. t.2) (execute_unknown p.0 p.1 e))
    ]

    -- A returned order holds each key of the graph exactly once, and each task stands behind
    -- everything that it depends on. (`seed` lists the keys without repetition, in any order.)
    pub execute-ok :
        (order : List String)
        → (execute ex run g seed runner w).2 ≡ ok order
        → (distinct order ≡ true)
          × SameNames order (keys g)
          × DependenciesFirst (λ id. (task_of g id).depends_on) [] order
    execute-ok order h = elim (execute_cases (ok order) h) [
      | inl (id, dep, e, no_ok) ↦ cc
      | inr (known, (f, full)) ↦ (
        distinct_order f,
        λ k.
            both _ _ (λ m. rw (ids-nodes g) at ((inside f k m)))
              (λ m.
                full_of_length order (ids (nodes g)) (distinct_order f) (inside f)
                  (omega (arith, ap length (ids-nodes g), length-keys g)) k (rw (ids-nodes g) m)),
        subst (λ deps. DependenciesFirst deps [] order) (fun_ext (deps_of-nodes g))
            f.dependencies_first,
      )
    ]
      where
        distinct_order : Finished (nodes g) order → distinct order ≡ true
        distinct_order f = rw append-nil at f.frontier.nodup

        inside :
            Finished (nodes g) order
            → (k : String) → contains k order ≡ true
            → contains k (ids (nodes g)) ≡ true
        inside f k m = (f.frontier.seen_zero k (rw append-nil m)).0

        both : (a b : Bool) → (a ≡ true → b ≡ true) → (b ≡ true → a ≡ true) → a ≡ b
        both a b p q = ground arith

    -- A reported cycle is real: then no ranking of the names puts every dependency, all of them
    -- keys of the graph, below the task that has it. (The keys are distinct, and `seed` lists them
    -- without repetition, in any order.)
    pub execute-cycle_detected :
        distinct (keys g) ≡ true
        → (execute ex run g seed runner w).2 ≡ err cycle_detected
        → (rank : String → ℕ) → ¬ IsRanked rank (keys g) (nodes g)
    execute-cycle_detected unique h rank ranked = elim (execute_cases (err cycle_detected) h) [
      | inl (id, dep, e, other) ↦ cc
      | inr (known, (order, f, short)) ↦ short (
          exactly order f (
            distinct-length-le (ids (nodes g)) order (rw (ids-nodes g) unique) λ k m.
              ranked_complete rank (nodes g) order _ (rw (ids-nodes g) ranked) f.frontier refl
                (rank k + 1) k (omega arith) m))
    ]
      where
        exactly :
            (order : List String)
            → Finished (nodes g) order
            → length (ids (nodes g)) ≤ length order
            → length order ≡ length g
        exactly order f long = omega (
          arith,
          long,
          ap length (ids-nodes g),
          length-keys g,
          distinct-length-le order (ids (nodes g)) (rw append-nil at f.frontier.nodup)
              (λ k m. (f.frontier.seen_zero k (rw append-nil m)).0),
        )

    -- The walk never runs out of its fuel, the number of tasks, nor a task's attempts out of theirs;
    -- and an unknown dependency is reported exactly when there is one, the first in the order of the
    -- first pass. (`seed` lists the keys of the graph without repetition, in any order.)
    pub execute_total :
        ((execute ex run g seed runner w).2 ≢ err out_of_fuel)
        × ((id dep : String)
            → ((execute ex run g seed runner w).2 ≡ err (unknown_dependency id dep))
              ↔ (first_unknown (keys g) g ≡ some (id, dep)))
    execute_total = (
      λ h. elim (execute_cases (err out_of_fuel) h) [
        | inl (id, dep, e, other) ↦ cc
        | inr (known, bad) ↦ bad
      ],
      λ id dep. (
        λ h. elim (execute_cases (err (unknown_dependency id dep)) h) [
          | inl (id', dep', e, same) ↦ cc
          | inr (known, bad) ↦ absurd bad
        ],
        λ e. ap (λ t. t.2) (execute_unknown id dep e),
      ),
    )
