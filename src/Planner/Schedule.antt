-- ===== src/Planner/Schedule.antt =====
-- computeExecutionHints of internal/planner/schema.go: Kahn's algorithm by layers, each sorted by the
-- tasks' positions. The sort wipes out the order in which Go enumerates its maps.
use newser.Prelude.{
  ℕ, zero, suc, Bool, String, Option, none, some, List, [], ◌∷◌, ◌++◌, if◌then◌else◌, length, leb,
  ◌==◌,
}
use newser.Prelude.Int.{ℤ, pos, ltb_ℤ}
use newser.Prelude.Dict.{lookup, insert, entries, sort, text_le}
use newser.Dag.{Node, no_edges, build, sources, Frontier, release_all}
use newser.Planner.{PlanTask}
use newser.Planner.Validate.{Index}

abbrev pub task_nodes : {F : Type 0} → List (PlanTask F) → List Node
task_nodes [] = []
task_nodes (task ∷ tasks) = record { id = task.id; depends_on = task.depends_on } ∷ task_nodes tasks

-- `index[task.ID] = i`: the last position of an id.
unfoldable pub positions : {F : Type 0} → ℕ → List (PlanTask F) → Index → Index
positions i [] index = index
positions i (task ∷ tasks) index = positions (suc i) tasks (insert task.id i index)

-- `index[id]`, which is 0 where the key is missing.
abbrev pub position_of : Index → String → ℕ
position_of index id = elim (lookup id index) [ none ↦ 0 | some i ↦ i ]

abbrev pub by_position : Index → String → String → Bool
by_position index a b = leb (position_of index a) (position_of index b)

pub record Walk : Type 0 where
  pub frontier : Frontier
  pub order : List String

-- `for _, id := range current`, with the new queue in the frontier.
unfoldable pub walk_layer : (String → List String) → List String → Walk → Walk
walk_layer adjacency [] s = s
walk_layer adjacency (id ∷ rest) s =
    walk_layer adjacency rest
      (record { frontier = release_all (adjacency id) s.frontier; order = s.order ++ id ∷ [] })

pub record Schedule : Type 0 where
  pub indegree : String → ℤ
  pub order : List String
  pub layers : List (List String)

-- `for len(queue) > 0`. A layer is not empty, so the number of tasks is fuel enough.
unfoldable pub walk_layers :
    (String → List String)
    → Index
    → ℕ
    → (String → ℤ)
    → List String
    → List String
    → List (List String)
    → Option Schedule
unfolding walk_layer
walk_layers adjacency index fuel indegree [] order layers =
    some (record { indegree = indegree; order = order; layers = layers })
walk_layers adjacency index zero indegree (id ∷ queue) order layers = none
walk_layers adjacency index (suc fuel) indegree (id ∷ queue) order layers =
    let s =
      walk_layer adjacency (id ∷ queue)
        (record { frontier = record { indegree = indegree; queue = [] }; order = order }) in
    walk_layers adjacency index fuel s.frontier.indegree (sort (by_position index) s.frontier.queue)
      s.order (layers ++ (id ∷ queue) ∷ [])

-- The ids with a positive indegree.
abbrev pub stuck : (String → ℤ) → List String → List String
stuck indegree [] = []
stuck indegree (id ∷ ids) =
    let rest = stuck indegree ids in if ltb_ℤ (pos 0) (indegree id) then id ∷ rest else rest

pub data Hints : Type 0 where
  scheduled : List String → List (List String) → Hints
  cycle : List String → Hints
  out_of_fuel : Hints

unfoldable pub finish_hints : ℕ → List String → Option Schedule → Hints
finish_hints n ids none = out_of_fuel
finish_hints n ids (some s) =
    if length s.order == n
    then scheduled s.order s.layers
    else cycle (sort text_le (stuck s.indegree ids))

unfoldable pub compute_execution_hints : {F : Type 0} → List (PlanTask F) → Hints
unfolding positions walk_layers finish_hints
compute_execution_hints tasks =
    let index = positions 0 tasks [] in
    let m = build (task_nodes tasks) no_edges in
    finish_hints (length tasks) (entries index) (
      walk_layers m.adjacency index (length tasks) m.indegree
        (sort (by_position index) (sources m.indegree (entries index))) [] [])
