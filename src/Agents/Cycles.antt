-- ===== src/Agents/Cycles.antt =====
-- checkCircularDependencies of internal/agent/core/planner.go: the depth-first search.
use newser.Prelude.{
  ℕ, zero, suc, String, Option, none, some, List, [], ◌∷◌, ◌++◌, length, contains, str_eq,
  if◌then◌else◌,
}
use newser.Prelude.Dict.{lookup, insert}
use newser.Agents.{AgentTask}

-- `deps`: a task with an id that stood before replaces the list.
unfoldable pub deps_map :
    {F T : Type 0}
    → List (AgentTask F T)
    → List (String × List String)
    → List (String × List String)
unfolding insert
deps_map [] m = m
deps_map (t ∷ ts) m = deps_map ts (insert t.id t.depends_on m)

abbrev pub listed : Option (List String) → List String
listed none = []
listed (some xs) = xs

-- The ids that `visited` and `recStack` hold as true.
pub record Marks : Type 0 where
  pub visited : List String
  pub on_stack : List String

abbrev pub unmarked : Marks
unmarked = record { visited = []; on_stack = [] }

-- How a search ends: with a cycle, with its marks, or out of fuel.
pub data Search : Type 0 where
  cycle spent : Search
  clear : Marks → Search

abbrev pub and_then : Search → (Marks → Search) → Search
and_then cycle f = cycle
and_then spent f = spent
and_then (clear s) f = f s

-- `recStack[id] = false`.
abbrev pub without : String → List String → List String
without id [] = []
without id (x ∷ xs) = let rest = without id xs in if str_eq x id then rest else x ∷ rest

abbrev pub enter : String → Marks → Marks
enter id s = record { visited = id ∷ s.visited; on_stack = id ∷ s.on_stack }

abbrev pub leave : String → Marks → Search
leave id s = clear (record s { on_stack = without id s.on_stack })

-- The loop over the dependencies.
unfoldable pub any_cycle : (String → Marks → Search) → List String → Marks → Search
any_cycle search [] s = clear s
any_cycle search (dep ∷ deps) s = and_then (search dep s) (any_cycle search deps)

module _ (deps : String → List String) where
  -- `hasCycle`; each call inside another has visited one more id.
  unfoldable pub has_cycle : ℕ → String → Marks → Search
  has_cycle zero id s = spent
  has_cycle (suc fuel) id s =
      if contains id s.on_stack
      then cycle
      else if contains id s.visited
      then clear s
      else and_then (any_cycle (has_cycle fuel) (deps id) (enter id s)) (leave id)

  -- The loop over the tasks.
  unfoldable pub search_from : ℕ → List String → Marks → Search
  search_from fuel [] s = clear s
  search_from fuel (id ∷ ids) s =
      if contains id s.visited
      then search_from fuel ids s
      else and_then (has_cycle fuel id s) (search_from fuel ids)

module _ {F T : Type 0} where
  abbrev pub task_ids : List (AgentTask F T) → List String
  task_ids [] = []
  task_ids (t ∷ ts) = t.id ∷ task_ids ts

  -- All ids that the search can meet, as often as they are written.
  abbrev pub named_ids : List (AgentTask F T) → List String
  named_ids [] = []
  named_ids (t ∷ ts) = t.id ∷ (t.depends_on ++ named_ids ts)

  abbrev pub deps_in : List (AgentTask F T) → String → List String
  deps_in ts id = listed (lookup id (deps_map ts []))

  -- `checkCircularDependencies`: its error is `cycle`. The fuel is one more than the ids there are.
  unfoldable pub check_circular_dependencies : List (AgentTask F T) → Search
  check_circular_dependencies ts =
      search_from (deps_in ts) (suc (length (named_ids ts))) (task_ids ts) unmarked
