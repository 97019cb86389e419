-- ===== src/Agents/Validate.antt =====
-- ValidatePlan of internal/agent/core/planner.go.
use newser.Prelude.{
  Bool, false, not, ◌||◌, String, Option, none, some, List, [], ◌∷◌, contains, is_nil, str_eq,
  if◌then◌else◌,
}
use newser.Agents.{AgentTask}
use newser.Agents.Cycles.{Search, cycle, spent, clear, task_ids, check_circular_dependencies}

-- What is wrong with a plan; `out_of_fuel` never is.
pub data PlanError : Type 0 where
  no_tasks circular_dependencies no_synthesis no_knowledge_graph out_of_fuel : PlanError
  missing_dependency : String → String → PlanError
  invalid_task_type : String → PlanError

-- The first of the dependencies that is not the id of a task.
unfoldable pub first_missing : List String → List String → Option String
first_missing known [] = none
first_missing known (dep ∷ deps) =
    let more = first_missing known deps in if contains dep known then more else some dep

abbrev pub missing_of : String → Option String → Option PlanError → Option PlanError
missing_of id none more = more
missing_of id (some dep) more = some (missing_dependency id dep)

-- `isValidTaskType`; the registry, where there is one, answers whether it has a card for the type.
unfoldable pub is_valid_task_type : Option (String → Bool) → String → Bool
is_valid_task_type (some registered) type = registered type
is_valid_task_type none type = contains type (
    "research" ∷ "analysis" ∷ "synthesis" ∷ "conflict_detection" ∷ "highlight_management"
    ∷ "knowledge_graph" ∷ [])

abbrev pub first_error : Option PlanError → Option PlanError → Option PlanError
first_error none e = e
first_error (some p) e = some p

abbrev pub circular_error : Search → Option PlanError
circular_error cycle = some circular_dependencies
circular_error spent = some out_of_fuel
circular_error (clear s) = none

module _ {F T : Type 0} where
  -- The second loop of checkMissingDependencies.
  unfoldable pub missing_in : List String → List (AgentTask F T) → Option PlanError
  unfolding first_missing
  missing_in known [] = none
  missing_in known (t ∷ ts) =
      missing_of t.id (first_missing known t.depends_on) (missing_in known ts)

  -- `checkMissingDependencies`.
  unfoldable pub check_missing_dependencies : List (AgentTask F T) → Option PlanError
  unfolding missing_in
  check_missing_dependencies ts = missing_in (task_ids ts) ts

  -- The loop over the types.
  unfoldable pub invalid_type : Option (String → Bool) → List (AgentTask F T) → Option PlanError
  unfolding is_valid_task_type
  invalid_type registry [] = none
  invalid_type registry (t ∷ ts) =
      let more = invalid_type registry ts in
      if is_valid_task_type registry t.type then more else some (invalid_task_type t.type)

  -- Whether a task of this type is there.
  unfoldable pub has_type : String → List (AgentTask F T) → Bool
  has_type type [] = false
  has_type type (t ∷ ts) = str_eq t.type type || has_type type ts

  unfoldable pub mandatory : List (AgentTask F T) → Option PlanError
  unfolding has_type
  mandatory ts =
      if not (has_type "synthesis" ts)
      then some no_synthesis
      else if not (has_type "knowledge_graph" ts)
      then some no_knowledge_graph
      else none

  -- `ValidatePlan`.
  unfoldable pub validate_plan : Option (String → Bool) → List (AgentTask F T) → Option PlanError
  unfolding check_missing_dependencies invalid_type mandatory
  validate_plan registry ts =
      if is_nil ts
      then some no_tasks
      else first_error (circular_error (check_circular_dependencies ts)) (
          first_error (check_missing_dependencies ts)
            (first_error (invalid_type registry ts) (mandatory ts)))
