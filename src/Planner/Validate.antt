-- ===== src/Planner/Validate.antt =====
-- validatePlanStructure and validateExecutionOrder of internal/planner/schema.go.
use newser.Prelude.{
  ℕ, zero, suc, Bool, true, false, not, ◌&&◌, String, Option, none, some, List, [], ◌∷◌, ◌++◌,
  str_eq, if◌then◌else◌, contains, is_empty, is_nil, is_some, length, ltb, ◌==◌,
}
use newser.Prelude.Dict.{lookup, insert, entries, sort, text_le}
use newser.Prelude.Duration.{parse_duration}
use newser.Planner.{
  PlanTask, PlanEdge, PlanBudget, PlanEstimates, PlanDocument, Issue, no_tasks, duplicate_id,
  self_dependency, unknown_dependency, duplicate_dependency, invalid_timeout,
  invalid_estimated_time, unknown_from, unknown_to, edge_to_itself, invalid_max_time,
  invalid_total_time, unknown_scheduled, already_scheduled, dependency_too_late, missing_tasks,
  unknown_tasks,
}

-- `index`: the position at which each id was first seen.
abbrev pub Index : Type 0
Index = List (String × ℕ)

abbrev pub issue_if : Bool → Issue → List Issue
issue_if true issue = issue ∷ []
issue_if false issue = []

-- The first loop: the index, and an issue for each id that was seen before.
unfoldable pub index_tasks : {F : Type 0} → ℕ → List (PlanTask F) → Index → Index × List Issue
index_tasks i [] index = (index, [])
index_tasks i (task ∷ tasks) index =
    let prev = lookup task.id index in
    let (index', issues) =
      index_tasks (suc i) tasks (if is_some prev then index else insert task.id i index) in
    (index', elim prev [ none ↦ issues | some p ↦ duplicate_id i task.id p ∷ issues ])

-- The tests on the `j`th dependency of task `i`, in the order in which they are made.
abbrev pub dependency_issue : ℕ → ℕ → String → Bool → Bool → Bool → List Issue
dependency_issue i j dep itself known again =
    if itself
    then self_dependency i j ∷ []
    else if not known
    then unknown_dependency i j dep ∷ []
    else issue_if again (duplicate_dependency i j dep)

-- The loop over the dependencies of task `i`; `seen` are those before the `j`th that were accepted.
unfoldable pub dependency_issues : ℕ → String → Index → ℕ → List String → List String → List Issue
dependency_issues i id index j seen [] = []
dependency_issues i id index j seen (dep ∷ deps) =
    let itself = str_eq dep id in
    let known = is_some (lookup dep index) in
    let again = contains dep seen in
    dependency_issue i j dep itself known again
    ++ dependency_issues i id index (suc j)
        (if not itself && known && not again then dep ∷ seen else seen) deps

-- A duration that is given and cannot be read.
abbrev pub bad_duration : String → Bool
bad_duration s = not (is_empty s) && not (is_some (parse_duration s))

unfoldable pub task_issues : {F : Type 0} → ℕ → Index → List (PlanTask F) → List Issue
unfolding dependency_issues
task_issues i index [] = []
task_issues i index (task ∷ tasks) =
    dependency_issues i task.id index 0 [] task.depends_on
    ++ (issue_if (bad_duration task.timeout) (invalid_timeout i task.timeout)
        ++ (issue_if (bad_duration task.estimated_time)
              (invalid_estimated_time i task.estimated_time)
            ++ task_issues (suc i) index tasks))

abbrev pub unknown_end : Index → String → Bool
unknown_end index id = not (is_empty id) && not (is_some (lookup id index))

unfoldable pub edge_issues : ℕ → Index → List PlanEdge → List Issue
edge_issues i index [] = []
edge_issues i index (edge ∷ edges) =
    issue_if (unknown_end index edge.from) (unknown_from i edge.from)
    ++ (issue_if (unknown_end index edge.to) (unknown_to i edge.to)
        ++ (issue_if (not (is_empty edge.from) && str_eq edge.from edge.to) (edge_to_itself i)
            ++ edge_issues (suc i) index edges))

unfoldable pub budget_issues : {F : Type 0} → Option (PlanBudget F) → List Issue
budget_issues none = []
budget_issues (some b) = issue_if (bad_duration b.max_time) (invalid_max_time b.max_time)

unfoldable pub estimate_issues : {F : Type 0} → Option (PlanEstimates F) → List Issue
estimate_issues none = []
estimate_issues (some e) = issue_if (bad_duration e.total_time) (invalid_total_time e.total_time)

-- The first dependency that is not scheduled yet; the loop stops at it.
abbrev pub first_late : Index → List String → Option String
first_late scheduled [] = none
first_late scheduled (dep ∷ deps) =
    let later = first_late scheduled deps in
    if is_some (lookup dep scheduled) then later else some dep

-- `tasks[idx].DependsOn`, for the task at which the index points.
abbrev pub depends_on_at : {F : Type 0} → List (PlanTask F) → ℕ → List String
depends_on_at [] i = []
depends_on_at (task ∷ tasks) zero = task.depends_on
depends_on_at (task ∷ tasks) (suc i) = depends_on_at tasks i

abbrev pub late_issue : ℕ → String → Option String → List Issue
late_issue pos id none = []
late_issue pos id (some dep) = dependency_too_late pos dep id ∷ []

-- The tests on the id at a position, given its index and the position that it took before.
abbrev pub position_issues :
    {F : Type 0} → List (PlanTask F) → Index → ℕ → String → Option ℕ → Option ℕ → List Issue
position_issues tasks scheduled pos id none prev = unknown_scheduled pos id ∷ []
position_issues tasks scheduled pos id (some i) (some p) = already_scheduled pos id p ∷ []
position_issues tasks scheduled pos id (some i) none =
    late_issue pos id (first_late scheduled (depends_on_at tasks i))

-- The loop over the given order: the positions taken, and the issues.
unfoldable pub order_issues :
    {F : Type 0} → List (PlanTask F) → Index → ℕ → List String → Index → Index × List Issue
order_issues tasks index pos [] scheduled = (scheduled, [])
order_issues tasks index pos (id ∷ order) scheduled =
    let known = lookup id index in
    let prev = lookup id scheduled in
    let fresh = is_some known && not (is_some prev) in
    let (scheduled', issues) =
      order_issues tasks index (suc pos) order
        (if fresh then insert id pos scheduled else scheduled) in
    (scheduled', position_issues tasks scheduled pos id known prev ++ issues)

-- The names that are in no entry of the map.
abbrev pub absent : Index → List String → List String
absent m [] = []
absent m (id ∷ ids) = let rest = absent m ids in if is_some (lookup id m) then rest else id ∷ rest

unfoldable pub validate_execution_order :
    {F : Type 0} → List String → List (PlanTask F) → Index → List Issue
unfolding order_issues
validate_execution_order order tasks index =
    let (scheduled, issues) = order_issues tasks index 0 order [] in
    issues
    ++ (issue_if (not (length scheduled == length tasks))
          (missing_tasks (sort text_le (absent scheduled (entries index))))
        ++ (if ltb (length tasks) (length order) && not (is_nil (absent index order))
            then unknown_tasks (absent index order) ∷ []
            else []))

unfoldable pub validate_plan_structure : {F : Type 0} → PlanDocument F → List Issue
unfolding index_tasks task_issues edge_issues budget_issues estimate_issues validate_execution_order
validate_plan_structure doc =
    if is_nil doc.tasks
    then no_tasks ∷ []
    else (let (index, duplicates) = index_tasks 0 doc.tasks [] in
        duplicates
        ++ (task_issues 0 index doc.tasks
            ++ (edge_issues 0 index doc.edges
                ++ (budget_issues doc.budget
                    ++ (estimate_issues doc.estimates
                        ++ (if is_nil doc.execution_order
                            then []
                            else validate_execution_order doc.execution_order doc.tasks index))))))
