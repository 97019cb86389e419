-- ===== src/Planner/WellFormed.antt =====
-- The structural rules of a plan as a test of their own, and validation meets it: no issue is
-- reported exactly when the test passes.
pub mod Tasks
pub mod Order
use newser.Prelude.{
  ℕ, suc, Bool, true, false, not, ◌&&◌, ◌||◌, String, Option, none, some, List, [], ◌∷◌, ◌++◌,
  str_eq, ◌≡◌, refl, arith, if◌then◌else◌, contains, distinct, is_empty, is_nil, is_some, length,
  ◌==◌, ltb,
}
use newser.Prelude.Dict.{lookup}
use newser.Planner.{PlanTask, PlanEdge, PlanDocument, Issue}
use newser.Planner.Validate.{bad_duration, edge_issues, issue_if, Index, unknown_end}

-- Every name of the second list is in the first.
abbrev pub within : List String → List String → Bool
within names [] = true
within names (x ∷ xs) = contains x names && within names xs

-- No name of the second list is in the first.
abbrev pub outside : List String → List String → Bool
outside names [] = true
outside names (x ∷ xs) = not (contains x names) && outside names xs

-- The dependencies of the task `id`: other tasks, each once.
abbrev pub deps_ok : List String → String → List String → Bool
deps_ok names id deps = not (contains id deps) && within names deps && distinct deps

abbrev pub task_ok : {F : Type 0} → List String → PlanTask F → Bool
task_ok names task =
    deps_ok names task.id task.depends_on
    && not (bad_duration task.timeout)
    && not (bad_duration task.estimated_time)

abbrev pub tasks_ok : {F : Type 0} → List String → List (PlanTask F) → Bool
tasks_ok names [] = true
tasks_ok names (task ∷ tasks) = task_ok names task && tasks_ok names tasks

-- An edge joins two different tasks; an end that is empty is not looked at.
abbrev pub edge_ok : List String → PlanEdge → Bool
edge_ok names edge =
    (is_empty edge.from || contains edge.from names)
    && (is_empty edge.to || contains edge.to names)
    && (is_empty edge.from || not (str_eq edge.from edge.to))

abbrev pub edges_ok : List String → List PlanEdge → Bool
edges_ok names [] = true
edges_ok names (edge ∷ edges) = edge_ok names edge && edges_ok names edges

pub is_nil-append : {A : Type 0} (xs ys : List A) → is_nil (xs ++ ys) ≡ (is_nil xs && is_nil ys)
is_nil-append [] ys = refl
is_nil-append (x ∷ xs) ys = refl

-- An index that holds these names.
abbrev pub Indexes : Index → List String → Type 0
Indexes index names = (k : String) → is_some (lookup k index) ≡ contains k names

pub edge_issues-none :
    (index : Index) (names : List String) (i : ℕ) (edges : List PlanEdge)
    → Indexes index names
    → is_nil (edge_issues i index edges) ≡ edges_ok names edges
unfolding edge_issues
edge_issues-none index names i [] h = refl
edge_issues-none index names i (edge ∷ edges) h =
    ground (arith, h edge.from, h edge.to, edge_issues-none index names (suc i) edges h)
