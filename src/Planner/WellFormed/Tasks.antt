-- ===== src/Planner/WellFormed/Tasks.antt =====
-- The loops over the tasks: the index, the dependencies and the durations.
use newser.Prelude.{
  ℕ, suc, Bool, true, not, ◌&&◌, ◌||◌, String, List, [], ◌∷◌, str_eq, eq_iff, ◌≡◌, refl, arith,
  if◌then◌else◌, contains, distinct, is_nil, is_some,
}
use newser.Prelude.Dict.{lookup, insert, lookup-insert}
use newser.Planner.{PlanTask}
use newser.Planner.Layers.{task_ids}
use newser.Planner.Validate.{Index, index_tasks, dependency_issues, dependency_issue, task_issues}
use newser.Planner.WellFormed.{outside, deps_ok, tasks_ok, Indexes, is_nil-append}

pub index_tasks-contains :
    {F : Type 0} (k : String) (i : ℕ) (tasks : List (PlanTask F)) (m : Index)
    → is_some (lookup k (index_tasks i tasks m).0)
      ≡ (contains k (task_ids tasks) || is_some (lookup k m))
unfolding index_tasks
index_tasks-contains k i [] m = refl
index_tasks-contains k i (task ∷ tasks) m = ground (
  arith,
  eq_iff task.id k,
  lookup-insert task.id k i m,
  index_tasks-contains k (suc i) tasks
      (if is_some (lookup task.id m) then m else insert task.id i m),
)

-- No name of the list has an entry.
abbrev unmapped : Index → List String → Bool
unmapped m [] = true
unmapped m (x ∷ xs) = not (is_some (lookup x m)) && unmapped m xs

unmapped-insert :
    (m : Index) (k : String) (v : ℕ) (xs : List String)
    → unmapped (insert k v m) xs ≡ (not (contains k xs) && unmapped m xs)
unmapped-insert m k v [] = refl
unmapped-insert m k v (x ∷ xs) =
    ground (arith, eq_iff k x, eq_iff x k, lookup-insert k x v m, unmapped-insert m k v xs)

index_tasks-issues :
    {F : Type 0} (i : ℕ) (tasks : List (PlanTask F)) (m : Index)
    → is_nil (index_tasks i tasks m).1 ≡ (distinct (task_ids tasks) && unmapped m (task_ids tasks))
unfolding index_tasks
index_tasks-issues i [] m = refl
index_tasks-issues i (task ∷ tasks) m = ground (
  arith,
  index_tasks-issues (suc i) tasks (if is_some (lookup task.id m) then m else insert task.id i m),
  unmapped-insert m task.id i (task_ids tasks),
)

unmapped-nil : (xs : List String) → unmapped [] xs ≡ true
unfolding lookup
unmapped-nil [] = refl
unmapped-nil (x ∷ xs) = unmapped-nil xs

pub index_tasks-distinct :
    {F : Type 0} (tasks : List (PlanTask F))
    → is_nil (index_tasks 0 tasks []).1 ≡ distinct (task_ids tasks)
index_tasks-distinct tasks =
    ground (arith, index_tasks-issues 0 tasks [], unmapped-nil (task_ids tasks))

outside-cons :
    (x : String) (names xs : List String)
    → outside (x ∷ names) xs ≡ (not (contains x xs) && outside names xs)
outside-cons x names [] = refl
outside-cons x names (y ∷ ys) = ground (arith, eq_iff x y, eq_iff y x, outside-cons x names ys)

dependency_issues-none_from :
    (index : Index) (names : List String) (i : ℕ) (id : String) (j : ℕ) (seen deps : List String)
    → Indexes index names
    → is_nil (dependency_issues i id index j seen deps)
      ≡ (deps_ok names id deps && outside seen deps)
unfolding dependency_issues
dependency_issues-none_from index names i id j seen [] h = refl
dependency_issues-none_from index names i id j seen (dep ∷ deps) h = ground (
  arith,
  eq_iff dep id,
  h dep,
  is_nil-append
      (dependency_issue i j dep (str_eq dep id) (is_some (lookup dep index)) (contains dep seen))
      (dependency_issues i id index (suc j)
        (if not (str_eq dep id) && is_some (lookup dep index) && not (contains dep seen)
          then dep ∷ seen
          else seen)
        deps),
  dependency_issues-none_from index names i id (suc j) (dep ∷ seen) deps h,
  dependency_issues-none_from index names i id (suc j) seen deps h,
  outside-cons dep seen deps,
)

outside-nil : (xs : List String) → outside [] xs ≡ true
outside-nil [] = refl
outside-nil (x ∷ xs) = outside-nil xs

pub task_issues-none :
    {F : Type 0} (index : Index) (names : List String) (i : ℕ) (tasks : List (PlanTask F))
    → Indexes index names
    → is_nil (task_issues i index tasks) ≡ tasks_ok names tasks
unfolding task_issues
task_issues-none index names i [] h = refl
task_issues-none index names i (task ∷ tasks) h = ground (
  arith,
  is_nil-append (dependency_issues i task.id index 0 [] task.depends_on) _,
  dependency_issues-none_from index names i task.id 0 [] task.depends_on h,
  outside-nil task.depends_on,
  task_issues-none index names (suc i) tasks h,
)
