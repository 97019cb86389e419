-- ===== src/Planner/Normalize/Valid.antt =====
-- Validation as a whole, and the orders that pass it.
use mathlib.Core.List.{append_assoc, append-nil}
use newser.Prelude.{
  ℕ, suc, ◌-◌, ◌≤◌, ◌≡◌, refl, Bool, true, false, not, ◌&&◌, ◌||◌, String, Option, none, some, List,
  [], ◌∷◌, ◌++◌, str_eq, eq_iff, arith, if◌then◌else◌, contains, distinct, is_nil, is_some, length,
  ◌==◌, All, Bool-cases, inl, inr, subst,
}
use newser.Prelude.Dict.{lookup, insert, lookup-insert}
use newser.Dag.{DependenciesFirst}
use newser.Dag.Counts.{deps_of}
use newser.Dag.Run.{SameNames}
use newser.Dag.Sets.{contains-append}
use newser.Planner.{PlanTask, PlanDocument, PlanBudget, PlanEstimates}
use newser.Planner.Schedule.{task_nodes}
use newser.Planner.Layers.{task_ids}
use newser.Planner.Hints.{LayersOk, concat}
use newser.Planner.Validate.{
  Index, index_tasks, task_issues, edge_issues, budget_issues, estimate_issues, bad_duration,
  depends_on_at, validate_execution_order, validate_plan_structure,
}
use newser.Planner.WellFormed.{within, tasks_ok, edges_ok, Indexes, is_nil-append, edge_issues-none}
use newser.Planner.WellFormed.Tasks.{index_tasks-contains, index_tasks-distinct, task_issues-none}
use newser.Planner.WellFormed.Order.{order_ok, validate_execution_order-none}

index_tasks-kept :
    {F : Type 0} (id : String) (p i : ℕ) (tasks : List (PlanTask F)) (m : Index)
    → lookup id m ≡ some p
    → lookup id (index_tasks i tasks m).0 ≡ some p
unfolding index_tasks
index_tasks-kept id p i [] m h = h
index_tasks-kept id p i (task ∷ tasks) m h =
    index_tasks-kept id p (suc i) tasks _
      (ground (arith, eq_iff task.id id, lookup-insert task.id id i m))

index_tasks-at_from :
    {F : Type 0} (id : String) (p i : ℕ) (tasks : List (PlanTask F)) (m : Index)
    → lookup id m ≡ none
    → lookup id (index_tasks i tasks m).0 ≡ some p
    → (i ≤ p) × (depends_on_at tasks (p - i) ≡ deps_of (task_nodes tasks) id)
unfolding index_tasks
index_tasks-at_from id p i [] m fresh h = cc
index_tasks-at_from id p i (task ∷ tasks) m fresh h = elim (Bool-cases (str_eq task.id id)) [
  | inl same ↦
      let kept =
        index_tasks-kept id i (suc i) tasks
          (if is_some (lookup task.id m) then m else insert task.id i m)
          (ground (arith, eq_iff task.id id, lookup-insert task.id id i m)) in
      let e : i ≡ p = ground (arith, kept) in
      let z : p - i ≡ 0 = omega (arith, e) in (omega (arith, e), rw (z, same))
  | inr other ↦
      let (le, at) =
        index_tasks-at_from id p (suc i) tasks
          (if is_some (lookup task.id m) then m else insert task.id i m)
          (ground (arith, lookup-insert task.id id i m)) h in
      let step : p - i ≡ suc (p - suc i) = omega (arith, le) in
      (omega (arith, le), rw (step, other) at)
]

-- At the position that the index gives for an id stands a task with the id's dependencies.
index_tasks-at :
    {F : Type 0} (tasks : List (PlanTask F)) (id : String) (p : ℕ)
    → lookup id (index_tasks 0 tasks []).0 ≡ some p
    → depends_on_at tasks p ≡ deps_of (task_nodes tasks) id
unfolding lookup
index_tasks-at tasks id p h =
    let (le, at) = index_tasks-at_from id p 0 tasks [] refl h in
    let z : p - 0 ≡ p = omega arith in rw z at at

abbrev pub budget_ok : {F : Type 0} → Option (PlanBudget F) → Bool
budget_ok none = true
budget_ok (some b) = not (bad_duration b.max_time)

abbrev pub estimates_ok : {F : Type 0} → Option (PlanEstimates F) → Bool
estimates_ok none = true
estimates_ok (some e) = not (bad_duration e.total_time)

-- The execution order that a document may give.
abbrev pub given_order_ok : {F : Type 0} → List (PlanTask F) → List String → Bool
given_order_ok tasks order =
    order_ok (deps_of (task_nodes tasks)) (task_ids tasks) [] order && length order == length tasks

abbrev pub plan_ok : {F : Type 0} → PlanDocument F → Bool
plan_ok doc =
    not (is_nil doc.tasks)
    && (distinct (task_ids doc.tasks)
        && (tasks_ok (task_ids doc.tasks) doc.tasks
            && (edges_ok (task_ids doc.tasks) doc.edges
                && (budget_ok doc.budget
                    && (estimates_ok doc.estimates
                        && (is_nil doc.execution_order
                            || given_order_ok doc.tasks doc.execution_order))))))

budget_issues-none :
    {F : Type 0} (b : Option (PlanBudget F)) → is_nil (budget_issues b) ≡ budget_ok b
unfolding budget_issues
budget_issues-none none = refl
budget_issues-none (some b) = ground arith

estimate_issues-none :
    {F : Type 0} (e : Option (PlanEstimates F)) → is_nil (estimate_issues e) ≡ estimates_ok e
unfolding estimate_issues
estimate_issues-none none = refl
estimate_issues-none (some e) = ground arith

tasks_index :
    {F : Type 0} (tasks : List (PlanTask F)) → Indexes (index_tasks 0 tasks []).0 (task_ids tasks)
unfolding lookup
tasks_index tasks k = ground (arith, index_tasks-contains k 0 tasks [])

given_order_issues :
    {F : Type 0} (tasks : List (PlanTask F)) (order : List String)
    → is_nil (
        if is_nil order
        then []
        else validate_execution_order order tasks (index_tasks 0 tasks []).0)
      ≡ (is_nil order || given_order_ok tasks order)
given_order_issues tasks [] = refl
given_order_issues tasks (id ∷ order) =
    validate_execution_order-none tasks (index_tasks 0 tasks []).0 (deps_of (task_nodes tasks))
      (task_ids tasks) (tasks_index tasks) (index_tasks-at tasks) (id ∷ order)

-- Validation finds no issue exactly when the document has tasks, their ids are distinct, each
-- task's dependencies are other tasks, each named once, the ends of an edge that are not empty are
-- known tasks and differ, every given duration can be read, and a given execution order lists each task once and behind
-- its dependencies.
pub validate_plan_structure-none :
    {F : Type 0} (doc : PlanDocument F) → is_nil (validate_plan_structure doc) ≡ plan_ok doc
unfolding validate_plan_structure
validate_plan_structure-none doc = elim (Bool-cases (is_nil doc.tasks)) [
  | inl none_given ↦ ground (arith, none_given)
  | inr some_given ↦
      let index = (index_tasks 0 doc.tasks []).0 in
      let duplicates = (index_tasks 0 doc.tasks []).1 in
      let given =
        if is_nil doc.execution_order
        then []
        else validate_execution_order doc.execution_order doc.tasks index in
      let from_estimates = estimate_issues doc.estimates ++ given in
      let from_budget = budget_issues doc.budget ++ from_estimates in
      let from_edges = edge_issues 0 index doc.edges ++ from_budget in
      simp (
        some_given,
        is_nil-append duplicates (task_issues 0 index doc.tasks ++ from_edges),
        is_nil-append (task_issues 0 index doc.tasks) from_edges,
        is_nil-append (edge_issues 0 index doc.edges) from_budget,
        is_nil-append (budget_issues doc.budget) from_estimates,
        is_nil-append (estimate_issues doc.estimates) given,
        index_tasks-distinct doc.tasks,
        task_issues-none index (task_ids doc.tasks) 0 doc.tasks (tasks_index doc.tasks),
        edge_issues-none index (task_ids doc.tasks) 0 doc.edges (tasks_index doc.tasks),
        budget_issues-none doc.budget,
        estimate_issues-none doc.estimates,
        given_order_issues doc.tasks doc.execution_order,
      )
]

All-weaken :
    (seen more xs : List String)
    → ((k : String) → contains k seen ≡ true → contains k more ≡ true)
    → All (λ dep. contains dep seen ≡ true) xs
    → All (λ dep. contains dep more ≡ true) xs
All-weaken seen more [] sub h = tt
All-weaken seen more (x ∷ xs) sub h = (sub x h.0, All-weaken seen more xs sub h.1)

DependenciesFirst-layer :
    (deps : String → List String) (base seen layer rest : List String)
    → ((k : String) → contains k base ≡ true → contains k seen ≡ true)
    → All (λ id. All (λ dep. contains dep base ≡ true) (deps id)) layer
    → DependenciesFirst deps (seen ++ layer) rest
    → DependenciesFirst deps seen (layer ++ rest)
DependenciesFirst-layer deps base seen [] rest sub h r = rw append-nil at r
DependenciesFirst-layer deps base seen (x ∷ layer) rest sub h r = (
  All-weaken base seen (deps x) sub h.0,
  DependenciesFirst-layer deps base (seen ++ x ∷ []) layer rest
      (λ k m. ground (arith, contains-append k seen (x ∷ []), sub k m)) h.1
      (rw (append_assoc seen (x ∷ []) layer) r),
)

-- Layers in a row are an order with dependencies first.
pub LayersOk-DependenciesFirst :
    (deps : String → List String) (seen : List String) (layers : List (List String))
    → LayersOk deps seen layers
    → DependenciesFirst deps seen (concat layers)
LayersOk-DependenciesFirst deps seen [] h = tt
LayersOk-DependenciesFirst deps seen (layer ∷ layers) h =
    DependenciesFirst-layer deps seen seen layer (concat layers) (λ k m. m) h.0
      (LayersOk-DependenciesFirst deps (seen ++ layer) layers h.1)

All-within :
    (seen more xs : List String)
    → SameNames seen more
    → All (λ dep. contains dep seen ≡ true) xs
    → within more xs ≡ true
All-within seen more [] same h = refl
All-within seen more (x ∷ xs) same h = ground (arith, same x, h.0, All-within seen more xs same h.1)

order_ok_of_first :
    (deps : String → List String) (names seen more order : List String)
    → SameNames seen more
    → ((k : String) → contains k order ≡ true → contains k names ≡ true)
    → ((k : String) → contains k order ≡ true → contains k seen ≡ false)
    → distinct order ≡ true
    → DependenciesFirst deps seen order
    → order_ok deps names more order ≡ true
order_ok_of_first deps names seen more [] same inside out once h = refl
order_ok_of_first deps names seen more (x ∷ order) same inside out once h = ground (
  arith,
  eq_iff x x,
  inside x,
  out x,
  same x,
  All-within seen more (deps x) same h.0,
  order_ok_of_first deps names (seen ++ x ∷ []) (x ∷ more) order
      (λ k. ground (arith, contains-append k seen (x ∷ []), same k))
      (λ k m. inside k (ground arith))
      (λ k m. ground (arith, contains-append k seen (x ∷ []), out k, eq_iff x k, not_head k m))
      (ground arith) h.1,
)
  where
    not_head : (k : String) → contains k order ≡ true → str_eq x k ≡ false
    not_head k m = elim (Bool-cases (str_eq x k)) [ inl e ↦ ground (arith, eq_iff x k) | inr e ↦ e ]

-- Layers that hold the ids of the tasks, each once and behind its dependencies, pass validation.
pub given_order_ok_of_layers :
    {F : Type 0} (tasks : List (PlanTask F)) (order : List String) (layers : List (List String))
    → (distinct order ≡ true)
    → SameNames order (task_ids tasks)
    → concat layers ≡ order
    → LayersOk (deps_of (task_nodes tasks)) [] layers
    → length order ≡ length tasks
    → given_order_ok tasks order ≡ true
given_order_ok_of_layers tasks order layers once same flat ok full = ground (
  arith,
  full,
  order_ok_of_first (deps_of (task_nodes tasks)) (task_ids tasks) [] [] order (λ k. refl)
      (λ k m. ground (arith, same k)) (λ k m. refl) once
      (subst (DependenciesFirst (deps_of (task_nodes tasks)) []) flat
        (LayersOk-DependenciesFirst (deps_of (task_nodes tasks)) [] layers ok)),
)
