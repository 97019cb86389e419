-- ===== src/Agents/Unstuck.antt =====
-- A plan that ValidatePlan accepts never leaves executeTasks without a task that is ready.
use newser.Prelude.{
  ℕ, zero, suc, ◌<◌, ◌≡◌, ◌≢◌, refl, Bool, true, false, String, Option, none, some, List, [], ◌∷◌,
  length, leb, is_nil, contains, distinct, arith, Bool-cases, inl, inr, subst,
}
use newser.Prelude.Floats.{FloatOps}
use newser.Store.{reply, fault}
use newser.Dag.Sets.{distinct-length-le}
use newser.Budget.Usage.{Formats, ErrExceeded}
use newser.Budget.Monitor.{Monitor}
use newser.Agents.{AgentTask}
use newser.Agents.Cycles.{Marks, Search, cycle, spent, clear, task_ids, check_circular_dependencies}
use newser.Agents.Validate.{
  PlanError, validate_plan, check_missing_dependencies, first_error, circular_error,
}
use newser.Agents.Decides.{Orders, All-contains, check_circular_dependencies-clear}
use newser.Agents.Rounds.{Board, Setting, TaskError, ready_tasks}
use newser.Agents.Execute.{
  stuck, out_of_rounds, time_exceeded, task_error, Outcome, arrange, empty_board, run_round,
  after_round, start_round, timed_round, rounds, execute_tasks,
}
use newser.Agents.Ready.{all_done}
use newser.Agents.Progress.{execute_tasks-NotOut}

pub length-task_ids : {F T : Type 0} (ts : List (AgentTask F T)) → length (task_ids ts) ≡ length ts
length-task_ids [] = refl
length-task_ids (t ∷ ts) = omega (arith, length-task_ids ts)

first_error-none : (a b : Option PlanError) → first_error a b ≡ none → (a ≡ none) × (b ≡ none)
first_error-none none b h = (refl, h)
first_error-none (some e) b h = absurd (cc)

circular_error-clear : (r : Search) → circular_error r ≡ none → (s : Marks) × (r ≡ clear s)
circular_error-clear cycle h = absurd (cc)
circular_error-clear spent h = absurd (cc)
circular_error-clear (clear s) h = (s, refl)

module _ {F T : Type 0} where
  -- An accepted plan has an order of its tasks, and names no task that is not there.
  pub validate_plan-none :
      (registry : Option (String → Bool)) (ts : List (AgentTask F T))
      → validate_plan registry ts ≡ none
      → ((order : List String) × Orders ts order) × (check_missing_dependencies ts ≡ none)
  unfolding validate_plan
  validate_plan-none registry ts h = elim (Bool-cases (is_nil ts)) [
    | inl nothing ↦ absurd (let no = rw nothing at h in cc)
    | inr some_tasks ↦
        let (sorted, rest) = first_error-none _ _ (rw some_tasks at h) in
        let (missing, types) = first_error-none _ _ rest in
        let (s, found) = circular_error-clear (check_circular_dependencies ts) sorted in
        (check_circular_dependencies-clear ts found, missing)
  ]

  some_ready :
      (executed : List String) (ts : List (AgentTask F T)) (order : List String)
      → distinct (task_ids ts) ≡ true
      → check_missing_dependencies ts ≡ none
      → Orders ts order
      → length executed < length ts
      → is_nil (ready_tasks executed ts) ≡ false
  some_ready executed ts order d missing (ordered, within) more =
      elim (Bool-cases (is_nil (ready_tasks executed ts))) [
        | inl none_left ↦ absurd (
            omega (
              arith,
              length-task_ids ts,
              distinct-length-le (task_ids ts) executed d (λ k task.
                  all_done executed ts order k d missing none_left ordered
                    (All-contains (λ i. contains i order ≡ true) k (task_ids ts) within task) task),
            ))
        | inr ready ↦ ready
      ]

module _ {F T W E : Type 0} (fl : FloatOps F) (fmt : Formats F) (set : Setting F T W E) where
  abbrev Unstuck : Outcome F T E → Type 0
  Unstuck (reply r) = Unit
  Unstuck (fault stuck) = ⊥
  Unstuck (fault out_of_rounds) = Unit
  Unstuck (fault (time_exceeded x)) = Unit
  Unstuck (fault (task_error e)) = Unit

  after_round-Unstuck :
      (later : W → Board F T E → W × Board F T E × Outcome F T E) (es : List (TaskError E)) (w : W)
      (b : Board F T E)
      → Unstuck (later w b).2
      → Unstuck (after_round fl fmt set later es w b).2
  unfolding after_round
  after_round-Unstuck later [] w b h = h
  after_round-Unstuck later (e ∷ es) w b h = tt

  start_round-Unstuck :
      (later : W → Board F T E → W × Board F T E × Outcome F T E) (places : List ℕ)
      (ts : List (AgentTask F T)) (w : W) (b : Board F T E)
      → is_nil ts ≡ false
      → ((w' : W) (b' : Board F T E) → Unstuck (later w' b').2)
      → Unstuck (start_round fl fmt set later places ts w b).2
  unfolding start_round
  start_round-Unstuck later places [] w b some_left h = absurd (cc)
  start_round-Unstuck later places (t ∷ ts) w b some_left h =
      let (w', b') = run_round fl fmt set (arrange places (t ∷ ts)) w b in
      after_round-Unstuck later b'.errors w' b' (h w' b')

  timed_round-Unstuck :
      (later : W → Board F T E → W × Board F T E × Outcome F T E) (places : List ℕ)
      (ts : List (AgentTask F T)) (over : Option ErrExceeded) (w : W) (b : Board F T E)
      → is_nil (ready_tasks b.executed ts) ≡ false
      → ((w' : W) (b' : Board F T E) → Unstuck (later w' b').2)
      → Unstuck (timed_round fl fmt set later places ts over w b).2
  unfolding timed_round
  timed_round-Unstuck later places ts (some x) w b some_left h = tt
  timed_round-Unstuck later places ts none w b some_left h =
      start_round-Unstuck later places (ready_tasks b.executed ts) w b some_left h

  rounds-Unstuck :
      (n : ℕ) (places : ℕ → List ℕ) (ts : List (AgentTask F T)) (order : List String)
      → distinct (task_ids ts) ≡ true
      → check_missing_dependencies ts ≡ none
      → Orders ts order
      → (w : W) (b : Board F T E) → Unstuck (rounds fl fmt set n places ts w b).2
  unfolding rounds
  rounds-Unstuck zero places ts order d missing orders w b = tt
  rounds-Unstuck (suc n) places ts order d missing orders w b =
      elim (Bool-cases (leb (length ts) (length b.executed))) [
        | inl done ↦ rw done tt
        | inr open_still ↦ rw open_still (
            timed_round-Unstuck (rounds fl fmt set n places ts) (places n) ts _ w b
              (some_ready b.executed ts order d missing orders (ground arith))
              (rounds-Unstuck n places ts order d missing orders))
      ]

  -- For a plan that ValidatePlan accepts and whose task ids are distinct, executeTasks never reports
  -- a circular dependency or missing tasks, in whatever order the tasks of each round finish; and its
  -- loop ends, after at most as many rounds as there are tasks: with the results, with the error of
  -- a task, or with a budget that is exceeded.
  pub execute_tasks-unstuck :
      (registry : Option (String → Bool)) (places : ℕ → List ℕ) (ts : List (AgentTask F T))
      (monitor : Option (Monitor F)) (w : W)
      → validate_plan registry ts ≡ none
      → distinct (task_ids ts) ≡ true
      → ((execute_tasks fl fmt set places ts monitor w).2 ≢ fault stuck)
        × ((execute_tasks fl fmt set places ts monitor w).2 ≢ fault out_of_rounds)
  unfolding execute_tasks
  execute_tasks-unstuck registry places ts monitor w valid d =
      let ((order, orders), missing) = validate_plan-none registry ts valid in
      (
        λ e. subst Unstuck e (
            rounds-Unstuck (suc (length ts)) places ts order d missing orders w
              (empty_board monitor)),
        execute_tasks-NotOut fl fmt set places ts monitor w,
      )
