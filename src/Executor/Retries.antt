-- ===== src/Executor/Retries.antt =====
-- The loop over the attempts at a task.
use newser.Prelude.{
  ℕ, zero, suc, ◌+◌, ◌≤◌, ◌<◌, ◌≡◌, refl, Bool, true, false, String, Option, none, some, ltb, arith,
  if◌then◌else◌,
}
use newser.Executor.{
  Action, Result, ok, err, unknown_dependency, cycle_detected, out_of_fuel, failed, and_then, ◌>>◌,
  check, throw, CheckpointManager, Metrics, TaskRunner, Task, settle, one_attempt, run_attempts,
  run_task, retries_of, fill_task, call_runner, observe_duration, count_retry,
}

-- A result holds `Q`, or is an error of what the executor calls.
abbrev pub OnResult : {E A : Type 0} → (A → Type 0) → Result E A → Type 0
OnResult Q (ok a) = Q a
OnResult Q (err (unknown_dependency id dep)) = ⊥
OnResult Q (err cycle_detected) = ⊥
OnResult Q (err out_of_fuel) = ⊥
OnResult Q (err (failed e)) = Unit

pub and_then-OnResult :
    {W E A B : Type 0} (P : A → Type 0) (Q : B → Type 0) (r : Result E A) (f : A → Action W E B)
    (w : W)
    → OnResult P r
    → ((a : A) → P a → OnResult Q (f a w).1)
    → OnResult Q (and_then r f w).1
and_then-OnResult P Q (ok a) f w p h = h a p
and_then-OnResult P Q (err (unknown_dependency id dep)) f w p h = p
and_then-OnResult P Q (err cycle_detected) f w p h = p
and_then-OnResult P Q (err out_of_fuel) f w p h = p
and_then-OnResult P Q (err (failed e)) f w p h = p

pub check-OnResult :
    {W E : Type 0} (call : W → W × Option E) (w : W) → OnResult (λ _. Unit {0}) (check call w).1
check-OnResult {E} call w = go (call w).1
  where
    go :
        (e : Option E)
        → OnResult (λ _. Unit {0}) (elim e [ none ↦ ok tt | some e ↦ err (failed e) ])
    go none = tt
    go (some e) = tt

pub check-and_then :
    {W E B : Type 0} (Q : B → Type 0) (call : W → W × Option E) (m : Action W E B) (w : W)
    → ((w' : W) → OnResult Q (m w').1)
    → OnResult Q ((check call >> m) w).1
check-and_then Q call m w h =
    and_then-OnResult (λ _. Unit) Q (check call w).1 (λ _. m) (check call w).0
      (check-OnResult call w) (λ _ _. h (check call w).0)

module _ {F W E : Type 0} (mgr : CheckpointManager F W E) (metrics : Metrics F W)
    (runner : TaskRunner F W E) (run : String) where
  one_attempt-OnResult :
      (task : Task F) (max attempt : ℕ) (again : Action W E Unit) (w : W)
      → ((w' : W) → ltb max (attempt + 1) ≡ false → OnResult (λ _. Unit) (again w').1)
      → OnResult (λ _. Unit) (one_attempt mgr metrics runner run task max attempt again w).1
  unfolding one_attempt
  one_attempt-OnResult task max attempt again w h =
      check-and_then (λ _. Unit) (mgr.save_task_start run task attempt) _ w
        λ w1.
          and_then-OnResult (λ _. Unit) (λ _. Unit) (call_runner runner run task w1).1 _
            (call_runner runner run task w1).0 (called runner w1)
            λ a _. answered a (call_runner runner run task w1).0
    where
      called :
          (r : TaskRunner F W E) (w1 : W) → OnResult (λ _. Unit {0}) (call_runner r run task w1).1
      called none w1 = tt
      called (some r) w1 = tt

      decided :
          (e : E) (w4 : W) (b : Bool)
          → ltb max (attempt + 1) ≡ b
          → OnResult (λ _. Unit {0}) ((if b then throw (failed e) else again) w4).1
      decided e w4 true _ = tt
      decided e w4 false more = h w4 more

      answered :
          (a : Option E) (w2 : W)
          → OnResult (λ _. Unit {0}) (settle mgr metrics runner run task max attempt again a w2).1
      answered none w2 =
          check-and_then (λ _. Unit) (mgr.save_task_success run task attempt) _ w2 (λ w3. tt)
      answered (some e) w2 =
          check-and_then (λ _. Unit) (mgr.save_task_failure run task (attempt + 1) e) _ w2
            (λ w3. decided e _ (ltb max (attempt + 1)) refl)

  -- The fuel suffices: the loop ends in a result, or in an error that it was handed.
  run_attempts-OnResult :
      (fuel : ℕ) (task : Task F) (max attempt : ℕ) (w : W)
      → attempt ≤ max
      → max < attempt + fuel
      → OnResult (λ _. Unit) (run_attempts mgr metrics runner run fuel task max attempt w).1
  unfolding run_attempts
  run_attempts-OnResult zero task max attempt w low enough = absurd (omega arith)
  run_attempts-OnResult (suc fuel) task max attempt w low enough =
      one_attempt-OnResult task max attempt _ w
        λ w' more. run_attempts-OnResult fuel task max (attempt + 1) w' (ground arith) (omega arith)

  pub run_task-OnResult :
      (task : Task F) (w : W) → OnResult (λ _. Unit) (run_task mgr metrics runner run task w).1
  unfolding run_task
  run_task-OnResult task w =
      run_attempts-OnResult (suc (retries_of task)) (fill_task task) (retries_of task) 0 w
        (omega arith) (omega arith)

-- `measure` counts the calls of the runner: a call adds one at most, and nothing else adds any.
pub record CountsRuns {F W E : Type 0} (mgr : CheckpointManager F W E) (metrics : Metrics F W)
    (runner : TaskRunner F W E) (run : String) (measure : W → ℕ) : Type 0 where
  pub runs : (task : Task F) (w : W) → measure (call_runner runner run task w).0 ≤ measure w + 1
  pub start_free : (w : W) → measure (mgr.start_run run w).0 ≤ measure w
  pub save_start_free :
      (task : Task F) (n : ℕ) (w : W) → measure (mgr.save_task_start run task n w).0 ≤ measure w
  pub save_success_free :
      (task : Task F) (n : ℕ) (w : W) → measure (mgr.save_task_success run task n w).0 ≤ measure w
  pub save_failure_free :
      (task : Task F) (n : ℕ) (e : E) (w : W)
      → measure (mgr.save_task_failure run task n e w).0 ≤ measure w
  pub duration_free :
      (task : Task F) (w : W) → measure (observe_duration {E = E} metrics task w).0 ≤ measure w
  pub retry_free :
      (task : Task F) (n : ℕ) (w : W) → measure (count_retry {E = E} metrics task n w).0 ≤ measure w

module _ {F W E : Type 0} (mgr : CheckpointManager F W E) (metrics : Metrics F W)
    (runner : TaskRunner F W E) (run : String) (measure : W → ℕ)
    (counts : CountsRuns mgr metrics runner run measure) where
  check_free :
      {B : Type 0} (n : ℕ) (call : W → W × Option E) (m : Action W E B) (w : W)
      → measure (call w).0 ≤ measure w
      → ((w' : W) → measure (m w').0 ≤ measure w' + n)
      → measure ((check call >> m) w).0 ≤ measure w + n
  check_free n call m w free h = go (call w).1
    where
      go :
          (e : Option E)
          → measure
              (and_then (elim e [ none ↦ ok tt | some e ↦ err (failed e) ]) (λ _. m) (call w).0).0
            ≤ measure w + n
      go none = omega (arith, free, h (call w).0)
      go (some e) = omega (arith, free)

  one_attempt-count :
      (n : ℕ) (task : Task F) (max attempt : ℕ) (again : Action W E Unit) (w : W)
      → (ltb max (attempt + 1) ≡ false → (w' : W) → measure (again w').0 ≤ measure w' + n)
      → measure (one_attempt mgr metrics runner run task max attempt again w).0 ≤ measure w + suc n
  unfolding one_attempt
  one_attempt-count n task max attempt again w h =
      check_free (suc n) (mgr.save_task_start run task attempt) _ w
        (counts.save_start_free task attempt w) (λ w1. called runner w1 (counts.runs task w1))
    where
      decided :
          (e : E) (b : Bool) (w4 : W)
          → ltb max (attempt + 1) ≡ b
          → measure ((if b then throw (failed e) else again) w4).0 ≤ measure w4 + n
      decided e true w4 _ = omega arith
      decided e false w4 more = h more w4

      answered :
          (a : Option E) (w2 : W)
          → measure (settle mgr metrics runner run task max attempt again a w2).0 ≤ measure w2 + n
      answered none w2 =
          check_free n (mgr.save_task_success run task attempt) _ w2
            (counts.save_success_free task attempt w2)
            (λ w3. omega (arith, counts.duration_free task w3))
      answered (some e) w2 =
          check_free n (mgr.save_task_failure run task (attempt + 1) e) _ w2
            (counts.save_failure_free task (attempt + 1) e w2)
            λ w3. omega (
              arith,
              counts.retry_free task (attempt + 1) w3,
              decided e (ltb max (attempt + 1))
                  (count_retry {E = E} metrics task (attempt + 1) w3).0 refl,
            )

      called :
          (r : TaskRunner F W E) (w1 : W)
          → measure (call_runner r run task w1).0 ≤ measure w1 + 1
          → measure
              (and_then
                (call_runner r run task w1).1
                (settle mgr metrics runner run task max attempt again)
                (call_runner r run task w1).0).0
            ≤ measure w1 + suc n
      called none w1 one = omega (arith, answered none w1)
      called (some r) w1 one = omega (arith, one, answered (r run task w1).1 (r run task w1).0)

  -- The guard stops the loop: with `left` attempts after this one, no fuel makes it run more.
  run_attempts-count :
      (fuel left : ℕ) (task : Task F) (max attempt : ℕ) (w : W)
      → attempt + left ≡ max
      → measure (run_attempts mgr metrics runner run fuel task max attempt w).0
        ≤ measure w + suc left
  unfolding run_attempts
  run_attempts-count zero left task max attempt w e = omega arith
  run_attempts-count (suc fuel) zero task max attempt w e =
      one_attempt-count zero task max attempt _ w (λ more. absurd (ground arith))
  run_attempts-count (suc fuel) (suc left) task max attempt w e =
      one_attempt-count (suc left) task max attempt _ w
        (λ more w'. run_attempts-count fuel left task max (attempt + 1) w' (omega arith))

  -- The loop over the attempts runs a task `MaxRetries + 1` times at most, whatever fuel it is given
  -- and whatever the runner and the store answer, where `measure` counts runs (a negative
  -- `MaxRetries` counts as 0).
  pub run_attempts_count :
      (fuel : ℕ) (task : Task F) (w : W)
      → measure (run_attempts mgr metrics runner run fuel task (retries_of task) 0 w).0
        ≤ measure w + (retries_of task + 1)
  run_attempts_count fuel task w =
      omega
        (arith, run_attempts-count fuel (retries_of task) task (retries_of task) 0 w (omega arith))
