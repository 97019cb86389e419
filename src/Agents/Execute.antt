-- ===== src/Agents/Execute.antt =====
-- The loop of executeTasks: rounds of the tasks that are ready, until all are executed.
use newser.Prelude.{ℕ, zero, suc, Option, none, some, List, [], ◌∷◌, length, leb, if◌then◌else◌}
use newser.Prelude.Floats.{FloatOps}
use newser.Store.{Reply, reply, fault}
use newser.Budget.Usage.{Formats, ErrExceeded}
use newser.Budget.Monitor.{Monitor, check_time}
use newser.Agents.{AgentTask, AgentResult}
use newser.Agents.Rounds.{Board, Setting, Trace, TaskError, ready_tasks, run_task}

module _ {ℓ} {A : Type ℓ} where
  abbrev pub insert_at : ℕ → A → List A → List A
  insert_at zero x ys = x ∷ ys
  insert_at (suc n) x [] = x ∷ []
  insert_at (suc n) x (y ∷ ys) = y ∷ insert_at n x ys

  -- The elements in another order; each order comes from some list of places.
  abbrev pub arrange : List ℕ → List A → List A
  arrange [] xs = xs
  arrange (p ∷ ps) [] = []
  arrange (p ∷ ps) (x ∷ xs) = insert_at p x (arrange ps xs)

-- `stuck` is the error that says a circular dependency or missing tasks; `out_of_rounds` is no error
-- of the code.
pub data RoundError (E : Type 0) : Type 0 where
  stuck out_of_rounds : RoundError E
  time_exceeded : ErrExceeded → RoundError E
  task_error : TaskError E → RoundError E

-- What executeTasks returns without an error.
abbrev pub Outcome : Type 0 → Type 0 → Type 0 → Type 0
Outcome F T E = Reply (RoundError E) (List (AgentResult F T) × List (Trace F T))

abbrev pub empty_board : {F T E : Type 0} → Option (Monitor F) → Board F T E
empty_board m = record {
  results = [];
  traces = [];
  results_by_id = [];
  executed = [];
  completed_tasks = 0;
  current_task = "";
  monitor = m;
  errors = [];
}

module _ {F T W E : Type 0} (fl : FloatOps F) (fmt : Formats F) (set : Setting F T W E) where
  -- The goroutines of a round, one after the other.
  unfoldable pub run_round : List (AgentTask F T) → W → Board F T E → W × Board F T E
  run_round [] w b = (w, b)
  run_round (t ∷ ts) w b = let (w', b') = run_task fl fmt set t w b in run_round ts w' b'

  abbrev pub time_over : W → Option (Monitor F) → Option ErrExceeded
  time_over w none = none
  time_over w (some m) = check_time fl fmt (set.elapsed w) m

  -- What comes after a round: the first error, or the rounds that follow.
  unfoldable pub after_round :
      (W → Board F T E → W × Board F T E × Outcome F T E)
      → List (TaskError E)
      → W
      → Board F T E
      → W × Board F T E × Outcome F T E
  after_round later [] w b = later w b
  after_round later (e ∷ es) w b = (w, b, fault (task_error e))

  -- A round whose ready tasks are these.
  unfoldable pub start_round :
      (W → Board F T E → W × Board F T E × Outcome F T E)
      → List ℕ
      → List (AgentTask F T)
      → W
      → Board F T E
      → W × Board F T E × Outcome F T E
  start_round later places [] w b = (w, b, fault stuck)
  start_round later places (t ∷ ts) w b =
      let (w', b') = run_round (arrange places (t ∷ ts)) w b in after_round later b'.errors w' b'

  unfoldable pub timed_round :
      (W → Board F T E → W × Board F T E × Outcome F T E)
      → List ℕ
      → List (AgentTask F T)
      → Option ErrExceeded
      → W
      → Board F T E
      → W × Board F T E × Outcome F T E
  timed_round later places ts (some x) w b = (w, b, fault (time_exceeded x))
  timed_round later places ts none w b = start_round later places (ready_tasks b.executed ts) w b

  -- `order` gives the places of a round's tasks, by the rounds that are left.
  unfoldable pub rounds :
      ℕ → (ℕ → List ℕ) → List (AgentTask F T) → W → Board F T E → W × Board F T E × Outcome F T E
  rounds zero order ts w b = (w, b, fault out_of_rounds)
  rounds (suc n) order ts w b =
      if leb (length ts) (length b.executed)
      then (w, b, reply (b.results, b.traces))
      else timed_round (rounds n order ts) (order n) ts (time_over w b.monitor) w b

  -- `executeTasks`; there is a round for each task, and one more for the last test of the loop.
  unfoldable pub execute_tasks :
      (ℕ → List ℕ) → List (AgentTask F T) → Option (Monitor F) → W → W × Board F T E × Outcome F T E
  execute_tasks order ts monitor w = rounds (suc (length ts)) order ts w (empty_board monitor)
