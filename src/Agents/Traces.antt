-- ===== src/Agents/Traces.antt =====
-- What executeTasks returns: the steps in the order in which they finished.
use newser.Prelude.{
  ℕ, zero, suc, ◌≤◌, ◌+◌, ◌≡◌, refl, ◌∙◌, sym, ap, Bool, true, false, ◌||◌, String, Option, none,
  some, List, [], ◌∷◌, ◌++◌, length, length-append, leb, is_nil, contains, distinct, eq_iff, arith,
  Bool-cases, inl, inr, subst, All,
}
use newser.Prelude.Floats.{FloatOps}
use newser.Store.{reply, fault}
use newser.Dag.Sets.{full_of_length, contains-append}
use newser.Budget.Usage.{Formats, ErrExceeded}
use newser.Budget.Monitor.{Monitor}
use newser.Agents.{AgentTask, AgentResult}
use newser.Agents.Cycles.{task_ids}
use newser.Agents.Rounds.{
  Board, Setting, Trace, Enriched, TaskError, ready_tasks, all_executed, mark, record_result,
  run_task,
}
use newser.Agents.Execute.{
  Outcome, arrange, empty_board, run_round, after_round, start_round, timed_round, rounds,
  execute_tasks,
}
use newser.Agents.Ready.{
  IsReady, ready_tasks-IsReady, arrange-All, distinct-arrange, distinct-ready_tasks,
  contains-arrange, contains-ready_tasks,
}
use newser.Agents.Unstuck.{length-task_ids}
use newser.Agents.Progress.{Recorded, Recorded-executed, run_round-Recorded}

module _ {F T : Type 0} where
  abbrev pub step_task : Trace F T → AgentTask F T
  step_task tr = tr.task.task

  abbrev pub trace_ids : List (Trace F T) → List String
  trace_ids [] = []
  trace_ids (tr ∷ trs) = (step_task tr).id ∷ trace_ids trs

  abbrev pub trace_results : List (Trace F T) → List (AgentResult F T)
  trace_results [] = []
  trace_results (tr ∷ trs) = tr.result ∷ trace_results trs

  -- From step `n` on, with `done` the tasks of the steps before: each step has its number and a new
  -- task whose dependencies are done.
  abbrev pub Sound : ℕ → List String → List (Trace F T) → Type 0
  Sound n done [] = Unit
  Sound n done (tr ∷ trs) =
      (tr.step_index ≡ n)
      × (contains (step_task tr).id done ≡ false)
      × (all_executed done (step_task tr).depends_on ≡ true)
      × Sound (suc n) ((step_task tr).id ∷ done) trs

  trace_ids-append :
      (xs ys : List (Trace F T)) → trace_ids (xs ++ ys) ≡ trace_ids xs ++ trace_ids ys
  trace_ids-append [] ys = refl
  trace_ids-append (x ∷ xs) ys = ap (λ l. (step_task x).id ∷ l) (trace_ids-append xs ys)

  trace_results-append :
      (xs : List (Trace F T)) (tr : Trace F T)
      → trace_results (xs ++ tr ∷ []) ≡ trace_results xs ++ tr.result ∷ []
  trace_results-append [] tr = refl
  trace_results-append (x ∷ xs) tr = ap (λ l. x.result ∷ l) (trace_results-append xs tr)

both : (a b : Bool) → (a ≡ true → b ≡ true) → (b ≡ true → a ≡ true) → a ≡ b
both true b f g = sym (f refl)
both false true f g = g refl
both false false f g = refl

all_executed-same :
    (xs ys deps : List String)
    → ((k : String) → contains k xs ≡ true → contains k ys ≡ true)
    → all_executed xs deps ≡ true
    → all_executed ys deps ≡ true
unfolding all_executed
all_executed-same xs ys [] h d = refl
all_executed-same xs ys (dep ∷ deps) h d = ground (arith, h dep, all_executed-same xs ys deps h)

module _ {F T : Type 0} where
  Sound-snoc :
      (n : ℕ) (done : List String) (trs : List (Trace F T)) (tr : Trace F T)
      (executed : List String)
      → ((k : String) → contains k executed ≡ (contains k done || contains k (trace_ids trs)))
      → Sound n done trs
      → tr.step_index ≡ n + length trs
      → contains (step_task tr).id executed ≡ false
      → all_executed executed (step_task tr).depends_on ≡ true
      → Sound n done (trs ++ tr ∷ [])
  Sound-snoc n done [] tr executed same s i new deps = (
    omega arith,
    ground (arith, same (step_task tr).id),
    all_executed-same executed done (step_task tr).depends_on (λ k m. ground (arith, same k)) deps,
    tt,
  )
  Sound-snoc n done (x ∷ trs) tr executed same (a, b, c, s) i new deps = (
    a,
    b,
    c,
    Sound-snoc (suc n) ((step_task x).id ∷ done) trs tr executed (λ k. ground (arith, same k)) s
        (omega arith) new deps,
  )

  -- The shared variables fit each other.
  pub record Fits {E : Type 0} (ids : List String) (b : Board F T E) : Type 0 where
    pub sound : Sound 0 [] b.traces
    pub same : (k : String) → contains k b.executed ≡ contains k (trace_ids b.traces)
    pub inside : (k : String) → contains k b.executed ≡ true → contains k ids ≡ true
    pub apart : distinct b.executed ≡ true
    pub told : b.results ≡ trace_results b.traces
    pub counted : b.completed_tasks ≡ length b.traces

  record_result-Fits :
      {E : Type 0} (ids : List String) (e : Enriched F T) (r : AgentResult F T)
      (m : Option (Monitor F)) (b : Board F T E)
      → Fits ids b
      → contains e.task.id ids ≡ true
      → IsReady b.executed e.task
      → Fits ids (record_result e r (record b { monitor = m }))
  unfolding record_result
  record_result-Fits ids e r m b fits task ready = record {
    sound =
        Sound-snoc 0 [] b.traces (record { step_index = length b.traces; task = e; result = r })
          b.executed (λ k. ground (arith, fits.same k)) fits.sound (omega arith) ready.0 ready.1;
    same = λ k. ground (
      arith,
      fits.same k,
      ap (contains k) (
          trace_ids-append b.traces
            (record { step_index = length b.traces; task = e; result = r } ∷ [])),
      contains-append k (trace_ids b.traces) (e.task.id ∷ []),
    );
    inside = λ k h. ground (arith, eq_iff e.task.id k, fits.inside k);
    apart = ground (arith, fits.apart);
    told = ap (λ l. l ++ r ∷ []) fits.told ∙ sym (trace_results-append b.traces _);
    counted = ground (
      arith,
      fits.counted,
      length-append b.traces (record { step_index = length b.traces; task = e; result = r } ∷ []),
    );
  }

  Recorded-Fits :
      {E : Type 0} (ids : List String) (t : AgentTask F T) (b b' : Board F T E)
      → Recorded t b b'
      → Fits ids b
      → contains t.id ids ≡ true
      → IsReady b.executed t
      → Fits ids b'
  Recorded-Fits ids t b b' (e, r, m, same, eq) fits task ready = subst (Fits ids) (sym eq) (
      record_result-Fits ids e r m b fits (subst (λ x. contains x.id ids ≡ true) (sym same) task)
        (subst (IsReady b.executed) (sym same) ready))

  IsReady-later :
      (executed : List String) (id : String) (ts : List (AgentTask F T))
      → contains id (task_ids ts) ≡ false
      → All (IsReady executed) ts
      → All (IsReady (mark id executed)) ts
  IsReady-later executed id [] other ready = tt
  IsReady-later executed id (t ∷ ts) other ready = (
    (
      ground (arith, eq_iff id t.id, eq_iff t.id id, ready.0.0),
      all_executed-same executed (mark id executed) t.depends_on (λ k m. ground (arith, m))
          ready.0.1,
    ),
    IsReady-later executed id ts (ground (arith, other)) ready.1,
  )

  ids_inside :
      (ids : List String) (ts : List (AgentTask F T))
      → ((k : String) → contains k (task_ids ts) ≡ true → contains k ids ≡ true)
      → All (λ (t : AgentTask F T). contains t.id ids ≡ true) ts
  ids_inside ids [] h = tt
  ids_inside ids (t ∷ ts) h = (
    h t.id (ground (arith, eq_iff t.id t.id)),
    ids_inside ids ts (λ k m. h k (ground (arith, m))),
  )

  -- What the loop returns, with the shared variables at its end.
  abbrev pub Good : {E : Type 0} → List (AgentTask F T) → Board F T E → Outcome F T E → Type 0
  Good ts b (fault e) = Unit
  Good ts b (reply (results, traces)) =
      Sound 0 [] traces
      × ((k : String) → contains k (trace_ids traces) ≡ contains k (task_ids ts))
      × (results ≡ trace_results traces)
      × (b.completed_tasks ≡ length traces)

  Fits-Good :
      {E : Type 0} (ts : List (AgentTask F T)) (b : Board F T E)
      → Fits (task_ids ts) b
      → length ts ≤ length b.executed
      → Good ts b (reply (b.results, b.traces))
  Fits-Good ts b fits long = (
    fits.sound,
    λ k.
        sym (fits.same k)
        ∙ both (contains k b.executed) (contains k (task_ids ts)) (fits.inside k) (
            full_of_length b.executed (task_ids ts) fits.apart fits.inside
              (omega (arith, length-task_ids ts, long)) k),
    fits.told,
    fits.counted,
  )

module _ {F T W E : Type 0} (fl : FloatOps F) (fmt : Formats F) (set : Setting F T W E) where
  run_round-Fits :
      (ids : List String) (ts : List (AgentTask F T)) (w : W) (b : Board F T E)
      → distinct (task_ids ts) ≡ true
      → All (λ (t : AgentTask F T). contains t.id ids ≡ true) ts
      → All (IsReady b.executed) ts
      → is_nil (run_round fl fmt set ts w b).1.errors ≡ true
      → Fits ids b
      → Fits ids (run_round fl fmt set ts w b).1
  unfolding run_round
  run_round-Fits ids [] w b d inside ready fine fits = fits
  run_round-Fits ids (t ∷ ts) w b d inside ready fine fits =
      let (w', b') = run_task fl fmt set t w b in
      let recorded = run_round-Recorded fl fmt set t ts w b fine in
      run_round-Fits ids ts w' b' (ground (arith, d)) inside.1
        (subst (λ xs. All (IsReady xs) ts) (sym (Recorded-executed t b b' recorded))
          (IsReady-later b.executed t.id ts (ground (arith, d)) ready.1))
        fine (Recorded-Fits ids t b b' recorded fits inside.0 ready.0)

  abbrev Goes : List (AgentTask F T) → (W → Board F T E → W × Board F T E × Outcome F T E) → Type 0
  Goes ts later =
      (w : W) (b : Board F T E) → Fits (task_ids ts) b → Good ts (later w b).1 (later w b).2

  after_round-Good :
      (all : List (AgentTask F T)) (later : W → Board F T E → W × Board F T E × Outcome F T E)
      (es : List (TaskError E)) (w : W) (b : Board F T E)
      → (is_nil es ≡ true → Good all (later w b).1 (later w b).2)
      → Good all (after_round fl fmt set later es w b).1 (after_round fl fmt set later es w b).2
  unfolding after_round
  after_round-Good all later [] w b h = h refl
  after_round-Good all later (e ∷ es) w b h = tt

  start_round-Good :
      (all : List (AgentTask F T)) (later : W → Board F T E → W × Board F T E × Outcome F T E)
      (places : List ℕ) (ts : List (AgentTask F T)) (w : W) (b : Board F T E)
      → Goes all later
      → distinct (task_ids ts) ≡ true
      → ((k : String) → contains k (task_ids ts) ≡ true → contains k (task_ids all) ≡ true)
      → All (IsReady b.executed) ts
      → Fits (task_ids all) b
      → Good all
          (start_round fl fmt set later places ts w b).1
          (start_round fl fmt set later places ts w b).2
  unfolding start_round
  start_round-Good all later places [] w b goes d inside ready fits = tt
  start_round-Good all later places (t ∷ ts) w b goes d inside ready fits =
      let rs = arrange places (t ∷ ts) in
      let (w', b') = run_round fl fmt set rs w b in
      after_round-Good all later b'.errors w' b' (λ fine. goes w' b' (
        run_round-Fits (task_ids all) rs w b (distinct-arrange places (t ∷ ts) d)
          (ids_inside (task_ids all) rs
            (λ k m. inside k (sym (contains-arrange k places (t ∷ ts)) ∙ m)))
          (arrange-All (IsReady b.executed) places (t ∷ ts) ready) fine fits))

  timed_round-Good :
      (all : List (AgentTask F T)) (later : W → Board F T E → W × Board F T E × Outcome F T E)
      (places : List ℕ) (over : Option ErrExceeded) (w : W) (b : Board F T E)
      → Goes all later
      → distinct (task_ids all) ≡ true
      → Fits (task_ids all) b
      → Good all
          (timed_round fl fmt set later places all over w b).1
          (timed_round fl fmt set later places all over w b).2
  unfolding timed_round
  timed_round-Good all later places (some x) w b goes d fits = tt
  timed_round-Good all later places none w b goes d fits =
      start_round-Good all later places (ready_tasks b.executed all) w b goes
        (distinct-ready_tasks b.executed all d) (λ k. contains-ready_tasks k b.executed all)
        (ready_tasks-IsReady b.executed all) fits

  rounds-Good :
      (n : ℕ) (places : ℕ → List ℕ) (all : List (AgentTask F T))
      → distinct (task_ids all) ≡ true
      → Goes all (rounds fl fmt set n places all)
  unfolding rounds
  rounds-Good zero places all d w b fits = tt
  rounds-Good (suc n) places all d w b fits =
      elim (Bool-cases (leb (length all) (length b.executed))) [
        | inl done ↦ rw done (Fits-Good all b fits (ground (arith, done)))
        | inr more ↦ rw more (
            timed_round-Good all (rounds fl fmt set n places all) (places n) _ w b
              (rounds-Good n places all d) d fits)
      ]

  -- When executeTasks returns results for tasks with distinct ids, in whatever order the tasks of
  -- each round finish: the steps are numbered from 0 in the order in which they finished, no task is
  -- in two of them, each stands behind all dependencies of its task, and the ids in them are exactly
  -- those of the plan; the results are those of the steps in their order, and the status counts as
  -- many completed tasks as there are steps.
  pub execute_tasks-Good :
      (places : ℕ → List ℕ) (ts : List (AgentTask F T)) (monitor : Option (Monitor F)) (w : W)
      (results : List (AgentResult F T)) (traces : List (Trace F T))
      → distinct (task_ids ts) ≡ true
      → (execute_tasks fl fmt set places ts monitor w).2 ≡ reply (results, traces)
      → Good ts (execute_tasks fl fmt set places ts monitor w).1 (reply (results, traces))
  unfolding execute_tasks
  execute_tasks-Good places ts monitor w results traces d e =
      subst (Good ts (execute_tasks fl fmt set places ts monitor w).1) e (
        rounds-Good (suc (length ts)) places ts d w (empty_board monitor) record {
          sound = tt;
          same = λ k. refl;
          inside = λ k m. absurd (cc);
          apart = refl;
          told = refl;
          counted = refl;
        })
