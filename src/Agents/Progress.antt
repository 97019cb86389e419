-- ===== src/Agents/Progress.antt =====
-- The rounds of executeTasks: how a task changes the shared variables, and that the rounds end.
use newser.Prelude.{
  ℕ, zero, suc, ◌<◌, ◌≤◌, ◌+◌, ◌≡◌, ◌≢◌, ◌⊎◌, refl, ◌∙◌, ap, sym, true, false, String, Option, none,
  some, List, [], ◌∷◌, ◌++◌, length, leb, is_nil, contains, arith, Bool-cases, inl, inr, All, subst,
}
use newser.Prelude.Floats.{FloatOps}
use newser.Store.{Reply, reply, fault}
use newser.Budget.Usage.{Formats, ErrExceeded}
use newser.Budget.Monitor.{Monitor}
use newser.Agents.{AgentTask, AgentResult}
use newser.Agents.Rounds.{
  Board, Setting, Enriched, Agent, TaskError, ready_tasks, mark, fail, record_result, charge,
  on_charge, settle_result, run_with, run_task, has_card, find_best_agent, enrich,
}
use newser.Agents.Ready.{IsReady, ready_tasks-IsReady, arrange-All, is_nil-arrange}
use newser.Agents.Execute.{
  stuck, out_of_rounds, time_exceeded, task_error, arrange, Outcome, empty_board, run_round,
  after_round, start_round, timed_round, rounds, execute_tasks,
}

is_nil-snoc {ℓ} : {A : Type ℓ} (xs : List A) (x : A) → is_nil (xs ++ x ∷ []) ≡ false
is_nil-snoc [] x = refl
is_nil-snoc (y ∷ xs) x = refl

-- A task either adds an error, or is recorded.
abbrev pub Stepped : {F T E : Type 0} → AgentTask F T → Board F T E → Board F T E → Type 0
Stepped {F} {T} t b b' =
    (is_nil b'.errors ≡ false)
    ⊎ ((e : Enriched F T) × (r : AgentResult F T) × (m : Option (Monitor F)) × (e.task ≡ t)
        × (b' ≡ record_result e r (record b { monitor = m })))

on_charge-Stepped :
    {F T E : Type 0} (e : Enriched F T) (r : AgentResult F T) (b : Board F T E)
    (charged : Option (Monitor F) × Option ErrExceeded)
    → Stepped e.task b (on_charge e r b charged)
unfolding on_charge fail
on_charge-Stepped e r b (m, some x) = inl (is_nil-snoc b.errors _)
on_charge-Stepped e r b (m, none) = inr (e, r, m, refl, refl)

module _ {F T W E : Type 0} (fl : FloatOps F) (fmt : Formats F) (set : Setting F T W E) where
  settle_result-Stepped :
      (e : Enriched F T) (got : W × Reply E (AgentResult F T)) (b : Board F T E)
      → Stepped e.task b (settle_result fl fmt set e got b).1
  unfolding settle_result fail
  settle_result-Stepped e (w, fault x) b = inl (is_nil-snoc b.errors _)
  settle_result-Stepped e (w, reply r) b =
      on_charge-Stepped e r b (charge fl fmt (set.elapsed w) r b.monitor)

  run_with-Stepped :
      (agent : Option (Agent F T W E)) (t : AgentTask F T) (w : W) (b : Board F T E)
      → Stepped t b (run_with fl fmt set agent t w b).1
  unfolding run_with fail enrich
  run_with-Stepped none t w b = inl (is_nil-snoc b.errors _)
  run_with-Stepped (some a) t w b =
      settle_result-Stepped (enrich set t b.results_by_id) (a.run _ w) b

  pub run_task-Stepped :
      (t : AgentTask F T) (w : W) (b : Board F T E) → Stepped t b (run_task fl fmt set t w b).1
  unfolding run_task fail
  run_task-Stepped t w b = elim (Bool-cases (has_card set.registry t.type)) [
    | inl card ↦ rw card (run_with-Stepped (find_best_agent fl set.agents t) t w b)
    | inr no_card ↦ rw no_card (inl (is_nil-snoc b.errors _))
  ]

-- A task is recorded.
abbrev pub Recorded : {F T E : Type 0} → AgentTask F T → Board F T E → Board F T E → Type 0
Recorded {F} {T} t b b' =
    (e : Enriched F T) × (r : AgentResult F T) × (m : Option (Monitor F)) × (e.task ≡ t)
    × (b' ≡ record_result e r (record b { monitor = m }))

pub Stepped-Recorded :
    {F T E : Type 0} (t : AgentTask F T) (b b' : Board F T E)
    → Stepped t b b'
    → is_nil b'.errors ≡ true
    → Recorded t b b'
Stepped-Recorded t b b' (inl bad) fine = absurd (cc)
Stepped-Recorded t b b' (inr recorded) fine = recorded

Recorded-errors :
    {F T E : Type 0} (t : AgentTask F T) (b b' : Board F T E)
    → Recorded t b b'
    → b'.errors ≡ b.errors
unfolding record_result
Recorded-errors t b b' (e, r, m, same, eq) = ap (λ x. x.errors) eq

pub Recorded-executed :
    {F T E : Type 0} (t : AgentTask F T) (b b' : Board F T E)
    → Recorded t b b'
    → b'.executed ≡ mark t.id b.executed
unfolding record_result
Recorded-executed t b b' (e, r, m, same, eq) =
    ap (λ x. x.executed) eq ∙ ap (λ x. mark x.id b.executed) same

module _ {F T W E : Type 0} (fl : FloatOps F) (fmt : Formats F) (set : Setting F T W E) where
  -- A round without errors had none at its start.
  pub run_round-errors :
      (ts : List (AgentTask F T)) (w : W) (b : Board F T E)
      → is_nil (run_round fl fmt set ts w b).1.errors ≡ true
      → is_nil b.errors ≡ true
  unfolding run_round
  run_round-errors [] w b h = h
  run_round-errors (t ∷ ts) w b h =
      let (w', b') = run_task fl fmt set t w b in
      let fine = run_round-errors ts w' b' h in
      sym (
        ap is_nil (
          Recorded-errors t b b'
            (Stepped-Recorded t b b' (run_task-Stepped fl fmt set t w b) fine)))
      ∙ fine

  pub run_round-Recorded :
      (t : AgentTask F T) (ts : List (AgentTask F T)) (w : W) (b : Board F T E)
      → is_nil (run_round fl fmt set (t ∷ ts) w b).1.errors ≡ true
      → Recorded t b (run_task fl fmt set t w b).1
  unfolding run_round
  run_round-Recorded t ts w b h =
      let (w', b') = run_task fl fmt set t w b in
      Stepped-Recorded t b b' (run_task-Stepped fl fmt set t w b) (run_round-errors ts w' b' h)

  run_round-length :
      (ts : List (AgentTask F T)) (w : W) (b : Board F T E)
      → is_nil (run_round fl fmt set ts w b).1.errors ≡ true
      → length b.executed ≤ length (run_round fl fmt set ts w b).1.executed
  unfolding run_round
  run_round-length [] w b h = omega arith
  run_round-length (t ∷ ts) w b h =
      let (w', b') = run_task fl fmt set t w b in
      ground (
        arith,
        run_round-length ts w' b' h,
        ap length (Recorded-executed t b b' (run_round-Recorded t ts w b h)),
      )

  -- A round that starts with a new task executes one more.
  run_round-grows :
      (t : AgentTask F T) (ts : List (AgentTask F T)) (w : W) (b : Board F T E)
      → contains t.id b.executed ≡ false
      → is_nil (run_round fl fmt set (t ∷ ts) w b).1.errors ≡ true
      → length b.executed < length (run_round fl fmt set (t ∷ ts) w b).1.executed
  unfolding run_round
  run_round-grows t ts w b new h =
      let (w', b') = run_task fl fmt set t w b in
      ground (
        arith,
        run_round-length ts w' b' h,
        ap length (Recorded-executed t b b' (run_round-Recorded t ts w b h)),
      )

  -- A round whose tasks are all new executes one more.
  grows :
      (executed : List String) (ts : List (AgentTask F T)) (w : W) (b : Board F T E)
      → b.executed ≡ executed
      → is_nil ts ≡ false
      → All (IsReady executed) ts
      → is_nil (run_round fl fmt set ts w b).1.errors ≡ true
      → length executed < length (run_round fl fmt set ts w b).1.executed
  grows executed [] w b same some_left new h = absurd (cc)
  grows executed (t ∷ ts) w b same some_left new h =
      subst (λ xs. length xs < length (run_round fl fmt set (t ∷ ts) w b).1.executed) same
        (run_round-grows t ts w b (rw same new.0.0) h)

  abbrev NotOut : Outcome F T E → Type 0
  NotOut (reply r) = Unit
  NotOut (fault stuck) = Unit
  NotOut (fault out_of_rounds) = ⊥
  NotOut (fault (time_exceeded x)) = Unit
  NotOut (fault (task_error e)) = Unit

  after_round-NotOut :
      (later : W → Board F T E → W × Board F T E × Outcome F T E) (es : List (TaskError E)) (w : W)
      (b : Board F T E)
      → (is_nil es ≡ true → NotOut (later w b).2)
      → NotOut (after_round fl fmt set later es w b).2
  unfolding after_round
  after_round-NotOut later [] w b h = h refl
  after_round-NotOut later (e ∷ es) w b h = tt

  start_round-NotOut :
      (later : W → Board F T E → W × Board F T E × Outcome F T E) (places : List ℕ)
      (ts : List (AgentTask F T)) (w : W) (b : Board F T E)
      → All (IsReady b.executed) ts
      → ((w' : W) (b' : Board F T E)
          → length b.executed < length b'.executed
          → NotOut (later w' b').2)
      → NotOut (start_round fl fmt set later places ts w b).2
  unfolding start_round
  start_round-NotOut later places [] w b ready h = tt
  start_round-NotOut later places (t ∷ ts) w b ready h =
      let (w', b') = run_round fl fmt set (arrange places (t ∷ ts)) w b in
      after_round-NotOut later b'.errors w' b' (λ fine. h w' b' (
        grows b.executed (arrange places (t ∷ ts)) w b refl (is_nil-arrange places t ts)
          (arrange-All (IsReady b.executed) places (t ∷ ts) ready) fine))

  timed_round-NotOut :
      (later : W → Board F T E → W × Board F T E × Outcome F T E) (places : List ℕ)
      (ts : List (AgentTask F T)) (over : Option ErrExceeded) (w : W) (b : Board F T E)
      → ((w' : W) (b' : Board F T E)
          → length b.executed < length b'.executed
          → NotOut (later w' b').2)
      → NotOut (timed_round fl fmt set later places ts over w b).2
  unfolding timed_round
  timed_round-NotOut later places ts (some x) w b h = tt
  timed_round-NotOut later places ts none w b h =
      start_round-NotOut later places (ready_tasks b.executed ts) w b
        (ready_tasks-IsReady b.executed ts) h

  rounds-NotOut :
      (n : ℕ) (order : ℕ → List ℕ) (ts : List (AgentTask F T)) (w : W) (b : Board F T E)
      → 0 < n
      → length ts < length b.executed + n
      → NotOut (rounds fl fmt set n order ts w b).2
  unfolding rounds
  rounds-NotOut zero order ts w b some_left small = absurd (omega arith)
  rounds-NotOut (suc n) order ts w b some_left small =
      elim (Bool-cases (leb (length ts) (length b.executed))) [
        | inl done ↦ rw done tt
        | inr open_still ↦ rw open_still (
            timed_round-NotOut (rounds fl fmt set n order ts) (order n) ts _ w b
              (λ w' b' more. rounds-NotOut n order ts w' b' (ground arith) (ground arith)))
      ]

  pub execute_tasks-NotOut :
      (order : ℕ → List ℕ) (ts : List (AgentTask F T)) (monitor : Option (Monitor F)) (w : W)
      → (execute_tasks fl fmt set order ts monitor w).2 ≢ fault out_of_rounds
  unfolding execute_tasks
  execute_tasks-NotOut order ts monitor w e =
      subst NotOut e (
        rounds-NotOut (suc (length ts)) order ts w (empty_board monitor) (omega arith)
          (omega arith))
