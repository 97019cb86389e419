-- ===== src/Worker/Handle.antt =====
-- handleRunEnqueued of internal/worker/processor.go.
use newser.Prelude.{String, Option, none, some, Bool, true, false, if◌then◌else◌, is_empty, [], ◌∷◌}
use newser.Prelude.Int.{pos}
use newser.Prelude.Floats.{FloatOps}
use newser.Prelude.Show.{append}
use newser.Value.{Any, null, object, text, int, Fields, end, field}
use newser.Store.{Checkpoint, status_received}
use newser.Executor.{Executor, Graph, ok, err, execute}
use newser.Executor.Store.{store_checkpoint_manager}
use newser.Worker.{RunEnqueuedPayload, Message, stage_run_received, stage_bootstrap}
use newser.Worker.Calls.{
  StoreApi, Reply, reply, fault, RunError, caused, dispatch_task, WorkError, store_missing,
  unreadable_payload, claiming, creating_run, saving_run, executing,
}
use newser.Worker.Gate.{Gate, open_gate, held, gate_error, Processor, enforce_budget_gate}

abbrev pub map_value : {F : Type 0} → Option (Fields F) → Any F
map_value none = null
map_value (some m) = object m

-- The checkpoint of a received run.
unfoldable pub run_checkpoint : {F : Type 0} → String → RunEnqueuedPayload F → String → Checkpoint F
run_checkpoint run payload token = record {
  run_id = run;
  stage = stage_run_received;
  status = status_received;
  checkpoint_token = token;
  payload = some (
      field "topic_id" (text payload.topic_id) (
        field "user_id" (text payload.user_id) (
          field "trigger" (text payload.trigger) (
            field "preferences" (map_value payload.preferences)
              (field "context" (map_value payload.context) end)))));
  retries = 0;
}

-- `taskPayload`.
unfoldable pub task_payload : {F : Type 0} → String → String → RunEnqueuedPayload F → Fields F
task_payload run token payload = field "run_id" (text run) (
    field "task_id" (text (append "bootstrap:" run)) (
      field "task_type" (text "bootstrap") (
        field "priority" (int (pos 1)) (
          field "plan_snapshot" (object (field "kind" (text "bootstrap") end)) (
            field "parameters"
              (object (
                field "context" (map_value payload.context)
                  (field "preferences" (map_value payload.preferences) end)))
              (field "checkpoint_token" (text token) end))))))

abbrev pub run_token : {F : Type 0} → Message F → String → String
run_token msg run = append msg.event_id (append ":" run)

abbrev pub dispatch_token : {F : Type 0} → Message F → String → String
dispatch_token msg run = append "bootstrap:" (append msg.event_id (append ":" run))

-- The graph with the one task that dispatches the run.
unfoldable pub bootstrap_graph : {F : Type 0} → String → String → RunEnqueuedPayload F → Graph F
unfolding task_payload
bootstrap_graph run token payload =
    (
      stage_bootstrap,
      record {
        id = stage_bootstrap;
        stage = stage_bootstrap;
        depends_on = [];
        payload = field "dispatch" (object (task_payload run token payload)) end;
        checkpoint_token = token;
        max_retries = pos 0;
        retry_delay = pos 0;
      },
    )
    ∷ []

module _ {F W E : Type 0} (fl : FloatOps F) (error_text : RunError E → String) where
  -- The executor that NewProcessor makes, its metrics left out.
  unfoldable pub worker_executor : StoreApi F W E → Executor F W (RunError E)
  unfolding store_checkpoint_manager
  worker_executor st = record {
    checkpoints =
        some
          (store_checkpoint_manager error_text (some (λ cp w. caused (st.upsert_checkpoint cp w))));
    metrics = record { retry_counter = none; duration = none };
  }

  -- The last part: the checkpoint, and the dispatch through the executor.
  unfoldable pub dispatch_run :
      Processor F W E
      → StoreApi F W E
      → Message F
      → String
      → RunEnqueuedPayload F
      → W
      → W × Option (WorkError E)
  unfolding run_checkpoint bootstrap_graph worker_executor dispatch_task execute
  dispatch_run p st msg run payload w =
      let (w1, e) = st.upsert_checkpoint (run_checkpoint run payload (run_token msg run)) w in
      elim e [
        | some e ↦ (w1, some (saving_run e))
        | none ↦
            let done =
              execute (worker_executor st) run
                (bootstrap_graph run (dispatch_token msg run) payload) (stage_bootstrap ∷ [])
                (some (dispatch_task p.publisher p.task_stream)) w1 in
            (done.1, elim done.2 [ ok order ↦ none | err f ↦ some executing ])
      ]

  unfoldable pub pass_gate :
      Processor F W E
      → StoreApi F W E
      → Message F
      → String
      → RunEnqueuedPayload F
      → Gate E
      → W
      → W × Option (WorkError E)
  unfolding dispatch_run
  pass_gate p st msg run payload (gate_error e) w = (w, some e)
  pass_gate p st msg run payload held w = (w, none)
  pass_gate p st msg run payload open_gate w = dispatch_run p st msg run payload w

  unfoldable pub gated_run :
      Processor F W E
      → StoreApi F W E
      → Message F
      → RunEnqueuedPayload F
      → Reply E String
      → W
      → W × Option (WorkError E)
  unfolding pass_gate enforce_budget_gate
  gated_run p st msg payload (fault e) w = (w, some (creating_run e))
  gated_run p st msg payload (reply run) w =
      let (w', gate) = enforce_budget_gate fl p run payload w in
      pass_gate p st msg run payload gate w'

  -- The run's id is generated where the message has none.
  unfoldable pub handle_payload :
      Processor F W E
      → StoreApi F W E
      → Message F
      → Option (RunEnqueuedPayload F)
      → W
      → W × Option (WorkError E)
  unfolding gated_run
  handle_payload p st msg none w = (w, some unreadable_payload)
  handle_payload p st msg (some payload) w =
      let (w', run) =
        if is_empty payload.run_id
        then st.create_run payload.topic_id "pending" w
        else (w, reply payload.run_id) in
      gated_run p st msg payload run w'

  unfoldable pub after_claim :
      Processor F W E → StoreApi F W E → Message F → Reply E Bool → W → W × Option (WorkError E)
  unfolding handle_payload
  after_claim p st msg (fault e) w = (w, some (claiming e))
  after_claim p st msg (reply false) w = (w, none)
  after_claim p st msg (reply true) w = handle_payload p st msg msg.payload w

  -- A processor without a store would panic here.
  unfoldable pub handle_run_enqueued : Processor F W E → Message F → W → W × Option (WorkError E)
  unfolding after_claim
  handle_run_enqueued p msg w = elim p.store [
    | none ↦ (w, some store_missing)
    | some st ↦
        let (w', claimed) = st.claim_idempotency msg.event_type msg.event_id w in
        after_claim p st msg claimed w'
  ]

  -- `processMessageSync`: an error is logged, and the message acknowledged in any case.
  unfoldable pub process_message : (String → W → W × Option E) → Processor F W E → Message F → W → W
  unfolding handle_run_enqueued
  process_message ack p msg w = (ack msg.id (handle_run_enqueued p msg w).0).0
