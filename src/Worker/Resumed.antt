-- ===== src/Worker/Resumed.antt =====
-- What buildResumePayload of internal/worker/processor.go gives back to a resumed run.
use newser.Prelude.{ℕ, String, Option, none, some, ◌≡◌, refl, ap, ◌∙◌}
use newser.Value.{Fields, get}
use newser.Executor.{task_of, fill_task}
use newser.Executor.Store.{start_checkpoint}
use newser.Worker.{RunEnqueuedPayload, stage_run_received, stage_bootstrap}
use newser.Worker.Calls.{StoreApi, reply}
use newser.Worker.Handle.{run_checkpoint, task_payload, bootstrap_graph}
use newser.Worker.Resume.{
  build_resume_payload, from_dispatch, restored, with_checkpoint, dispatch_of,
}

-- The checkpoint that the executor writes as it starts the bootstrap task of a run holds the
-- dispatch of that run: `ResumePending` finds the payload that was published.
pub dispatch_of-start_checkpoint :
    {F : Type 0} (run token : String) (payload : RunEnqueuedPayload F) (attempt : ℕ)
    → dispatch_of (
        start_checkpoint run
          (fill_task (task_of (bootstrap_graph run token payload) stage_bootstrap))
          attempt)
      ≡ some (task_payload run token payload)
unfolding dispatch_of start_checkpoint fill_task task_of bootstrap_graph get
dispatch_of-start_checkpoint run token payload attempt = refl

restored_run :
    {F : Type 0} (E : Type 0) (run token token' topic user trigger : String)
    (preferences context : Option (Fields F))
    → let payload : RunEnqueuedPayload F = record {
      run_id = run;
      topic_id = topic;
      user_id = user;
      trigger = trigger;
      preferences = preferences;
      context = context;
    } in
      restored {E = E}
        (from_dispatch run (task_payload run token' payload))
        (reply (some (run_checkpoint run payload token)))
      ≡ payload
unfolding restored with_checkpoint from_dispatch task_payload run_checkpoint get
restored_run E run token token' topic user trigger none none = refl
restored_run E run token token' topic user trigger none (some c) = refl
restored_run E run token token' topic user trigger (some p) none = refl
restored_run E run token token' topic user trigger (some p) (some c) = refl

-- Where the store answers with the checkpoint that the handler wrote for the run,
-- `buildResumePayload` gives back the payload of the message, with the run's id.
pub build_resume_payload-task_payload :
    {F W E : Type 0} (st : StoreApi F W E) (run token token' : String)
    (payload : RunEnqueuedPayload F) (w : W)
    → (st.get_checkpoint run stage_run_received w).1
      ≡ reply (some (run_checkpoint run payload token))
    → (build_resume_payload (some st) run (task_payload run token' payload) w).1
      ≡ record payload { run_id = run }
unfolding build_resume_payload run_checkpoint task_payload
build_resume_payload-task_payload {E} st run token token' payload w h =
    ap (restored (from_dispatch run (task_payload run token' payload))) h
    ∙ restored_run E run token token' payload.topic_id payload.user_id payload.trigger
        payload.preferences payload.context
