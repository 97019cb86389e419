-- ===== src/Worker/Kept.antt =====
-- What every call of the store and the publisher keeps, the handler of internal/worker/processor.go
-- keeps.
use newser.Prelude.{String, Option, none, some, Bool, true, false, [], ◌∷◌, is_empty, if◌then◌else◌}
use newser.Prelude.Floats.{FloatOps}
use newser.Value.{Fields, get, as_object}
use newser.Store.{Checkpoint}
use newser.Executor.{Task, execute, ok, err}
use newser.Executor.Store.{store_checkpoint_manager}
use newser.Executor.Frame.{execute-Keeps, KeepsCalls}
use newser.Worker.{RunEnqueuedPayload, Message, stage_bootstrap, stream_budget_approval}
use newser.Worker.Gated.{KeepsGate, KeepsAnnounce, processor, gate-Keeps}
use newser.Worker.Calls.{
  StoreApi, Reply, reply, fault, Publish, RunError, dispatch_task, WorkError, missing_dispatch,
  caused, saving_run, executing,
}
use newser.Worker.Gate.{Gate, open_gate, held, gate_error}
use newser.Worker.Handle.{
  worker_executor, dispatch_run, pass_gate, gated_run, handle_payload, after_claim,
  handle_run_enqueued, bootstrap_graph, dispatch_token,
}

-- Every call of the store and of the publisher keeps a property of the world.
pub record KeepsStore {F W E : Type 0} (P : W → Type 0) (st : StoreApi F W E) : Type 0 where
  pub claim : (a b : String) (w : W) → P w → P (st.claim_idempotency a b w).0
  pub upsert : (cp : Checkpoint F) (w : W) → P w → P (st.upsert_checkpoint cp w).0
  pub create : (a b : String) (w : W) → P w → P (st.create_run a b w).0
  pub budget : (a : String) (w : W) → P w → P (st.get_topic_budget_config a w).0
  pub pending : (a : String) (w : W) → P w → P (st.get_pending_budget_approval a w).0
  pub mark : (a : String) (w : W) → P w → P (st.mark_run_pending_approval a w).0
  pub approval :
      (a b c : String) (x y : F) (w : W) → P w → P (st.create_budget_approval a b c x y w).0

abbrev pub KeepsPublisher : {F W E : Type 0} → (W → Type 0) → Option (Publish F W E) → Type 0
KeepsPublisher P none = Unit
KeepsPublisher {F} {W} P (some publish) =
    (a b : String) (m : Fields F) (w : W) → P w → P (publish a b m w).0

of_gate : {F W E : Type 0} (P : W → Type 0) (st : StoreApi F W E) → KeepsStore P st → KeepsGate P st
of_gate P st k = record {
  budget = k.budget;
  pending = k.pending;
  mark = k.mark;
  approval = k.approval;
}

of_announce :
    {F W E : Type 0} (P : W → Type 0) (publisher : Option (Publish F W E))
    → KeepsPublisher P publisher
    → KeepsAnnounce P publisher
of_announce P none pk = tt
of_announce P (some publish) pk = pk stream_budget_approval stream_budget_approval

module _ {F W E : Type 0} (P : W → Type 0) (fl : FloatOps F) (error_text : RunError E → String)
    (st : StoreApi F W E) (publisher : Option (Publish F W E)) (task_stream : String)
    (now : W → String) (k : KeepsStore P st) (pk : KeepsPublisher P publisher) where
  caused_keeps : (r : W × Option E) → P r.0 → P (caused r).0
  caused_keeps (w, none) q = q
  caused_keeps (w, some e) q = q

  published :
      (publisher : Option (Publish F W E)) (run : String) (task : Task F) (w : W)
      → KeepsPublisher P publisher
      → P w
      → P (dispatch_task publisher task_stream run task w).0
  unfolding dispatch_task
  published none run task w pk q = q
  published (some publish) run task w pk q = found (as_object (get "dispatch" task.payload))
    where
      found :
          (payload : Option (Fields F))
          → P
              (elim payload as (λ _. W × Option (RunError E)) [
                | none ↦ (w, some missing_dispatch)
                | some payload ↦ caused (publish task_stream "task.dispatch" payload w)
              ]).0
      found none = q
      found (some payload) = caused_keeps _ (pk _ _ payload w q)

  executor-KeepsCalls :
      (run : String)
      → KeepsCalls P
          (store_checkpoint_manager error_text (some (λ cp w. caused (st.upsert_checkpoint cp w))))
          (record { retry_counter = none; duration = none })
          (some (dispatch_task publisher task_stream))
          run
  unfolding store_checkpoint_manager
  executor-KeepsCalls run = record {
    start = λ w q. q;
    save_start = λ task n w q. caused_keeps _ (k.upsert _ w q);
    save_success = λ task n w q. q;
    save_failure = λ task n e w q. caused_keeps _ (k.upsert _ w q);
    runs = λ task w q. published publisher run task w pk q;
    duration = λ task w q. q;
    retry = λ task n w q. q;
  }

  dispatch_run-Keeps :
      (msg : Message F) (run : String) (payload : RunEnqueuedPayload F) (w : W)
      → P w
      → P
          (dispatch_run fl error_text
            (processor st publisher task_stream now)
            st
            msg
            run
            payload
            w).0
  unfolding dispatch_run worker_executor
  dispatch_run-Keeps msg run payload w q = saved _ (k.upsert _ w q)
    where
      saved :
          (made : W × Option E)
          → P made.0
          → P
              (elim made.1 as (λ _. W × Option (WorkError E)) [
                | some e ↦ (made.0, some (saving_run e))
                | none ↦
                    let done =
                      execute
                        (worker_executor fl error_text st)
                        run
                        (bootstrap_graph run (dispatch_token msg run) payload)
                        (stage_bootstrap ∷ [])
                        (some (dispatch_task publisher task_stream))
                        made.0 in
                    (done.1, elim done.2 [ ok order ↦ none | err f ↦ some executing ])
              ]).0
      saved (w, some e) q = q
      saved (w, none) q =
          execute-Keeps P (worker_executor fl error_text st) run
            (bootstrap_graph run (dispatch_token msg run) payload) (stage_bootstrap ∷ [])
            (some (dispatch_task publisher task_stream)) (executor-KeepsCalls run) w q

  pass_gate-Keeps :
      (msg : Message F) (run : String) (payload : RunEnqueuedPayload F) (gate : Gate E) (w : W)
      → P w
      → P
          (pass_gate fl error_text
            (processor st publisher task_stream now)
            st
            msg
            run
            payload
            gate
            w).0
  unfolding pass_gate
  pass_gate-Keeps msg run payload (gate_error e) w q = q
  pass_gate-Keeps msg run payload held w q = q
  pass_gate-Keeps msg run payload open_gate w q = dispatch_run-Keeps msg run payload w q

  gated_run-Keeps :
      (msg : Message F) (payload : RunEnqueuedPayload F) (run : Reply E String) (w : W)
      → P w
      → P (gated_run fl error_text (processor st publisher task_stream now) st msg payload run w).0
  unfolding gated_run
  gated_run-Keeps msg payload (fault e) w q = q
  gated_run-Keeps msg payload (reply run) w q = pass_gate-Keeps msg run payload _ _ (
      gate-Keeps P fl st publisher task_stream now (of_gate P st k) (of_announce P publisher pk) run
        payload w q)

  handle_payload-Keeps :
      (msg : Message F) (payload : Option (RunEnqueuedPayload F)) (w : W)
      → P w
      → P (handle_payload fl error_text (processor st publisher task_stream now) st msg payload w).0
  unfolding handle_payload
  handle_payload-Keeps msg none w q = q
  handle_payload-Keeps msg (some payload) w q = named (is_empty payload.run_id)
    where
      named :
          (b : Bool)
          → let made =
              if b then st.create_run payload.topic_id "pending" w else (w, reply payload.run_id) in
            P
              (gated_run fl error_text
                (processor st publisher task_stream now)
                st
                msg
                payload
                made.1
                made.0).0
      named true =
          gated_run-Keeps msg payload (st.create_run payload.topic_id "pending" w).1 _
            (k.create _ _ w q)
      named false = gated_run-Keeps msg payload (reply payload.run_id) w q

  pub after_claim-Keeps :
      (msg : Message F) (claimed : Reply E Bool) (w : W)
      → P w
      → P (after_claim fl error_text (processor st publisher task_stream now) st msg claimed w).0
  unfolding after_claim
  after_claim-Keeps msg (fault e) w q = q
  after_claim-Keeps msg (reply false) w q = q
  after_claim-Keeps msg (reply true) w q = handle_payload-Keeps msg msg.payload w q

  pub handle_run_enqueued-Keeps :
      (msg : Message F) (w : W)
      → P w
      → P (handle_run_enqueued fl error_text (processor st publisher task_stream now) msg w).0
  unfolding handle_run_enqueued
  handle_run_enqueued-Keeps msg w q = after_claim-Keeps msg _ _ (k.claim _ _ w q)
