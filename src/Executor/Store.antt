-- ===== src/Executor/Store.antt =====
-- internal/executor/checkpoint_store.go: checkpoints kept in the store.
use newser.Prelude.{ℕ, ◌≡◌, String, Option, none, some, arith, if◌then◌else◌, is_empty}
use newser.Value.{text, object, Fields, end, field, put, get, is_end}
use newser.Store.{Checkpoint, status_dispatched, status_completed}
use newser.Executor.{Task, CheckpointManager}

-- `checkpointStore`, of which the manager calls one operation.
abbrev pub UpsertCheckpoint : Type 0 → Type 0 → Type 0 → Type 0
UpsertCheckpoint F W E = Checkpoint F → W → W × Option E

abbrev pub stage_of : {F : Type 0} → Task F → String
stage_of task = if is_empty task.stage then task.id else task.stage

abbrev pub token_of : {F : Type 0} → Task F → String
token_of task = if is_empty task.checkpoint_token then task.id else task.checkpoint_token

-- The checkpoint that `SaveTaskStart` writes.
unfoldable pub start_checkpoint : {F : Type 0} → String → Task F → ℕ → Checkpoint F
start_checkpoint run task attempt = record {
  run_id = run;
  stage = stage_of task;
  status = status_dispatched;
  checkpoint_token = token_of task;
  payload = some (field "task_id" (text task.id) (field "payload" (object task.payload) end));
  retries = attempt;
}

-- The checkpoint that `SaveTaskFailure` writes, for an error with the given text.
unfoldable pub failure_checkpoint : {F : Type 0} → String → Task F → ℕ → String → Checkpoint F
failure_checkpoint run task attempt message =
    let named = field "task_id" (text task.id) end in
    let with_payload =
      if is_end task.payload then named else put "payload" (object task.payload) named in
    record {
      run_id = run;
      stage = stage_of task;
      status = status_completed;
      checkpoint_token = token_of task;
      payload = some (put "error" (text message) with_payload);
      retries = attempt;
    }

module _ {F W E : Type 0} (error_text : E → String) where
  unfoldable pub store_checkpoint_manager :
      Option (UpsertCheckpoint F W E) → CheckpointManager F W E
  unfolding start_checkpoint failure_checkpoint
  store_checkpoint_manager none = record {
    start_run = λ run w. (w, none);
    save_task_start = λ run task attempt w. (w, none);
    save_task_success = λ run task attempt w. (w, none);
    save_task_failure = λ run task attempt e w. (w, none);
  }
  store_checkpoint_manager (some upsert) = record {
    start_run = λ run w. (w, none);
    save_task_start = λ run task attempt w. upsert (start_checkpoint run task attempt) w;
    save_task_success = λ run task attempt w. (w, none);
    save_task_failure =
        λ run task attempt e w. upsert (failure_checkpoint run task attempt (error_text e)) w;
  }

-- The payload of a failure's checkpoint names the task and the error, and carries the task's own
-- payload exactly where that is not empty.
pub failure_checkpoint_payload :
    {F : Type 0} (run : String) (task : Task F) (attempt : ℕ) (message : String) (fields : Fields F)
    → (failure_checkpoint run task attempt message).payload ≡ some fields
    → (get "task_id" fields ≡ some (text task.id))
      × (get "error" fields ≡ some (text message))
      × (get "payload" fields ≡ (if is_end task.payload then none else some (object task.payload)))
unfolding failure_checkpoint put get
failure_checkpoint_payload run task attempt message fields h = ground arith
