-- ===== src/Worker.antt =====
-- internal/worker/processor.go and runner.go: how an enqueued run passes the budget gate, is
-- checkpointed and dispatched. `W` is the world behind the store and the queue, `E` their errors;
-- logging, traces and counters are left out.
pub mod Calls
pub mod Gate
pub mod Handle
pub mod Resume
pub mod Gated
pub mod Kept
pub mod Idempotence
pub mod Approval
pub mod Resumed
pub mod Recount
use newser.Prelude.{ℕ, String, Option, Bool, List, none, some, ltb, if◌then◌else◌, suc, zero}
use newser.Prelude.Int.{ℤ, pos, negsuc, ltb_ℤ}
use newser.Value.{Fields}

abbrev pub stream_task_dispatch : String
stream_task_dispatch = "task.dispatch"

abbrev pub stream_budget_approval : String
stream_budget_approval = "budget.approval.requested"

abbrev pub stage_run_received : String
stage_run_received = "run.enqueued"

abbrev pub stage_bootstrap : String
stage_bootstrap = "bootstrap.dispatch"

-- The run.enqueued payload. A nil map is none.
pub record RunEnqueuedPayload (F : Type 0) : Type 0 where
  pub run_id : String
  pub topic_id : String
  pub user_id : String
  pub trigger : String
  pub preferences : Option (Fields F)
  pub context : Option (Fields F)

-- A message with its envelope, and the payload that its JSON holds: none where it is not readable.
pub record Message (F : Type 0) : Type 0 where
  pub id : String
  pub event_type : String
  pub event_id : String
  pub payload : Option (RunEnqueuedPayload F)

pub record ResumeStats : Type 0 where
  pub checkpoints : ℕ
  pub reclaimed : ℕ
  pub skipped_for_approval : ℕ

-- The settings of a processor; durations are nanoseconds.
pub record Settings : Type 0 where
  pub max_concurrency : ℤ
  pub read_batch_size : ℤ
  pub resume_interval : ℤ
  pub backpressure_threshold : ℤ
  pub backpressure_sleep : ℤ

abbrev pub positive : ℤ → Bool
positive n = ltb_ℤ (pos 0) n

unfoldable pub with_max_concurrency : ℤ → Settings → Settings
with_max_concurrency n p = record p { max_concurrency = if ltb_ℤ (pos 1) n then n else pos 1 }

unfoldable pub with_read_batch_size : ℤ → Settings → Settings
with_read_batch_size n p = record p {
  read_batch_size = if positive n then n else p.read_batch_size;
}

unfoldable pub with_resume_interval : ℤ → Settings → Settings
with_resume_interval interval p = record p {
  resume_interval = if positive interval then interval else pos 0;
}

unfoldable pub with_backpressure_threshold : ℤ → ℤ → Settings → Settings
with_backpressure_threshold pending sleep p =
    if positive pending
    then (record p {
      backpressure_threshold = pending;
      backpressure_sleep = if positive sleep then sleep else p.backpressure_sleep;
    })
    else (record p { backpressure_threshold = pos 0 })
