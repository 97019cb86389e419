-- ===== src/Worker/Calls.antt =====
-- What the worker calls: the store, the publisher, and the runner that dispatches a task.
use newser.Prelude.{String, Option, none, some, Bool, List}
use newser.Value.{Fields, get, as_object}
use newser.Store.{Checkpoint}
pub use newser.Store.{Reply, reply, fault}
use newser.Budget.{Config}
use newser.Executor.{Task}

-- `StoreAPI`. A `(value, bool, error)` result is a reply with an option.
pub record StoreApi (F W E : Type 0) : Type 0 where
  pub claim_idempotency : String → String → W → W × Reply E Bool
  pub upsert_checkpoint : Checkpoint F → W → W × Option E
  pub get_checkpoint : String → String → W → W × Reply E (Option (Checkpoint F))
  pub list_checkpoints : String → W → W × Reply E (List (Checkpoint F))
  pub mark_checkpoint_status : String → String → String → W → W × Option E
  pub create_run : String → String → W → W × Reply E String
  pub get_topic_budget_config : String → W → W × Reply E (Option (Config F))
  pub get_pending_budget_approval : String → W → W × Reply E (Option String)
  pub mark_run_pending_approval : String → W → W × Option E
  pub create_budget_approval : String → String → String → F → F → W → W × Option E

-- `PublishRaw` for an event of version v1: the stream, the event's type and its payload.
abbrev pub Publish : Type 0 → Type 0 → Type 0 → Type 0
Publish F W E = String → String → Fields F → W → W × Option E

-- The errors of a dispatched task.
pub data RunError (E : Type 0) : Type 0 where
  publisher_not_configured missing_dispatch : RunError E
  cause : E → RunError E

pub data WorkError (E : Type 0) : Type 0 where
  store_missing unreadable_payload : WorkError E
  claiming loading_budget marking_pending creating_approval creating_run saving_run :
      E → WorkError E
  executing : WorkError E

abbrev pub caused : {W E : Type 0} → W × Option E → W × Option (RunError E)
caused (w, none) = (w, none)
caused (w, some e) = (w, some (cause e))

-- `taskDispatchRunner.RunTask`.
unfoldable pub dispatch_task :
    {F W E : Type 0}
    → Option (Publish F W E)
    → String
    → String
    → Task F
    → W
    → W × Option (RunError E)
unfolding get
dispatch_task none task_stream run task w = (w, some publisher_not_configured)
dispatch_task (some publish) task_stream run task w =
    elim (as_object (get "dispatch" task.payload)) [
      | none ↦ (w, some missing_dispatch)
      | some payload ↦ caused (publish task_stream "task.dispatch" payload w)
    ]
