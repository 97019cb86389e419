-- ===== src/Store.antt =====
-- The record of internal/store/store.go that the executor and the worker keep: a checkpoint, its
-- statuses, and what the two call of the store.
use newser.Prelude.{ℕ, String, Option}
use newser.Value.{Fields}

pub record Checkpoint (F : Type 0) : Type 0 where
  pub run_id : String
  pub stage : String
  pub status : String
  pub checkpoint_token : String
  pub payload : Option (Fields F)
  pub retries : ℕ

abbrev pub status_received : String
status_received = "received"

abbrev pub status_dispatched : String
status_dispatched = "dispatched"

abbrev pub status_completed : String
status_completed = "completed"

-- What a call of the database or of another service comes back with.
pub data Reply (E A : Type 0) : Type 0 where
  reply : A → Reply E A
  fault : E → Reply E A
