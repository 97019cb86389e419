-- ===== src/Memory/JobStore.antt =====
-- CreateMemoryJob and CompleteMemoryJob of internal/store/store.go. The statements that the database
-- runs are parameters; the transaction around them is written out.
use newser.Prelude.{
  ℕ, Bool, not, ◌||◌, String, Option, none, some, str_eq, if◌then◌else◌, trim_space, is_empty, ◌==◌,
}
use newser.Prelude.Int.{ℤ, pos, eqb_ℤ}
use newser.Value.{Fields}
use newser.Store.{Reply, reply, fault}
use newser.Memory.{
  JobRecord, JobResult, job_type_summarise, job_type_prune, job_status_pending, job_status_success,
  job_status_failed,
}

pub data StoreError (E : Type 0) : Type 0 where
  topic_missing job_id_required memory_job_not_found : StoreError E
  unknown_job_type unknown_status : String → StoreError E
  sql : E → StoreError E

-- The statements of the two functions. `update_job` answers the number of rows.
pub record JobStatements (F T W E : Type 0) : Type 0 where
  pub insert_job : JobRecord F T → W → W × Reply E (JobRecord F T)
  pub begin : W → W × Option E
  pub update_job : ℤ → String → Option String → W → W × Reply E ℕ
  pub insert_result : ℤ → Fields F → Option String → W → W × Option E
  pub commit : W → W × Option E
  pub rollback : W → W

abbrev nonzero_time : {T : Type 0} → (T → Bool) → Option T → Option T
nonzero_time is_zero none = none
nonzero_time is_zero (some t) = if is_zero t then none else some t

-- `nullableString`.
abbrev nullable : String → Option String
nullable s = if is_empty s then none else some s

abbrev inserted : {A W E : Type 0} → W × Reply E A → W × Reply (StoreError E) A
inserted (w, fault e) = (w, fault (sql e))
inserted (w, reply a) = (w, reply a)

-- The commit: its error is returned, and is not the variable that the deferred function reads.
unfoldable pub committed : {W E : Type 0} → W × Option E → W × Option (StoreError E)
committed (w, none) = (w, none)
committed (w, some e) = (w, some (sql e))

module _ {F T W E : Type 0} (db : JobStatements F T W E) where
  -- `CreateMemoryJob`, at the time `now`.
  unfoldable pub create_memory_job :
      (T → Bool) → T → JobRecord F T → W → W × Reply (StoreError E) (JobRecord F T)
  create_memory_job is_zero now rec w =
      if is_empty (trim_space rec.topic_id)
      then (w, fault topic_missing)
      else if not (str_eq rec.job_type job_type_summarise || str_eq rec.job_type job_type_prune)
      then (w, fault (unknown_job_type rec.job_type))
      else inserted (
          db.insert_job
            (record rec {
              status = if is_empty rec.status then job_status_pending else rec.status;
              scheduled_for = if is_zero rec.scheduled_for then now else rec.scheduled_for;
              started_at = nonzero_time is_zero rec.started_at;
            })
            w)

  unfoldable pub after_result : W × Option E → W × Option (StoreError E)
  unfolding committed
  after_result (w, some e) = (w, some (sql e))
  after_result (w, none) = committed (db.commit w)

  -- After the update. Its own error is in the variable that the deferred function reads, so that
  -- one is rolled back; those from here on are in variables of inner scopes, or in none.
  unfoldable pub after_update : ℤ → JobResult F → W × Reply E ℕ → W × Option (StoreError E)
  unfolding after_result
  after_update id result (w, fault e) = (db.rollback w, some (sql e))
  after_update id result (w, reply affected) =
      if affected == 0
      then (w, some memory_job_not_found)
      else after_result
          (db.insert_result id result.metrics (nullable (trim_space result.summary)) w)

  unfoldable pub after_begin : ℤ → String → JobResult F → W × Option E → W × Option (StoreError E)
  unfolding after_update
  after_begin id status result (w, some e) = (w, some (sql e))
  after_begin id status result (w, none) =
      after_update id result (db.update_job id status (nullable (trim_space result.error_msg)) w)

  -- `CompleteMemoryJob`. The metrics are never empty once they are encoded.
  unfoldable pub complete_memory_job : ℤ → String → JobResult F → W → W × Option (StoreError E)
  unfolding after_begin
  complete_memory_job id status result w =
      if eqb_ℤ id (pos 0)
      then (w, some job_id_required)
      else if not (str_eq status job_status_success || str_eq status job_status_failed)
      then (w, some (unknown_status status))
      else after_begin id status result (db.begin w)
