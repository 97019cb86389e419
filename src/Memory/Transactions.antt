-- ===== src/Memory/Transactions.antt =====
-- What CompleteMemoryJob leaves of its transaction, and what CreateMemoryJob makes of the jobs that
-- PruneSemanticEmbeddings asks for.
use newser.Prelude.{
  ℕ, suc, ◌-◌, ◌≡◌, ◌⊎◌, refl, ◌∙◌, not, String, Option, none, some, List, arith, Bool-cases, inl,
  inr, ◌==◌, str_eq, ◌||◌,
}
use newser.Prelude.Int.{ℤ, pos, eqb_ℤ}
use newser.Value.{Fields}
use newser.Store.{Reply, reply, fault}
use newser.Memory.{
  Manager, JobRecord, JobResult, MemoryError, job_status_success, job_status_failed,
}
use newser.Memory.Jobs.{
  Times, open_job, prune_before, close_prune, close_job, prune_semantic_embeddings,
}
use newser.Memory.JobStore.{
  StoreError, JobStatements, memory_job_not_found, job_id_required, unknown_status, sql,
  topic_missing, unknown_job_type, create_memory_job, complete_memory_job, after_begin,
  after_update, after_result, committed,
}
use newser.Memory.Lifecycle.{Logs, JobEvent, log-prune_runs}

abbrev once_more : {E : Type 0} → Option E → ℕ → ℕ
once_more none n = suc n
once_more (some e) n = n

-- `opened` counts the transactions that are neither committed nor rolled back; a commit ends its
-- transaction also where it fails.
pub record CountsOpen {F T W E : Type 0} (db : JobStatements F T W E) (opened : W → ℕ)
    : Type 0 where
  pub opened_begin : (w : W) → opened (db.begin w).0 ≡ once_more (db.begin w).1 (opened w)
  pub opened_update :
      (id : ℤ) (status : String) (e : Option String) (w : W)
      → opened (db.update_job id status e w).0 ≡ opened w
  pub opened_insert :
      (id : ℤ) (metrics : Fields F) (summary : Option String) (w : W)
      → opened (db.insert_result id metrics summary w).0 ≡ opened w
  pub opened_commit : (w : W) → opened (db.commit w).0 ≡ opened w - 1
  pub opened_rollback : (w : W) → opened (db.rollback w) ≡ opened w - 1

-- The open transactions before and after a call with this result.
abbrev pub Leaves : {E : Type 0} → Option (StoreError E) → ℕ → ℕ → Type 0
Leaves none before after = after ≡ before
Leaves (some memory_job_not_found) before after = after ≡ suc before
Leaves (some job_id_required) before after = after ≡ before
Leaves (some (unknown_status s)) before after = after ≡ before
Leaves (some (sql e)) before after = (after ≡ before) ⊎ (after ≡ suc before)
Leaves (some topic_missing) before after = ⊥
Leaves (some (unknown_job_type t)) before after = ⊥

module _ {F T W E : Type 0} (db : JobStatements F T W E) (opened : W → ℕ)
    (law : CountsOpen db opened) where
  open law use {opened_begin, opened_update, opened_insert, opened_commit, opened_rollback}

  abbrev Ended : ℕ → W × Option (StoreError E) → Type 0
  Ended n (w, r) = Leaves r n (opened w)

  committed-Ended : (got : W × Option E) (n : ℕ) → opened got.0 ≡ n → Ended n (committed got)
  unfolding committed
  committed-Ended (w, none) n h = h
  committed-Ended (w, some x) n h = inl h

  after_result-Ended :
      (got : W × Option E) (n : ℕ) → opened got.0 ≡ suc n → Ended n (after_result db got)
  unfolding after_result
  after_result-Ended (w, some x) n h = inr h
  after_result-Ended (w, none) n h =
      committed-Ended (db.commit w) n (omega (arith, opened_commit w, h))

  after_update-Ended :
      (id : ℤ) (result : JobResult F) (got : W × Reply E ℕ) (n : ℕ)
      → opened got.0 ≡ suc n
      → Ended n (after_update db id result got)
  unfolding after_update
  after_update-Ended id result (w, fault x) n h = inl (omega (arith, opened_rollback w, h))
  after_update-Ended id result (w, reply affected) n h = elim (Bool-cases (affected == 0)) [
    | inl nothing ↦ rw nothing h
    | inr found ↦
        rw found (after_result-Ended (db.insert_result id _ _ w) n (opened_insert id _ _ w ∙ h))
  ]

  after_begin-Ended :
      (id : ℤ) (status : String) (result : JobResult F) (got : W × Option E) (n : ℕ)
      → opened got.0 ≡ once_more got.1 n
      → Ended n (after_begin db id status result got)
  unfolding after_begin
  after_begin-Ended id status result (w, some x) n h = inl h
  after_begin-Ended id status result (w, none) n h =
      after_update-Ended id result (db.update_job id status _ w) n (opened_update id status _ w ∙ h)

  -- What CompleteMemoryJob leaves of its transaction: none is left open when it succeeds or refuses
  -- its arguments. Where the update finds no such job, the transaction is left open, neither
  -- committed nor rolled back. After an error of the database there is none or this one, and no
  -- other error comes back.
  pub complete_memory_job-Leaves :
      (id : ℤ) (status : String) (result : JobResult F) (w : W)
      → Leaves
          (complete_memory_job db id status result w).1
          (opened w)
          (opened (complete_memory_job db id status result w).0)
  unfolding complete_memory_job
  complete_memory_job-Leaves id status result w = elim (Bool-cases (eqb_ℤ id (pos 0))) [
    | inl no_id ↦ rw no_id refl
    | inr some_id ↦
        elim (Bool-cases
          (not (str_eq status job_status_success || str_eq status job_status_failed))) [
            | inl bad ↦ rw (some_id, bad) refl
            | inr good ↦
                rw (some_id, good)
                  (after_begin-Ended id status result (db.begin w) (opened w) (opened_begin w))
          ]
  ]

module _ {F V T W E : Type 0} (db : JobStatements F T W E) (m : Manager F V T W (StoreError E))
    (log : W → List JobEvent) (logs : Logs m.store log) (times : Times T) where
  -- On a manager whose jobs CreateMemoryJob opens, no call of PruneSemanticEmbeddings ever leaves an
  -- entry in the log of jobs: the job that it asks for names no topic, and is always refused.
  pub prune_semantic_embeddings_unlogged :
      (error_text : MemoryError (StoreError E) → String)
      → ((job : JobRecord F T) (w : W)
          → m.store.create_memory_job job w
            ≡ create_memory_job db times.is_zero_time times.started job w)
      → (cutoff : T) (w : W)
      → log (prune_semantic_embeddings times error_text (some m) cutoff w).0 ≡ log w
  unfolding prune_semantic_embeddings prune_before open_job close_prune close_job create_memory_job
  prune_semantic_embeddings_unlogged error_text wired cutoff w =
      elim (Bool-cases m.semantic_enabled) [
        | inl on ↦ elim (Bool-cases (times.is_zero_time cutoff)) [
          | inl e ↦ rw (on, e) refl
          | inr e ↦
              rw (on, e)
                (rw (wired _ w) (
                  log-prune_runs m log logs times error_text cutoff
                    (m.store.prune_run_embeddings_before cutoff w)
                  ∙ logs.log_prune_runs cutoff w))
        ]
        | inr off ↦ rw off refl
      ]
