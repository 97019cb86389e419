-- ===== src/Memory/Lifecycle.antt =====
-- The jobs of Summarize and PruneSemanticEmbeddings: whatever happens in between, a job that the store
-- has opened is completed.
use newser.Prelude.{
  ℕ, ◌≡◌, refl, ◌⊎◌, inl, inr, String, Option, none, some, List, [], ◌∷◌, ◌∙◌, ap, trim_space,
  is_empty, Bool-cases, take,
}
use newser.Prelude.Int.{ℤ}
use newser.Value.{Fields}
use newser.Store.{Reply, reply, fault}
use newser.Memory.{
  Manager, MemoryStore, MemoryError, SummaryRequest, SummaryResponse, JobRecord, JobResult, Run,
  EpisodeTexts,
}
use newser.Memory.Jobs.{
  Times, Answer, created, status_of, open_job, close_job, collect, gather, close_summary, summarize,
  summarize_topic, prune_plans, prune_runs, close_prune, prune_before, prune_semantic_embeddings,
  on_episode, Collecting, PruneStats,
}

-- What the store is told of jobs, the latest first.
pub data JobEvent : Type 0 where
  opened : ℤ → JobEvent
  completed : ℤ → String → JobEvent

abbrev pub opening : {F T E : Type 0} → Reply E (JobRecord F T) → List JobEvent → List JobEvent
opening (fault e) log = log
opening (reply job) log = opened job.id ∷ log

-- `log` is a record of the events, kept by the operations on jobs and left alone by the others.
pub record Logs {F V T W E : Type 0} (st : MemoryStore F V T W E) (log : W → List JobEvent)
    : Type 0 where
  pub log_create :
      (job : JobRecord F T) (w : W)
      → log (st.create_memory_job job w).0 ≡ opening (st.create_memory_job job w).1 (log w)
  pub log_complete :
      (id : ℤ) (status : String) (r : JobResult F) (w : W)
      → log (st.complete_memory_job id status r w).0 ≡ completed id status ∷ log w
  pub log_runs : (topic : String) (w : W) → log (st.list_runs topic w).0 ≡ log w
  pub log_episode : (run : String) (w : W) → log (st.get_episode_by_run_id run w).0 ≡ log w
  pub log_prune_runs : (t : T) (w : W) → log (st.prune_run_embeddings_before t w).0 ≡ log w
  pub log_prune_plans : (t : T) (w : W) → log (st.prune_plan_step_embeddings_before t w).0 ≡ log w

-- Nothing was opened, or one job was, and then completed with the status that fits the outcome.
abbrev pub outcome : {E : Type 0} → Option (MemoryError E) → String
outcome none = "success"
outcome (some e) = "failed"

status_of-outcome : {E : Type 0} (err : Option (MemoryError E)) → status_of err ≡ outcome err
status_of-outcome none = refl
status_of-outcome (some e) = refl

abbrev pub Closed : {W E : Type 0} → (W → List JobEvent) → W → W → Option (MemoryError E) → Type 0
Closed log w w' err =
    (log w' ≡ log w) ⊎ ((id : ℤ) × (log w' ≡ completed id (outcome err) ∷ opened id ∷ log w))

abbrev pub Settled : {W E A : Type 0} → (W → List JobEvent) → W → Answer W E A → Type 0
Settled log w (w', a, err) = Closed log w w' err

on_episode-log :
    {T W E L : Type 0} (log : W → L) (rest : SummaryResponse T → List String → Collecting W E T)
    (run : Run T) (resp : SummaryResponse T) (lines : List String)
    (got : W × Reply E (Option EpisodeTexts))
    → ((r : SummaryResponse T) (ls : List String) (w : W) → log (rest r ls w).0 ≡ log w)
    → log (on_episode rest run resp lines got).0 ≡ log got.0
unfolding on_episode
on_episode-log log rest run resp lines (w, fault e) h = refl
on_episode-log log rest run resp lines (w, reply none) h = h _ _ w
on_episode-log log rest run resp lines (w, reply (some ep)) h = h _ _ w

prune_plans-log :
    {W E L : Type 0} (log : W → L) (stats : PruneStats) (got : W × Reply E ℤ)
    → log (prune_plans stats got).0 ≡ log got.0
unfolding prune_plans
prune_plans-log log stats (w, fault e) = refl
prune_plans-log log stats (w, reply n) = refl

module _ {F V T W E : Type 0} (m : Manager F V T W E) (log : W → List JobEvent)
    (logs : Logs m.store log) (times : Times T) (error_text : MemoryError E → String) where
  open logs use {log_create, log_complete, log_runs, log_episode, log_prune_runs, log_prune_plans}

  log-collect :
      (runs : List (Run T)) (resp : SummaryResponse T) (lines : List String) (w : W)
      → log (collect m times error_text runs resp lines w).0 ≡ log w
  unfolding collect
  log-collect [] resp lines w = refl
  log-collect (run ∷ runs) resp lines w =
      on_episode-log log (collect m times error_text runs) run resp lines
        (m.store.get_episode_by_run_id run.id w) (log-collect runs)
      ∙ log_episode run.id w

  log-gather :
      (topic : String) (n : ℕ) (got : W × Reply E (List (Run T)))
      → log (gather m times error_text topic n got).0 ≡ log got.0
  unfolding gather
  log-gather topic n (w, fault e) = refl
  log-gather topic n (w, reply runs) = log-collect (take n runs) _ [] w

  pub log-prune_runs :
      (cutoff : T) (got : W × Reply E ℤ)
      → log (prune_runs m times error_text cutoff got).0 ≡ log got.0
  unfolding prune_runs
  log-prune_runs cutoff (w, fault e) = refl
  log-prune_runs cutoff (w, reply n) =
      prune_plans-log log _ (m.store.prune_plan_step_embeddings_before cutoff w)
      ∙ log_prune_plans cutoff w

  -- A job that was just opened is completed by the end of the call.
  close_job-Settled :
      (made : W × Reply E (JobRecord F T)) (w : W) (later : W) (err : Option (MemoryError E))
      (metrics : Fields F) (summary : String)
      → log made.0 ≡ opening made.1 (log w)
      → log later ≡ log (created made).0
      → Closed log w (close_job m times error_text (created made).1 err metrics summary later) err
  unfolding close_job
  close_job-Settled (w1, fault e) w later err metrics summary h k = inl (k ∙ h)
  close_job-Settled (w1, reply job) w later err metrics summary h k = inr (
    job.id,
    log_complete _ _ _ later
        ∙ ap (λ s. completed job.id s ∷ log later) (status_of-outcome err)
        ∙ ap (λ l. completed job.id (outcome err) ∷ l) (k ∙ h),
  )

  summarize_topic-Settled :
      (req : SummaryRequest) (w : W) → Settled log w (summarize_topic m times error_text req w)
  unfolding summarize_topic close_summary open_job
  summarize_topic-Settled req w =
      close_job-Settled (m.store.create_memory_job _ w) w _ _ _ _ (log_create _ w)
        (log-gather req.topic_id _ (m.store.list_runs req.topic_id _) ∙ log_runs req.topic_id _)

  prune_before-Settled :
      (cutoff : T) (w : W) → Settled log w (prune_before m times error_text cutoff w)
  unfolding prune_before close_prune open_job
  prune_before-Settled cutoff w =
      close_job-Settled (m.store.create_memory_job _ w) w _ _ _ _ (log_create _ w) (
        log-prune_runs cutoff (m.store.prune_run_embeddings_before cutoff _)
        ∙ log_prune_runs cutoff _)

  summarize-Settled :
      (req : SummaryRequest) (w : W) → Settled log w (summarize times error_text (some m) req w)
  unfolding summarize
  summarize-Settled req w = elim (Bool-cases m.episodic_enabled) [
    | inl on ↦ elim (Bool-cases (is_empty (trim_space req.topic_id))) [
      | inl e ↦ rw (on, e) (inl refl)
      | inr e ↦ rw (on, e) (summarize_topic-Settled req w)
    ]
    | inr off ↦ rw off (inl refl)
  ]

  prune_semantic_embeddings-Settled :
      (cutoff : T) (w : W)
      → Settled log w (prune_semantic_embeddings times error_text (some m) cutoff w)
  unfolding prune_semantic_embeddings
  prune_semantic_embeddings-Settled cutoff w = elim (Bool-cases m.semantic_enabled) [
    | inl on ↦ elim (Bool-cases (times.is_zero_time cutoff)) [
      | inl e ↦ rw (on, e) (inl refl)
      | inr e ↦ rw (on, e) (prune_before-Settled cutoff w)
    ]
    | inr off ↦ rw off (inl refl)
  ]

  -- Where the store's operations keep a log of the calls that they get for jobs, a call of Summarize
  -- and a call of PruneSemanticEmbeddings each either open no job, or open one and call
  -- CompleteMemoryJob for that same job as the last thing they do, with the status success when the
  -- call returns no error and failed when it returns one. Whether the store then completes the job is
  -- not said: an error of CompleteMemoryJob is only logged.
  pub jobs-Settled :
      (req : SummaryRequest) (cutoff : T) (w : W)
      → Settled log w (summarize times error_text (some m) req w)
        × Settled log w (prune_semantic_embeddings times error_text (some m) cutoff w)
  jobs-Settled req cutoff w = (summarize-Settled req w, prune_semantic_embeddings-Settled cutoff w)
