-- ===== src/Memory/Jobs.antt =====
-- Summarize and PruneSemanticEmbeddings of internal/memory/manager/manager.go, each with the job that
-- it opens at the start and that its deferred function completes.
use newser.Prelude.{
  ℕ, Bool, not, String, Option, none, some, List, [], ◌∷◌, ◌++◌, length, ltb, if◌then◌else◌,
  byte_length, trim_space, is_empty, join, append, take,
}
use newser.Prelude.Int.{ℤ, pos, negsuc}
use newser.Prelude.Show.{show_ℕ, show_ℤ}
use newser.Value.{int, text, Fields, field, end}
use newser.Store.{Reply, reply, fault}
use newser.Memory.{
  Manager, MemoryError, manager_unavailable, episodic_disabled, semantic_disabled,
  topic_id_required, cutoff_required, listing_runs, getting_episode, pruning_runs, pruning_plans,
  SummaryRequest, SummaryItem, SummaryResponse, JobRecord, Run, EpisodeTexts, job_type_summarise,
  job_type_prune, job_status_running, job_status_success, job_status_failed,
}
use newser.Memory.Texts.{derive_fallback_summary}

-- The time that is not set, the times that a call reads from the clock, and RFC 3339.
pub record Times (T : Type 0) : Type 0 where
  pub zero_time : T
  pub started : T
  pub generated : T
  pub is_zero_time : T → Bool
  pub rfc3339 : T → String

-- What a call answers: its value and its error, both of which Go returns.
abbrev pub Answer : Type 0 → Type 0 → Type 0 → Type 0
Answer W E A = W × A × Option (MemoryError E)

abbrev pub max_runs_small : ℕ → ℕ
max_runs_small n = if ltb 20 n then 20 else n

-- The number of runs that a request may look at.
unfoldable pub max_runs_of : ℤ → ℕ
max_runs_of (negsuc n) = 5
max_runs_of (pos n) = if ltb 0 n then max_runs_small n else 5

abbrev pub episode_summary : EpisodeTexts → String
episode_summary ep =
    let s = trim_space ep.summary in if is_empty s then derive_fallback_summary ep else s

abbrev pub status_of : {E : Type 0} → Option (MemoryError E) → String
status_of none = job_status_success
status_of (some e) = job_status_failed

abbrev pub created : {F T W E : Type 0} → W × Reply E (JobRecord F T) → W × Option (JobRecord F T)
created (w, fault e) = (w, none)
created (w, reply job) = (w, some job)

-- The summary of a job: that of a success which has none says how many runs there were.
unfoldable pub summary_text : {E : Type 0} → Option (MemoryError E) → ℕ → String → String
summary_text (some e) n summary = ""
summary_text none n summary =
    let s = trim_space summary in
    if is_empty s then append "processed " (append (show_ℕ n) " runs") else s

abbrev error_message : {E : Type 0} → (MemoryError E → String) → Option (MemoryError E) → String
error_message error_text none = ""
error_message error_text (some e) = error_text e

pub record PruneStats : Type 0 where
  pub run_embeddings : ℤ
  pub plan_embeddings : ℤ

abbrev nothing_pruned : PruneStats
nothing_pruned = record { run_embeddings = pos 0; plan_embeddings = pos 0 }

unfoldable pub prune_text : {E : Type 0} → Option (MemoryError E) → PruneStats → String
prune_text (some e) stats = ""
prune_text none stats = append "pruned " (
    append (show_ℤ stats.run_embeddings)
      (append " run embeddings, " (append (show_ℤ stats.plan_embeddings) " plan embeddings")))

abbrev pub blank : {T : Type 0} → Times T → SummaryResponse T
blank times = record { topic_id = ""; generated_at = times.zero_time; items = []; summary = "" }

abbrev pub summary_item : {T : Type 0} → Run T → EpisodeTexts → SummaryItem T
summary_item run ep = record {
  run_id = run.id;
  summary = episode_summary ep;
  started_at = run.started_at;
  finished_at = run.finished_at;
}

abbrev pub listed : List String → String → List String
listed lines s = if is_empty s then lines else lines ++ append "- " s ∷ []

-- The two deletions, the second only after the first.
unfoldable pub prune_plans : {W E : Type 0} → PruneStats → W × Reply E ℤ → Answer W E PruneStats
prune_plans stats (w, fault e) = (w, stats, some (pruning_plans e))
prune_plans stats (w, reply n) = (w, record stats { plan_embeddings = n }, none)

abbrev pub Collecting : Type 0 → Type 0 → Type 0 → Type 0
Collecting W E T = W → Answer W E (SummaryResponse T)

-- One round: the run's episode goes into the response, and `rest` is the loop over the other runs.
unfoldable pub on_episode :
    {T W E : Type 0}
    → (SummaryResponse T → List String → Collecting W E T)
    → Run T
    → SummaryResponse T
    → List String
    → W × Reply E (Option EpisodeTexts)
    → Answer W E (SummaryResponse T)
on_episode rest run resp lines (w, fault e) = (w, resp, some (getting_episode run.id e))
on_episode rest run resp lines (w, reply none) = rest resp lines w
on_episode rest run resp lines (w, reply (some ep)) =
    rest (record resp { items = resp.items ++ summary_item run ep ∷ [] })
      (listed lines (episode_summary ep)) w

module _ {F V T W E : Type 0} (m : Manager F V T W E) (times : Times T)
    (error_text : MemoryError E → String) where
  -- The job is opened as running; if the store refuses, the call goes on without one.
  unfoldable pub open_job : String → String → Fields F → W → W × Option (JobRecord F T)
  open_job topic type params w = created (
      m.store.create_memory_job
        record {
          id = pos 0;
          topic_id = topic;
          job_type = type;
          status = job_status_running;
          scheduled_for = times.started;
          started_at = some times.started;
          params = params;
        }
        w)

  -- The end of the deferred functions.
  unfoldable pub close_job :
      Option (JobRecord F T) → Option (MemoryError E) → Fields F → String → W → W
  close_job none err metrics summary w = w
  close_job (some job) err metrics summary w =
      (m.store.complete_memory_job job.id (status_of err)
        record {
          job_id = job.id;
          metrics = metrics;
          summary = summary;
          error_msg = error_message error_text err;
        }
        w).0

  -- The loop over the runs; an error leaves what was gathered so far.
  unfoldable pub collect : List (Run T) → SummaryResponse T → List String → Collecting W E T
  unfolding on_episode
  collect [] resp lines w = (w, record resp { summary = join "\n" lines }, none)
  collect (run ∷ runs) resp lines w =
      on_episode (collect runs) run resp lines (m.store.get_episode_by_run_id run.id w)

  unfoldable pub gather : String → ℕ → W × Reply E (List (Run T)) → Answer W E (SummaryResponse T)
  unfolding collect
  gather topic n (w, fault e) = (w, blank times, some (listing_runs e))
  gather topic n (w, reply runs) =
      collect (take n runs)
        record { topic_id = topic; generated_at = times.generated; items = []; summary = "" } [] w

  unfoldable pub close_summary :
      Option (JobRecord F T) → ℕ → Answer W E (SummaryResponse T) → Answer W E (SummaryResponse T)
  unfolding close_job summary_text
  close_summary job n (w, resp, err) = (
    close_job job err
        (field "runs_considered" (int (pos (length resp.items))) (
          field "max_runs" (int (pos n))
            (field "summary_length" (int (pos (byte_length resp.summary))) end)))
        (summary_text err (length resp.items) resp.summary) w,
    resp,
    err,
  )

  unfoldable pub summarize_topic : SummaryRequest → W → Answer W E (SummaryResponse T)
  unfolding max_runs_of open_job gather close_summary
  summarize_topic req w =
      let n = max_runs_of req.max_runs in
      let (w1, job) =
        open_job req.topic_id job_type_summarise (field "max_runs" (int (pos n)) end) w in
      close_summary job n (gather req.topic_id n (m.store.list_runs req.topic_id w1))

  unfoldable pub prune_runs : T → W × Reply E ℤ → Answer W E PruneStats
  unfolding prune_plans
  prune_runs cutoff (w, fault e) = (w, nothing_pruned, some (pruning_runs e))
  prune_runs cutoff (w, reply n) =
      prune_plans (record nothing_pruned { run_embeddings = n })
        (m.store.prune_plan_step_embeddings_before cutoff w)

  unfoldable pub close_prune :
      Option (JobRecord F T) → T → Answer W E PruneStats → Answer W E PruneStats
  unfolding close_job prune_text
  close_prune job cutoff (w, stats, err) = (
    close_job job err
        (field "run_embeddings_pruned" (int stats.run_embeddings) (
          field "plan_embeddings_pruned" (int stats.plan_embeddings)
            (field "cutoff" (text (times.rfc3339 cutoff)) end)))
        (prune_text err stats) w,
    stats,
    err,
  )

  unfoldable pub prune_before : T → W → Answer W E PruneStats
  unfolding open_job prune_runs close_prune
  prune_before cutoff w =
      let (w1, job) =
        open_job "" job_type_prune (field "cutoff" (text (times.rfc3339 cutoff)) end) w in
      close_prune job cutoff (prune_runs cutoff (m.store.prune_run_embeddings_before cutoff w1))

module _ {F V T W E : Type 0} (times : Times T) (error_text : MemoryError E → String) where
  -- `Summarize`.
  unfoldable pub summarize :
      Option (Manager F V T W E) → SummaryRequest → W → Answer W E (SummaryResponse T)
  unfolding summarize_topic
  summarize none req w = (w, blank times, some manager_unavailable)
  summarize (some m) req w =
      if not m.episodic_enabled
      then (w, blank times, some episodic_disabled)
      else if is_empty (trim_space req.topic_id)
      then (w, blank times, some topic_id_required)
      else summarize_topic m times error_text req w

  -- `PruneSemanticEmbeddings`.
  unfoldable pub prune_semantic_embeddings :
      Option (Manager F V T W E) → T → W → Answer W E PruneStats
  unfolding prune_before
  prune_semantic_embeddings none cutoff w = (w, nothing_pruned, some manager_unavailable)
  prune_semantic_embeddings (some m) cutoff w =
      if not m.semantic_enabled
      then (w, nothing_pruned, some semantic_disabled)
      else if times.is_zero_time cutoff
      then (w, nothing_pruned, some cutoff_required)
      else prune_before m times error_text cutoff w
