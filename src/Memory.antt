-- ===== src/Memory.antt =====
-- The types of internal/memory/service/types.go, the records of internal/store/store.go that the
-- memory keeps, and the manager of internal/memory/manager/manager.go with its constructor.
pub mod Texts
pub mod Delta
pub mod Jobs
pub mod JobStore
pub mod Novelty
pub mod Account
pub mod Lifecycle
pub mod Transactions
use newser.Prelude.{
  ℕ, Bool, true, false, ◌&&◌, ◌||◌, not, String, Option, none, some, List, if◌then◌else◌, is_some,
}
use newser.Prelude.Int.{ℤ, pos, ltb_ℤ}
use newser.Prelude.Floats.{FloatOps}
use newser.Value.{Fields}
use newser.Store.{Reply}

pub record DeltaItem (F : Type 0) : Type 0 where
  pub id : String
  pub hash : String
  pub payload : Fields F
  pub metadata : Fields F

pub record DeltaRequest (F : Type 0) : Type 0 where
  pub topic_id : String
  pub items : List (DeltaItem F)
  pub known_ids : List String

pub record DeltaResponse (F : Type 0) : Type 0 where
  pub topic_id : String
  pub novel : List (DeltaItem F)
  pub duplicate_count : ℕ
  pub total : ℕ

pub record SummaryRequest : Type 0 where
  pub topic_id : String
  pub max_runs : ℤ

pub record SummaryItem (T : Type 0) : Type 0 where
  pub run_id : String
  pub summary : String
  pub started_at : T
  pub finished_at : Option T

pub record SummaryResponse (T : Type 0) : Type 0 where
  pub topic_id : String
  pub generated_at : T
  pub items : List (SummaryItem T)
  pub summary : String

-- `MemoryDeltaRecord`, its metadata being the ids of the novel items.
pub record DeltaRecord : Type 0 where
  pub topic_id : String
  pub total_items : ℕ
  pub novel_items : ℕ
  pub duplicate_items : ℕ
  pub semantic : Bool
  pub novel_ids : List String

-- The fields of `MemoryJobRecord` that the code sets or reads; the parameters before their encoding.
pub record JobRecord (F T : Type 0) : Type 0 where
  pub id : ℤ
  pub topic_id : String
  pub job_type : String
  pub status : String
  pub scheduled_for : T
  pub started_at : Option T
  pub params : Fields F

-- `MemoryJobResultRecord`, the metrics before their encoding.
pub record JobResult (F : Type 0) : Type 0 where
  pub job_id : ℤ
  pub metrics : Fields F
  pub summary : String
  pub error_msg : String

-- `Run` of internal/store/store.go.
pub record Run (T : Type 0) : Type 0 where
  pub id : String
  pub status : String
  pub started_at : T
  pub finished_at : Option T
  pub error : Option String

-- The two texts of an episode's result that a summary reads.
pub record EpisodeTexts : Type 0 where
  pub summary : String
  pub detailed_report : String

abbrev pub job_type_summarise : String
job_type_summarise = "summarise"

abbrev pub job_type_prune : String
job_type_prune = "prune"

abbrev pub job_status_pending : String
job_status_pending = "pending"

abbrev pub job_status_running : String
job_status_running = "running"

abbrev pub job_status_success : String
job_status_success = "success"

abbrev pub job_status_failed : String
job_status_failed = "failed"

-- `storeAPI`: what the manager calls of the store, on vectors over `V` and times `T`.
pub record MemoryStore (F V T W E : Type 0) : Type 0 where
  pub list_runs : String → W → W × Reply E (List (Run T))
  pub get_episode_by_run_id : String → W → W × Reply E (Option EpisodeTexts)
  pub has_similar_run_embedding : String → List V → F → ℤ → W → W × Reply E Bool
  pub has_similar_plan_step_embedding : String → List V → F → ℤ → W → W × Reply E Bool
  pub log_memory_delta : DeltaRecord → W → W × Option E
  pub create_memory_job : JobRecord F T → W → W × Reply E (JobRecord F T)
  pub complete_memory_job : ℤ → String → JobResult F → W → W × Option E
  pub prune_run_embeddings_before : T → W → W × Reply E ℤ
  pub prune_plan_step_embeddings_before : T → W → W × Reply E ℤ

-- `LLMProvider.Embed`: the model's name and the texts.
abbrev pub Embed : Type 0 → Type 0 → Type 0 → Type 0
Embed V W E = String → List String → W → W × Reply E (List (List V))

-- The parts of the configuration that the constructor reads.
pub record MemoryConfig (F : Type 0) : Type 0 where
  pub episodic_enabled : Bool
  pub semantic_enabled : Bool
  pub embedding_model : String
  pub search_threshold : F
  pub delta_threshold : F
  pub delta_window : ℤ
  pub delta_include_steps : Bool

-- `Manager`, its logger, meters and templates left out.
pub record Manager (F V T W E : Type 0) : Type 0 where
  pub store : MemoryStore F V T W E
  pub embedding_model : String
  pub episodic_enabled : Bool
  pub semantic_enabled : Bool
  pub provider : Option (Embed V W E)
  pub delta_threshold : F
  pub delta_window : ℤ
  pub delta_with_steps : Bool

-- The errors of the memory's operations.
pub data MemoryError (E : Type 0) : Type 0 where
  manager_unavailable episodic_disabled semantic_disabled topic_id_required : MemoryError E
  cutoff_required no_provider : MemoryError E
  invalid_job_type : String → MemoryError E
  embedding searching_runs searching_plans listing_runs pruning_runs pruning_plans :
      E → MemoryError E
  getting_episode : String → E → MemoryError E
  vector_count : ℕ → ℕ → MemoryError E

positive_or : {F : Type 0} → FloatOps F → F → F → F
positive_or fl x other = if fl.le_f x fl.zero_f then other else x

module _ {F V T W E : Type 0} (fl : FloatOps F) (default_threshold : F) where
  -- `New`; `default_threshold` is the literal 0.8.
  unfoldable pub new :
      Option (MemoryStore F V T W E)
      → MemoryConfig F
      → Option (Embed V W E)
      → Option (Manager F V T W E)
  unfolding positive_or
  new none cfg provider = none
  new (some st) cfg provider =
      let semantic = cfg.semantic_enabled && is_some provider in
      if not cfg.episodic_enabled && not semantic
      then none
      else some record {
        store = st;
        embedding_model = cfg.embedding_model;
        episodic_enabled = cfg.episodic_enabled;
        semantic_enabled = semantic;
        provider = provider;
        delta_threshold =
            positive_or fl (positive_or fl cfg.delta_threshold cfg.search_threshold)
              default_threshold;
        delta_window = if ltb_ℤ cfg.delta_window (pos 0) then pos 0 else cfg.delta_window;
        delta_with_steps = cfg.delta_include_steps;
      }
