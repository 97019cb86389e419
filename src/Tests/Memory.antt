-- ===== src/Tests/Memory.antt =====
-- The memory on a store whose world is the log of its jobs, and on a database that counts the open
-- transactions.
use newser.Prelude.{
  ℕ, suc, ◌-◌, ◌+◌, ◌≤◌, ◌≡◌, refl, Bool, true, false, String, none, some, List, [], ◌∷◌, length,
  count, ◌==◌, arith,
}
use newser.Prelude.Int.{pos}
use newser.Value.{end, field, text}
use newser.Store.{Reply, reply, fault}
use newser.Memory.{
  Manager, MemoryStore, DeltaItem, DeltaRequest, DeltaResponse, SummaryRequest, JobRecord,
  JobResult,
}
use newser.Memory.Texts.{key_of}
use newser.Memory.Delta.{
  delta, delta_items, sift, sift_item, known_keys, sift_new, delta_semantic, screen_vectors,
  finish_delta, screen, on_similar, similar,
}
use newser.Memory.Jobs.{Times, summarize, prune_semantic_embeddings}
use newser.Memory.JobStore.{
  StoreError, JobStatements, create_memory_job, complete_memory_job, memory_job_not_found,
}
use newser.Memory.Account.{item_keys}
use newser.Memory.Novelty.{novel_count, delta-Counted, delta_exact}
use newser.Memory.Lifecycle.{JobEvent, opened, completed, opening, Logs, Settled, jobs-Settled}
use newser.Memory.Transactions.{
  CountsOpen, complete_memory_job-Leaves, Leaves, prune_semantic_embeddings_unlogged,
}

abbrev World : Type 0
World = List JobEvent

-- A store that opens jobs in this way and knows one run.
abbrev store_with :
    {E : Type 0}
    → E
    → (JobRecord ℕ ℕ → World → World × Reply E (JobRecord ℕ ℕ))
    → MemoryStore ℕ ℕ ℕ World E
store_with down create = record {
  list_runs = λ topic w. (
    w,
    reply (
        record { id = "r"; status = "done"; started_at = 1; finished_at = none; error = none }
        ∷ []),
  );
  get_episode_by_run_id =
      λ run w. (w, reply (some record { summary = ""; detailed_report = " one\ntwo" }));
  has_similar_run_embedding = λ topic vec threshold window w. (w, reply true);
  has_similar_plan_step_embedding = λ topic vec threshold window w. (w, reply false);
  log_memory_delta = λ rec w. (w, none);
  create_memory_job = create;
  complete_memory_job = λ id status r w. (completed id status ∷ w, none);
  prune_run_embeddings_before = λ t w. (w, reply (pos 2));
  prune_plan_step_embeddings_before = λ t w. (w, fault down);
}

abbrev numbered : {E : Type 0} → JobRecord ℕ ℕ → World → World × Reply E (JobRecord ℕ ℕ)
numbered job w = (opened (pos 7) ∷ w, reply (record job { id = pos 7 }))

abbrev store : MemoryStore ℕ ℕ ℕ World String
store = store_with "down" numbered

abbrev manager_on : {E : Type 0} → MemoryStore ℕ ℕ ℕ World E → Bool → Manager ℕ ℕ ℕ World E
manager_on st semantic = record {
  store = st;
  embedding_model = "m";
  episodic_enabled = true;
  semantic_enabled = semantic;
  provider = some (λ model texts w. (w, reply ((1 ∷ []) ∷ [])));
  delta_threshold = 1;
  delta_window = pos 0;
  delta_with_steps = false;
}

abbrev manager : Bool → Manager ℕ ℕ ℕ World String
manager = manager_on store

abbrev times : Times ℕ
times = record {
  zero_time = 0;
  started = 5;
  generated = 6;
  is_zero_time = λ t. t == 0;
  rfc3339 = λ t. "now";
}

abbrev item : String → String → DeltaItem ℕ
item id words = record {
  id = id;
  hash = "";
  payload = field "title" (text words) end;
  metadata = end;
}

-- One known item, one twice, and one without a key.
abbrev request : DeltaRequest ℕ
request = record {
  topic_id = "t";
  items = item " a" "" ∷ item "b" "x" ∷ item "b " "y" ∷ item "" "z" ∷ [];
  known_ids = " a " ∷ "" ∷ [];
}

abbrev answer : DeltaResponse ℕ
answer = record { topic_id = "t"; novel = item "" "z" ∷ []; duplicate_count = 3; total = 4 }

answered : (delta (some (manager true)) request []).1 ≡ reply answer
unfolding delta delta_items sift sift_item key_of known_keys sift_new delta_semantic screen_vectors
    finish_delta screen on_similar similar
answered = refl

delta-Counted_example :
    (length answer.novel + answer.duplicate_count ≡ length request.items)
    × (answer.total ≡ length request.items)
    × (count "b" (item_keys answer.novel) ≤ novel_count request "b")
delta-Counted_example = delta-Counted (manager true) "b" request answer [] answered

delta_exact_example :
    (to : DeltaResponse ℕ) × ((delta (some (manager false)) request []).1 ≡ reply to)
    × (count "b" (item_keys to.novel) ≡ novel_count request "b")
delta_exact_example = delta_exact (manager false) "b" request [] refl refl

abbrev logs : Logs store (λ w. w)
logs = record {
  log_create = λ job w. refl;
  log_complete = λ id status r w. refl;
  log_runs = λ topic w. refl;
  log_episode = λ run w. refl;
  log_prune_runs = λ t w. refl;
  log_prune_plans = λ t w. refl;
}

abbrev summary_request : SummaryRequest
summary_request = record { topic_id = "t"; max_runs = pos 0 }

jobs-Settled_example :
    Settled (λ w. w) [] (summarize times (λ e. "error") (some (manager true)) summary_request [])
    × Settled
        (λ w. w)
        []
        (prune_semantic_embeddings times (λ e. "error") (some (manager true)) 3 [])
jobs-Settled_example =
    jobs-Settled (manager true) (λ w. w) logs times (λ e. "error") summary_request 3 []

pruned :
    (prune_semantic_embeddings times (λ e. "error") (some (manager true)) 3 []).0
    ≡ completed (pos 7) "failed" ∷ opened (pos 7) ∷ []
unfolding prune_semantic_embeddings
pruned = refl

-- A database without any job.
abbrev db : JobStatements ℕ ℕ ℕ String
db = record {
  insert_job = λ job w. (w, reply job);
  begin = λ w. (suc w, none);
  update_job = λ id status e w. (w, reply 0);
  insert_result = λ id metrics summary w. (w, none);
  commit = λ w. (w - 1, none);
  rollback = λ w. w - 1;
}

abbrev counts : CountsOpen db (λ w. w)
counts = record {
  opened_begin = λ w. refl;
  opened_update = λ id status e w. refl;
  opened_insert = λ id metrics summary w. refl;
  opened_commit = λ w. refl;
  opened_rollback = λ w. refl;
}

abbrev result : JobResult ℕ
result = record { job_id = pos 4; metrics = end; summary = "s"; error_msg = "" }

complete_memory_job-Leaves_example :
    Leaves
      (complete_memory_job db (pos 4) "success" result 0).1
      0
      (complete_memory_job db (pos 4) "success" result 0).0
complete_memory_job-Leaves_example =
    complete_memory_job-Leaves db (λ w. w) counts (pos 4) "success" result 0

not_found : complete_memory_job db (pos 4) "success" result 0 ≡ (1, some memory_job_not_found)
unfolding complete_memory_job
not_found = refl

-- The database behind the log.
abbrev log_db : JobStatements ℕ ℕ World String
log_db = record {
  insert_job = numbered;
  begin = λ w. (w, none);
  update_job = λ id status e w. (w, reply 1);
  insert_result = λ id metrics summary w. (w, none);
  commit = λ w. (w, none);
  rollback = λ w. w;
}

abbrev real_store : MemoryStore ℕ ℕ ℕ World (StoreError String)
real_store = store_with memory_job_not_found (create_memory_job log_db times.is_zero_time 5)

log_create_real :
    (job : JobRecord ℕ ℕ) (w : World)
    → (real_store.create_memory_job job w).0 ≡ opening (real_store.create_memory_job job w).1 w
unfolding create_memory_job
log_create_real job w = ground arith

abbrev real_logs : Logs real_store (λ w. w)
real_logs = record {
  log_create = log_create_real;
  log_complete = λ id status r w. refl;
  log_runs = λ topic w. refl;
  log_episode = λ run w. refl;
  log_prune_runs = λ t w. refl;
  log_prune_plans = λ t w. refl;
}

prune_semantic_embeddings_unlogged_example :
    (prune_semantic_embeddings times (λ e. "error") (some (manager_on real_store true)) 3 []).0 ≡ []
prune_semantic_embeddings_unlogged_example =
    prune_semantic_embeddings_unlogged log_db (manager_on real_store true) (λ w. w) real_logs times
      (λ e. "error") (λ job w. refl) 3 []
