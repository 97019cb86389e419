-- ===== src/Worker/Recount.antt =====
-- How ResumePending of internal/worker/processor.go counts the checkpoints that it resumes.
use newser.Prelude.{ℕ, ◌+◌, if◌then◌else◌, str_eq, String, Option, none, some, List, [], ◌∷◌, ◌≡◌}
use newser.Value.{Fields}
use newser.Store.{Checkpoint, status_completed}
use newser.Worker.{ResumeStats, stage_bootstrap, stream_task_dispatch}
use newser.Worker.Calls.{StoreApi, Publish}
use newser.Worker.Gate.{Gate}
use newser.Worker.Gated.{KeepsGate, KeepsAnnounce}

-- A call of the publisher that returned no error counts once.
abbrev pub succeeded : {E : Type 0} → Option E → ℕ
succeeded none = 1
succeeded (some e) = 0

-- Two counts stand as they were.
abbrev pub Stand : {W : Type 0} → (W → ℕ) → (W → ℕ) → ℕ → ℕ → W → Type 0
Stand sent closed m n w = (sent w ≡ m) × (closed w ≡ n)

-- `sent` counts the dispatches that are published, `closed` the checkpoints that are marked as
-- completed; no other call of the store, and no announcement, changes either.
pub record CountsResume {F W E : Type 0} (st : StoreApi F W E) (publish : Publish F W E)
    (task_stream : String) (sent closed : W → ℕ) : Type 0 where
  pub gate : (m n : ℕ) → KeepsGate (Stand sent closed m n) st
  pub announce : (m n : ℕ) → KeepsAnnounce (Stand sent closed m n) (some publish)
  pub loaded :
      (run stage : String) (m n : ℕ) (w : W)
      → Stand sent closed m n w
      → Stand sent closed m n (st.get_checkpoint run stage w).0
  pub saved :
      (cp : Checkpoint F) (m n : ℕ) (w : W)
      → Stand sent closed m n w
      → Stand sent closed m n (st.upsert_checkpoint cp w).0
  pub completes :
      (run stage : String) (w : W)
      → Stand sent closed
          (sent w)
          (closed w + 1)
          (st.mark_checkpoint_status run stage status_completed w).0
  pub publishes :
      (m : Fields F) (w : W)
      → Stand sent closed
          (sent w + succeeded (publish task_stream stream_task_dispatch m w).1)
          (closed w)
          (publish task_stream stream_task_dispatch m w).0

-- The statistics have grown by what was published and by what was closed.
abbrev pub Accounted : {W : Type 0} → (W → ℕ) → (W → ℕ) → ResumeStats → W → W × ResumeStats → Type 0
Accounted sent closed stats w (w', stats') =
    (stats'.checkpoints + sent w ≡ stats.checkpoints + sent w')
    × (stats'.skipped_for_approval + closed w ≡ stats.skipped_for_approval + closed w')
    × (stats'.reclaimed ≡ stats.reclaimed)

-- The runs that a resume has gone through: dispatched again or left for approval.
abbrev pub handled : ResumeStats → ℕ
handled stats = stats.checkpoints + stats.skipped_for_approval

-- The checkpoints of the bootstrap stage.
abbrev pub bootstraps : {F : Type 0} → List (Checkpoint F) → ℕ
bootstraps [] = 0
bootstraps (cp ∷ cps) = (if str_eq cp.stage stage_bootstrap then 1 else 0) + bootstraps cps
