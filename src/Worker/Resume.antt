-- ===== src/Worker/Resume.antt =====
-- ResumePending and buildResumePayload of internal/worker/processor.go: checkpoints that were
-- dispatched and not finished are dispatched again. The loop over the queue's AutoClaim is left out.
use newser.Prelude.{◌+◌, String, Option, none, some, if◌then◌else◌, List, [], ◌∷◌, str_eq}
use newser.Prelude.Floats.{FloatOps}
use newser.Value.{Fields, get, as_object, as_text}
use newser.Store.{Checkpoint, status_dispatched, status_completed}
use newser.Worker.{
  RunEnqueuedPayload, ResumeStats, stage_run_received, stage_bootstrap, stream_task_dispatch,
}
use newser.Worker.Calls.{StoreApi, Reply, reply, fault}
use newser.Worker.Gate.{Gate, open_gate, held, gate_error, Processor, enforce_budget_gate}

abbrev object_at : {F : Type 0} → String → Option (Fields F) → Option (Fields F)
unfolding get
object_at key none = none
object_at key (some m) = as_object (get key m)

abbrev text_at : {F : Type 0} → String → Option (Fields F) → String → String
unfolding get
text_at key none default = default
text_at key (some m) default = elim (as_text (get key m)) [ none ↦ default | some s ↦ s ]

abbrev or_else : {A : Type 0} → Option A → Option A → Option A
or_else none b = b
or_else (some a) b = some a

-- What the dispatched payload itself tells of the run.
unfoldable pub from_dispatch : {F : Type 0} → String → Fields F → RunEnqueuedPayload F
unfolding object_at text_at
from_dispatch run dispatch =
    let params = object_at "parameters" (some dispatch) in
    let context = object_at "context" params in
    record {
      run_id = run;
      topic_id = text_at "topic_id" context "";
      user_id = text_at "user_id" context "";
      trigger = "";
      preferences = object_at "preferences" params;
      context = context;
    }

-- The run's own checkpoint comes before that.
unfoldable pub with_checkpoint :
    {F : Type 0} → Fields F → RunEnqueuedPayload F → RunEnqueuedPayload F
unfolding object_at text_at
with_checkpoint fields payload = record payload {
  topic_id = text_at "topic_id" (some fields) payload.topic_id;
  user_id = text_at "user_id" (some fields) payload.user_id;
  trigger = text_at "trigger" (some fields) payload.trigger;
  preferences = or_else (object_at "preferences" (some fields)) payload.preferences;
  context = or_else (object_at "context" (some fields)) payload.context;
}

unfoldable pub restored :
    {F E : Type 0} → RunEnqueuedPayload F → Reply E (Option (Checkpoint F)) → RunEnqueuedPayload F
unfolding with_checkpoint
restored payload (fault e) = payload
restored payload (reply none) = payload
restored payload (reply (some cp)) = elim cp.payload [
  | none ↦ payload
  | some fields ↦ with_checkpoint fields payload
]

unfoldable pub build_resume_payload :
    {F W E : Type 0} → Option (StoreApi F W E) → String → Fields F → W → W × RunEnqueuedPayload F
unfolding from_dispatch restored
build_resume_payload none run dispatch w = (w, from_dispatch run dispatch)
build_resume_payload (some st) run dispatch w =
    let (w', cp) = st.get_checkpoint run stage_run_received w in
    (w', restored (from_dispatch run dispatch) cp)

-- The dispatch that a checkpoint holds, where it is one of a dispatched task.
unfoldable pub dispatch_of : {F : Type 0} → Checkpoint F → Option (Fields F)
unfolding object_at
dispatch_of cp =
    if str_eq cp.stage stage_bootstrap
    then object_at "dispatch" (object_at "payload" cp.payload)
    else none

module _ {F W E : Type 0} (fl : FloatOps F) where
  -- An error of the publisher skips the checkpoint; one of the store is only logged. A processor
  -- without a publisher would panic.
  unfoldable pub dispatch_again :
      Processor F W E → StoreApi F W E → Checkpoint F → Fields F → ResumeStats → W → W × ResumeStats
  dispatch_again p st cp dispatch stats w = elim p.publisher [
    | none ↦ (w, stats)
    | some publish ↦
        let (w1, e) = publish p.task_stream stream_task_dispatch dispatch w in
        elim e [
          | some e ↦ (w1, stats)
          | none ↦ (
            (st.upsert_checkpoint (record cp { retries = cp.retries + 1 }) w1).0,
            record stats { checkpoints = stats.checkpoints + 1 },
          )
        ]
  ]

  unfoldable pub resume_gated :
      Processor F W E
      → StoreApi F W E
      → Checkpoint F
      → Fields F
      → ResumeStats
      → Gate E
      → W
      → W × ResumeStats
  unfolding dispatch_again
  resume_gated p st cp dispatch stats (gate_error e) w = (w, stats)
  resume_gated p st cp dispatch stats held w = (
    (st.mark_checkpoint_status cp.run_id cp.stage status_completed w).0,
    record stats { skipped_for_approval = stats.skipped_for_approval + 1 },
  )
  resume_gated p st cp dispatch stats open_gate w = dispatch_again p st cp dispatch stats w

  unfoldable pub resume_dispatch :
      Processor F W E
      → StoreApi F W E
      → Checkpoint F
      → Option (Fields F)
      → ResumeStats
      → W
      → W × ResumeStats
  unfolding build_resume_payload resume_gated enforce_budget_gate
  resume_dispatch p st cp none stats w = (w, stats)
  resume_dispatch p st cp (some dispatch) stats w =
      let (w1, payload) = build_resume_payload p.store cp.run_id dispatch w in
      let (w2, gate) = enforce_budget_gate fl p cp.run_id payload w1 in
      resume_gated p st cp dispatch stats gate w2

  unfoldable pub resume_checkpoints :
      Processor F W E → StoreApi F W E → List (Checkpoint F) → ResumeStats → W → W × ResumeStats
  unfolding resume_dispatch dispatch_of
  resume_checkpoints p st [] stats w = (w, stats)
  resume_checkpoints p st (cp ∷ cps) stats w =
      let (w', stats') = resume_dispatch p st cp (dispatch_of cp) stats w in
      resume_checkpoints p st cps stats' w'

  -- The first part of `ResumePending`.
  unfoldable pub resume_dispatched : Processor F W E → StoreApi F W E → W → W × Reply E ResumeStats
  unfolding resume_checkpoints
  resume_dispatched p st w =
      let (w', listed) = st.list_checkpoints status_dispatched w in
      elim listed [
        | fault e ↦ (w', fault e)
        | reply cps ↦
            let (w2, stats) =
              resume_checkpoints p st cps
                (record { checkpoints = 0; reclaimed = 0; skipped_for_approval = 0 }) w' in
            (w2, reply stats)
      ]
