-- ===== src/Worker/Gate.antt =====
-- enforceBudgetGate of internal/worker/processor.go.
use newser.Prelude.{String, Option, none, some, not, if◌then◌else◌, is_empty, trim_space}
use newser.Prelude.Floats.{FloatOps}
use newser.Value.{Fields, end, field, text, float, bool}
use newser.Budget.{Config, is_zero}
use newser.Worker.{RunEnqueuedPayload, stream_budget_approval}
use newser.Worker.Calls.{
  StoreApi, Reply, reply, fault, Publish, WorkError, loading_budget, marking_pending,
  creating_approval,
}

-- The gate's answer: let the run go on, hold it for approval, or an error.
pub data Gate (E : Type 0) : Type 0 where
  open_gate held : Gate E
  gate_error : WorkError E → Gate E

pub record Processor (F W E : Type 0) : Type 0 where
  pub store : Option (StoreApi F W E)
  pub publisher : Option (Publish F W E)
  pub task_stream : String
  pub now : W → String  -- the current time as RFC 3339 text

abbrev pub requester : {F : Type 0} → RunEnqueuedPayload F → String
requester payload = if is_empty (trim_space payload.user_id) then "system" else payload.user_id

module _ {F : Type 0} (fl : FloatOps F) where
  abbrev pub threshold_of : Config F → F
  threshold_of cfg = elim cfg.approval_threshold [ none ↦ fl.zero_f | some t ↦ t ]

  unfoldable approval_event : Config F → String → RunEnqueuedPayload F → String → Fields F
  approval_event cfg run payload now = field "run_id" (text run) (
      field "topic_id" (text payload.topic_id) (
        field "requested_by" (text (requester payload)) (
          field "estimated_cost" (float fl.zero_f) (
            field "threshold" (float (threshold_of cfg)) (
              field "require_approval" (bool cfg.require_approval)
                (field "created_at" (text now) end))))))

module _ {F W E : Type 0} (fl : FloatOps F) where
  -- A failed publication is only logged.
  unfoldable pub announce : Processor F W E → Config F → String → RunEnqueuedPayload F → W → W
  unfolding approval_event
  announce p cfg run payload w = elim p.publisher [
    | none ↦ w
    | some publish ↦
        (publish stream_budget_approval stream_budget_approval
          (approval_event fl cfg run payload (p.now w)) w).0
  ]

  -- A new approval request, unless one is pending for the topic. An error of the query counts as
  -- none pending.
  unfoldable pub create_request :
      Processor F W E
      → StoreApi F W E
      → Config F
      → String
      → RunEnqueuedPayload F
      → Reply E (Option String)
      → W
      → W × Gate E
  unfolding announce
  create_request p st cfg run payload (reply (some existing)) w = (w, held)
  create_request p st cfg run payload _ w =
      let (w', e) =
        st.create_budget_approval run payload.topic_id (requester payload) fl.zero_f
          (threshold_of fl cfg) w in
      elim e [
        | some e ↦ (w', gate_error (creating_approval e))
        | none ↦ (announce p cfg run payload w', held)
      ]

  -- The run is marked pending before anything else is asked.
  unfoldable pub hold_run :
      Processor F W E → StoreApi F W E → Config F → String → RunEnqueuedPayload F → W → W × Gate E
  unfolding create_request
  hold_run p st cfg run payload w =
      let (w1, e) = st.mark_run_pending_approval run w in
      elim e [
        | some e ↦ (w1, gate_error (marking_pending e))
        | none ↦
            let (w2, pending) = st.get_pending_budget_approval payload.topic_id w1 in
            create_request p st cfg run payload pending w2
      ]

  unfoldable pub gate_config :
      Processor F W E
      → StoreApi F W E
      → String
      → RunEnqueuedPayload F
      → Reply E (Option (Config F))
      → W
      → W × Gate E
  unfolding hold_run
  gate_config p st run payload (fault e) w = (w, gate_error (loading_budget e))
  gate_config p st run payload (reply none) w = (w, open_gate)
  gate_config p st run payload (reply (some cfg)) w =
      if is_zero fl cfg
      then (w, open_gate)
      else if not cfg.require_approval
      then (w, open_gate)
      else hold_run p st cfg run payload w

  unfoldable pub enforce_budget_gate :
      Processor F W E → String → RunEnqueuedPayload F → W → W × Gate E
  unfolding gate_config
  enforce_budget_gate p run payload w = elim p.store [
    | none ↦ (w, open_gate)
    | some st ↦
        if is_empty payload.topic_id
        then (w, open_gate)
        else (let (w', cfg) = st.get_topic_budget_config payload.topic_id w in
            gate_config p st run payload cfg w')
  ]
