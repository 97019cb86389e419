-- ===== src/Worker/Gated.antt =====
-- What the calls of the budget gate keep, the gate of internal/worker/processor.go keeps. Nothing is
-- asked of the calls that a gate does not make.
use newser.Prelude.{String, Option, none, some, Bool, true, false, is_empty, if◌then◌else◌, not}
use newser.Prelude.Floats.{FloatOps}
use newser.Value.{Fields}
use newser.Budget.{Config, is_zero}
use newser.Worker.{RunEnqueuedPayload, stream_budget_approval}
use newser.Worker.Calls.{StoreApi, Reply, reply, fault, Publish, creating_approval, marking_pending}
use newser.Worker.Gate.{
  Gate, open_gate, held, gate_error, Processor, enforce_budget_gate, gate_config, hold_run,
  create_request, announce,
}

-- Every call that the gate makes of the store keeps a property of the world.
pub record KeepsGate {F W E : Type 0} (P : W → Type 0) (st : StoreApi F W E) : Type 0 where
  pub budget : (a : String) (w : W) → P w → P (st.get_topic_budget_config a w).0
  pub pending : (a : String) (w : W) → P w → P (st.get_pending_budget_approval a w).0
  pub mark : (a : String) (w : W) → P w → P (st.mark_run_pending_approval a w).0
  pub approval :
      (a b c : String) (x y : F) (w : W) → P w → P (st.create_budget_approval a b c x y w).0

-- So does the announcement of an approval.
abbrev pub KeepsAnnounce : {F W E : Type 0} → (W → Type 0) → Option (Publish F W E) → Type 0
KeepsAnnounce P none = Unit
KeepsAnnounce {F} {W} P (some publish) =
    (m : Fields F) (w : W) → P w → P (publish stream_budget_approval stream_budget_approval m w).0

module _ {F W E : Type 0} (P : W → Type 0) (fl : FloatOps F) (st : StoreApi F W E)
    (p : Processor F W E) (k : KeepsGate P st) (pk : KeepsAnnounce P p.publisher) where
  announced :
      (publisher : Option (Publish F W E)) (cfg : Config F) (run : String)
      (payload : RunEnqueuedPayload F) (w : W)
      → KeepsAnnounce P publisher
      → P w
      → P (announce fl (record p { publisher = publisher }) cfg run payload w)
  unfolding announce
  announced none cfg run payload w pk q = q
  announced (some publish) cfg run payload w pk q = pk _ w q

  requested :
      (cfg : Config F) (run : String) (payload : RunEnqueuedPayload F) (made : W × Option E)
      → P made.0
      → P
          (elim made.1 as (λ _. W × Gate E) [
            | some e ↦ (made.0, gate_error (creating_approval e))
            | none ↦ (announce fl p cfg run payload made.0, held)
          ]).0
  requested cfg run payload (w, some e) q = q
  requested cfg run payload (w, none) q = announced p.publisher cfg run payload w pk q

  create_request-Keeps :
      (cfg : Config F) (run : String) (payload : RunEnqueuedPayload F) (r : Reply E (Option String))
      (w : W)
      → P w
      → P (create_request fl p st cfg run payload r w).0
  unfolding create_request
  create_request-Keeps cfg run payload (reply (some x)) w q = q
  create_request-Keeps cfg run payload (reply none) w q =
      requested cfg run payload _ (k.approval _ _ _ _ _ w q)
  create_request-Keeps cfg run payload (fault e) w q =
      requested cfg run payload _ (k.approval _ _ _ _ _ w q)

  marked :
      (cfg : Config F) (run : String) (payload : RunEnqueuedPayload F) (made : W × Option E)
      → P made.0
      → P
          (elim made.1 as (λ _. W × Gate E) [
            | some e ↦ (made.0, gate_error (marking_pending e))
            | none ↦
                let (w2, pending) = st.get_pending_budget_approval payload.topic_id made.0 in
                create_request fl p st cfg run payload pending w2
          ]).0
  marked cfg run payload (w, some e) q = q
  marked cfg run payload (w, none) q = create_request-Keeps cfg run payload _ _ (k.pending _ w q)

  gate_config-Keeps :
      (run : String) (payload : RunEnqueuedPayload F) (r : Reply E (Option (Config F))) (w : W)
      → P w
      → P (gate_config fl p st run payload r w).0
  unfolding gate_config hold_run
  gate_config-Keeps run payload (fault e) w q = q
  gate_config-Keeps run payload (reply none) w q = q
  gate_config-Keeps run payload (reply (some cfg)) w q = gated (is_zero fl cfg) cfg.require_approval
    where
      gated :
          (zero? approval : Bool)
          → P
              (if zero?
                then (w, open_gate)
                else if not approval
                then (w, open_gate)
                else hold_run fl p st cfg run payload w).0
      gated true approval = q
      gated false false = q
      gated false true = marked cfg run payload _ (k.mark run w q)

  gated_topic :
      (run : String) (payload : RunEnqueuedPayload F) (no_topic : Bool) (w : W)
      → P w
      → P
          (if no_topic
            then (w, open_gate)
            else gate_config fl p st run payload
                (st.get_topic_budget_config payload.topic_id w).1
                (st.get_topic_budget_config payload.topic_id w).0).0
  gated_topic run payload true w q = q
  gated_topic run payload false w q = gate_config-Keeps run payload _ _ (k.budget _ w q)

abbrev pub processor :
    {F W E : Type 0}
    → StoreApi F W E
    → Option (Publish F W E)
    → String
    → (W → String)
    → Processor F W E
processor st publisher task_stream now = record {
  store = some st;
  publisher = publisher;
  task_stream = task_stream;
  now = now;
}

module _ {F W E : Type 0} (P : W → Type 0) (fl : FloatOps F) (st : StoreApi F W E)
    (publisher : Option (Publish F W E)) (task_stream : String) (now : W → String)
    (k : KeepsGate P st) (pk : KeepsAnnounce P publisher) where
  pub gate-Keeps :
      (run : String) (payload : RunEnqueuedPayload F) (w : W)
      → P w
      → P (enforce_budget_gate fl (processor st publisher task_stream now) run payload w).0
  unfolding enforce_budget_gate
  gate-Keeps run payload w q =
      gated_topic P fl st (processor st publisher task_stream now) k pk run payload
        (is_empty payload.topic_id) w q
