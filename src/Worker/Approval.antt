-- ===== src/Worker/Approval.antt =====
-- What the budget gate of internal/worker/processor.go lets pass, and what a held run leaves undone.
use newser.Prelude.{
  String, Option, none, some, Bool, true, false, ◌≡◌, ◌↔◌, refl, sym, subst, arith, not, is_empty,
  ◌||◌, ◌≢◌, if◌then◌else◌,
}
use newser.Prelude.Floats.{FloatOps}
use newser.Budget.{Config, is_zero}
use newser.Worker.{RunEnqueuedPayload, Message}
use newser.Worker.Calls.{StoreApi, Reply, reply, fault, Publish, RunError}
use newser.Worker.Gate.{
  Gate, open_gate, held, gate_error, Processor, enforce_budget_gate, gate_config, hold_run,
  create_request,
}
use newser.Worker.Gated.{KeepsGate, KeepsAnnounce, processor, gate-Keeps}
use newser.Worker.Handle.{handle_run_enqueued, after_claim, handle_payload, gated_run, pass_gate}

-- Whether the answer of the store lets a run go on.
abbrev pub lets_pass : {F E : Type 0} → Reply E (Option (Config F)) → Bool
lets_pass (fault e) = false
lets_pass (reply none) = true
lets_pass (reply (some cfg)) = not cfg.require_approval

-- The answer is a budget that requires approval, whatever else it says.
abbrev pub asks_approval : {F E : Type 0} → Reply E (Option (Config F)) → Bool
asks_approval (fault e) = false
asks_approval (reply none) = false
asks_approval (reply (some cfg)) = cfg.require_approval

-- An empty budget requires no approval.
is_zero-require_approval :
    {F : Type 0} (fl : FloatOps F) (cfg : Config F)
    → is_zero fl cfg ≡ true
    → cfg.require_approval ≡ false
unfolding is_zero
is_zero-require_approval fl cfg h = ground arith

module _ {F W E : Type 0} (fl : FloatOps F) where
  create_request-closed :
      (p : Processor F W E) (st : StoreApi F W E) (cfg : Config F) (run : String)
      (payload : RunEnqueuedPayload F) (r : Reply E (Option String)) (w : W)
      → (create_request fl p st cfg run payload r w).1 ≢ open_gate
  unfolding create_request
  create_request-closed p st cfg run payload (reply (some x)) w = ground arith
  create_request-closed p st cfg run payload (reply none) w = ground arith
  create_request-closed p st cfg run payload (fault e) w = ground arith

  hold_run-closed :
      (p : Processor F W E) (st : StoreApi F W E) (cfg : Config F) (run : String)
      (payload : RunEnqueuedPayload F) (w : W)
      → (hold_run fl p st cfg run payload w).1 ≢ open_gate
  unfolding hold_run
  hold_run-closed p st cfg run payload w h = ground (
    arith,
    create_request-closed p st cfg run payload
        (st.get_pending_budget_approval payload.topic_id (st.mark_run_pending_approval run w).0).1
        (st.get_pending_budget_approval payload.topic_id (st.mark_run_pending_approval run w).0).0,
  )

module _ {F W E : Type 0} (fl : FloatOps F) (error_text : RunError E → String) (st : StoreApi F W E)
    (publisher : Option (Publish F W E)) (task_stream : String) (now : W → String) where
  answered :
      (run : String) (payload : RunEnqueuedPayload F) (r : Reply E (Option (Config F))) (w : W)
      → ((gate_config fl (processor st publisher task_stream now) st run payload r w).1 ≡ open_gate)
        ↔ (lets_pass r ≡ true)
  unfolding gate_config
  answered run payload (fault e) w = ground arith
  answered run payload (reply none) w = ground arith
  answered run payload (reply (some cfg)) w = ground (
    arith,
    is_zero-require_approval fl cfg,
    hold_run-closed fl (processor st publisher task_stream now) st cfg run payload w,
  )

  -- The budget gate opens exactly for a run without a topic, and where the store answers that the
  -- topic has no budget or one that requires no approval, whatever limits that budget has.
  pub enforce_budget_gate-open :
      (run : String) (payload : RunEnqueuedPayload F) (w : W)
      → let p = processor st publisher task_stream now in
        ((enforce_budget_gate fl p run payload w).1 ≡ open_gate) ↔ (
          (is_empty payload.topic_id || lets_pass (st.get_topic_budget_config payload.topic_id w).1)
          ≡ true)
  unfolding enforce_budget_gate
  enforce_budget_gate-open run payload w = ground (
    arith,
    answered run payload (st.get_topic_budget_config payload.topic_id w).1
        (st.get_topic_budget_config payload.topic_id w).0,
  )

module _ {F W E : Type 0} (P : W → Type 0) (fl : FloatOps F) (error_text : RunError E → String)
    (st : StoreApi F W E) (publisher : Option (Publish F W E)) (task_stream : String)
    (now : W → String) (k : KeepsGate P st) (pk : KeepsAnnounce P publisher) where
  stopped :
      (msg : Message F) (run : String) (payload : RunEnqueuedPayload F) (gate : Gate E) (w : W)
      → gate ≢ open_gate
      → P w
      → P
          (pass_gate fl error_text
            (processor st publisher task_stream now)
            st
            msg
            run
            payload
            gate
            w).0
  unfolding pass_gate
  stopped msg run payload (gate_error e) w h q = q
  stopped msg run payload held w h q = q
  stopped msg run payload open_gate w h q = elim (h refl) [ ]

  asked-closed :
      (run : String) (payload : RunEnqueuedPayload F) (r : Reply E (Option (Config F))) (w : W)
      → asks_approval r ≡ true
      → is_empty payload.topic_id ≡ false
      → (st.get_topic_budget_config payload.topic_id w).1 ≡ r
      → (enforce_budget_gate fl (processor st publisher task_stream now) run payload w).1
        ≢ open_gate
  asked-closed run payload (fault e) w a t c o = absurd (ground arith)
  asked-closed run payload (reply none) w a t c o = absurd (ground arith)
  asked-closed run payload (reply (some cfg)) w a t c o =
      let passes =
        (enforce_budget_gate-open fl error_text st publisher task_stream now run payload w).0 o in
      absurd (let no = rw (t, c) at passes in ground arith)

  gated_run-closed :
      (msg : Message F) (payload : RunEnqueuedPayload F) (run : Reply E String) (w : W)
      → is_empty payload.topic_id ≡ false
      → asks_approval (st.get_topic_budget_config payload.topic_id w).1 ≡ true
      → P w
      → P (gated_run fl error_text (processor st publisher task_stream now) st msg payload run w).0
  unfolding gated_run
  gated_run-closed msg payload (fault e) w t a q = q
  gated_run-closed msg payload (reply run) w t a q =
      stopped msg run payload _ _ (asked-closed run payload _ w a t refl)
        (gate-Keeps P fl st publisher task_stream now k pk run payload w q)

  -- A property of the world that implies that the topic's budget requires approval, and that is kept
  -- by claiming a message, by creating a run and by the calls of the gate, holds after a message for
  -- a run of the topic is handled, with a run id or without, and whatever errors come up. The calls
  -- that write a checkpoint or publish a dispatch need not keep it: neither is made.
  pub handle_run_enqueued-held :
      ((a b : String) (w : W) → P w → P (st.claim_idempotency a b w).0)
      → ((a b : String) (w : W) → P w → P (st.create_run a b w).0)
      → (msg : Message F) (payload : RunEnqueuedPayload F) (w : W) → msg.payload ≡ some payload
      → is_empty payload.topic_id ≡ false
      → ((w : W) → P w → asks_approval (st.get_topic_budget_config payload.topic_id w).1 ≡ true)
      → P w
      → P (handle_run_enqueued fl error_text (processor st publisher task_stream now) msg w).0
  unfolding handle_run_enqueued after_claim handle_payload
  handle_run_enqueued-held claimed created msg payload w e t asks q =
      let got = st.claim_idempotency msg.event_type msg.event_id w in
      claim_made got.1 got.0 (claimed msg.event_type msg.event_id w q)
    where
      named :
          (b : Bool) (w : W)
          → P w
          → let made =
              if b then st.create_run payload.topic_id "pending" w else (w, reply payload.run_id) in
            P
              (gated_run fl error_text
                (processor st publisher task_stream now)
                st
                msg
                payload
                made.1
                made.0).0
      named true w q =
          let made = st.create_run payload.topic_id "pending" w in
          let q' = created payload.topic_id "pending" w q in
          gated_run-closed msg payload made.1 made.0 t (asks made.0 q') q'
      named false w q = gated_run-closed msg payload (reply payload.run_id) w t (asks w q) q

      claim_made :
          (c : Reply E Bool) (w : W)
          → P w
          → P (after_claim fl error_text (processor st publisher task_stream now) st msg c w).0
      claim_made (fault x) w q = q
      claim_made (reply false) w q = q
      claim_made (reply true) w q =
          subst
            (λ m.
              P
                (handle_payload fl error_text (processor st publisher task_stream now) st msg m
                  w).0)
            (sym e) (named (is_empty payload.run_id) w q)
