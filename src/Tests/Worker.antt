-- ===== src/Tests/Worker.antt =====
-- The worker on a store that keeps only the claims.
use newser.Prelude.{
  ℕ, ◌≡◌, ◌↔◌, ◌+◌, refl, Bool, true, false, String, Option, none, some, List, [], ◌∷◌, arith,
  str_eq, eq_iff, ap, sym, ◌∙◌, ◌&&◌, ◌||◌, if◌then◌else◌, is_empty, Bool-cases, inl, inr, ◌==◌,
}
use newser.Value.{end, field, text}
use newser.Store.{Checkpoint}
use newser.Budget.{Config}
use newser.Budget.Overlay.{silent}
use newser.Executor.{fill_task, task_of}
use newser.Executor.Store.{start_checkpoint}
use newser.Worker.{RunEnqueuedPayload, Message, ResumeStats, stage_bootstrap}
use newser.Worker.Calls.{StoreApi, Reply, reply, Publish, RunError}
use newser.Worker.Gate.{open_gate, enforce_budget_gate}
use newser.Worker.Handle.{handle_run_enqueued, run_checkpoint, task_payload, bootstrap_graph}
use newser.Worker.Gated.{processor}
use newser.Worker.Idempotence.{Claims, handle_all, handle_run_enqueued_twice}
use newser.Worker.Approval.{lets_pass, enforce_budget_gate-open, handle_run_enqueued-held}
use newser.Worker.Resume.{build_resume_payload}
use newser.Worker.Resumed.{build_resume_payload-task_payload}
use newser.Tests.Floats.{exact}

abbrev World : Type 0
World = List (String × String)

abbrev claimed : World → String → String → Bool
claimed [] t i = false
claimed ((a, b) ∷ w) t i = str_eq a t && str_eq b i || claimed w t i

abbrev claim : String → String → World → World × Reply String Bool
claim t i w = if claimed w t i then (w, reply false) else ((t, i) ∷ w, reply true)

abbrev payload : RunEnqueuedPayload ℕ
payload = record {
  run_id = "r";
  topic_id = "t";
  user_id = "u";
  trigger = "manual";
  preferences = some (field "lang" (text "en") end);
  context = none;
}

-- A store that answers with this budget, and with the checkpoint of this run.
abbrev store : Option (Config ℕ) → StoreApi ℕ World String
store budget = record {
  claim_idempotency = claim;
  upsert_checkpoint = λ cp w. (w, none);
  get_checkpoint = λ run stage w. (w, reply (some (run_checkpoint "r" payload "e:r")));
  list_checkpoints = λ status w. (w, reply []);
  mark_checkpoint_status = λ run stage status w. (w, none);
  create_run = λ topic status w. (w, reply "new");
  get_topic_budget_config = λ topic w. (w, reply budget);
  get_pending_budget_approval = λ topic w. (w, reply none);
  mark_run_pending_approval = λ run w. (w, none);
  create_budget_approval = λ run topic user cost threshold w. (w, none);
}

abbrev publish : Publish ℕ World String
publish stream event_type m w = (w, none)

abbrev message : Message ℕ
message = record { id = "1-0"; event_type = "run.enqueued"; event_id = "e"; payload = some payload }

claim_claims : (t i : String) (w : World) → claimed (claim t i w).0 t i ≡ true
claim_claims t i w = elim (Bool-cases (claimed w t i)) [
  | inl e ↦ ground arith
  | inr e ↦ ground (arith, eq_iff t t, eq_iff i i)
]

claim_keeps :
    (t i a b : String) (w : World) → claimed w t i ≡ true → claimed (claim a b w).0 t i ≡ true
claim_keeps t i a b w h = elim (Bool-cases (claimed w a b)) [
  | inl e ↦ ground arith
  | inr e ↦ ground arith
]

abbrev error_text : RunError String → String
error_text e = "failed"

store-Claims : (budget : Option (Config ℕ)) → Claims (store budget) (some publish)
store-Claims budget = record {
  claimed = claimed;
  claims = λ t i w w' b h. ap (λ r. claimed r.0 t i) (sym h) ∙ claim_claims t i w;
  claimed_again = λ t i w h. ap (λ c. if c then (w, reply false) else ((t, i) ∷ w, reply true)) h;
  kept_store = λ t i. record {
    claim = λ a b w h. claim_keeps t i a b w h;
    upsert = λ cp w h. h;
    create = λ a b w h. h;
    budget = λ a w h. h;
    pending = λ a w h. h;
    mark = λ a w h. h;
    approval = λ a b c x y w h. h;
  };
  kept_publisher = λ t i a b m w h. h;
}

handle_run_enqueued_twice_example :
    let p = processor (store none) (some publish) "task.dispatch" (λ w. "now") in
    let last =
      handle_all exact error_text
        (store none)
        (some publish)
        "task.dispatch"
        (λ w. "now")
        (message ∷ [])
        (handle_run_enqueued exact error_text p message []).0 in
    handle_run_enqueued exact error_text p message last ≡ (last, none)
handle_run_enqueued_twice_example =
    handle_run_enqueued_twice exact error_text (store none) (some publish) "task.dispatch"
      (λ w. "now") (store-Claims none) message (message ∷ []) [] (("run.enqueued", "e") ∷ []) true
      refl

abbrev strict : Config ℕ
strict = record silent { require_approval = true }

abbrev answer : Option (Config ℕ) → Reply String (Option (Config ℕ))
answer budget = reply budget

enforce_budget_gate-open_example :
    let p = processor (store (some strict)) (some publish) "task.dispatch" (λ w. "now") in
    ((enforce_budget_gate exact p "r" payload []).1 ≡ open_gate)
    ↔ ((is_empty "t" || lets_pass (answer (some strict))) ≡ true)
enforce_budget_gate-open_example =
    enforce_budget_gate-open exact error_text (store (some strict)) (some publish) "task.dispatch"
      (λ w. "now") "r" payload []

-- A store with the two counts that a worker can change: the checkpoints and dispatches that are
-- written, and the checkpoints that are closed.
abbrev counting : Option (Config ℕ) → StoreApi ℕ (ℕ × ℕ) String
counting budget = record {
  claim_idempotency = λ t i w. (w, reply true);
  upsert_checkpoint = λ cp w. (w, none);
  get_checkpoint = λ run stage w. (w, reply (some (run_checkpoint "r" payload "e:r")));
  list_checkpoints = λ status w. (w, reply []);
  mark_checkpoint_status = λ run stage status w. ((w.0, w.1 + 1), none);
  create_run = λ topic status w. (w, reply "new");
  get_topic_budget_config = λ topic w. (w, reply budget);
  get_pending_budget_approval = λ topic w. (w, reply none);
  mark_run_pending_approval = λ run w. (w, none);
  create_budget_approval = λ run topic user cost threshold w. (w, none);
}

-- A store that writes checkpoints.
abbrev writing : Option (Config ℕ) → StoreApi ℕ (ℕ × ℕ) String
writing budget = record (counting budget) { upsert_checkpoint = λ cp w. ((w.0 + 1, w.1), none) }

-- The first dispatch goes through, and no other.
abbrev sending : Publish ℕ (ℕ × ℕ) String
sending stream event_type m w =
    if str_eq event_type "task.dispatch"
    then (if w.0 == 0 then ((1, w.1), none) else (w, some "down"))
    else (w, none)

abbrev anonymous : RunEnqueuedPayload ℕ
anonymous = record payload { run_id = "" }

-- A run that waits for approval, and has no id: nothing is written and nothing sent.
handle_run_enqueued-held_example :
    let p = processor (writing (some strict)) (some sending) "task.dispatch" (λ w. "now") in
    (handle_run_enqueued exact error_text p
      (record message { payload = some anonymous })
      (0, 0)).0.0
    ≡ 0
handle_run_enqueued-held_example =
    handle_run_enqueued-held (λ w. w.0 ≡ 0) exact error_text (writing (some strict)) (some sending)
      "task.dispatch" (λ w. "now")
      (record {
        budget = λ a w h. h;
        pending = λ a w h. h;
        mark = λ a w h. h;
        approval = λ a b c x y w h. h;
      })
      (λ m w h. h) (λ a b w h. h) (λ a b w h. h) (record message { payload = some anonymous })
      anonymous (0, 0) refl refl (λ w h. refl) refl

build_resume_payload-task_payload_example :
    (build_resume_payload (some (store none)) "r" (task_payload "r" "k" payload) []).1 ≡ payload
build_resume_payload-task_payload_example =
    build_resume_payload-task_payload (store none) "r" "e:r" "k" payload [] refl

abbrev no_stats : ResumeStats
no_stats = record { checkpoints = 0; reclaimed = 0; skipped_for_approval = 0 }

abbrev waiting : List (Checkpoint ℕ)
waiting =
    start_checkpoint "r" (fill_task (task_of (bootstrap_graph "r" "k" payload) stage_bootstrap)) 0
    ∷ run_checkpoint "r" payload "e:r"
    ∷ []
