-- ===== src/Worker/Idempotence.antt =====
-- A message that was claimed is not handled again, whatever is handled in between.
use newser.Prelude.{String, Option, none, Bool, true, false, List, [], ◌∷◌, ◌≡◌, ap, subst, sym}
use newser.Prelude.Floats.{FloatOps}
use newser.Worker.{Message}
use newser.Worker.Calls.{StoreApi, reply, Publish, RunError}
use newser.Worker.Handle.{after_claim, handle_run_enqueued}
use newser.Worker.Gated.{processor}
use newser.Worker.Kept.{KeepsStore, KeepsPublisher, after_claim-Keeps, handle_run_enqueued-Keeps}

-- The claims of the store, which it keeps in the world: `claimed w t i` tells whether the event `i`
-- of type `t` is claimed. Nothing takes a claim back, and a claimed event is answered by false.
pub record Claims {F W E : Type 0} (st : StoreApi F W E) (publisher : Option (Publish F W E))
    : Type 0 where
  pub claimed : W → String → String → Bool
  pub claims :
      (t i : String) (w w' : W) (b : Bool)
      → st.claim_idempotency t i w ≡ (w', reply b)
      → claimed w' t i ≡ true
  pub claimed_again :
      (t i : String) (w : W) → claimed w t i ≡ true → st.claim_idempotency t i w ≡ (w, reply false)
  pub kept_store : (t i : String) → KeepsStore (λ w. claimed w t i ≡ true) st
  pub kept_publisher : (t i : String) → KeepsPublisher (λ w. claimed w t i ≡ true) publisher

module _ {F W E : Type 0} (fl : FloatOps F) (error_text : RunError E → String) (st : StoreApi F W E)
    (publisher : Option (Publish F W E)) (task_stream : String) (now : W → String) where
  -- Messages handled one after the other.
  unfoldable pub handle_all : List (Message F) → W → W
  unfolding handle_run_enqueued
  handle_all [] w = w
  handle_all (msg ∷ msgs) w =
      handle_all msgs
        (handle_run_enqueued fl error_text (processor st publisher task_stream now) msg w).0

  -- A message whose claim the store answered is handled at most once: after any other messages,
  -- handling it again leaves the world as it is, and reports no error. The store is assumed to
  -- answer a claimed event with false and to claim what it answers for, and all its operations and
  -- the publisher to take no claim back.
  pub handle_run_enqueued_twice :
      (c : Claims st publisher) (msg : Message F) (others : List (Message F)) (w w' : W) (b : Bool)
      → st.claim_idempotency msg.event_type msg.event_id w ≡ (w', reply b)
      → let p = processor st publisher task_stream now in
        let last = handle_all others (handle_run_enqueued fl error_text p msg w).0 in
        handle_run_enqueued fl error_text p msg last ≡ (last, none)
  unfolding handle_run_enqueued handle_all
  handle_run_enqueued_twice c msg others w w' b h =
      ap (λ r. after_claim fl error_text (processor st publisher task_stream now) st msg r.1 r.0)
        (c.claimed_again msg.event_type msg.event_id _ (
          kept others _ (
            subst
              (λ r.
                c.claimed
                  (after_claim fl error_text (processor st publisher task_stream now) st msg r.1
                    r.0).0
                  msg.event_type msg.event_id
                ≡ true)
              (sym h)
              (after_claim-Keeps _ fl error_text st publisher task_stream now
                (c.kept_store msg.event_type msg.event_id)
                (c.kept_publisher msg.event_type msg.event_id) msg (reply b) w'
                (c.claims msg.event_type msg.event_id w w' b h)))))
    where
      kept :
          (msgs : List (Message F)) (v : W)
          → c.claimed v msg.event_type msg.event_id ≡ true
          → c.claimed (handle_all msgs v) msg.event_type msg.event_id ≡ true
      kept [] v q = q
      kept (m ∷ ms) v q = kept ms _ (
          handle_run_enqueued-Keeps _ fl error_text st publisher task_stream now
            (c.kept_store msg.event_type msg.event_id)
            (c.kept_publisher msg.event_type msg.event_id) m v q)
