-- ===== src/Memory/Delta.antt =====
-- Delta of internal/memory/manager/manager.go.
use newser.Prelude.{
  ℕ, suc, Bool, true, false, not, ◌||◌, String, Option, none, some, List, [], ◌∷◌, ◌++◌, map,
  length, contains, is_nil, if◌then◌else◌, trim_space, is_empty, ◌==◌,
}
use newser.Store.{Reply, reply, fault}
use newser.Memory.{
  DeltaItem, DeltaRequest, DeltaResponse, Manager, Embed, MemoryError, manager_unavailable,
  topic_id_required, no_provider, embedding, searching_runs, searching_plans, vector_count,
}
use newser.Memory.Texts.{delta_text, key_of, extract_delta_ids}

-- The ids that count as known: trimmed, and not empty.
unfoldable pub known_keys : List String → List String
known_keys [] = []
known_keys (id ∷ ids) =
    let more = known_keys ids in
    let key = trim_space id in if is_empty key then more else key ∷ more

-- The variables of the first loop. A candidate is an item with the text to embed.
pub record Sifted (F : Type 0) : Type 0 where
  pub novel : List (DeltaItem F)
  pub duplicates : ℕ
  pub seen : List String
  pub candidates : List (DeltaItem F × String)

module _ {F : Type 0} where
  -- An item whose key is new: novel at once, or a candidate for the semantic search.
  unfoldable pub sift_new : Bool → DeltaItem F → Sifted F → Sifted F
  unfolding delta_text
  sift_new false item s = record s { novel = s.novel ++ item ∷ [] }
  sift_new true item s =
      let words = delta_text item in
      if is_empty words
      then record s { novel = s.novel ++ item ∷ [] }
      else record s { candidates = s.candidates ++ (item, words) ∷ [] }

  unfoldable pub sift_item : List String → Bool → DeltaItem F → Sifted F → Sifted F
  sift_item known semantic item s =
      let key = key_of item in
      if is_empty key
      then record s { novel = s.novel ++ item ∷ [] }
      else if contains key known || contains key s.seen
      then record s { duplicates = suc s.duplicates }
      else sift_new semantic item (record s { seen = key ∷ s.seen })

  unfoldable pub sift : List String → Bool → List (DeltaItem F) → Sifted F → Sifted F
  sift known semantic [] s = s
  sift known semantic (item ∷ items) s = sift known semantic items (sift_item known semantic item s)

  abbrev pub unsifted : Sifted F
  unsifted = record { novel = []; duplicates = 0; seen = []; candidates = [] }

  abbrev pub response : DeltaRequest F → Sifted F → DeltaResponse F
  response req s = record {
    topic_id = req.topic_id;
    novel = s.novel;
    duplicate_count = s.duplicates;
    total = length req.items;
  }

  -- `candidates[idx]` with `vectors[idx]`, for lists of one length.
  abbrev pub paired : {V : Type 0} → List (DeltaItem F × String) → List V → List (DeltaItem F × V)
  paired [] vectors = []
  paired (c ∷ cs) [] = []
  paired ((item, words) ∷ cs) (v ∷ vectors) = (item, v) ∷ paired cs vectors

abbrev pub found_steps : {W E : Type 0} → W × Reply E Bool → W × Reply (MemoryError E) Bool
found_steps (w, fault e) = (w, fault (searching_plans e))
found_steps (w, reply b) = (w, reply b)

abbrev pub keep : {F : Type 0} → DeltaItem F → DeltaResponse F → DeltaResponse F
keep item resp = record resp { novel = resp.novel ++ item ∷ [] }

abbrev pub drop_similar : {F : Type 0} → DeltaResponse F → DeltaResponse F
drop_similar resp = record resp { duplicate_count = suc resp.duplicate_count }

-- One round: what becomes of a candidate, with `rest` the loop over the others.
unfoldable pub on_similar :
    {F W E : Type 0}
    → (DeltaResponse F → W → W × Reply E (DeltaResponse F))
    → DeltaItem F
    → DeltaResponse F
    → W × Reply E Bool
    → W × Reply E (DeltaResponse F)
on_similar rest item resp (w, fault e) = (w, fault e)
on_similar rest item resp (w, reply true) = rest (drop_similar resp) w
on_similar rest item resp (w, reply false) = rest (keep item resp) w

module _ {F V T W E : Type 0} (m : Manager F V T W E) where
  -- `persistDelta`: an error of the store is only logged.
  unfoldable pub persist_delta : DeltaResponse F → W → W
  unfolding extract_delta_ids
  persist_delta resp w =
      (m.store.log_memory_delta
        record {
          topic_id = resp.topic_id;
          total_items = resp.total;
          novel_items = length resp.novel;
          duplicate_items = resp.duplicate_count;
          semantic = m.semantic_enabled;
          novel_ids = extract_delta_ids resp.novel;
        }
        w).0

  found_runs : String → List V → W × Reply E Bool → W × Reply (MemoryError E) Bool
  found_runs topic vec (w, fault e) = (w, fault (searching_runs e))
  found_runs topic vec (w, reply true) = (w, reply true)
  found_runs topic vec (w, reply false) =
      if m.delta_with_steps
      then found_steps
          (m.store.has_similar_plan_step_embedding topic vec m.delta_threshold m.delta_window w)
      else (w, reply false)

  -- Whether the store has an embedding like this one.
  unfoldable pub similar : String → List V → W → W × Reply (MemoryError E) Bool
  unfolding found_runs
  similar topic vec w =
      found_runs topic vec
        (m.store.has_similar_run_embedding topic vec m.delta_threshold m.delta_window w)

  -- The second loop, over the candidates and their vectors.
  unfoldable pub screen :
      List (DeltaItem F × List V)
      → DeltaResponse F
      → W
      → W × Reply (MemoryError E) (DeltaResponse F)
  screen [] resp w = (w, reply resp)
  screen ((item, []) ∷ cs) resp w = screen cs (keep item resp) w
  screen ((item, x ∷ vec) ∷ cs) resp w =
      on_similar (screen cs) item resp (similar resp.topic_id (x ∷ vec) w)

  unfoldable pub finish_delta :
      W × Reply (MemoryError E) (DeltaResponse F) → W × Reply (MemoryError E) (DeltaResponse F)
  finish_delta (w, fault e) = (w, fault e)
  finish_delta (w, reply resp) = (persist_delta resp w, reply resp)

  -- What follows the embedding of the candidates' texts.
  unfoldable pub screen_vectors :
      List (DeltaItem F × String)
      → DeltaResponse F
      → W × Reply E (List (List V))
      → W × Reply (MemoryError E) (DeltaResponse F)
  screen_vectors candidates resp (w, fault e) = (w, fault (embedding e))
  screen_vectors candidates resp (w, reply vectors) =
      if length vectors == length candidates
      then finish_delta (screen (paired candidates vectors) resp w)
      else (w, fault (vector_count (length vectors) (length candidates)))

  -- The embedding of the candidates. The constructor leaves the search off where it has no provider.
  unfoldable pub delta_semantic :
      Option (Embed V W E)
      → List (DeltaItem F × String)
      → DeltaResponse F
      → W
      → W × Reply (MemoryError E) (DeltaResponse F)
  delta_semantic none candidates resp w = (w, fault no_provider)
  delta_semantic (some embed) candidates resp w =
      screen_vectors candidates resp
        (embed m.embedding_model (map (λ (c : DeltaItem F × String). c.1) candidates) w)

  unfoldable pub delta_items : DeltaRequest F → W → W × Reply (MemoryError E) (DeltaResponse F)
  delta_items req w =
      let s = sift (known_keys req.known_ids) m.semantic_enabled req.items unsifted in
      if not m.semantic_enabled || is_nil s.candidates
      then finish_delta (w, reply (response req s))
      else delta_semantic m.provider s.candidates (response req s) w

-- `Delta`. For no items the code answers before the loop what the loop would leave.
unfoldable pub delta :
    {F V T W E : Type 0}
    → Option (Manager F V T W E)
    → DeltaRequest F
    → W
    → W × Reply (MemoryError E) (DeltaResponse F)
delta none req w = (w, fault manager_unavailable)
delta (some m) req w =
    if is_empty (trim_space req.topic_id) then (w, fault topic_id_required) else delta_items m req w
