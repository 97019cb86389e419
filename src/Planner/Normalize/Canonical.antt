-- ===== src/Planner/Normalize/Canonical.antt =====
-- A normalised document is valid, and normalising it again changes nothing.
use newser.Prelude.{
  ◌≡◌, refl, Bool, true, false, List, String, arith, is_nil, is_empty, distinct, sym, ◌∙◌, ap,
  if◌then◌else◌, subst,
}
use newser.Dag.Sets.{distinct-length-le}
use newser.Planner.{PlanTask, PlanDocument}
use newser.Planner.Schedule.{Hints, scheduled, cycle, out_of_fuel, compute_execution_hints}
use newser.Planner.Layers.{task_ids, hints-scheduled, length-task_ids}
use newser.Planner.Validate.{validate_plan_structure}
use newser.Planner.Normalize.{
  Normalized, plan, invalid, fuel_ran_out, normalize_document, normalize_versioned, default_version,
  store_hints, stages,
}
use newser.Planner.Normalize.Valid.{
  plan_ok, given_order_ok, given_order_ok_of_layers, validate_plan_structure-none,
}

-- What a normalised document has.
pub record IsCanonical {F : Type 0} (given doc : PlanDocument F) : Type 0 where
  pub same_tasks : doc.tasks ≡ given.tasks
  pub same_edges : doc.edges ≡ given.edges
  pub versioned : is_empty doc.version ≡ false
  pub ok : plan_ok doc ≡ true
  pub layers : List (List String)
  pub hints : compute_execution_hints doc.tasks ≡ scheduled doc.execution_order layers
  pub staged : doc.execution_layers ≡ stages 0 layers

schedule_ok :
    {F : Type 0} (tasks : List (PlanTask F)) (order : List String) (layers : List (List String))
    → distinct (task_ids tasks) ≡ true
    → compute_execution_hints tasks ≡ scheduled order layers
    → given_order_ok tasks order ≡ true
schedule_ok tasks order layers unique e =
    let (once, same, flat, ok) = hints-scheduled tasks order layers unique e in
    given_order_ok_of_layers tasks order layers once same flat ok (
      ground (
        arith,
        length-task_ids tasks,
        distinct-length-le order (task_ids tasks) once (λ k m. ground (arith, same k)),
        distinct-length-le (task_ids tasks) order unique (λ k m. ground (arith, same k)),
      ))

document_or : {F : Type 0} → PlanDocument F → Normalized F → PlanDocument F
document_or d (plan doc) = doc
document_or d (invalid issues) = d
document_or d fuel_ran_out = d

version_set : (s : String) → is_empty (if is_empty s then "v1" else s) ≡ false
version_set String.[] = refl
version_set (String.◌∷◌ c s) = refl

stored-IsCanonical :
    {F : Type 0} (given : PlanDocument F) (order : List String) (layers : List (List String))
    → plan_ok given ≡ true
    → compute_execution_hints given.tasks ≡ scheduled order layers
    → IsCanonical given (record (default_version given) {
      execution_order = order;
      execution_layers = stages 0 layers;
    })
unfolding default_version
stored-IsCanonical given order layers valid e = record {
  same_tasks = refl;
  same_edges = refl;
  versioned = version_set given.version;
  ok = ground (arith, schedule_ok given.tasks order layers (ground arith) e);
  layers = layers;
  hints = e;
  staged = refl;
}

default_version_ok :
    {F : Type 0} (given : PlanDocument F) → plan_ok (default_version given) ≡ plan_ok given
unfolding default_version
default_version_ok given = refl

stored :
    {F : Type 0} (given doc : PlanDocument F) (h : Hints)
    → plan_ok given ≡ true
    → compute_execution_hints given.tasks ≡ h
    → store_hints (default_version given) h ≡ plan doc
    → IsCanonical given doc
unfolding store_hints document_or
stored given doc (scheduled order layers) valid e h =
    subst (IsCanonical given) (ap (document_or given) h)
      (stored-IsCanonical given order layers valid e)
stored given doc (cycle names) valid e h = cc
stored given doc out_of_fuel valid e h = cc

chosen :
    {F : Type 0} (given doc : PlanDocument F) (b : Bool)
    → is_nil (validate_plan_structure (default_version given)) ≡ b
    → (if b
        then store_hints
            (default_version given)
            (compute_execution_hints (default_version given).tasks)
        else invalid (validate_plan_structure (default_version given)))
      ≡ plan doc
    → IsCanonical given doc
unfolding default_version
chosen given doc true none_found h =
    stored given doc (compute_execution_hints given.tasks)
      (sym (default_version_ok given)
        ∙ sym (validate_plan_structure-none (default_version given))
        ∙ none_found)
      refl h
chosen given doc false some_found h = cc

-- A document that normalisation returns has the given tasks and edges, a version, and the computed
-- execution order and layers, and it passes validation, this order included.
pub normalize_document-IsCanonical :
    {F : Type 0} (given doc : PlanDocument F)
    → normalize_document given ≡ plan doc
    → IsCanonical given doc
unfolding normalize_document
normalize_document-IsCanonical given doc h =
    chosen given doc (is_nil (validate_plan_structure (default_version given))) refl h

default_version_same :
    {F : Type 0} (doc : PlanDocument F) → is_empty doc.version ≡ false → default_version doc ≡ doc
unfolding default_version
default_version_same doc e = ap (λ v. record doc { version = v }) version_same
  where
    version_same : (if is_empty doc.version then "v1" else doc.version) ≡ doc.version
    version_same = rw e

canonical_fixed :
    {F : Type 0} (given doc : PlanDocument F)
    → IsCanonical given doc
    → normalize_versioned doc ≡ plan doc
unfolding normalize_versioned store_hints
canonical_fixed given doc c =
    rw (validate_plan_structure-none doc ∙ c.ok, c.hints)
      (ap (λ stages'. plan (record doc { execution_layers = stages' })) (sym c.staged))

-- Normalising a normalised document returns it as it is.
pub normalize_document_twice :
    {F : Type 0} (given doc : PlanDocument F)
    → normalize_document given ≡ plan doc
    → normalize_document doc ≡ plan doc
unfolding normalize_document
normalize_document_twice given doc h =
    let c = normalize_document-IsCanonical given doc h in
    ap normalize_versioned (default_version_same doc c.versioned) ∙ canonical_fixed given doc c
