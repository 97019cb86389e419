-- ===== src/Tests/Planner.antt =====
-- The planner on a plan of two tasks.
use newser.Prelude.{ℕ, ◌≡◌, refl, true, String, none, List, [], ◌∷◌, arith, distinct, is_nil}
use newser.Prelude.Int.{pos}
use newser.Value.{end}
use newser.Dag.{build, sources, release_all}
use newser.Dag.Counts.{deps_of}
use newser.Dag.Run.{SameNames}
use newser.Prelude.Dict.{lookup, insert, sort}
use newser.Prelude.Duration.{parse_duration}
use newser.Prelude.Show.{show_padded}
use newser.Planner.{PlanTask, PlanDocument}
use newser.Planner.Schedule.{task_nodes, compute_execution_hints, scheduled}
use newser.Planner.Hints.{LayersOk, concat}
use newser.Planner.Layers.{task_ids, hints-scheduled, hints_ranked}
use newser.Planner.Normalize.{normalize_document, plan, default_version, stage_name}
use newser.Planner.Validate.{validate_plan_structure}
use newser.Planner.Normalize.Valid.{plan_ok, validate_plan_structure-none}
use newser.Planner.Normalize.Canonical.{
  IsCanonical, normalize_document-IsCanonical, normalize_document_twice,
}

abbrev task : String → List String → PlanTask ℕ
task id deps = record {
  id = id;
  type = "research";
  name = "";
  description = "";
  priority = pos 1;
  parameters = end;
  depends_on = deps;
  timeout = "90s";
  estimated_cost = 0;
  estimated_time = "";
  estimated_tokens = pos 0;
  outputs = [];
}

abbrev pair : List (PlanTask ℕ)
pair = task "b" ("a" ∷ []) ∷ task "a" [] ∷ []

abbrev given : PlanDocument ℕ
given = record {
  version = "";
  plan_id = "p";
  created_at = "";
  updated_at = "";
  description = "";
  reasoning = "";
  confidence = 1;
  execution_order = [];
  execution_layers = [];
  tasks = pair;
  edges = record { from = "a"; to = "b"; kind = ""; condition = "" } ∷ [];
  budget = none;
  estimates = none;
  metadata = end;
}

abbrev normalized : PlanDocument ℕ
normalized = record given {
  version = "v1";
  execution_order = "a" ∷ "b" ∷ [];
  execution_layers =
      record { stage = "stage-01"; tasks = "a" ∷ []; checkpoint_token = "stage-01" }
      ∷ record { stage = "stage-02"; tasks = "b" ∷ []; checkpoint_token = "stage-02" }
      ∷ [];
}

hints-scheduled_example :
    (distinct ("a" ∷ "b" ∷ []) ≡ true)
    × SameNames ("a" ∷ "b" ∷ []) (task_ids pair)
    × (concat (("a" ∷ []) ∷ ("b" ∷ []) ∷ []) ≡ "a" ∷ "b" ∷ [])
    × LayersOk (deps_of (task_nodes pair)) [] (("a" ∷ []) ∷ ("b" ∷ []) ∷ [])
unfolding compute_execution_hints sort sources insert build release_all
hints-scheduled_example =
    hints-scheduled pair ("a" ∷ "b" ∷ []) (("a" ∷ []) ∷ ("b" ∷ []) ∷ []) refl refl

abbrev rank : String → ℕ
rank String.[] = 0
rank (String.◌∷◌ c s) = 1

hints_ranked_example :
    (order : List String) × (layers : List (List String)) × (compute_execution_hints
        (task "b" ("" ∷ []) ∷ task "" [] ∷ [])
      ≡ scheduled order layers)
hints_ranked_example =
    hints_ranked (task "b" ("" ∷ []) ∷ task "" [] ∷ []) rank refl
      (((omega arith, refl), tt), (tt, tt))

validate_plan_structure-none_example : is_nil (validate_plan_structure given) ≡ plan_ok given
validate_plan_structure-none_example = validate_plan_structure-none given

normalize_document-IsCanonical_example : IsCanonical given normalized
unfolding normalize_document validate_plan_structure default_version lookup insert parse_duration
    compute_execution_hints sort sources build release_all stage_name show_padded
normalize_document-IsCanonical_example = normalize_document-IsCanonical given normalized refl

normalize_document_twice_example : normalize_document normalized ≡ plan normalized
unfolding normalize_document validate_plan_structure default_version lookup insert parse_duration
    compute_execution_hints sort sources build release_all stage_name show_padded
normalize_document_twice_example = normalize_document_twice given normalized refl
