-- ===== src/Planner/Normalize.antt =====
-- The part of NormalizePlanDocument (internal/planner/schema.go) that follows the decoding: the
-- version's default, validation, and the execution hints that it stores in the document.
pub mod Valid
pub mod Canonical
use newser.Prelude.{
  ℕ, suc, Bool, true, false, String, List, [], ◌∷◌, if◌then◌else◌, is_empty, is_nil,
}
use newser.Prelude.Show.{show_padded, append}
use newser.Planner.{PlanDocument, PlanStage, Issue, dependency_cycle}
use newser.Planner.Validate.{validate_plan_structure}
use newser.Planner.Schedule.{Hints, scheduled, cycle, out_of_fuel, compute_execution_hints}

pub data Normalized (F : Type 0) : Type 0 where
  plan : PlanDocument F → Normalized F
  invalid : List Issue → Normalized F
  fuel_ran_out : Normalized F

-- `fmt.Sprintf("stage-%02d", i+1)`, for the `i`th layer.
unfoldable pub stage_name : ℕ → String
stage_name i = append "stage-" (show_padded (suc i))

unfoldable pub stages : ℕ → List (List String) → List PlanStage
stages i [] = []
stages i (group ∷ groups) =
    record { stage = stage_name i; tasks = group; checkpoint_token = stage_name i }
    ∷ stages (suc i) groups

unfoldable pub default_version : {F : Type 0} → PlanDocument F → PlanDocument F
default_version doc = record doc { version = if is_empty doc.version then "v1" else doc.version }

unfoldable pub store_hints : {F : Type 0} → PlanDocument F → Hints → Normalized F
unfolding stages
store_hints doc (scheduled order layers) =
    plan (record doc { execution_order = order; execution_layers = stages 0 layers })
store_hints doc (cycle names) = invalid (dependency_cycle names ∷ [])
store_hints doc out_of_fuel = fuel_ran_out

-- Validation, then the hints.
unfoldable pub normalize_versioned : {F : Type 0} → PlanDocument F → Normalized F
unfolding store_hints
normalize_versioned doc =
    let issues = validate_plan_structure doc in
    if is_nil issues then store_hints doc (compute_execution_hints doc.tasks) else invalid issues

unfoldable pub normalize_document : {F : Type 0} → PlanDocument F → Normalized F
unfolding normalize_versioned
normalize_document given = normalize_versioned (default_version given)
