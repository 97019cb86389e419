-- ===== src/Planner.antt =====
-- internal/planner/schema.go: the plan document, its structural validation, and the layers that are
-- computed from its dependencies.
pub mod Validate
pub mod Schedule
pub mod Hints
pub mod WellFormed
pub mod Layers
pub mod Normalize
use newser.Prelude.{ℕ, String, Option, List}
use newser.Prelude.Int.{ℤ}
use newser.Value.{Fields}

pub record PlanStage : Type 0 where
  pub stage : String
  pub tasks : List String
  pub checkpoint_token : String

pub record PlanTask (F : Type 0) : Type 0 where
  pub id : String
  pub type : String
  pub name : String
  pub description : String
  pub priority : ℤ
  pub parameters : Fields F
  pub depends_on : List String
  pub timeout : String
  pub estimated_cost : F
  pub estimated_time : String
  pub estimated_tokens : ℤ
  pub outputs : List String

pub record PlanEdge : Type 0 where
  pub from : String
  pub to : String
  pub kind : String
  pub condition : String

pub record PlanBudget (F : Type 0) : Type 0 where
  pub max_cost : F
  pub max_time : String
  pub max_tokens : ℤ

pub record PlanEstimates (F : Type 0) : Type 0 where
  pub total_cost : F
  pub total_time : String
  pub total_tokens : ℤ

pub record PlanDocument (F : Type 0) : Type 0 where
  pub version : String
  pub plan_id : String
  pub created_at : String
  pub updated_at : String
  pub description : String
  pub reasoning : String
  pub confidence : F
  pub execution_order : List String
  pub execution_layers : List PlanStage
  pub tasks : List (PlanTask F)
  pub edges : List PlanEdge
  pub budget : Option (PlanBudget F)
  pub estimates : Option (PlanEstimates F)
  pub metadata : Fields F

-- A `ValidationError`, as the place that its path names and the reason that its message gives.
pub data Issue : Type 0 where
  no_tasks : Issue
  duplicate_id : ℕ → String → ℕ → Issue
  self_dependency : ℕ → ℕ → Issue
  unknown_dependency : ℕ → ℕ → String → Issue
  duplicate_dependency : ℕ → ℕ → String → Issue
  invalid_timeout : ℕ → String → Issue
  invalid_estimated_time : ℕ → String → Issue
  unknown_from : ℕ → String → Issue
  unknown_to : ℕ → String → Issue
  edge_to_itself : ℕ → Issue
  invalid_max_time : String → Issue
  invalid_total_time : String → Issue
  unknown_scheduled : ℕ → String → Issue
  already_scheduled : ℕ → String → ℕ → Issue
  dependency_too_late : ℕ → String → String → Issue
  missing_tasks : List String → Issue
  unknown_tasks : List String → Issue
  dependency_cycle : List String → Issue
