-- ===== src/Agents.antt =====
-- The tasks and results of internal/agent/core/types.go.
pub mod Cycles
pub mod Acyclic
pub mod Visits
pub mod Decides
pub mod Validate
pub mod Rounds
pub mod Execute
pub mod Ready
pub mod Progress
pub mod Unstuck
pub mod Traces
use newser.Prelude.{ℕ, Bool, String, Option, List}
use newser.Prelude.Int.{ℤ}
use newser.Value.{Fields}

-- `AgentTask`; the timeout in nanoseconds.
pub record AgentTask (F T : Type 0) : Type 0 where
  pub id : String
  pub type : String
  pub description : String
  pub priority : ℤ
  pub parameters : Fields F
  pub depends_on : List String
  pub timeout : ℤ
  pub created_at : T

-- `Source`.
pub record Source (F T : Type 0) : Type 0 where
  pub id : String
  pub title : String
  pub url : String
  pub type : String
  pub credibility : F
  pub published_at : T
  pub extracted_at : T
  pub content : String
  pub summary : String
  pub tags : List String

-- `AgentResult`; the processing time in nanoseconds.
pub record AgentResult (F T : Type 0) : Type 0 where
  pub id : String
  pub task_id : String
  pub agent_type : String
  pub success : Bool
  pub values : Fields F
  pub sources : List (Source F T)
  pub confidence : F
  pub error : String
  pub processing_time : ℤ
  pub cost : F
  pub tokens_used : ℤ
  pub model_used : String
  pub prompt : String
  pub created_at : T
