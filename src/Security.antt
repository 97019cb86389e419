-- ===== src/Security.antt =====
-- internal/policy/security.go and internal/runtime/sandbox.go: the sandbox policy, and the requests
-- that it admits.
mod Texts
pub mod Policy
pub mod Sandbox
pub mod Lists
pub mod Complies
unfoldable pub use Texts.*
use newser.Prelude.{String, Option, Bool, List}
use newser.Prelude.Int.{ℤ}

pub record NetworkPolicy : Type 0 where
  pub enabled : Bool
  pub allowlist : List String
  pub denylist : List String

-- The settings as they are read: times are texts in the policy file and nanoseconds in the
-- enforcer, so their type is an argument.
pub record SandboxPolicy (F T : Type 0) : Type 0 where
  pub provider : String
  pub image : String
  pub image_allowlist : List String
  pub cpu : F
  pub max_cpu : F
  pub memory : String
  pub max_memory : String
  pub timeout : T
  pub max_timeout : T
  pub network : NetworkPolicy
  pub env_allowlist : List String
  pub env_denylist : List String
  pub mount_readonly : List String
  pub command_allowlist : List String
