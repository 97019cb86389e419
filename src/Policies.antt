-- ===== src/Policies.antt =====
-- The topic policies of internal/policy/policy.go, and the configuration that they are made of:
-- config/fairness.go and config/crawl_policy.go.
pub mod Hosts
pub mod Fairness
pub mod Crawl
pub mod Bounds
pub mod Rules
use newser.Prelude.{Bool, true, false, ◌||◌, not, String, Option, none, some, str_eq, if◌then◌else◌}
use newser.Prelude.Int.{ℤ, pos, ltb_ℤ}
use newser.Value.{Fields, end}

abbrev pub repeat_mode_adaptive : String
repeat_mode_adaptive = "adaptive"

abbrev pub repeat_mode_always : String
repeat_mode_always = "always"

abbrev pub repeat_mode_manual : String
repeat_mode_manual = "manual"

-- `RepeatMode.Valid`.
unfoldable pub valid : String → Bool
valid mode =
    str_eq mode repeat_mode_adaptive
    || str_eq mode repeat_mode_always
    || str_eq mode repeat_mode_manual

-- `UpdatePolicy`; durations in nanoseconds.
pub record UpdatePolicy (F : Type 0) : Type 0 where
  pub refresh_interval : ℤ
  pub dedup_window : ℤ
  pub repeat_mode : String
  pub freshness_threshold : ℤ
  pub metadata : Option (Fields F)

-- `NewDefault`.
unfoldable pub new_default : {F : Type 0} → UpdatePolicy F
new_default = record {
  refresh_interval = pos 0;
  dedup_window = pos 0;
  repeat_mode = repeat_mode_adaptive;
  freshness_threshold = pos 0;
  metadata = some end;
}

pub data PolicyError : Type 0 where
  negative_refresh negative_window negative_freshness : PolicyError
  invalid_repeat_mode : String → PolicyError
  baseline_not_positive min_out_of_range bias_out_of_range : PolicyError
  allowed_and_disallowed disallowed_and_paywall : String → PolicyError
  empty_paywall_host empty_attribution_host : PolicyError

-- `UpdatePolicy.Validate`.
unfoldable pub validate_update : {F : Type 0} → UpdatePolicy F → Option PolicyError
unfolding valid
validate_update p =
    if ltb_ℤ p.refresh_interval (pos 0)
    then some negative_refresh
    else if ltb_ℤ p.dedup_window (pos 0)
    then some negative_window
    else if ltb_ℤ p.freshness_threshold (pos 0)
    then some negative_freshness
    else if not (valid p.repeat_mode)
    then some (invalid_repeat_mode p.repeat_mode)
    else none
