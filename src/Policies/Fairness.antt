-- ===== src/Policies/Fairness.antt =====
-- FairnessPolicy of internal/policy/policy.go, with its configuration in config/fairness.go.
use newser.Prelude.{
  Bool, true, false, ◌||◌, not, String, Option, none, some, List, [], ◌∷◌, if◌then◌else◌, is_empty,
  trim_space,
}
use newser.Prelude.Int.{ℤ}
use newser.Prelude.Floats.{FloatOps}
use newser.Prelude.Dict.{lookup, insert}
use newser.Value.{Any, float, int, Fields, get, as_object}
use newser.Store.{Reply, reply, fault}
use newser.Policies.{PolicyError, baseline_not_positive, min_out_of_range, bias_out_of_range}
use newser.Policies.Hosts.{HostReading, normalize_host}

pub record FairnessAlerts (F : Type 0) : Type 0 where
  pub low_credibility : F
  pub high_bias : F

pub record FairnessConfig (F : Type 0) : Type 0 where
  pub enabled : Bool
  pub baseline_credibility : F
  pub min_credibility : F
  pub bias_adjustment_range : F
  pub domain_bias : List (String × F)
  pub alerts : FairnessAlerts F

pub record FairnessPolicy (F : Type 0) : Type 0 where
  pub enabled : Bool
  pub baseline : F
  pub min_credibility : F
  pub bias_range : F
  pub domain_bias : List (String × F)
  pub alerts : FairnessAlerts F

module _ {F : Type 0} (fl : FloatOps F) where
  abbrev pub negative_one : F
  negative_one = fl.sub_f fl.zero_f fl.one_f

  -- `clamp`.
  unfoldable pub clamp : F → F → F → F
  clamp value low high =
      if fl.lt_f value low then low else if fl.lt_f high value then high else value

  -- `clamp01`.
  unfoldable pub clamp01 : F → F
  unfolding clamp
  clamp01 value = clamp value fl.zero_f fl.one_f

  -- A value put into a range by the two tests of Normalize, one after the other.
  abbrev pub within : F → F → F → F
  within low high v =
      let raised = if fl.lt_f v low then low else v in if fl.lt_f high raised then high else raised

  abbrev keep_bias : String → F → List (String × F) → List (String × F)
  keep_bias key v rest =
      if is_empty key then rest else insert key (within negative_one fl.one_f v) rest

  -- The loop over the biases, from the last entry to the first in the order in which Go ranges over
  -- them.
  unfoldable pub normalize_biases : HostReading → List (String × F) → List (String × F)
  unfolding insert
  normalize_biases text [] = []
  normalize_biases text ((host, v) ∷ entries) =
      keep_bias (trim_space (text.to_lower host)) v (normalize_biases text entries)

  -- `FairnessConfig.Normalize`; `half` is the literal 0.5.
  unfoldable pub normalize_fairness : HostReading → F → FairnessConfig F → FairnessConfig F
  unfolding normalize_biases
  normalize_fairness text half c =
      let base =
        if fl.le_f c.baseline_credibility fl.zero_f then half else c.baseline_credibility in
      record c {
        baseline_credibility = if fl.lt_f fl.one_f base then fl.one_f else base;
        min_credibility = within fl.zero_f fl.one_f c.min_credibility;
        bias_adjustment_range = within fl.zero_f fl.one_f c.bias_adjustment_range;
        domain_bias = normalize_biases text c.domain_bias;
        alerts = record {
          low_credibility = within fl.zero_f fl.one_f c.alerts.low_credibility;
          high_bias = within fl.zero_f fl.one_f c.alerts.high_bias;
        };
      }

  -- `FairnessConfig.Validate`.
  unfoldable pub validate_fairness : FairnessConfig F → Option PolicyError
  validate_fairness c =
      if fl.le_f c.baseline_credibility fl.zero_f
      then some baseline_not_positive
      else if fl.lt_f c.min_credibility fl.zero_f || fl.lt_f fl.one_f c.min_credibility
      then some min_out_of_range
      else if fl.lt_f c.bias_adjustment_range fl.zero_f || fl.lt_f fl.one_f c.bias_adjustment_range
      then some bias_out_of_range
      else none

  abbrev pub policy_of : FairnessConfig F → FairnessPolicy F
  policy_of norm = record {
    enabled = true;
    baseline = clamp01 norm.baseline_credibility;
    min_credibility = clamp01 norm.min_credibility;
    bias_range = clamp01 norm.bias_adjustment_range;
    domain_bias = norm.domain_bias;
    alerts = norm.alerts;
  }

  abbrev no_alerts : FairnessAlerts F
  no_alerts = record { low_credibility = fl.zero_f; high_bias = fl.zero_f }

  abbrev pub disabled : FairnessPolicy F
  disabled = record {
    enabled = false;
    baseline = fl.zero_f;
    min_credibility = fl.zero_f;
    bias_range = fl.zero_f;
    domain_bias = [];
    alerts = no_alerts;
  }

  abbrev pub checked_policy :
      FairnessConfig F → Option PolicyError → Reply PolicyError (FairnessPolicy F)
  checked_policy norm (some e) = fault e
  checked_policy norm none = reply (policy_of norm)

  abbrev pub normalized_policy :
      FairnessConfig F → Option PolicyError → Reply PolicyError (FairnessPolicy F)
  normalized_policy norm (some e) = fault e
  normalized_policy norm none = checked_policy norm (validate_fairness norm)

  -- `NewFairnessPolicy`.
  unfoldable pub new_fairness_policy :
      HostReading → F → FairnessConfig F → Reply PolicyError (FairnessPolicy F)
  new_fairness_policy text half c =
      if not c.enabled
      then reply disabled
      else normalized_policy (normalize_fairness text half c) (validate_fairness c)

  -- `extractFloat`, on the values that a decoded JSON text has; `of_int` is the conversion.
  unfoldable pub extract_float : (ℤ → F) → Option (Any F) → F
  extract_float of_int (some (float x)) = x
  extract_float of_int (some (int n)) = of_int n
  extract_float of_int v = fl.zero_f

  abbrev analysis_bias : (ℤ → F) → F → Option (Fields F) → F
  analysis_bias of_int bias none = bias
  analysis_bias of_int bias (some m) =
      if fl.eq_f bias fl.zero_f then extract_float of_int (get "bias_slider" m) else bias

  -- `BiasFromPreferences`.
  unfoldable pub bias_from_preferences : (ℤ → F) → Option (FairnessPolicy F) → Fields F → F
  bias_from_preferences of_int none prefs = fl.zero_f
  bias_from_preferences of_int (some p) prefs =
      let slider = extract_float of_int (get "bias_slider" prefs) in
      let bias =
        if fl.eq_f slider fl.zero_f
        then extract_float of_int (get "fairness_bias" prefs)
        else slider in
      if not p.enabled || fl.le_f p.bias_range fl.zero_f
      then fl.zero_f
      else clamp (analysis_bias of_int bias (as_object (get "analysis" prefs)))
          (fl.sub_f fl.zero_f p.bias_range) p.bias_range

  abbrev bias_of : Option F → F
  bias_of none = fl.zero_f
  bias_of (some b) = b

  -- The credibility that Adjust returns with the difference to the given one.
  unfoldable pub adjusted : HostReading → FairnessPolicy F → String → F → F → F
  adjusted text p domain credibility bias =
      let base = if fl.le_f credibility fl.zero_f then p.baseline else credibility in
      let user = clamp bias (fl.sub_f fl.zero_f p.bias_range) p.bias_range in
      let domain_bias = bias_of (lookup (normalize_host text domain) p.domain_bias) in
      let delta = clamp (fl.add_f domain_bias user) negative_one fl.one_f in
      let moved =
        clamp (fl.add_f base (fl.mul_f delta (fl.sub_f fl.one_f base))) fl.zero_f fl.one_f in
      if fl.lt_f moved p.min_credibility then p.min_credibility else moved

  -- `Adjust`.
  unfoldable pub adjust : HostReading → Option (FairnessPolicy F) → String → F → F → F × F
  adjust text none domain credibility bias = (credibility, fl.zero_f)
  adjust text (some p) domain credibility bias =
      let a = adjusted text p domain credibility bias in
      if not p.enabled then (credibility, fl.zero_f) else (a, fl.sub_f a credibility)
