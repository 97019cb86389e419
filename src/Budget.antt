-- ===== src/Budget.antt =====
-- internal/budget/budget.go: the limits of a topic or run, their validation, overlay and use.
-- A pointer field is an option; values are shared between no two configs, since nothing writes
-- through these pointers.
pub mod Overlay
pub mod Limits
pub mod Estimate
pub mod Report
pub mod Readback
pub mod Monitor
pub mod Usage
use newser.Prelude.{
  Bool, true, false, not, ◌&&◌, ◌||◌, Option, none, some, if◌then◌else◌, is_some, String,
}
use newser.Prelude.Int.{ℤ, pos, ltb_ℤ, eqb_ℤ}
use newser.Prelude.Floats.{FloatOps}
use newser.Value.{Fields, end, field, is_end}

pub record Config (F : Type 0) : Type 0 where
  pub max_cost : Option F
  pub max_tokens : Option ℤ
  pub max_time_seconds : Option ℤ
  pub approval_threshold : Option F
  pub require_approval : Bool
  pub metadata : Option (Fields F)

pub data ConfigError : Type 0 where
  negative_max_cost negative_max_tokens negative_max_time negative_threshold : ConfigError
  threshold_exceeds_max_cost : ConfigError

-- `override.X` where it is not nil, else the base's.
abbrev pub or_base : {A : Type 0} → Option A → Option A → Option A
or_base (some a) base = some a
or_base none base = base

-- The copy of a map, entry by entry.
unfoldable pub copy_fields : {F : Type 0} → Fields F → Fields F
copy_fields end = end
copy_fields (field k v m) = field k v (copy_fields m)

unfoldable pub clone : {F : Type 0} → Config F → Config F
unfolding copy_fields
clone c = record {
  max_cost = c.max_cost;
  max_tokens = c.max_tokens;
  max_time_seconds = c.max_time_seconds;
  approval_threshold = c.approval_threshold;
  require_approval = c.require_approval;
  metadata = elim c.metadata [ none ↦ none | some m ↦ some (copy_fields m) ];
}

unfoldable pub merge : {F : Type 0} → Config F → Config F → Config F
unfolding clone
merge base override =
    let result = clone base in
    record {
      max_cost = or_base override.max_cost result.max_cost;
      max_tokens = or_base override.max_tokens result.max_tokens;
      max_time_seconds = or_base override.max_time_seconds result.max_time_seconds;
      approval_threshold = or_base override.approval_threshold result.approval_threshold;
      require_approval = if override.require_approval then true else result.require_approval;
      metadata = elim override.metadata [ none ↦ result.metadata | some m ↦ some (copy_fields m) ];
    }

abbrev pub negative : Option ℤ → Bool
negative none = false
negative (some n) = ltb_ℤ n (pos 0)

abbrev pub nonzero : Option ℤ → Bool
nonzero none = false
nonzero (some n) = not (eqb_ℤ n (pos 0))

module _ {F : Type 0} (fl : FloatOps F) where
  abbrev pub negative_f : Option F → Bool
  negative_f none = false
  negative_f (some x) = fl.lt_f x fl.zero_f

  abbrev pub nonzero_f : Option F → Bool
  nonzero_f none = false
  nonzero_f (some x) = not (fl.eq_f x fl.zero_f)

  -- `MaxCost != nil && *ApprovalThreshold > *MaxCost`.
  abbrev pub above : Option F → Option F → Bool
  above none limit = false
  above (some t) none = false
  above (some t) (some limit) = fl.lt_f limit t

  unfoldable pub validate : Config F → Option ConfigError
  validate c =
      if negative_f c.max_cost
      then some negative_max_cost
      else if negative c.max_tokens
      then some negative_max_tokens
      else if negative c.max_time_seconds
      then some negative_max_time
      else if negative_f c.approval_threshold
      then some negative_threshold
      else if above c.approval_threshold c.max_cost
      then some threshold_exceeds_max_cost
      else none

  unfoldable pub is_zero : Config F → Bool
  is_zero c =
      if nonzero_f c.max_cost
      then false
      else if nonzero c.max_tokens
      then false
      else if nonzero c.max_time_seconds
      then false
      else if nonzero_f c.approval_threshold
      then false
      else if c.require_approval
      then false
      else elim c.metadata [ none ↦ true | some m ↦ is_end m ]

  unfoldable pub requires_approval : Config F → F → Bool
  requires_approval c estimated_cost =
      if c.require_approval
      then true
      else elim c.approval_threshold [ none ↦ false | some t ↦ fl.lt_f t estimated_cost ]
