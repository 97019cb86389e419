-- ===== src/Budget/Limits.antt =====
-- Validate, RequiresApproval, and how they meet Merge.
use newser.Prelude.{Bool, true, false, ◌≡◌, refl, Option, none, some, arith, if◌then◌else◌, ◌↔◌}
use newser.Prelude.Floats.{FloatOps, FloatLaws}
use newser.Budget.{
  Config, threshold_exceeds_max_cost, or_base, merge, negative, negative_f, above, validate,
  is_zero, requires_approval,
}
use newser.Budget.Overlay.{merge_lem}

module _ {F : Type 0} (fl : FloatOps F) where
  -- A config is valid exactly when no given limit is negative and a given threshold is not above a
  -- given maximal cost.
  pub validate-none :
      (c : Config F)
      → (validate fl c ≡ none) ↔ (
          (negative_f fl c.max_cost ≡ false)
          × (negative c.max_tokens ≡ false)
          × (negative c.max_time_seconds ≡ false)
          × (negative_f fl c.approval_threshold ≡ false)
          × (above fl c.approval_threshold c.max_cost ≡ false))
  unfolding validate
  validate-none c = (
    λ h. (ground arith, ground arith, ground arith, ground arith, ground arith),
    λ h. ground arith,
  )

  -- Overlaying two valid configs gives a config that is valid but for one thing: the threshold of
  -- the one may lie above the maximal cost of the other. That fault, and no other, is reported.
  pub validate-merge :
      (a b : Config F)
      → validate fl a ≡ none
      → validate fl b ≡ none
      → validate fl (merge a b) ≡ (
          if above fl
            (or_base b.approval_threshold a.approval_threshold)
            (or_base b.max_cost a.max_cost)
          then some threshold_exceeds_max_cost
          else none)
  unfolding validate
  validate-merge a b ha hb = rw (merge_lem a b) (ground arith)

  -- Approval is monotone in the estimated cost: if a run needs approval, so does a dearer one.
  pub requires_approval_mono :
      FloatLaws fl
      → (c : Config F) (cost dearer : F) → fl.le_f cost dearer ≡ true
      → requires_approval fl c cost ≡ true
      → requires_approval fl c dearer ≡ true
  unfolding requires_approval
  requires_approval_mono laws c cost dearer le h =
      approval c.require_approval c.approval_threshold h
    where
      approval :
          (required : Bool) (threshold : Option F)
          → (if required then true else elim threshold [ none ↦ false | some t ↦ fl.lt_f t cost ])
            ≡ true
          → (if required then true else elim threshold [ none ↦ false | some t ↦ fl.lt_f t dearer ])
            ≡ true
      approval true threshold h = refl
      approval false none h = h
      approval false (some t) h = laws.lt-le_trans t cost dearer h le

  -- A config that counts as zero and has no threshold asks for no approval, whatever the cost.
  pub is_zero_no_approval :
      (c : Config F) (cost : F)
      → is_zero fl c ≡ true
      → c.approval_threshold ≡ none
      → requires_approval fl c cost ≡ false
  unfolding is_zero requires_approval
  is_zero_no_approval c cost z h = ground arith
