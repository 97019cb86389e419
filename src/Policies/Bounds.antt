-- ===== src/Policies/Bounds.antt =====
-- The range of an adjusted credibility.
use newser.Prelude.{
  ◌≡◌, ◌⊎◌, refl, sym, ap, subst, ◌∙◌, Bool, true, false, not, String, Option, none, some,
  if◌then◌else◌, arith, Bool-cases, inl, inr,
}
use newser.Prelude.Floats.{FloatOps, FloatLaws}
use newser.Store.{Reply, reply}
use newser.Policies.{PolicyError}
use newser.Policies.Hosts.{HostReading}
use newser.Policies.Fairness.{
  FairnessConfig, FairnessPolicy, clamp, clamp01, adjusted, adjust, validate_fairness,
  normalize_fairness, new_fairness_policy, checked_policy, normalized_policy,
}

reply-eq : {E A : Type 0} (a b : A) → ◌≡◌ {A = Reply E A} (reply a) (reply b) → a ≡ b
reply-eq a b h = cc

switched_on : {A : Type 0} (b : Bool) (x y : A) → b ≡ true → y ≡ (if not b then x else y)
switched_on true x y h = refl
switched_on false x y h = absurd (cc)

switched_off : {A : Type 0} (b : Bool) (x y : A) → b ≡ false → x ≡ (if not b then x else y)
switched_off false x y h = refl
switched_off true x y h = absurd (cc)

module _ {F : Type 0} (fl : FloatOps F) (laws : FloatLaws fl)
    (ordered : fl.lt_f fl.one_f fl.zero_f ≡ false) where
  -- Neither below 0 nor above 1; a NaN is neither.
  abbrev Unitary : F → Type 0
  Unitary x = (fl.lt_f x fl.zero_f ≡ false) × (fl.lt_f fl.one_f x ≡ false)

  clamp01-Unitary : (x : F) → Unitary (clamp fl x fl.zero_f fl.one_f)
  unfolding clamp
  clamp01-Unitary x = elim (Bool-cases (fl.lt_f x fl.zero_f)) [
    | inl low ↦ rw low (laws.lt_irrefl fl.zero_f, ordered)
    | inr from_zero ↦ elim (Bool-cases (fl.lt_f fl.one_f x)) [
      | inl high ↦ rw (from_zero, high) (ordered, laws.lt_irrefl fl.one_f)
      | inr fine ↦ rw (from_zero, fine) (from_zero, fine)
    ]
  ]

  raised-Unitary :
      (x least : F)
      → Unitary x
      → Unitary least
      → Unitary (if fl.lt_f x least then least else x)
        × (fl.lt_f (if fl.lt_f x least then least else x) least ≡ false)
  raised-Unitary x least h k = elim (Bool-cases (fl.lt_f x least)) [
    | inl below ↦ rw below (k, laws.lt_irrefl least)
    | inr fine ↦ rw fine (h, fine)
  ]

  adjusted-Unitary :
      (text : HostReading) (p : FairnessPolicy F) (domain : String) (credibility bias : F)
      → Unitary p.min_credibility
      → Unitary (adjusted fl text p domain credibility bias)
        × (fl.lt_f (adjusted fl text p domain credibility bias) p.min_credibility ≡ false)
  unfolding adjusted
  adjusted-Unitary text p domain credibility bias least =
      raised-Unitary _ p.min_credibility (clamp01-Unitary _) least

  -- A policy that is switched on has its least credibility in range.
  abbrev InRange : FairnessPolicy F → Type 0
  InRange p = (p.enabled ≡ false) ⊎ Unitary p.min_credibility

  checked_policy-InRange :
      (norm : FairnessConfig F) (e : Option PolicyError) (p : FairnessPolicy F)
      → checked_policy fl norm e ≡ reply p
      → InRange p
  unfolding clamp01
  checked_policy-InRange norm (some e) p h = absurd (cc)
  checked_policy-InRange norm none p h = inr (
      subst (λ q. Unitary q.min_credibility) (reply-eq _ _ h)
        (clamp01-Unitary norm.min_credibility))

  normalized_policy-InRange :
      (norm : FairnessConfig F) (e : Option PolicyError) (p : FairnessPolicy F)
      → normalized_policy fl norm e ≡ reply p
      → InRange p
  normalized_policy-InRange norm (some e) p h = absurd (cc)
  normalized_policy-InRange norm none p h =
      checked_policy-InRange norm (validate_fairness fl norm) p h

  new_fairness_policy-InRange :
      (text : HostReading) (half : F) (c : FairnessConfig F) (p : FairnessPolicy F)
      → new_fairness_policy fl text half c ≡ reply p
      → InRange p
  unfolding new_fairness_policy
  new_fairness_policy-InRange text half c p h = elim (Bool-cases c.enabled) [
    | inl on ↦
        normalized_policy-InRange (normalize_fairness fl text half c) (validate_fairness fl c) p
          (switched_on c.enabled _ _ on ∙ h)
    | inr off ↦ inl (sym (ap (λ q. q.enabled) (reply-eq _ _ (switched_off c.enabled _ _ off ∙ h))))
  ]

  -- For a policy that NewFairnessPolicy has made and that is switched on, the credibility which
  -- Adjust returns is neither below 0 nor above 1 nor below the policy's least credibility, whatever
  -- the domain, the given credibility and the bias are, NaN included; and the difference that it
  -- returns is that to the given credibility.
  pub adjust_bounds :
      (text : HostReading) (half : F) (c : FairnessConfig F) (p : FairnessPolicy F)
      (domain : String) (credibility bias : F)
      → new_fairness_policy fl text half c ≡ reply p
      → p.enabled ≡ true
      → (fl.lt_f (adjust fl text (some p) domain credibility bias).0 fl.zero_f ≡ false)
        × (fl.lt_f fl.one_f (adjust fl text (some p) domain credibility bias).0 ≡ false)
        × (fl.lt_f (adjust fl text (some p) domain credibility bias).0 p.min_credibility ≡ false)
        × ((adjust fl text (some p) domain credibility bias).1
            ≡ fl.sub_f (adjust fl text (some p) domain credibility bias).0 credibility)
  unfolding adjust
  adjust_bounds text half c p domain credibility bias made on =
      elim (new_fairness_policy-InRange text half c p made) [
        | inl off ↦ absurd (cc)
        | inr least ↦
            let (range, enough) = adjusted-Unitary text p domain credibility bias least in
            ground (arith, on, range.0, range.1, enough)
      ]
