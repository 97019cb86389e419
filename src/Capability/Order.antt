-- ===== src/Capability/Order.antt =====
-- How versionGreater of internal/capability/registry.go orders versions.
use newser.Prelude.{
  ℕ, zero, suc, ◌&&◌, ◌⊎◌, ◌↔◌, String, Bool, true, false, List, [], ◌∷◌, str_eq, ◌≡◌, refl, arith,
  eq_iff, Bool-cases, inl, inr, subst,
}
use newser.Prelude.Int.{ℤ, pos, ltb_ℤ, eqb_ℤ}
use newser.Capability.Versions.{
  Compared, less, same, greater, is_greater, at_place, strings_compare, split_version,
  version_greater,
}

-- `a` is at most `b`.
abbrev at_most : Compared → Bool
at_most greater = false
at_most same = true
at_most less = true

at_place_trans :
    (a b c : ℤ) (x y z : Compared)
    → (at_most x ≡ true → at_most y ≡ true → at_most z ≡ true)
    → at_most (at_place a b x) ≡ true
    → at_most (at_place b c y) ≡ true
    → at_most (at_place a c z) ≡ true
at_place_trans a b c x y z h p q = ground arith

strings_compare_trans :
    (us vs ws : List ℤ)
    → at_most (strings_compare us vs) ≡ true
    → at_most (strings_compare vs ws) ≡ true
    → at_most (strings_compare us ws) ≡ true
unfolding strings_compare
strings_compare_trans [] [] [] p q = refl
strings_compare_trans [] [] (c ∷ ws) p q = q
strings_compare_trans [] (b ∷ vs) [] p q = refl
strings_compare_trans [] (b ∷ vs) (c ∷ ws) p q =
    at_place_trans (pos 0) b c _ _ _ (strings_compare_trans [] vs ws) p q
strings_compare_trans (a ∷ us) [] [] p q = p
strings_compare_trans (a ∷ us) [] (c ∷ ws) p q =
    at_place_trans a (pos 0) c _ _ _ (strings_compare_trans us [] ws) p q
strings_compare_trans (a ∷ us) (b ∷ vs) [] p q =
    at_place_trans a b (pos 0) _ _ _ (strings_compare_trans us vs []) p q
strings_compare_trans (a ∷ us) (b ∷ vs) (c ∷ ws) p q =
    at_place_trans a b c _ _ _ (strings_compare_trans us vs ws) p q

greater-flip :
    (us vs : List ℤ)
    → is_greater (strings_compare us vs) ≡ true
    → at_most (strings_compare vs us) ≡ true
unfolding strings_compare
greater-flip [] [] h = refl
greater-flip [] (b ∷ vs) h = ground (arith, greater-flip [] vs)
greater-flip (a ∷ us) [] h = ground (arith, greater-flip us [])
greater-flip (a ∷ us) (b ∷ vs) h = ground (arith, greater-flip us vs)

strings_compare_self : (us : List ℤ) → at_most (strings_compare us us) ≡ true
unfolding strings_compare
strings_compare_self [] = refl
strings_compare_self (a ∷ us) = ground (arith, strings_compare_self us)

module _ (scan_int : String → ℤ) where
  not_greater-at_most :
      (a b : String)
      → version_greater scan_int a b ≡ false
      → at_most (strings_compare (split_version scan_int a) (split_version scan_int b)) ≡ true
  unfolding version_greater
  not_greater-at_most a b h = elim (Bool-cases (str_eq a b)) [
    | inl e ↦
        subst
          (λ c.
            at_most (strings_compare (split_version scan_int a) (split_version scan_int c)) ≡ true)
          ((eq_iff a b).0 e) (strings_compare_self (split_version scan_int a))
    | inr e ↦ ground arith
  ]

  at_most-not_greater :
      (a b : String)
      → at_most (strings_compare (split_version scan_int a) (split_version scan_int b)) ≡ true
      → version_greater scan_int a b ≡ false
  unfolding version_greater
  at_most-not_greater a b h = ground arith

  -- `versionGreater` orders the versions, as far as `splitVersion` tells them apart: what is not
  -- greater than a version that is not greater than a third is not greater than the third.
  pub not_greater_trans :
      (a b c : String)
      → version_greater scan_int a b ≡ false
      → version_greater scan_int b c ≡ false
      → version_greater scan_int a c ≡ false
  not_greater_trans a b c p q = at_most-not_greater a c (
      strings_compare_trans (split_version scan_int a) (split_version scan_int b)
        (split_version scan_int c) (not_greater-at_most a b p) (not_greater-at_most b c q))

  pub greater-not_greater :
      (a b : String) → version_greater scan_int a b ≡ true → version_greater scan_int b a ≡ false
  unfolding version_greater
  greater-not_greater a b h =
      at_most-not_greater b a
        (greater-flip (split_version scan_int a) (split_version scan_int b) (ground arith))

  pub version_greater_self : (a : String) → version_greater scan_int a a ≡ false
  version_greater_self a = at_most-not_greater a a (strings_compare_self (split_version scan_int a))

-- The place at the front, where a missing one counts as 0.
abbrev pub first_of : List ℤ → ℤ
first_of [] = pos 0
first_of (a ∷ us) = a

abbrev pub rest_of : List ℤ → List ℤ
rest_of [] = []
rest_of (a ∷ us) = us

-- The numbers agree before place `i`, and at `i` the first is the larger one.
unfoldable pub exceeds_at : ℕ → List ℤ → List ℤ → Bool
exceeds_at zero us vs = ltb_ℤ (first_of vs) (first_of us)
exceeds_at (suc i) us vs =
    eqb_ℤ (first_of us) (first_of vs) && exceeds_at i (rest_of us) (rest_of vs)

greater_at :
    (a b : ℤ) (rest : Compared)
    → is_greater (at_place a b rest) ≡ true
    → (ltb_ℤ b a ≡ true) ⊎ ((eqb_ℤ a b ≡ true) × (is_greater rest ≡ true))
greater_at a b rest h = elim (Bool-cases (ltb_ℤ b a)) [
  | inl more ↦ inl more
  | inr same_or_less ↦ inr (ground arith, ground arith)
]

at_greater :
    (a b : ℤ) (rest : Compared)
    → eqb_ℤ a b ≡ true
    → is_greater rest ≡ true
    → is_greater (at_place a b rest) ≡ true
at_greater a b rest e h = ground arith

-- One place more.
exceeds-place :
    (us vs : List ℤ) (rest : Compared)
    → is_greater (at_place (first_of us) (first_of vs) rest) ≡ true
    → (is_greater rest ≡ true → (i : ℕ) × (exceeds_at i (rest_of us) (rest_of vs) ≡ true))
    → (i : ℕ) × (exceeds_at i us vs ≡ true)
unfolding exceeds_at
exceeds-place us vs rest h later = elim (greater_at (first_of us) (first_of vs) rest h) [
  | inl more ↦ (0, more)
  | inr (e, g) ↦ let (i, q) = later g in (suc i, rw (e, q) refl)
]

greater-exceeds :
    (us vs : List ℤ)
    → is_greater (strings_compare us vs) ≡ true
    → (i : ℕ) × (exceeds_at i us vs ≡ true)
unfolding strings_compare
greater-exceeds [] [] h = absurd (cc)
greater-exceeds [] (b ∷ vs) h =
    exceeds-place [] (b ∷ vs) (strings_compare [] vs) h (greater-exceeds [] vs)
greater-exceeds (a ∷ us) [] h =
    exceeds-place (a ∷ us) [] (strings_compare us []) h (greater-exceeds us [])
greater-exceeds (a ∷ us) (b ∷ vs) h =
    exceeds-place (a ∷ us) (b ∷ vs) (strings_compare us vs) h (greater-exceeds us vs)

exceeds-greater :
    (i : ℕ) (us vs : List ℤ) → exceeds_at i us vs ≡ true → is_greater (strings_compare us vs) ≡ true
unfolding strings_compare exceeds_at
exceeds-greater zero [] [] h = absurd (ground arith)
exceeds-greater zero [] (b ∷ vs) h = ground arith
exceeds-greater zero (a ∷ us) [] h = ground arith
exceeds-greater zero (a ∷ us) (b ∷ vs) h = ground arith
exceeds-greater (suc i) [] [] h = ground (arith, exceeds-greater i [] [])
exceeds-greater (suc i) [] (b ∷ vs) h = ground (arith, exceeds-greater i [] vs)
exceeds-greater (suc i) (a ∷ us) [] h = ground (arith, exceeds-greater i us [])
exceeds-greater (suc i) (a ∷ us) (b ∷ vs) h = ground (arith, exceeds-greater i us vs)

module _ (scan_int : String → ℤ) where
  version_greater-compare :
      (a b : String)
      → version_greater scan_int a b ≡ true
      → is_greater (strings_compare (split_version scan_int a) (split_version scan_int b)) ≡ true
  unfolding version_greater
  version_greater-compare a b h = ground arith

  compare-version_greater :
      (a b : String)
      → is_greater (strings_compare (split_version scan_int a) (split_version scan_int b)) ≡ true
      → version_greater scan_int a b ≡ true
  compare-version_greater a b h = elim (Bool-cases (version_greater scan_int a b)) [
    | inl greater_one ↦ greater_one
    | inr smaller ↦ absurd (let no = not_greater-at_most scan_int a b smaller in ground arith)
  ]

  -- A version is greater than another exactly when, of the numbers between their dots, the first two
  -- that differ are a larger one of the first version and a smaller one of the second, a missing
  -- number counting as 0.
  pub version_greater_iff :
      (a b : String)
      → (version_greater scan_int a b ≡ true)
        ↔ ((i : ℕ) × (exceeds_at i (split_version scan_int a) (split_version scan_int b) ≡ true))
  version_greater_iff a b = (
    λ h.
        greater-exceeds (split_version scan_int a) (split_version scan_int b)
          (version_greater-compare a b h),
    λ (i, h).
        compare-version_greater a b
          (exceeds-greater i (split_version scan_int a) (split_version scan_int b) h),
  )
