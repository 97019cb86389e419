-- ===== src/Security/Lists.antt =====
-- What sanitizeList and sanitizeHosts of internal/policy/security.go leave in a list.
use newser.Prelude.{
  String, Bool, true, false, List, [], ◌∷◌, not, ◌&&◌, str_eq, eq_iff, is_empty, trim_space,
  contains, distinct, ◌≡◌, refl, arith, ap, Bool-cases, inl, inr,
}
use newser.Security.Policy.{sanitize, sanitize_list}

empty-test : (v : String) → is_empty v ≡ false → str_eq v "" ≡ false
empty-test v h = elim (Bool-cases (str_eq v "")) [
  | inl e ↦ ground (arith, ap is_empty ((eq_iff v "").0 e))
  | inr e ↦ e
]

module _ (to_lower : String → String) where
  -- No entry of the first list is in the second.
  abbrev apart : List String → List String → Bool
  apart seen [] = true
  apart seen (k ∷ ks) = not (contains k seen) && apart seen ks

  abbrev pub keys : List String → List String
  keys [] = []
  keys (v ∷ vs) = to_lower v ∷ keys vs

  apart-tail :
      (k : String) (seen ks : List String)
      → apart (k ∷ seen) ks ≡ true
      → (apart seen ks && not (contains k ks)) ≡ true
  apart-tail k seen [] h = refl
  apart-tail k seen (j ∷ ks) h = ground (arith, eq_iff k j, eq_iff j k, apart-tail k seen ks)

  sanitize-apart :
      (seen items : List String)
      → (apart seen (keys (sanitize to_lower seen items))
          && distinct (keys (sanitize to_lower seen items)))
        ≡ true
  unfolding sanitize
  sanitize-apart seen [] = refl
  sanitize-apart seen (raw ∷ items) = ground (
    arith,
    sanitize-apart seen items,
    sanitize-apart (to_lower (trim_space raw) ∷ seen) items,
    apart-tail (to_lower (trim_space raw)) seen
        (keys (sanitize to_lower (to_lower (trim_space raw) ∷ seen) items)),
  )

  sanitize-nonempty :
      (seen items : List String) → contains "" (sanitize to_lower seen items) ≡ false
  unfolding sanitize
  sanitize-nonempty seen [] = refl
  sanitize-nonempty seen (raw ∷ items) = ground (
    arith,
    sanitize-nonempty seen items,
    empty-test (trim_space raw),
    sanitize-nonempty (to_lower (trim_space raw) ∷ seen) items,
  )

  -- `sanitizeList` leaves no empty entry, and no two entries that agree but for the case.
  pub sanitize_list-distinct :
      (items : List String)
      → (contains "" (sanitize_list to_lower items) ≡ false)
        × (distinct (keys (sanitize_list to_lower items)) ≡ true)
  unfolding sanitize_list
  sanitize_list-distinct items =
      (sanitize-nonempty [] items, ground (arith, sanitize-apart [] items))
