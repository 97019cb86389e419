-- ===== src/Budget/Overlay.antt =====
-- Laws of Clone and Merge.
use newser.Prelude.{
  Bool, true, false, ◌||◌, ◌≡◌, ◌∙◌, refl, Option, none, some, ap, arith, List, [], ◌∷◌,
  if◌then◌else◌,
}
use newser.Value.{Fields, end, field}
use newser.Budget.{Config, or_base, copy_fields, clone, merge}

pub copy_fields_same : {F : Type 0} (m : Fields F) → copy_fields m ≡ m
unfolding copy_fields
copy_fields_same end = refl
copy_fields_same (field k v m) = ap (field k v) (copy_fields_same m)

copied_same :
    {F : Type 0} (o : Option (Fields F))
    → (elim o [ none ↦ none | some m ↦ some (copy_fields m) ]) ≡ o
copied_same none = refl
copied_same (some m) = ap some (copy_fields_same m)

pub clone_same : {F : Type 0} (c : Config F) → clone c ≡ c
unfolding clone
clone_same c = ap (λ m. record c { metadata = m }) (copied_same c.metadata)

-- A config that says nothing.
abbrev pub silent : {F : Type 0} → Config F
silent = record {
  max_cost = none;
  max_tokens = none;
  max_time_seconds = none;
  approval_threshold = none;
  require_approval = false;
  metadata = none;
}

-- What a merged config holds, field by field.
pub merge_lem :
    {F : Type 0} (base override : Config F)
    → merge base override ≡ record {
      max_cost = or_base override.max_cost base.max_cost;
      max_tokens = or_base override.max_tokens base.max_tokens;
      max_time_seconds = or_base override.max_time_seconds base.max_time_seconds;
      approval_threshold = or_base override.approval_threshold base.approval_threshold;
      require_approval = override.require_approval || base.require_approval;
      metadata = or_base override.metadata base.metadata;
    }
unfolding merge
merge_lem base override = ground (arith, copied_same base.metadata, copied_same override.metadata)

-- `Merge` of a config with a row of overrides, in turn.
unfoldable pub merge_all : {F : Type 0} → Config F → List (Config F) → Config F
merge_all base [] = base
merge_all base (override ∷ overrides) = merge_all (merge base override) overrides

-- The last value that a row of configs gives.
unfoldable pub last_given : {F A : Type 0} → (Config F → Option A) → List (Config F) → Option A
last_given f [] = none
last_given f (c ∷ cs) = elim (last_given f cs) [ none ↦ f c | some a ↦ some a ]

unfoldable pub some_requires : {F : Type 0} → List (Config F) → Bool
some_requires [] = false
some_requires (c ∷ cs) = if c.require_approval then true else some_requires cs

last_given-or_base :
    {F A : Type 0} (f : Config F → Option A) (m a b : Config F) (cs : List (Config F))
    → f m ≡ or_base (f b) (f a)
    → last_given f (m ∷ cs) ≡ last_given f (a ∷ b ∷ cs)
unfolding last_given
last_given-or_base {A = A} f m a b cs e =
    ap (λ x. elim (last_given f cs) as (λ _. Option A) [ none ↦ x | some z ↦ some z ]) e
    ∙ at (f a) (f b) (last_given f cs)
  where
    at :
        (x y o : Option A)
        → elim o as (λ _. Option A) [ none ↦ or_base y x | some z ↦ some z ]
          ≡ (elim (elim o as (λ _. Option A) [ none ↦ y | some z ↦ some z ]) as (λ _. Option A) [
            | none ↦ x
            | some z ↦ some z
          ])
    at x none none = refl
    at x (some y) none = refl
    at x y (some z) = refl

some_requires-or :
    {F : Type 0} (m a b : Config F) (cs : List (Config F))
    → m.require_approval ≡ (b.require_approval || a.require_approval)
    → some_requires (m ∷ cs) ≡ some_requires (a ∷ b ∷ cs)
unfolding some_requires
some_requires-or m a b cs e = ground arith

abbrev pub last_wins : {F : Type 0} → List (Config F) → Config F
last_wins cs = record {
  max_cost = last_given (λ c. c.max_cost) cs;
  max_tokens = last_given (λ c. c.max_tokens) cs;
  max_time_seconds = last_given (λ c. c.max_time_seconds) cs;
  approval_threshold = last_given (λ c. c.approval_threshold) cs;
  require_approval = some_requires cs;
  metadata = last_given (λ c. c.metadata) cs;
}

last_wins-merge :
    {F : Type 0} (a b : Config F) (cs : List (Config F))
    → last_wins (merge a b ∷ cs) ≡ last_wins (a ∷ b ∷ cs)
last_wins-merge {F} a b cs =
    let m = merge a b in
    let e = merge_lem a b in
    rw
      (
        last_given-or_base (λ (c : Config F). c.max_cost) m a b cs
            (ap (λ (c : Config F). c.max_cost) e),
        last_given-or_base (λ (c : Config F). c.max_tokens) m a b cs
            (ap (λ (c : Config F). c.max_tokens) e),
        last_given-or_base (λ (c : Config F). c.max_time_seconds) m a b cs
            (ap (λ (c : Config F). c.max_time_seconds) e),
        last_given-or_base (λ (c : Config F). c.approval_threshold) m a b cs
            (ap (λ (c : Config F). c.approval_threshold) e),
        last_given-or_base (λ (c : Config F). c.metadata) m a b cs
            (ap (λ (c : Config F). c.metadata) e),
        some_requires-or m a b cs (ap (λ (c : Config F). c.require_approval) e),
      )
      refl

single-last_wins : {F : Type 0} (c : Config F) → c ≡ last_wins (c ∷ [])
unfolding last_given some_requires
single-last_wins c = ground arith

-- A config that is overlaid with any number of overrides in turn holds each limit, and the metadata,
-- of the last of them all that gives one, and requires approval when one of them does.
pub merge_all-last_wins :
    {F : Type 0} (base : Config F) (overrides : List (Config F))
    → merge_all base overrides ≡ last_wins (base ∷ overrides)
unfolding merge_all
merge_all-last_wins base [] = single-last_wins base
merge_all-last_wins base (override ∷ overrides) =
    merge_all-last_wins (merge base override) overrides ∙ last_wins-merge base override overrides
