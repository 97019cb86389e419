-- ===== src/Prelude/Dict.antt =====
-- Maps with text keys as lists of entries, and sorting.
use newser.Prelude.{
  ◌≡◌, refl, Bool, true, false, ◌||◌, String, Option, none, some, List, [], ◌∷◌, str_eq, eq_iff,
  arith, if◌then◌else◌, contains, distinct, is_some, ltb,
}
use Prim.Native.Char.{code}

module _ {ℓ} {V : Type ℓ} where
  -- `m[name]`, with the flag of the two-valued form as the option.
  unfoldable pub lookup : String → List (String × V) → Option V
  lookup name [] = none
  lookup name ((key, value) ∷ rest) =
      let below = lookup name rest in if str_eq key name then some value else below

  -- `m[name] = value`, at the place of the old entry where there is one.
  unfoldable pub insert : (name : String) (value : V) → List (String × V) → List (String × V)
  insert name value [] = (name, value) ∷ []
  insert name value ((key, old) ∷ rest) =
      let below = insert name value rest in
      if str_eq key name then (name, value) ∷ rest else (key, old) ∷ below

  pub lookup-insert :
      (name asked : String) (value : V) (map : List (String × V))
      → lookup asked (insert name value map)
        ≡ (if str_eq name asked then some value else lookup asked map)
  unfolding lookup insert
  lookup-insert name asked value [] = refl
  lookup-insert name asked value ((key, old) ∷ rest) = ground (
    arith,
    lookup-insert name asked value rest,
    eq_iff key name,
    eq_iff key asked,
    eq_iff name asked,
  )

  abbrev pub entries : List (String × V) → List String
  entries [] = []
  entries ((k, v) ∷ m) = k ∷ entries m

  pub contains-entries :
      (k : String) (m : List (String × V)) → contains k (entries m) ≡ is_some (lookup k m)
  unfolding lookup
  contains-entries k [] = refl
  contains-entries k ((j, v) ∷ m) = ground (arith, contains-entries k m)

  pub contains-entries-insert :
      (name asked : String) (value : V) (map : List (String × V))
      → contains asked (entries (insert name value map))
        ≡ (str_eq name asked || contains asked (entries map))
  unfolding insert
  contains-entries-insert name asked value [] = refl
  contains-entries-insert name asked value ((key, old) ∷ rest) = ground (
    arith,
    contains-entries-insert name asked value rest,
    eq_iff key name,
    eq_iff key asked,
    eq_iff name asked,
  )

  pub distinct-entries-insert :
      (k : String) (v : V) (m : List (String × V))
      → distinct (entries m) ≡ true
      → distinct (entries (insert k v m)) ≡ true
  unfolding insert
  distinct-entries-insert k v [] h = refl
  distinct-entries-insert k v ((j, w) ∷ m) h = ground (
    arith,
    eq_iff j k,
    contains-entries-insert k j v m,
    eq_iff k j,
    distinct-entries-insert k v m,
  )

-- The order of `sort.Strings`: by bytes, which for UTF-8 is the order of the code points.
abbrev pub text_le : String → String → Bool
text_le String.[] t = true
text_le (String.◌∷◌ c s) String.[] = false
text_le (String.◌∷◌ c s) (String.◌∷◌ d t) =
    let rest = text_le s t in
    if ltb (code c) (code d) then true else if ltb (code d) (code c) then false else rest

module _ (before : String → String → Bool) where
  unfoldable pub insert_sorted : String → List String → List String
  insert_sorted x [] = x ∷ []
  insert_sorted x (y ∷ ys) = if before x y then x ∷ y ∷ ys else y ∷ insert_sorted x ys

  -- `sort.Slice` and `sort.Strings`, on distinct elements of a total order.
  unfoldable pub sort : List String → List String
  unfolding insert_sorted
  sort [] = []
  sort (x ∷ xs) = insert_sorted x (sort xs)

  contains-insert_sorted :
      (k x : String) (xs : List String)
      → contains k (insert_sorted x xs) ≡ (str_eq x k || contains k xs)
  unfolding insert_sorted
  contains-insert_sorted k x [] = refl
  contains-insert_sorted k x (y ∷ ys) = ground (arith, contains-insert_sorted k x ys)

  pub contains-sort : (k : String) (xs : List String) → contains k (sort xs) ≡ contains k xs
  unfolding sort
  contains-sort k [] = refl
  contains-sort k (x ∷ xs) =
      ground (arith, contains-insert_sorted k x (sort xs), contains-sort k xs)

  distinct-insert_sorted :
      (x : String) (xs : List String)
      → distinct xs ≡ true
      → contains x xs ≡ false
      → distinct (insert_sorted x xs) ≡ true
  unfolding insert_sorted
  distinct-insert_sorted x [] d h = refl
  distinct-insert_sorted x (y ∷ ys) d h =
      ground
        (arith, eq_iff x y, eq_iff y x, contains-insert_sorted y x ys, distinct-insert_sorted x ys)

  pub distinct-sort : (xs : List String) → distinct xs ≡ true → distinct (sort xs) ≡ true
  unfolding sort
  distinct-sort [] d = refl
  distinct-sort (x ∷ xs) d =
      ground (arith, contains-sort x xs, distinct-insert_sorted x (sort xs), distinct-sort xs)

  pub sort-nil : (xs : List String) → sort xs ≡ [] → xs ≡ []
  unfolding sort
  sort-nil [] h = refl
  sort-nil (x ∷ xs) h = ground (arith, contains-insert_sorted x x (sort xs), eq_iff x x)
