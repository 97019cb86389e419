-- ===== src/Memory/Account.antt =====
-- How often each key stands among the items that the two loops of Delta keep.
use newser.Prelude.{
  ℕ, ◌+◌, ◌≡◌, refl, ◌∙◌, ap, Bool, true, false, ◌||◌, String, List, [], ◌∷◌, ◌++◌, count, contains,
  is_empty, str_eq, eq_iff, if◌then◌else◌, arith, Bool-cases, inl, inr,
}
use newser.Memory.{DeltaItem}
use newser.Memory.Texts.{key_of, delta_text}
use newser.Memory.Delta.{Sifted, sift_new, sift_item, sift}

-- What the items add to that: an empty key as often as it stands there, any other at most once,
-- and only if it is neither known nor seen.
abbrev pub gain : List String → List String → List String → String → ℕ
gain known seen ks k =
    if is_empty k
    then count k ks
    else if contains k known || contains k seen
    then 0
    else if contains k ks
    then 1
    else 0

module _ {F : Type 0} where
  abbrev pub item_keys : List (DeltaItem F) → List String
  item_keys [] = []
  item_keys (item ∷ items) = key_of item ∷ item_keys items

  abbrev pub first_keys : {B : Type 0} → List (DeltaItem F × B) → List String
  first_keys [] = []
  first_keys ((item, b) ∷ cs) = key_of item ∷ first_keys cs

  pub item_keys-append :
      (k : String) (xs : List (DeltaItem F)) (item : DeltaItem F)
      → count k (item_keys (xs ++ item ∷ []))
        ≡ count k (item_keys xs) + (if str_eq (key_of item) k then 1 else 0)
  item_keys-append k [] item = ground arith
  item_keys-append k (x ∷ xs) item = ground (arith, item_keys-append k xs item)

  pub first_keys-append :
      {B : Type 0} (k : String) (xs : List (DeltaItem F × B)) (item : DeltaItem F) (b : B)
      → count k (first_keys (xs ++ (item, b) ∷ []))
        ≡ count k (first_keys xs) + (if str_eq (key_of item) k then 1 else 0)
  first_keys-append k [] item b = ground arith
  first_keys-append k ((x, c) ∷ xs) item b = ground (arith, first_keys-append k xs item b)

  -- How often a key stands among the kept items and the candidates.
  abbrev pub held_count : String → Sifted F → ℕ
  held_count k s = count k (item_keys s.novel) + count k (first_keys s.candidates)

  held_count-sift_new :
      (k : String) (semantic : Bool) (item : DeltaItem F) (s : Sifted F)
      → (held_count k (sift_new semantic item s)
          ≡ held_count k s + (if str_eq (key_of item) k then 1 else 0))
        × ((sift_new semantic item s).seen ≡ s.seen)
  unfolding sift_new
  held_count-sift_new k false item s = (omega (arith, item_keys-append k s.novel item), refl)
  held_count-sift_new k true item s = elim (Bool-cases (is_empty (delta_text item))) [
    | inl e ↦ rw e (omega (arith, item_keys-append k s.novel item), refl)
    | inr e ↦ rw e (omega (arith, first_keys-append k s.candidates item (delta_text item)), refl)
  ]

  held_count-sift_item :
      (known : List String) (semantic : Bool) (k : String) (item : DeltaItem F) (s : Sifted F)
      (ks : List String)
      → held_count k (sift_item known semantic item s)
          + gain known (sift_item known semantic item s).seen ks k
        ≡ held_count k s + gain known s.seen (key_of item ∷ ks) k
  unfolding sift_item
  held_count-sift_item known semantic k item s ks =
      let q = key_of item in
      let s' = record s { seen = q ∷ s.seen } in
      let (new, same) = held_count-sift_new k semantic item s' in
      ground (
        arith,
        eq_iff q k,
        new,
        same,
        item_keys-append k s.novel item,
        ap (λ seen. contains k seen) same,
      )

  -- Each key after the first loop, exactly.
  pub held_count-sift :
      (known : List String) (semantic : Bool) (k : String) (items : List (DeltaItem F))
      (s : Sifted F)
      → held_count k (sift known semantic items s)
        ≡ held_count k s + gain known s.seen (item_keys items) k
  unfolding sift
  held_count-sift known semantic k [] s = ground arith
  held_count-sift known semantic k (item ∷ items) s =
      held_count-sift known semantic k items (sift_item known semantic item s)
      ∙ held_count-sift_item known semantic k item s (item_keys items)
