-- ===== src/Dag/Sets.antt =====
-- Lists of distinct names as sets: membership, appending, and the pigeonhole principle.
use newser.Prelude.{
  suc, ◌≤◌, ◌≡◌, refl, true, false, ◌||◌, String, List, [], ◌∷◌, ◌++◌, str_eq, eq_iff, arith,
  if◌then◌else◌, contains, distinct, length, Bool-cases, inl, inr,
}

pub contains-append :
    (k : String) (xs ys : List String) → contains k (xs ++ ys) ≡ (contains k xs || contains k ys)
contains-append k [] ys = refl
contains-append k (x ∷ xs) ys = ground (arith, contains-append k xs ys)

-- The list without the first copy of a name.
erase : String → List String → List String
erase k [] = []
erase k (x ∷ xs) = if str_eq x k then xs else x ∷ erase k xs

length-erase :
    (k : String) (xs : List String) → contains k xs ≡ true → suc (length (erase k xs)) ≡ length xs
unfolding erase
length-erase k [] h = ground arith
length-erase k (x ∷ xs) h = ground (arith, length-erase k xs)

contains-erase :
    (j k : String) (xs : List String)
    → str_eq k j ≡ false
    → contains j xs ≡ true
    → contains j (erase k xs) ≡ true
unfolding erase
contains-erase j k [] ne h = h
contains-erase j k (x ∷ xs) ne h =
    ground (arith, eq_iff x k, eq_iff x j, eq_iff k j, contains-erase j k xs ne)

pub not-contains_of_distinct :
    (x y : String) (xs : List String)
    → distinct (x ∷ xs) ≡ true
    → contains y xs ≡ true
    → str_eq x y ≡ false
not-contains_of_distinct x y xs d h = elim (Bool-cases (str_eq x y)) [
  | inl same ↦ ground (arith, eq_iff x y)
  | inr other ↦ other
]

-- Distinct names among `ys` are at most as many as `ys`.
pub distinct-length-le :
    (xs ys : List String)
    → distinct xs ≡ true
    → ((k : String) → contains k xs ≡ true → contains k ys ≡ true)
    → length xs ≤ length ys
distinct-length-le [] ys d sub = omega arith
distinct-length-le (x ∷ xs) ys d sub = omega (
  arith,
  length-erase x ys (sub x (ground (arith, eq_iff x x))),
  distinct-length-le xs (erase x ys) (ground arith) (λ k h.
      contains-erase k x ys (not-contains_of_distinct x k xs d h)
        (sub k (ground (arith, eq_iff x k)))),
)

-- As many distinct names as there are: all of them.
pub full_of_length :
    (xs ys : List String)
    → distinct xs ≡ true
    → ((k : String) → contains k xs ≡ true → contains k ys ≡ true)
    → length ys ≤ length xs
    → (k : String) → contains k ys ≡ true
    → contains k xs ≡ true
full_of_length xs ys d sub long k h = elim (Bool-cases (contains k xs)) [
  | inl found ↦ found
  | inr missing ↦ absurd (
      omega (
        arith,
        long,
        length-erase k ys h,
        distinct-length-le xs (erase k ys) d
            (λ j m. contains-erase j k ys (differs j m missing) (sub j m)),
      ))
]
  where
    differs : (j : String) → contains j xs ≡ true → contains k xs ≡ false → str_eq k j ≡ false
    differs j m e = elim (Bool-cases (str_eq k j)) [
      | inl same ↦ ground (arith, eq_iff k j)
      | inr other ↦ other
    ]

pub distinct_snoc :
    (x : String) (xs : List String)
    → distinct xs ≡ true
    → contains x xs ≡ false
    → distinct (xs ++ x ∷ []) ≡ true
distinct_snoc x [] d h = refl
distinct_snoc x (y ∷ ys) d h =
    ground (arith, eq_iff x y, eq_iff y x, contains-append y ys (x ∷ []), distinct_snoc x ys)
