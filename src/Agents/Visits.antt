-- ===== src/Agents/Visits.antt =====
-- The fuel of the search through the dependencies: each call inside another has visited one more of
-- the ids that the tasks name.
use newser.Prelude.{
  ℕ, zero, suc, ◌<◌, ◌≤◌, ◌≡◌, true, false, String, List, [], ◌∷◌, contains, eq_iff, arith,
  Bool-cases, inl, inr, length,
}
use newser.Dag.Counts.{unmet}
use newser.Agents.Cycles.{
  Marks, Search, cycle, spent, clear, and_then, enter, leave, any_cycle, has_cycle, search_from,
}

unmet_mono :
    (us xs ys : List String)
    → ((k : String) → contains k xs ≡ true → contains k ys ≡ true)
    → unmet us ys ≤ unmet us xs
unmet_mono [] xs ys h = omega arith
unmet_mono (u ∷ us) xs ys h = ground (arith, h u, unmet_mono us xs ys h)

unmet-cons :
    (us xs : List String) (id : String)
    → contains id us ≡ true
    → contains id xs ≡ false
    → unmet us (id ∷ xs) < unmet us xs
unmet-cons [] xs id h new = absurd (cc)
unmet-cons (u ∷ us) xs id h new = ground (
  arith,
  eq_iff u id,
  eq_iff id u,
  unmet-cons us xs id,
  unmet_mono us xs (id ∷ xs) (λ k m. ground arith),
)

pub unmet-length : (us : List String) → unmet us [] ≤ length us
unmet-length [] = omega arith
unmet-length (u ∷ us) = omega (arith, unmet-length us)

module _ (deps : String → List String) (all : List String)
    (closed : (id dep : String)
      → contains id all ≡ true
      → contains dep (deps id) ≡ true
      → contains dep all ≡ true) where
  -- The search ends with its fuel, and has visited what was visited before.
  abbrev pub Ends : Marks → Search → Type 0
  Ends s cycle = Unit
  Ends s spent = ⊥
  Ends s (clear s') = (k : String) → contains k s.visited ≡ true → contains k s'.visited ≡ true

  later-Ends :
      (s s' : Marks) (r : Search)
      → ((k : String) → contains k s.visited ≡ true → contains k s'.visited ≡ true)
      → Ends s' r
      → Ends s r
  later-Ends s s' cycle h g = tt
  later-Ends s s' spent h g = g
  later-Ends s s' (clear t) h g = λ k m. g k (h k m)

  and_then-Ends :
      (s : Marks) (r : Search) (f : Marks → Search)
      → Ends s r
      → ((s' : Marks)
          → ((k : String) → contains k s.visited ≡ true → contains k s'.visited ≡ true)
          → Ends s' (f s'))
      → Ends s (and_then r f)
  and_then-Ends s cycle f h g = tt
  and_then-Ends s spent f h g = h
  and_then-Ends s (clear s') f h g = later-Ends s s' (f s') h (g s' h)

  any_cycle-Ends :
      (n : ℕ) (search : String → Marks → Search)
      → ((id : String) (s : Marks)
          → contains id all ≡ true
          → unmet all s.visited < n
          → Ends s (search id s))
      → (ids : List String) (s : Marks)
      → ((id : String) → contains id ids ≡ true → contains id all ≡ true)
      → unmet all s.visited < n
      → Ends s (any_cycle search ids s)
  unfolding any_cycle
  any_cycle-Ends n search h [] s sub small = λ k m. m
  any_cycle-Ends n search h (id ∷ ids) s sub small =
      and_then-Ends s (search id s) (any_cycle search ids)
        (h id s (sub id (ground (arith, eq_iff id id))) small)
        (λ s' more.
          any_cycle-Ends n search h ids s' (λ k m. sub k (ground (arith, m)))
            (omega (arith, unmet_mono all s.visited s'.visited more)))

  has_cycle-Ends :
      (fuel : ℕ) (id : String) (s : Marks)
      → contains id all ≡ true
      → unmet all s.visited < fuel
      → Ends s (has_cycle deps fuel id s)
  unfolding has_cycle
  has_cycle-Ends zero id s inside small = absurd (omega arith)
  has_cycle-Ends (suc fuel) id s inside small = elim (Bool-cases (contains id s.on_stack)) [
    | inl on ↦ rw on tt
    | inr off ↦ elim (Bool-cases (contains id s.visited)) [
      | inl old ↦ rw (off, old) (λ k m. m)
      | inr new ↦
          rw (off, new)
            (and_then-Ends s (any_cycle (has_cycle deps fuel) (deps id) (enter id s)) (leave id)
              (later-Ends s (enter id s) _ (λ k m. ground (arith, m))
                (any_cycle-Ends fuel (has_cycle deps fuel) (has_cycle-Ends fuel) (deps id)
                  (enter id s) (λ dep m. closed id dep inside m)
                  (omega (arith, unmet-cons all s.visited id inside new))))
              (λ s' more k m. m))
    ]
  ]

  pub search_from-Ends :
      (fuel : ℕ) (ids : List String) (s : Marks)
      → ((id : String) → contains id ids ≡ true → contains id all ≡ true)
      → unmet all s.visited < fuel
      → Ends s (search_from deps fuel ids s)
  unfolding search_from
  search_from-Ends fuel [] s sub small = λ k m. m
  search_from-Ends fuel (id ∷ ids) s sub small = elim (Bool-cases (contains id s.visited)) [
    | inl old ↦ rw old (search_from-Ends fuel ids s (λ k m. sub k (ground (arith, m))) small)
    | inr new ↦ rw new (
        and_then-Ends s (has_cycle deps fuel id s) (search_from deps fuel ids)
          (has_cycle-Ends fuel id s (sub id (ground (arith, eq_iff id id))) small)
          (λ s' more.
            search_from-Ends fuel ids s' (λ k m. sub k (ground (arith, m)))
              (omega (arith, unmet_mono all s.visited s'.visited more))))
  ]
