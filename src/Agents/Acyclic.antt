-- ===== src/Agents/Acyclic.antt =====
-- What a search through the dependencies shows: a cycle leaves no way to rank the tasks, and a clear
-- search gives an order of them.
use newser.Prelude.{
  ℕ, zero, suc, ◌<◌, ◌≡◌, refl, ◌∙◌, sym, subst, true, false, ◌||◌, String, List, [], ◌∷◌, contains,
  str_eq, eq_iff, if◌then◌else◌, arith, Bool-cases, inl, inr,
}
use newser.Agents.Cycles.{
  Marks, Search, cycle, spent, clear, and_then, without, enter, leave, any_cycle, has_cycle,
  search_from, unmarked,
}

contains-without :
    (k id : String) (xs : List String)
    → contains k (without id xs) ≡ (if str_eq id k then false else contains k xs)
contains-without k id [] = ground arith
contains-without k id (x ∷ xs) =
    ground (arith, contains-without k id xs, eq_iff x id, eq_iff x k, eq_iff id k)

-- The same ids are on the stack.
abbrev pub SameStack : Marks → Marks → Type 0
SameStack s s' = (k : String) → contains k s'.on_stack ≡ contains k s.on_stack

-- After `leave`, the stack is that before `enter`.
leave-SameStack :
    (id : String) (s s' : Marks)
    → contains id s.on_stack ≡ false
    → SameStack (enter id s) s'
    → (k : String) → contains k (without id s'.on_stack) ≡ contains k s.on_stack
leave-SameStack id s s' fresh same k =
    ground (arith, contains-without k id s'.on_stack, same k, eq_iff id k)

module _ (deps : String → List String) where
  abbrev pub Ranks : (String → ℕ) → Type 0
  Ranks rank = (id dep : String) → contains dep (deps id) ≡ true → rank dep < rank id

  module _ (rank : String → ℕ) (ranks : Ranks rank) where
    abbrev pub BelowStack : String → Marks → Type 0
    BelowStack id s = (k : String) → contains k s.on_stack ≡ true → rank id < rank k

    abbrev pub NoCycle : Marks → Search → Type 0
    NoCycle s cycle = ⊥
    NoCycle s spent = Unit
    NoCycle s (clear s') = SameStack s s'

    and_then-NoCycle :
        (s : Marks) (r : Search) (f : Marks → Search)
        → NoCycle s r
        → ((s' : Marks) → SameStack s s' → NoCycle s (f s'))
        → NoCycle s (and_then r f)
    and_then-NoCycle s cycle f h g = h
    and_then-NoCycle s spent f h g = tt
    and_then-NoCycle s (clear s') f h g = g s' h

    NoCycle-same : (s s' : Marks) (r : Search) → SameStack s s' → NoCycle s' r → NoCycle s r
    NoCycle-same s s' cycle h g = g
    NoCycle-same s s' spent h g = tt
    NoCycle-same s s' (clear s'') h g = λ k. g k ∙ h k

    any_cycle-NoCycle :
        (search : String → Marks → Search)
        → ((id : String) (s : Marks) → BelowStack id s → NoCycle s (search id s))
        → (ids : List String) (s : Marks)
        → ((id : String) → contains id ids ≡ true → BelowStack id s)
        → NoCycle s (any_cycle search ids s)
    unfolding any_cycle
    any_cycle-NoCycle search h [] s below = λ k. refl
    any_cycle-NoCycle search h (id ∷ ids) s below =
        and_then-NoCycle s (search id s) (any_cycle search ids)
          (h id s (below id (ground (arith, eq_iff id id))))
          (λ s' same. NoCycle-same s s' (any_cycle search ids s') same (
            any_cycle-NoCycle search h ids s'
              (λ i m k on. below i (ground (arith, eq_iff id i)) k (sym (same k) ∙ on))))

    leave-NoCycle :
        (id : String) (s : Marks) (r : Search)
        → contains id s.on_stack ≡ false
        → NoCycle (enter id s) r
        → NoCycle s (and_then r (leave id))
    leave-NoCycle id s cycle fresh h = h
    leave-NoCycle id s spent fresh h = tt
    leave-NoCycle id s (clear s') fresh h = leave-SameStack id s s' fresh h

    below_deps :
        (id : String) (s : Marks)
        → BelowStack id s
        → (dep : String) → contains dep (deps id) ≡ true
        → BelowStack dep (enter id s)
    below_deps id s below dep m k on = elim (Bool-cases (str_eq id k)) [
      | inl same ↦ subst (λ x. rank dep < rank x) ((eq_iff id k).0 same) (ranks id dep m)
      | inr other ↦ omega (arith, ranks id dep m, below k (rw other at on))
    ]

    has_cycle-NoCycle :
        (fuel : ℕ) (id : String) (s : Marks)
        → BelowStack id s
        → NoCycle s (has_cycle deps fuel id s)
    unfolding has_cycle
    has_cycle-NoCycle zero id s below = tt
    has_cycle-NoCycle (suc fuel) id s below = elim (Bool-cases (contains id s.on_stack)) [
      | inl on ↦ absurd (omega (arith, below id on))
      | inr off ↦ elim (Bool-cases (contains id s.visited)) [
        | inl old ↦ rw (off, old) (λ k. refl)
        | inr new ↦
            rw (off, new)
              (leave-NoCycle id s _ off (
                any_cycle-NoCycle (has_cycle deps fuel) (has_cycle-NoCycle fuel) (deps id)
                  (enter id s) (below_deps id s below)))
      ]
    ]

    pub search_from-NoCycle :
        (fuel : ℕ) (ids : List String) (s : Marks)
        → SameStack unmarked s
        → NoCycle unmarked (search_from deps fuel ids s)
    unfolding search_from
    search_from-NoCycle fuel [] s empty = empty
    search_from-NoCycle fuel (id ∷ ids) s empty = elim (Bool-cases (contains id s.visited)) [
      | inl old ↦ rw old (search_from-NoCycle fuel ids s empty)
      | inr new ↦ rw new (
          and_then-NoCycle unmarked (has_cycle deps fuel id s) (search_from deps fuel ids)
            (NoCycle-same unmarked s _ empty
              (has_cycle-NoCycle fuel id s (λ k on. absurd (ground (arith, empty k)))))
            (λ s' same. search_from-NoCycle fuel ids s' same))
    ]

  -- Each id stands behind all that it depends on.
  abbrev pub Ordered : List String → Type 0
  Ordered [] = Unit
  Ordered (id ∷ order) =
      ((dep : String) → contains dep (deps id) ≡ true → contains dep order ≡ true) × Ordered order

  -- The order so far holds whatever the search is done with.
  abbrev pub Holds : Marks → List String → Type 0
  Holds s order =
      Ordered order
      × ((k : String)
          → contains k s.visited ≡ true
          → (contains k s.on_stack || contains k order) ≡ true)

  abbrev pub Extends : List String → List String → Type 0
  Extends order order' = (k : String) → contains k order ≡ true → contains k order' ≡ true

  -- After a search that is clear, the order can be continued so that it holds these ids.
  abbrev pub Continues : Marks → List String → List String → Search → Type 0
  Continues s order ids cycle = Unit
  Continues s order ids spent = Unit
  Continues s order ids (clear s') =
      (order' : List String) × Holds s' order'
      × Extends order order'
      × SameStack s s'
      × ((k : String) → contains k ids ≡ true → contains k order' ≡ true)

  later-Continues :
      (s s' : Marks) (order order' : List String) (id : String) (ids : List String) (r : Search)
      → Extends order order'
      → SameStack s s'
      → contains id order' ≡ true
      → Continues s' order' ids r
      → Continues s order (id ∷ ids) r
  later-Continues s s' order order' id ids cycle ext same has h = tt
  later-Continues s s' order order' id ids spent ext same has h = tt
  later-Continues s s' order order' id ids (clear t) ext same has (o, holds, ext', same', has') = (
    o,
    holds,
    λ k m. ext' k (ext k m),
    λ k. same' k ∙ same k,
    λ k m. elim (Bool-cases (str_eq id k)) [
      | inl e ↦ subst (λ x. contains x o ≡ true) ((eq_iff id k).0 e) (ext' id has)
      | inr e ↦ has' k (rw e at m)
    ],
  )

  and_then-Continues :
      (s : Marks) (order : List String) (id : String) (ids : List String) (r : Search)
      (f : Marks → Search)
      → Continues s order (id ∷ []) r
      → ((s' : Marks) (order' : List String)
          → SameStack s s'
          → Holds s' order'
          → Continues s' order' ids (f s'))
      → Continues s order (id ∷ ids) (and_then r f)
  and_then-Continues s order id ids cycle f h g = tt
  and_then-Continues s order id ids spent f h g = tt
  and_then-Continues s order id ids (clear s') f (o, holds, ext, same, has) g =
      later-Continues s s' order o id ids (f s') ext same (has id (ground (arith, eq_iff id id)))
        (g s' o same holds)

  any_cycle-Continues :
      (search : String → Marks → Search)
      → ((id : String) (s : Marks) (order : List String)
          → Holds s order
          → Continues s order (id ∷ []) (search id s))
      → (ids : List String) (s : Marks) (order : List String) → Holds s order
      → Continues s order ids (any_cycle search ids s)
  unfolding any_cycle
  any_cycle-Continues search h [] s order holds =
      (order, holds, λ k m. m, λ k. refl, λ k m. absurd (cc))
  any_cycle-Continues search h (id ∷ ids) s order holds =
      and_then-Continues s order id ids (search id s) (any_cycle search ids) (h id s order holds)
        (λ s' o same. any_cycle-Continues search h ids s' o)

  leave-Continues :
      (id : String) (s : Marks) (order : List String) (r : Search)
      → contains id s.on_stack ≡ false
      → Continues (enter id s) order (deps id) r
      → Continues s order (id ∷ []) (and_then r (leave id))
  leave-Continues id s order cycle fresh h = tt
  leave-Continues id s order spent fresh h = tt
  leave-Continues id s order (clear s') fresh (o, holds, ext, same, has) = (
    id ∷ o,
    (
      (has, holds.0),
      λ k m. ground (arith, holds.1 k m, contains-without k id s'.on_stack, eq_iff id k),
    ),
    λ k m. ground (arith, ext k m),
    leave-SameStack id s s' fresh same,
    λ k m. ground arith,
  )

  has_cycle-Continues :
      (fuel : ℕ) (id : String) (s : Marks) (order : List String)
      → Holds s order
      → Continues s order (id ∷ []) (has_cycle deps fuel id s)
  unfolding has_cycle
  has_cycle-Continues zero id s order holds = tt
  has_cycle-Continues (suc fuel) id s order holds = elim (Bool-cases (contains id s.on_stack)) [
    | inl on ↦ rw on tt
    | inr off ↦ elim (Bool-cases (contains id s.visited)) [
      | inl old ↦
          let done : contains id order ≡ true = ground (arith, holds.1 id old) in
          rw (off, old)
            (
              order,
              holds,
              λ k m. m,
              λ k. refl,
              λ k m.
                  subst (λ x. contains x order ≡ true) ((eq_iff id k).0 (ground (arith, m))) done,
            )
      | inr new ↦
          rw (off, new)
            (leave-Continues id s order _ off (
              any_cycle-Continues (has_cycle deps fuel) (has_cycle-Continues fuel) (deps id)
                (enter id s) order (holds.0, λ k m. ground (arith, holds.1 k, eq_iff id k))))
    ]
  ]

  pub search_from-Continues :
      (fuel : ℕ) (ids : List String) (s : Marks) (order : List String)
      → SameStack unmarked s
      → Holds s order
      → Continues s order ids (search_from deps fuel ids s)
  unfolding search_from
  search_from-Continues fuel [] s order empty holds =
      (order, holds, λ k m. m, λ k. refl, λ k m. absurd (cc))
  search_from-Continues fuel (id ∷ ids) s order empty holds =
      elim (Bool-cases (contains id s.visited)) [
        | inl old ↦ rw old (
            later-Continues s s order order id ids _ (λ k m. m) (λ k. refl)
              (ground (arith, holds.1 id old, empty id))
              (search_from-Continues fuel ids s order empty holds))
        | inr new ↦ rw new (
            and_then-Continues s order id ids (has_cycle deps fuel id s) (search_from deps fuel ids)
              (has_cycle-Continues fuel id s order holds)
              (λ s' o same. search_from-Continues fuel ids s' o (λ k. same k ∙ empty k)))
      ]
