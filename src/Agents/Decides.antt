-- ===== src/Agents/Decides.antt =====
-- checkCircularDependencies as a decision: it reports a cycle exactly for tasks that cannot be ranked.
use newser.Prelude.{
  ℕ, suc, ◌<◌, ◌≤◌, ◌≡◌, ◌⊎◌, refl, sym, subst, true, false, ◌||◌, String, List, [], ◌∷◌, contains,
  str_eq, eq_iff, if◌then◌else◌, arith, Bool-cases, inl, inr, length, All,
}
use newser.Prelude.Dict.{lookup, insert, lookup-insert}
use newser.Dag.Sets.{contains-append}
use newser.Agents.{AgentTask}
use newser.Agents.Cycles.{
  Marks, Search, cycle, spent, clear, unmarked, deps_map, deps_in, listed, named_ids, task_ids,
  check_circular_dependencies,
}
use newser.Agents.Acyclic.{
  Ranks, NoCycle, Continues, Ordered, search_from-NoCycle, search_from-Continues,
}
use newser.Agents.Visits.{Ends, search_from-Ends, unmet-length}

-- Each id of the list is among the order.
abbrev pub Within : List String → List String → Type 0
Within ids order = All (λ id. contains id order ≡ true) ids

All-of :
    (P : String → Type 0) (ids : List String)
    → ((k : String) → contains k ids ≡ true → P k)
    → All P ids
All-of P [] h = tt
All-of P (id ∷ ids) h =
    (h id (ground (arith, eq_iff id id)), All-of P ids (λ k m. h k (ground (arith, m))))

pub All-contains :
    (P : String → Type 0) (k : String) (ids : List String) → All P ids → contains k ids ≡ true → P k
All-contains P k [] w m = absurd (cc)
All-contains P k (id ∷ ids) w m = elim (Bool-cases (str_eq id k)) [
  | inl e ↦ subst P ((eq_iff id k).0 e) w.0
  | inr e ↦ All-contains P k ids w.1 (rw e at m)
]

-- The place of an id in an order, counted from the end.
rank_in : List String → String → ℕ
rank_in [] k = 0
rank_in (id ∷ order) k = if contains k order then rank_in order k else suc (length order)

rank_in-le :
    (order : List String) (k : String) → contains k order ≡ true → rank_in order k ≤ length order
unfolding rank_in
rank_in-le [] k m = absurd (cc)
rank_in-le (id ∷ order) k m = ground (arith, rank_in-le order k)

module _ (deps : String → List String) where
  Ordered-closed :
      (order : List String) (id dep : String)
      → Ordered deps order
      → contains id order ≡ true
      → contains dep (deps id) ≡ true
      → contains dep order ≡ true
  Ordered-closed [] id dep ordered m d = absurd (cc)
  Ordered-closed (x ∷ order) id dep ordered m d = elim (Bool-cases (str_eq x id)) [
    | inl e ↦ ground (
      arith,
      ordered.0 dep (subst (λ y. contains dep (deps y) ≡ true) (sym ((eq_iff x id).0 e)) d),
    )
    | inr e ↦ ground (arith, Ordered-closed order id dep ordered.1 (rw e at m) d)
  ]

  rank_in-lt :
      (order : List String) (id dep : String)
      → Ordered deps order
      → contains id order ≡ true
      → contains dep (deps id) ≡ true
      → rank_in order dep < rank_in order id
  unfolding rank_in
  rank_in-lt [] id dep ordered m d = absurd (cc)
  rank_in-lt (x ∷ order) id dep ordered m d = elim (Bool-cases (contains id order)) [
    | inl inside ↦
        rw (inside, Ordered-closed order id dep ordered.1 inside d)
          (rank_in-lt order id dep ordered.1 inside d)
    | inr outside ↦
        let same : x ≡ id = (eq_iff x id).0 (ground (arith, m)) in
        let known = ordered.0 dep (subst (λ y. contains dep (deps y) ≡ true) (sym same) d) in
        rw (outside, known) (omega (arith, rank_in-le order dep known))
  ]

module _ {F T : Type 0} where
  contains-deps_map :
      (ts : List (AgentTask F T)) (m : List (String × List String)) (id dep : String)
      → contains dep (listed (lookup id (deps_map ts m))) ≡ true
      → (contains dep (listed (lookup id m)) || contains dep (named_ids ts)) ≡ true
  unfolding deps_map
  contains-deps_map [] m id dep h = ground arith
  contains-deps_map (t ∷ ts) m id dep h =
      let later = contains-deps_map ts (insert t.id t.depends_on m) id dep h in
      let split = contains-append dep t.depends_on (named_ids ts) in
      elim (Bool-cases (str_eq t.id id)) [
        | inl e ↦ ground (arith, split, rw (lookup-insert t.id id t.depends_on m, e) at later)
        | inr e ↦ ground (arith, split, rw (lookup-insert t.id id t.depends_on m, e) at later)
      ]

  -- An id without a task has no dependencies.
  pub deps_map-other :
      (ts : List (AgentTask F T)) (m : List (String × List String)) (id : String)
      → contains id (task_ids ts) ≡ false
      → lookup id (deps_map ts m) ≡ lookup id m
  unfolding deps_map
  deps_map-other [] m id h = refl
  deps_map-other (t ∷ ts) m id h = ground (
    arith,
    deps_map-other ts (insert t.id t.depends_on m) id,
    lookup-insert t.id id t.depends_on m,
  )

  task_ids-named :
      (k : String) (ts : List (AgentTask F T))
      → contains k (task_ids ts) ≡ true
      → contains k (named_ids ts) ≡ true
  task_ids-named k [] h = h
  task_ids-named k (t ∷ ts) h =
      ground (arith, task_ids-named k ts, contains-append k t.depends_on (named_ids ts))

  deps_in-named :
      (ts : List (AgentTask F T)) (id dep : String)
      → contains dep (deps_in ts id) ≡ true
      → contains dep (named_ids ts) ≡ true
  unfolding lookup
  deps_in-named ts id dep h = ground (arith, contains-deps_map ts [] id dep h)

  unmarked-Ends :
      (ts : List (AgentTask F T))
      → Ends
          (deps_in ts)
          (named_ids ts)
          (λ id dep i d. deps_in-named ts id dep d)
          unmarked
          (check_circular_dependencies ts)
  unfolding check_circular_dependencies
  unmarked-Ends ts =
      search_from-Ends (deps_in ts) (named_ids ts) (λ id dep i d. deps_in-named ts id dep d)
        (suc (length (named_ids ts))) (task_ids ts) unmarked (λ k m. task_ids-named k ts m)
        (omega (arith, unmet-length (named_ids ts)))

  unmarked-NoCycle :
      (ts : List (AgentTask F T)) (rank : String → ℕ) (ranks : Ranks (deps_in ts) rank)
      → NoCycle (deps_in ts) rank ranks unmarked (check_circular_dependencies ts)
  unfolding check_circular_dependencies
  unmarked-NoCycle ts rank ranks =
      search_from-NoCycle (deps_in ts) rank ranks (suc (length (named_ids ts))) (task_ids ts)
        unmarked (λ k. refl)

  unmarked-Continues :
      (ts : List (AgentTask F T))
      → Continues (deps_in ts) unmarked [] (task_ids ts) (check_circular_dependencies ts)
  unfolding check_circular_dependencies
  unmarked-Continues ts =
      search_from-Continues (deps_in ts) (suc (length (named_ids ts))) (task_ids ts) unmarked []
        (λ k. refl) (tt, λ k m. absurd (cc))

  -- An order of all tasks in which each stands behind its dependencies.
  abbrev pub Orders : List (AgentTask F T) → List String → Type 0
  Orders ts order = Ordered (deps_in ts) order × Within (task_ids ts) order

  Decided : List (AgentTask F T) → Search → Type 0
  Decided ts cycle = (rank : String → ℕ) → ¬ Ranks (deps_in ts) rank
  Decided ts spent = ⊥
  Decided ts (clear s) = (order : List String) × Orders ts order

  decided :
      (ts : List (AgentTask F T)) (r : Search)
      → Ends (deps_in ts) (named_ids ts) (λ id dep i d. deps_in-named ts id dep d) unmarked r
      → ((rank : String → ℕ) (ranks : Ranks (deps_in ts) rank)
          → NoCycle (deps_in ts) rank ranks unmarked r)
      → Continues (deps_in ts) unmarked [] (task_ids ts) r
      → Decided ts r
  unfolding Decided
  decided ts cycle e n c = n
  decided ts spent e n c = e
  decided ts (clear s) e n (order, holds, ext, same, has) =
      (order, (holds.0, All-of (λ id. contains id order ≡ true) (task_ids ts) has))

  -- The order that a search without a cycle leaves behind.
  pub check_circular_dependencies-clear :
      (ts : List (AgentTask F T)) {s : Marks}
      → check_circular_dependencies ts ≡ clear s
      → (order : List String) × Orders ts order
  unfolding Decided
  check_circular_dependencies-clear ts e = rw e at (
      decided ts (check_circular_dependencies ts) (unmarked-Ends ts) (unmarked-NoCycle ts)
        (unmarked-Continues ts))

  -- Each task is ranked above all that it depends on.
  abbrev pub Ranked : List (AgentTask F T) → (String → ℕ) → Type 0
  Ranked ts rank = (id : String) → All (λ dep. rank dep < rank id) (deps_in ts id)

  rank_in-Ranked :
      (ts : List (AgentTask F T)) (order : List String)
      → Orders ts order
      → Ranked ts (rank_in order)
  unfolding lookup
  rank_in-Ranked ts order (ordered, within) id = elim (Bool-cases (contains id (task_ids ts))) [
    | inl task ↦
        All-of (λ dep. rank_in order dep < rank_in order id) (deps_in ts id)
          (λ dep d.
            rank_in-lt (deps_in ts) order id dep ordered
              (All-contains (λ k. contains k order ≡ true) id (task_ids ts) within task) d)
    | inr other ↦ rw (deps_map-other ts [] id other) tt
  ]

  by_result :
      (ts : List (AgentTask F T)) (r : Search)
      → Decided ts r
      → ((r ≡ cycle) × ((rank : String → ℕ) → ¬ Ranked ts rank))
        ⊎ ((s : Marks) × (r ≡ clear s) × (rank : String → ℕ) × Ranked ts rank)
  unfolding Decided
  by_result ts cycle d = inl (
    refl,
    λ rank ranked.
        d rank (λ id dep m. All-contains (λ x. rank x < rank id) dep (deps_in ts id) (ranked id) m),
  )
  by_result ts spent d = absurd d
  by_result ts (clear s) (order, orders) =
      inr (s, refl, rank_in order, rank_in-Ranked ts order orders)

  -- checkCircularDependencies always ends within its fuel. Either it reports a cycle, and then no
  -- ranks of the ids put each task above its dependencies; or it reports none, and then there are
  -- such ranks. The dependencies of an id are those of the last task that has it.
  pub check_circular_dependencies_decides :
      (ts : List (AgentTask F T))
      → ((check_circular_dependencies ts ≡ cycle) × ((rank : String → ℕ) → ¬ Ranked ts rank))
        ⊎ ((s : Marks) × (check_circular_dependencies ts ≡ clear s)
            × (rank : String → ℕ) × Ranked ts rank)
  check_circular_dependencies_decides ts = by_result ts (check_circular_dependencies ts) (
      decided ts (check_circular_dependencies ts) (unmarked-Ends ts) (unmarked-NoCycle ts)
        (unmarked-Continues ts))
