-- ===== src/Agents/Ready.antt =====
-- The tasks of a round: those that are ready, in another order.
use newser.Prelude.{
  ℕ, zero, suc, ◌≡◌, refl, true, false, not, ◌&&◌, ◌||◌, String, none, some, List, [], ◌∷◌, is_nil,
  contains, distinct, str_eq, eq_iff, if◌then◌else◌, arith, Bool-cases, Option-cases, inl, inr, All,
}
use newser.Prelude.Dict.{lookup, insert, lookup-insert}
use newser.Agents.{AgentTask}
use newser.Agents.Cycles.{deps_map, deps_in, task_ids}
use newser.Agents.Acyclic.{Ordered}
use newser.Agents.Decides.{deps_map-other}
use newser.Agents.Rounds.{ready_tasks, all_executed}
use newser.Agents.Validate.{first_missing, missing_in, check_missing_dependencies}
use newser.Agents.Execute.{insert_at, arrange}

module _ {ℓ κ} {A : Type ℓ} (P : A → Type κ) where
  insert_at-All : (n : ℕ) (x : A) (ys : List A) → P x → All P ys → All P (insert_at n x ys)
  insert_at-All zero x ys p h = (p, h)
  insert_at-All (suc n) x [] p h = (p, tt)
  insert_at-All (suc n) x (y ∷ ys) p h = (h.0, insert_at-All n x ys p h.1)

  pub arrange-All : (ps : List ℕ) (xs : List A) → All P xs → All P (arrange ps xs)
  arrange-All [] xs h = h
  arrange-All (p ∷ ps) [] h = tt
  arrange-All (p ∷ ps) (x ∷ xs) h = insert_at-All p x (arrange ps xs) h.0 (arrange-All ps xs h.1)

is_nil-insert_at {ℓ} :
    {A : Type ℓ} (n : ℕ) (x : A) (ys : List A) → is_nil (insert_at n x ys) ≡ false
is_nil-insert_at zero x ys = refl
is_nil-insert_at (suc n) x [] = refl
is_nil-insert_at (suc n) x (y ∷ ys) = refl

pub is_nil-arrange {ℓ} :
    {A : Type ℓ} (ps : List ℕ) (x : A) (xs : List A) → is_nil (arrange ps (x ∷ xs)) ≡ false
is_nil-arrange [] x xs = refl
is_nil-arrange (p ∷ ps) x xs = is_nil-insert_at p x (arrange ps xs)

all_executed-of :
    (executed deps : List String)
    → ((k : String) → contains k deps ≡ true → contains k executed ≡ true)
    → all_executed executed deps ≡ true
unfolding all_executed
all_executed-of executed [] h = refl
all_executed-of executed (dep ∷ deps) h =
    ground
      (arith, h dep, eq_iff dep dep, all_executed-of executed deps (λ k m. h k (ground (arith, m))))

first_missing-none :
    (known deps : List String) (k : String)
    → first_missing known deps ≡ none
    → contains k deps ≡ true
    → contains k known ≡ true
unfolding first_missing
first_missing-none known [] k h m = absurd (cc)
first_missing-none known (dep ∷ deps) k h m =
    ground (arith, eq_iff dep k, first_missing-none known deps k)

module _ {F T : Type 0} where
  contains-insert_at :
      (k : String) (n : ℕ) (t : AgentTask F T) (ts : List (AgentTask F T))
      → contains k (task_ids (insert_at n t ts)) ≡ (str_eq t.id k || contains k (task_ids ts))
  contains-insert_at k zero t ts = refl
  contains-insert_at k (suc n) t [] = refl
  contains-insert_at k (suc n) t (u ∷ ts) = ground (arith, contains-insert_at k n t ts)

  pub contains-arrange :
      (k : String) (ps : List ℕ) (ts : List (AgentTask F T))
      → contains k (task_ids (arrange ps ts)) ≡ contains k (task_ids ts)
  contains-arrange k [] ts = refl
  contains-arrange k (p ∷ ps) [] = refl
  contains-arrange k (p ∷ ps) (t ∷ ts) =
      ground (arith, contains-insert_at k p t (arrange ps ts), contains-arrange k ps ts)

  distinct-insert_at :
      (n : ℕ) (t : AgentTask F T) (ts : List (AgentTask F T))
      → distinct (t.id ∷ task_ids ts) ≡ true
      → distinct (task_ids (insert_at n t ts)) ≡ true
  distinct-insert_at zero t ts d = d
  distinct-insert_at (suc n) t [] d = d
  distinct-insert_at (suc n) t (u ∷ ts) d = ground (
    arith,
    distinct-insert_at n t ts,
    contains-insert_at u.id n t ts,
    eq_iff t.id u.id,
    eq_iff u.id t.id,
  )

  pub distinct-arrange :
      (ps : List ℕ) (ts : List (AgentTask F T))
      → distinct (task_ids ts) ≡ true
      → distinct (task_ids (arrange ps ts)) ≡ true
  distinct-arrange [] ts d = d
  distinct-arrange (p ∷ ps) [] d = d
  distinct-arrange (p ∷ ps) (t ∷ ts) d =
      distinct-insert_at p t (arrange ps ts)
        (ground (arith, distinct-arrange ps ts, contains-arrange t.id ps ts))

  -- What a ready task is.
  abbrev pub IsReady : List String → AgentTask F T → Type 0
  IsReady executed t =
      (contains t.id executed ≡ false) × (all_executed executed t.depends_on ≡ true)

  pub ready_tasks-IsReady :
      (executed : List String) (ts : List (AgentTask F T))
      → All (IsReady executed) (ready_tasks executed ts)
  unfolding ready_tasks
  ready_tasks-IsReady executed [] = tt
  ready_tasks-IsReady executed (t ∷ ts) =
      elim (Bool-cases (not (contains t.id executed) && all_executed executed t.depends_on)) [
        | inl ready ↦
            rw ready
              ((ground (arith, ready), ground (arith, ready)), ready_tasks-IsReady executed ts)
        | inr other ↦ rw other (ready_tasks-IsReady executed ts)
      ]

  pub contains-ready_tasks :
      (k : String) (executed : List String) (ts : List (AgentTask F T))
      → contains k (task_ids (ready_tasks executed ts)) ≡ true
      → contains k (task_ids ts) ≡ true
  unfolding ready_tasks
  contains-ready_tasks k executed [] h = h
  contains-ready_tasks k executed (t ∷ ts) h = ground (arith, contains-ready_tasks k executed ts)

  pub distinct-ready_tasks :
      (executed : List String) (ts : List (AgentTask F T))
      → distinct (task_ids ts) ≡ true
      → distinct (task_ids (ready_tasks executed ts)) ≡ true
  unfolding ready_tasks
  distinct-ready_tasks executed [] d = d
  distinct-ready_tasks executed (t ∷ ts) d =
      ground (arith, distinct-ready_tasks executed ts, contains-ready_tasks t.id executed ts)

  -- The dependencies of the first task with this id.
  own_deps : List (AgentTask F T) → String → List String
  own_deps [] id = []
  own_deps (t ∷ ts) id = let more = own_deps ts id in if str_eq t.id id then t.depends_on else more

  deps_in-own_deps :
      (ts : List (AgentTask F T)) (m : List (String × List String)) (id : String)
      → distinct (task_ids ts) ≡ true
      → contains id (task_ids ts) ≡ true
      → lookup id (deps_map ts m) ≡ some (own_deps ts id)
  unfolding own_deps deps_map
  deps_in-own_deps [] m id d h = absurd (cc)
  deps_in-own_deps (t ∷ ts) m id d h = elim (Bool-cases (str_eq t.id id)) [
    | inl e ↦ ground (
      arith,
      eq_iff t.id id,
      deps_map-other ts (insert t.id t.depends_on m) id,
      lookup-insert t.id id t.depends_on m,
    )
    | inr e ↦ ground (arith, deps_in-own_deps ts (insert t.id t.depends_on m) id)
  ]

  -- Where no task is ready, a task whose dependencies are executed is executed itself.
  none_ready :
      (executed : List String) (ts : List (AgentTask F T)) (id : String)
      → is_nil (ready_tasks executed ts) ≡ true
      → contains id (task_ids ts) ≡ true
      → all_executed executed (own_deps ts id) ≡ true
      → contains id executed ≡ true
  unfolding own_deps ready_tasks
  none_ready executed [] id none_left h done = absurd (cc)
  none_ready executed (t ∷ ts) id none_left h done =
      ground (arith, eq_iff t.id id, none_ready executed ts id)

  missing_in-none :
      (known : List String) (ts : List (AgentTask F T)) (id k : String)
      → missing_in known ts ≡ none
      → contains k (own_deps ts id) ≡ true
      → contains k known ≡ true
  unfolding missing_in own_deps
  missing_in-none known [] id k h m = absurd (cc)
  missing_in-none known (t ∷ ts) id k h m = elim (Option-cases (first_missing known t.depends_on)) [
    | inl fine ↦ ground (
      arith,
      fine,
      first_missing-none known t.depends_on k fine,
      missing_in-none known ts id k (rw fine at h),
    )
    | inr (dep, bad) ↦ absurd (let no = rw bad at h in cc)
  ]

  missing_own :
      (ts : List (AgentTask F T)) (id k : String)
      → check_missing_dependencies ts ≡ none
      → contains k (own_deps ts id) ≡ true
      → contains k (task_ids ts) ≡ true
  unfolding check_missing_dependencies
  missing_own ts id k h m = missing_in-none (task_ids ts) ts id k h m

  listed_deps :
      (x id k : String) (ts : List (AgentTask F T))
      → distinct (task_ids ts) ≡ true
      → contains id (task_ids ts) ≡ true
      → x ≡ id
      → contains k (own_deps ts id) ≡ true
      → contains k (deps_in ts x) ≡ true
  listed_deps x id k ts d task e h = rw e (rw (deps_in-own_deps ts [] id d task) h)

  -- Where no task is ready although an order of the tasks exists, all of them are executed.
  pub all_done :
      (executed : List String) (ts : List (AgentTask F T)) (order : List String) (id : String)
      → distinct (task_ids ts) ≡ true
      → check_missing_dependencies ts ≡ none
      → is_nil (ready_tasks executed ts) ≡ true
      → Ordered (deps_in ts) order
      → contains id order ≡ true
      → contains id (task_ids ts) ≡ true
      → contains id executed ≡ true
  all_done executed ts [] id d missing none_left ordered m task = absurd (cc)
  all_done executed ts (x ∷ order) id d missing none_left ordered m task =
      elim (Bool-cases (str_eq x id)) [
        | inl e ↦ none_ready executed ts id none_left task (
            all_executed-of executed (own_deps ts id) (λ k dep.
              all_done executed ts order k d missing none_left ordered.1
                (ordered.0 k (listed_deps x id k ts d task ((eq_iff x id).0 e) dep))
                (missing_own ts id k missing dep)))
        | inr e ↦ all_done executed ts order id d missing none_left ordered.1 (rw e at m) task
      ]
