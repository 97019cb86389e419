-- ===== src/Dag/Counts.antt =====
-- The two maps in closed form: an indegree counts the dependencies of a node, and an adjacency
-- list holds the nodes that depend on one, each as often as it does.
use mathlib.Core.List.{append-nil, append_assoc}
use newser.Prelude.{
  ℕ, suc, ◌+◌, ◌≡◌, refl, true, false, String, List, [], ◌∷◌, ◌++◌, str_eq, eq_iff, arith,
  if◌then◌else◌, contains, Bool-cases, inl, inr, ◌∙◌, sym, All, ap,
}
use newser.Prelude.Int.{pos}
pub use newser.Prelude.{count}
use newser.Dag.{Node, ids, Degrees, no_edges, add_edge, add_edges, build}
use newser.Dag.Sets.{contains-append}

-- How many of the names are not among `finished`.
abbrev pub unmet : List String → List String → ℕ
unmet [] finished = 0
unmet (dep ∷ deps) finished = (if contains dep finished then 0 else 1) + unmet deps finished

-- How many dependencies of the nodes called `id` are not among `finished`.
abbrev pub pending : List Node → List String → String → ℕ
pending [] finished id = 0
pending (n ∷ ns) finished id =
    (if str_eq n.id id then unmet n.depends_on finished else 0) + pending ns finished id

-- `id`, once for each copy of `source` among its dependencies.
abbrev pub copies : String → List String → String → List String
copies id [] source = []
copies id (dep ∷ deps) source =
    let rest = copies id deps source in if str_eq dep source then id ∷ rest else rest

-- The nodes that depend on `source`.
abbrev pub dependents : List Node → String → List String
dependents [] source = []
dependents (n ∷ ns) source = copies n.id n.depends_on source ++ dependents ns source

-- The dependencies of the first node called `id`.
abbrev pub deps_of : List Node → String → List String
deps_of [] id = []
deps_of (n ∷ ns) id = if str_eq n.id id then n.depends_on else deps_of ns id

add_edges-indegree :
    (id : String) (deps : List String) (m : Degrees) (j : String) (k : ℕ)
    → m.indegree j ≡ pos k
    → (add_edges id deps m).indegree j ≡ pos ((if str_eq id j then unmet deps [] else 0) + k)
unfolding add_edges
add_edges-indegree id [] m j k h = ground arith
add_edges-indegree id (dep ∷ deps) m j k h = elim (Bool-cases (str_eq id j)) [
  | inl same ↦ ground (arith, eq_iff id j, add_edges-indegree id deps (add_edge id m dep) j (suc k))
  | inr other ↦ ground (arith, add_edges-indegree id deps (add_edge id m dep) j k)
]

build-indegree_from :
    (ns : List Node) (m : Degrees) (j : String) (k : ℕ)
    → m.indegree j ≡ pos k
    → (build ns m).indegree j ≡ pos (pending ns [] j + k)
unfolding build
build-indegree_from [] m j k h = ground arith
build-indegree_from (n ∷ ns) m j k h = ground (
  arith,
  add_edges-indegree n.id n.depends_on m j k h,
  build-indegree_from ns (add_edges n.id n.depends_on m) j
      ((if str_eq n.id j then unmet n.depends_on [] else 0) + k),
)

pub build-indegree :
    (ns : List Node) (j : String) → (build ns no_edges).indegree j ≡ pos (pending ns [] j)
build-indegree ns j = ground (arith, build-indegree_from ns no_edges j 0 refl)

add_edges-adjacency :
    (id : String) (deps : List String) (m : Degrees) (s : String)
    → (add_edges id deps m).adjacency s ≡ m.adjacency s ++ copies id deps s
unfolding add_edges
add_edges-adjacency id [] m s = sym (append-nil _)
add_edges-adjacency id (dep ∷ deps) m s = elim (Bool-cases (str_eq dep s)) [
  | inl same ↦
      rw (add_edges-adjacency id deps (add_edge id m dep) s, same)
        (append_assoc _ (id ∷ []) (copies id deps s)
          ∙ ap (λ t. m.adjacency t ++ id ∷ copies id deps s) ((eq_iff dep s).0 same))
  | inr other ↦ rw (add_edges-adjacency id deps (add_edge id m dep) s, other)
]

build-adjacency_from :
    (ns : List Node) (m : Degrees) (s : String)
    → (build ns m).adjacency s ≡ m.adjacency s ++ dependents ns s
unfolding build
build-adjacency_from [] m s = sym (append-nil _)
build-adjacency_from (n ∷ ns) m s =
    rw
      (
        build-adjacency_from ns (add_edges n.id n.depends_on m) s,
        add_edges-adjacency n.id n.depends_on m s,
      )
      (append_assoc (m.adjacency s) (copies n.id n.depends_on s) (dependents ns s))

pub build-adjacency :
    (ns : List Node) (s : String) → (build ns no_edges).adjacency s ≡ dependents ns s
build-adjacency ns s = build-adjacency_from ns no_edges s

count-append : (k : String) (xs ys : List String) → count k (xs ++ ys) ≡ count k xs + count k ys
count-append k [] ys = omega arith
count-append k (x ∷ xs) ys = omega (arith, count-append k xs ys)

unmet-snoc :
    (id k cur : String) (deps finished : List String)
    → contains cur finished ≡ false
    → (if str_eq id k then unmet deps finished else 0)
      ≡ (if str_eq id k then unmet deps (finished ++ cur ∷ []) else 0)
        + count k (copies id deps cur)
unmet-snoc id k cur [] finished h = ground arith
unmet-snoc id k cur (dep ∷ deps) finished h = ground (
  arith,
  eq_iff dep cur,
  eq_iff cur dep,
  contains-append dep finished (cur ∷ []),
  unmet-snoc id k cur deps finished h,
)

-- Finishing a node takes one from a count for each edge out of the node.
pub pending-snoc :
    (ns : List Node) (finished : List String) (cur k : String)
    → contains cur finished ≡ false
    → pending ns finished k ≡ pending ns (finished ++ cur ∷ []) k + count k (dependents ns cur)
pending-snoc [] finished cur k h = omega arith
pending-snoc (n ∷ ns) finished cur k h = omega (
  arith,
  count-append k (copies n.id n.depends_on cur) (dependents ns cur),
  unmet-snoc n.id k cur n.depends_on finished h,
  pending-snoc ns finished cur k h,
)

unmet-All :
    (deps finished : List String)
    → unmet deps finished ≡ 0
    → All (λ dep. contains dep finished ≡ true) deps
unmet-All [] finished h = tt
unmet-All (dep ∷ deps) finished h = (ground arith, unmet-All deps finished (ground arith))

-- Nothing pending: every dependency is among the finished ones.
pub pending-All :
    (ns : List Node) (finished : List String) (k : String)
    → pending ns finished k ≡ 0
    → All (λ dep. contains dep finished ≡ true) (deps_of ns k)
pending-All [] finished k h = tt
pending-All (n ∷ ns) finished k h = elim (Bool-cases (str_eq n.id k)) [
  | inl same ↦ rw same (unmet-All n.depends_on finished (ground arith))
  | inr other ↦ rw other (pending-All ns finished k (ground arith))
]

copies-ids :
    (id : String) (deps : List String) (s k : String)
    → contains k (copies id deps s) ≡ true
    → id ≡ k
copies-ids id [] s k h = cc
copies-ids id (dep ∷ deps) s k h = ground (arith, eq_iff id k, copies-ids id deps s k)

pub dependents-ids :
    (ns : List Node) (s k : String)
    → contains k (dependents ns s) ≡ true
    → contains k (ids ns) ≡ true
dependents-ids [] s k h = h
dependents-ids (n ∷ ns) s k h = ground (
  arith,
  eq_iff n.id k,
  contains-append k (copies n.id n.depends_on s) (dependents ns s),
  copies-ids n.id n.depends_on s k,
  dependents-ids ns s k,
)
