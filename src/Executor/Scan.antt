-- ===== src/Executor/Scan.antt =====
-- The first pass of `Execute`: it stops at an unknown dependency, or else builds the whole graph.
use newser.Prelude.{
  ◌≡◌, refl, Bool, true, false, String, Option, none, some, List, [], ◌∷◌, ◌&&◌, arith,
  if◌then◌else◌, contains, inl, inr, ap, eq_iff, Option-cases,
}
use newser.Dag.{ids, Degrees, add_edge, add_edges, build}
use newser.Executor.{ok, err, unknown_dependency, Graph, keys, nodes, scan_deps, scan}

-- Every listed name is among the names known.
abbrev pub all_contained : List String → List String → Bool
all_contained known [] = true
all_contained known (dep ∷ deps) = contains dep known && all_contained known deps

-- Every dependency of a task is a key of the graph.
abbrev pub all_known : {F : Type 0} → List String → Graph F → Bool
all_known names [] = true
all_known names ((id, task) ∷ g) = all_contained names task.depends_on && all_known names g

-- The first dependency, in the order of the pass, that is no key of the graph.
abbrev pub first_missing : List String → List String → Option String
first_missing known [] = none
first_missing known (dep ∷ deps) =
    let later = first_missing known deps in if contains dep known then later else some dep

abbrev pub first_unknown : {F : Type 0} → List String → Graph F → Option (String × String)
first_unknown names [] = none
first_unknown names ((id, task) ∷ g) =
    let later = first_unknown names g in
    elim (first_missing names task.depends_on) [ none ↦ later | some dep ↦ some (id, dep) ]

pub ids-nodes : {F : Type 0} (g : Graph F) → ids (nodes g) ≡ keys g
ids-nodes [] = refl
ids-nodes ((id, task) ∷ g) = ap (λ t. id ∷ t) (ids-nodes g)

scan_deps_lem :
    (E : Type 0) (known : List String) (id : String) (deps : List String) (m : Degrees)
    → scan_deps {E = E} known id deps m ≡ elim (first_missing known deps) [
      | none ↦ ok (add_edges id deps m)
      | some dep ↦ err (unknown_dependency id dep)
    ]
unfolding scan_deps add_edges
scan_deps_lem E known id [] m = refl
scan_deps_lem E known id (dep ∷ deps) m =
    ground (arith, scan_deps_lem E known id deps (add_edge id m dep))

-- The pass builds the degrees of the whole graph, or reports the first unknown dependency.
pub scan_lem :
    {F : Type 0} (E : Type 0) (known : List String) (g : Graph F) (m : Degrees)
    → scan {E = E} known g m ≡ elim (first_unknown known g) [
      | none ↦ ok (build (nodes g) m)
      | some (id, dep) ↦ err (unknown_dependency id dep)
    ]
unfolding scan build
scan_lem E known [] m = refl
scan_lem E known ((id, task) ∷ g) m = ground (
  arith,
  scan_deps_lem E known id task.depends_on m,
  scan_lem E known g (add_edges id task.depends_on m),
)

first_missing-none :
    (known deps : List String) → all_contained known deps ≡ true → first_missing known deps ≡ none
first_missing-none known [] h = refl
first_missing-none known (dep ∷ deps) h = ground (arith, first_missing-none known deps)

pub first_unknown-none :
    {F : Type 0} (known : List String) (g : Graph F)
    → all_known known g ≡ true
    → first_unknown known g ≡ none
first_unknown-none known [] h = refl
first_unknown-none known ((id, task) ∷ g) h =
    ground (arith, first_missing-none known task.depends_on, first_unknown-none known g)

first_missing-some :
    (known deps : List String) (dep : String)
    → first_missing known deps ≡ some dep
    → (contains dep known ≡ false) × (contains dep deps ≡ true)
first_missing-some known [] dep h = cc
first_missing-some known (d ∷ deps) dep h =
    ground (arith, eq_iff d dep, first_missing-some known deps dep)

-- The reported name is no key, and is a dependency of the reported task's key.
pub first_unknown-some :
    {F : Type 0} (known : List String) (g : Graph F) (id dep : String)
    → first_unknown known g ≡ some (id, dep)
    → (contains dep known ≡ false) × (contains id (keys g) ≡ true)
first_unknown-some known [] id dep h = cc
first_unknown-some known ((k, task) ∷ g) id dep h =
    elim (Option-cases (first_missing known task.depends_on)) [
      | inl none_missing ↦ ground (arith, none_missing, first_unknown-some known g id dep)
      | inr (d, missing) ↦
          ground (arith, eq_iff k id, first_missing-some known task.depends_on d missing)
    ]
