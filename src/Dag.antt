-- ===== src/Dag.antt =====
-- Kahn's algorithm, as internal/executor/executor.go (Execute) and internal/planner/schema.go
-- (computeExecutionHints) both write it: a map of indegrees, a map of adjacency lists, and the loop
-- over a node's successors that lowers their indegrees and queues those that reach zero.
-- A map is a function: Go reads a missing key of these maps as 0 and as nil.
pub mod Counts
pub mod Sets
pub mod Loop
pub mod Run
use newser.Prelude.{
  ◌≡◌, Bool, true, false, String, List, [], ◌∷◌, ◌++◌, str_eq, suc, zero, ◌-◌, if◌then◌else◌, All,
  contains,
}
use newser.Prelude.Int.{ℤ, pos, negsuc}

abbrev pub update : {V : Type 0} → (String → V) → String → V → String → V
update m k v j = if str_eq k j then v else m j

-- `n++` and `n--` on a count that the slices in memory bound, so without wrap-around.
abbrev pub increment : ℤ → ℤ
increment (pos n) = pos (suc n)
increment (negsuc zero) = pos 0
increment (negsuc (suc n)) = negsuc n

abbrev pub decrement : ℤ → ℤ
decrement (pos zero) = negsuc 0
decrement (pos (suc n)) = pos n
decrement (negsuc n) = negsuc (suc n)

abbrev pub is_zero : ℤ → Bool
is_zero (pos zero) = true
is_zero (pos (suc n)) = false
is_zero (negsuc n) = false

-- What the two algorithms work on: a node's name with the names that it depends on.
pub record Node : Type 0 where
  pub id : String
  pub depends_on : List String

abbrev pub ids : List Node → List String
ids [] = []
ids (n ∷ ns) = n.id ∷ ids ns

pub record Degrees : Type 0 where
  pub indegree : String → ℤ
  pub adjacency : String → List String

abbrev pub no_edges : Degrees
no_edges = record { indegree = λ _. pos 0; adjacency = λ _. [] }

-- One dependency `dep` of the node `id`.
unfoldable pub add_edge : String → Degrees → String → Degrees
add_edge id m dep = record {
  indegree = update m.indegree id (increment (m.indegree id));
  adjacency = update m.adjacency dep (m.adjacency dep ++ id ∷ []);
}

unfoldable pub add_edges : String → List String → Degrees → Degrees
unfolding add_edge
add_edges id [] m = m
add_edges id (dep ∷ deps) m = add_edges id deps (add_edge id m dep)

unfoldable pub build : List Node → Degrees → Degrees
unfolding add_edges
build [] m = m
build (n ∷ ns) m = build ns (add_edges n.id n.depends_on m)

pub record Frontier : Type 0 where
  pub indegree : String → ℤ
  pub queue : List String

-- The indegree of a successor falls by one, and at zero the successor is queued.
unfoldable pub release : String → Frontier → Frontier
release next f =
    let d = decrement (f.indegree next) in
    record {
      indegree = update f.indegree next d;
      queue = if is_zero d then f.queue ++ next ∷ [] else f.queue;
    }

-- `for _, next := range adjacency[current]`.
unfoldable pub release_all : List String → Frontier → Frontier
unfolding release
release_all [] f = f
release_all (next ∷ rest) f = release_all rest (release next f)

-- The ids that no edge enters, in the order in which they are listed.
unfoldable pub sources : (String → ℤ) → List String → List String
sources indegree [] = []
sources indegree (id ∷ rest) =
    let later = sources indegree rest in if is_zero (indegree id) then id ∷ later else later

-- Every name stands behind all that it depends on; `seen` are the names before the list.
abbrev pub DependenciesFirst : (String → List String) → List String → List String → Type 0
DependenciesFirst deps seen [] = Unit
DependenciesFirst deps seen (id ∷ rest) =
    All (λ dep. contains dep seen ≡ true) (deps id) × DependenciesFirst deps (seen ++ id ∷ []) rest
