-- ===== src/Dag/Run.antt =====
-- How the loop starts, how it finishes a node, and what holds when its queue is empty.
use mathlib.Core.List.{append_assoc, append-nil}
use newser.Prelude.{
  ℕ, zero, suc, ◌+◌, ◌≤◌, ◌<◌, ◌≡◌, refl, true, false, String, List, [], ◌∷◌, ◌++◌, str_eq, eq_iff,
  arith, if◌then◌else◌, contains, distinct, Bool-cases, inl, inr, ◌∙◌, sym, ap, All, length,
}
use newser.Prelude.Int.{ℤ, pos}
use newser.Dag.{Node, ids, Frontier, build, no_edges, sources, is_zero}
use newser.Dag.Counts.{count, pending, unmet, dependents, pending-snoc, build-indegree}
use newser.Dag.Sets.{distinct-length-le}
use newser.Dag.Loop.{IsFrontier}

abbrev pub SameNames : List String → List String → Type 0
SameNames xs ys = (k : String) → contains k xs ≡ contains k ys

sources-contains :
    (degree : String → ℤ) (k : String) (seed : List String)
    → contains k (sources degree seed) ≡ (if is_zero (degree k) then contains k seed else false)
unfolding sources
sources-contains degree k [] = ground arith
sources-contains degree k (x ∷ xs) = elim (Bool-cases (str_eq x k)) [
  | inl same ↦ rw (← (eq_iff x k).0 same) (ground (arith, eq_iff x x, sources-contains degree x xs))
  | inr other ↦ ground (arith, sources-contains degree k xs)
]

sources-distinct :
    (degree : String → ℤ) (seed : List String)
    → distinct seed ≡ true
    → distinct (sources degree seed) ≡ true
unfolding sources
sources-distinct degree [] d = refl
sources-distinct degree (x ∷ xs) d =
    ground (arith, sources-contains degree x xs, sources-distinct degree xs)

pub start-IsFrontier :
    (ns : List Node) (seed : List String)
    → distinct seed ≡ true
    → SameNames seed (ids ns)
    → IsFrontier ns [] [] [] (record {
      indegree = (build ns no_edges).indegree;
      queue = sources (build ns no_edges).indegree seed;
    })
start-IsFrontier ns seed d same = record {
  degrees = λ k. build-indegree ns k ∙ ap pos (omega arith);
  zero_seen = λ k mem z.
      ground
        (arith, build-indegree ns k, sources-contains (build ns no_edges).indegree k seed, same k);
  seen_zero = λ k seen.
      ground
        (arith, build-indegree ns k, sources-contains (build ns no_edges).indegree k seed, same k);
  nodup = sources-distinct _ seed d;
}

-- Taking a node off the queue leaves it among the nodes seen.
pub shift-IsFrontier :
    (ns : List Node) (finished base : List String) (cur : String) (f : Frontier)
    (rest : List String)
    → IsFrontier ns finished base [] f
    → f.queue ≡ cur ∷ rest
    → IsFrontier ns finished (base ++ cur ∷ []) [] (record f { queue = rest })
shift-IsFrontier ns finished base cur f rest inv e =
    let split : base ++ f.queue ≡ (base ++ cur ∷ []) ++ rest =
      ap (λ q. base ++ q) e ∙ sym (append_assoc base (cur ∷ []) rest) in
    record {
      degrees = inv.degrees;
      zero_seen = λ k mem z. rw (← split) (inv.zero_seen k mem z);
      seen_zero = λ k seen. inv.seen_zero k (rw split seen);
      nodup = rw (← split) inv.nodup;
    }

-- Finishing a node: its edges are released.
pub finish-IsFrontier :
    (ns : List Node) (finished base : List String) (cur : String) (f : Frontier)
    → IsFrontier ns finished base [] f
    → contains cur finished ≡ false
    → IsFrontier ns (finished ++ cur ∷ []) base (dependents ns cur) f
finish-IsFrontier ns finished base cur f inv fresh = record {
  degrees = λ k. inv.degrees k ∙ ap pos (omega (arith, pending-snoc ns finished cur k fresh));
  zero_seen = λ k mem z. inv.zero_seen k mem (omega (arith, pending-snoc ns finished cur k fresh));
  seen_zero = λ k seen.
      let (mem, z) = inv.seen_zero k seen in
      (mem, omega (arith, z, pending-snoc ns finished cur k fresh));
  nodup = inv.nodup;
}

-- Never more nodes are seen than there are.
pub seen-length-le :
    {ns : List Node} {finished base left : List String} {f : Frontier}
    → IsFrontier ns finished base left f
    → length (base ++ f.queue) ≤ length (ids ns)
seen-length-le {ns} {base = base} {f} inv =
    distinct-length-le (base ++ f.queue) (ids ns) inv.nodup (λ k h. (inv.seen_zero k h).0)

-- Every dependency is a node, and has a lower rank than the node that depends on it.
abbrev pub IsRanked : (String → ℕ) → List String → List Node → Type 0
IsRanked rank names =
    All (λ n. All (λ dep. (rank dep < rank n.id) × (contains dep names ≡ true)) n.depends_on)

unmet_zero :
    (rank : String → ℕ) (names finished : List String) (r : ℕ) (deps : List String)
    → All (λ dep. (rank dep < r) × (contains dep names ≡ true)) deps
    → ((dep : String) → rank dep < r → contains dep names ≡ true → contains dep finished ≡ true)
    → unmet deps finished ≡ 0
unmet_zero rank names finished r [] h below = refl
unmet_zero rank names finished r (dep ∷ deps) h below =
    ground (arith, below dep h.0.0 h.0.1, unmet_zero rank names finished r deps h.1 below)

pending_zero :
    (rank : String → ℕ) (names finished : List String) (k : String) (ns : List Node)
    → IsRanked rank names ns
    → ((dep : String)
        → rank dep < rank k
        → contains dep names ≡ true
        → contains dep finished ≡ true)
    → pending ns finished k ≡ 0
pending_zero rank names finished k [] h below = refl
pending_zero rank names finished k (n ∷ ns) h below = elim (Bool-cases (str_eq n.id k)) [
  | inl same ↦ rw same (
      omega (
        arith,
        unmet_zero rank names finished (rank n.id) n.depends_on h.0
            (rw ((eq_iff n.id k).0 same) below),
        pending_zero rank names finished k ns h.1 below,
      ))
  | inr other ↦ rw other (omega (arith, pending_zero rank names finished k ns h.1 below))
]

-- When the queue of a ranked graph is empty, every node is finished.
pub ranked_complete :
    (rank : String → ℕ) (ns : List Node) (finished : List String) (f : Frontier)
    → IsRanked rank (ids ns) ns
    → IsFrontier ns finished finished [] f
    → f.queue ≡ []
    → (bound : ℕ) (k : String) → rank k < bound
    → contains k (ids ns) ≡ true
    → contains k finished ≡ true
ranked_complete rank ns finished f h inv e zero k lt mem = absurd (omega arith)
ranked_complete rank ns finished f h inv e (suc bound) k lt mem =
    let z : pending ns finished k + count k [] ≡ 0 = omega (
      arith,
      pending_zero rank (ids ns) finished k ns h (λ dep lower known.
          ranked_complete rank ns finished f h inv e bound dep (omega arith) known),
    ) in
    rw (e, append-nil) at (inv.zero_seen k mem z)
