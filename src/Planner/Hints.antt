-- ===== src/Planner/Hints.antt =====
-- The loop over the layers keeps the invariant of Kahn's algorithm, and builds layers whose
-- dependencies all lie in earlier ones.
use mathlib.Core.List.{append_assoc, append-nil}
use newser.Prelude.{
  ℕ, zero, suc, ◌+◌, ◌≤◌, ◌≡◌, refl, Bool, true, false, String, some, List, [], ◌∷◌, ◌++◌, arith,
  contains, distinct, length, length-append, All, ◌∙◌, sym, ap, subst, eq_iff,
}
use newser.Prelude.Int.{ℤ}
use newser.Prelude.Dict.{sort, contains-sort, distinct-sort}
use newser.Dag.{Node, ids, Frontier, release_all}
use newser.Dag.Counts.{pending-All, deps_of, dependents, dependents-ids}
use newser.Dag.Loop.{IsFrontier, release_all-IsFrontier}
use newser.Dag.Run.{finish-IsFrontier, seen-length-le, SameNames}
use newser.Dag.Sets.{contains-append}
use newser.Planner.Validate.{Index}
use newser.Planner.Schedule.{Walk, walk_layer, walk_layers, Schedule, by_position}

-- Every dependency of a name lies among `seen` or in an earlier layer.
abbrev pub LayersOk : (String → List String) → List String → List (List String) → Type 0
LayersOk deps seen [] = Unit
LayersOk deps seen (layer ∷ layers) =
    All (λ id. All (λ dep. contains dep seen ≡ true) (deps id)) layer
    × LayersOk deps (seen ++ layer) layers

abbrev pub concat : List (List String) → List String
concat [] = []
concat (layer ∷ layers) = layer ++ concat layers

pub concat-snoc :
    (layers : List (List String)) (layer : List String)
    → concat (layers ++ layer ∷ []) ≡ concat layers ++ layer
concat-snoc [] layer = append-nil layer
concat-snoc (l ∷ layers) layer =
    ap (λ t. l ++ t) (concat-snoc layers layer) ∙ sym (append_assoc l (concat layers) layer)

pub LayersOk-snoc :
    (deps : String → List String) (seen : List String) (layers : List (List String))
    (layer : List String)
    → LayersOk deps seen layers
    → All (λ id. All (λ dep. contains dep (seen ++ concat layers) ≡ true) (deps id)) layer
    → LayersOk deps seen (layers ++ layer ∷ [])
LayersOk-snoc deps seen [] layer h a = (rw append-nil at a, tt)
LayersOk-snoc deps seen (l ∷ layers) layer h a =
    (h.0, LayersOk-snoc deps (seen ++ l) layers layer h.1 (rw append_assoc a))

-- Distinctness of a list in two parts depends on the second part's names alone.
distinct-append_swap :
    (xs ys zs : List String)
    → SameNames ys zs
    → (distinct ys ≡ true → distinct zs ≡ true)
    → distinct (xs ++ ys) ≡ true
    → distinct (xs ++ zs) ≡ true
distinct-append_swap [] ys zs same d h = d h
distinct-append_swap (x ∷ xs) ys zs same d h = ground (
  arith,
  contains-append x xs ys,
  contains-append x xs zs,
  same x,
  distinct-append_swap xs ys zs same d,
)

pub sort-IsFrontier :
    (before : String → String → Bool) (ns : List Node) (finished base : List String) (f : Frontier)
    → IsFrontier ns finished base [] f
    → IsFrontier ns finished base [] (record f { queue = sort before f.queue })
sort-IsFrontier before ns finished base f inv = record {
  degrees = inv.degrees;
  zero_seen = λ k mem z. same k ∙ inv.zero_seen k mem z;
  seen_zero = λ k seen. inv.seen_zero k (sym (same k) ∙ seen);
  nodup =
      distinct-append_swap base f.queue (sort before f.queue)
        (λ k. sym (contains-sort before k f.queue)) (distinct-sort before f.queue) inv.nodup;
}
  where
    same : (k : String) → contains k (base ++ sort before f.queue) ≡ contains k (base ++ f.queue)
    same k = ground (
      arith,
      contains-append k base (sort before f.queue),
      contains-append k base f.queue,
      contains-sort before k f.queue,
    )

fresh_head :
    (cur : String) (xs ys : List String)
    → distinct (xs ++ cur ∷ ys) ≡ true
    → contains cur xs ≡ false
fresh_head cur [] ys d = refl
fresh_head cur (x ∷ xs) ys d = ground (
  arith,
  eq_iff x cur,
  eq_iff cur x,
  eq_iff x x,
  contains-append x xs (cur ∷ ys),
  fresh_head cur xs ys,
)

distinct-prefix : (xs ys : List String) → distinct (xs ++ ys) ≡ true → distinct xs ≡ true
distinct-prefix [] ys d = refl
distinct-prefix (x ∷ xs) ys d = ground (arith, contains-append x xs ys, distinct-prefix xs ys)

module _ (ns : List Node) (adjacency : String → List String)
    (spec : (s : String) → adjacency s ≡ dependents ns s) where
  walk_layer-IsFrontier :
      (layer : List String) (s : Walk)
      → IsFrontier ns s.order (s.order ++ layer) [] s.frontier
      → IsFrontier ns
          (s.order ++ layer)
          (s.order ++ layer)
          []
          (walk_layer adjacency layer s).frontier
        × ((walk_layer adjacency layer s).order ≡ s.order ++ layer)
  unfolding walk_layer
  walk_layer-IsFrontier [] s inv = (rw append-nil (rw append-nil at inv), sym (append-nil s.order))
  walk_layer-IsFrontier (id ∷ rest) s inv =
      let split : s.order ++ id ∷ rest ≡ (s.order ++ id ∷ []) ++ rest =
        sym (append_assoc s.order (id ∷ []) rest) in
      let fresh : contains id s.order ≡ false =
        fresh_head id s.order rest (distinct-prefix (s.order ++ id ∷ rest) _ inv.nodup) in
      let next : IsFrontier ns (s.order ++ id ∷ []) ((s.order ++ id ∷ []) ++ rest) []
          (release_all (adjacency id) s.frontier) =
        rw (spec id, ← split)
          (release_all-IsFrontier ns (s.order ++ id ∷ []) (s.order ++ id ∷ rest) (dependents ns id)
            _ (finish-IsFrontier ns s.order (s.order ++ id ∷ rest) id _ inv fresh)
            (dependents-ids ns id)) in
      rw split (
        walk_layer-IsFrontier rest
          (record { frontier = release_all (adjacency id) s.frontier; order = s.order ++ id ∷ [] })
          next)

-- What the loop has when it ends.
pub record Layered (ns : List Node) (s : Schedule) : Type 0 where
  pub frontier : IsFrontier ns s.order s.order [] (record { indegree = s.indegree; queue = [] })
  pub layers_ok : LayersOk (deps_of ns) [] s.layers
  pub flat : concat s.layers ≡ s.order

abbrev state : (String → ℤ) → List String → Frontier
state indegree queue = record { indegree = indegree; queue = queue }

module _ (ns : List Node) (adjacency : String → List String)
    (spec : (s : String) → adjacency s ≡ dependents ns s) where
  -- Nothing of a queued node is pending.
  layer_ready :
      (indegree : String → ℤ) (order queue : List String)
      → IsFrontier ns order order [] (state indegree queue)
      → (layer : List String) → ((k : String) → contains k layer ≡ true → contains k queue ≡ true)
      → All (λ id. All (λ dep. contains dep order ≡ true) (deps_of ns id)) layer
  layer_ready indegree order queue inv [] sub = tt
  layer_ready indegree order queue inv (id ∷ layer) sub = (
    pending-All ns order id (
        omega (
          arith,
          (inv.seen_zero id
              (ground (arith, eq_iff id id, contains-append id order queue, sub id))).1,
        )),
    layer_ready indegree order queue inv layer (λ k h. sub k (ground arith)),
  )

  pub walk_layers-Layered :
      (index : Index) (fuel : ℕ) (indegree : String → ℤ) (queue order : List String)
      (layers : List (List String))
      → length (ids ns) ≤ length order + fuel
      → LayersOk (deps_of ns) [] layers
      → concat layers ≡ order
      → IsFrontier ns order order [] (state indegree queue)
      → (s : Schedule) × (walk_layers adjacency index fuel indegree queue order layers ≡ some s)
        × Layered ns s
  unfolding walk_layers
  walk_layers-Layered index fuel indegree [] order layers enough ok flat inv = (
    record { indegree = indegree; order = order; layers = layers },
    refl,
    record { frontier = inv; layers_ok = ok; flat = flat },
  )
  walk_layers-Layered index zero indegree (id ∷ queue) order layers enough ok flat inv =
      absurd (omega (arith, seen-length-le inv, length-append order (id ∷ queue)))
  walk_layers-Layered index (suc fuel) indegree (id ∷ queue) order layers enough ok flat inv =
      let start : Walk = record { frontier = state indegree []; order = order } in
      let (kept, grown) =
        walk_layer-IsFrontier ns adjacency spec (id ∷ queue) start (park (id ∷ queue) inv) in
      walk_layers-Layered index fuel _ _ (walk_layer adjacency (id ∷ queue) start).order
        (layers ++ (id ∷ queue) ∷ [])
        (omega (arith, ap length grown, length-append order (id ∷ queue)))
        (LayersOk-snoc (deps_of ns) [] layers (id ∷ queue) ok (
          subst (λ o. All (λ i. All (λ dep. contains dep o ≡ true) (deps_of ns i)) (id ∷ queue))
            (sym flat) (layer_ready indegree order (id ∷ queue) inv (id ∷ queue) (λ k h. h))))
        (concat-snoc layers (id ∷ queue) ∙ ap (λ t. t ++ id ∷ queue) flat ∙ sym grown)
        (sort-IsFrontier (by_position index) ns _ _ _ (rw grown kept))
    where
      -- The layer leaves the queue for the nodes seen.
      park :
          (layer : List String)
          → IsFrontier ns order order [] (state indegree layer)
          → IsFrontier ns order (order ++ layer) [] (state indegree [])
      park layer f = record {
        degrees = f.degrees;
        zero_seen = λ k mem z. rw append-nil (f.zero_seen k mem z);
        seen_zero = λ k seen. f.seen_zero k (rw append-nil at seen);
        nodup = rw append-nil f.nodup;
      }
