-- ===== src/Dag/Loop.antt =====
-- The invariant of Kahn's loop, kept by each release of a successor.
use mathlib.Core.List.{append_assoc}
use newser.Prelude.{
  ℕ, zero, suc, ◌+◌, ◌<◌, ◌≡◌, refl, true, false, ◌||◌, ◌⊎◌, String, List, [], ◌∷◌, ◌++◌, str_eq,
  eq_iff, arith, if◌then◌else◌, contains, distinct, Bool-cases, inl, inr, ◌∙◌, ap,
}
use newser.Prelude.Int.{ℤ, pos}
use newser.Dag.{Node, ids, Frontier, release, release_all, is_zero, decrement}
use newser.Dag.Counts.{count, pending}
use newser.Dag.Sets.{contains-append, distinct_snoc}

-- `finished` are the nodes whose edges are released, but for those into `left`. The nodes seen to
-- have nothing pending are `base` and the queue.
pub record IsFrontier (ns : List Node) (finished base left : List String) (f : Frontier)
    : Type 0 where
  pub degrees : (k : String) → f.indegree k ≡ pos (pending ns finished k + count k left)
  pub zero_seen :
      (k : String)
      → contains k (ids ns) ≡ true
      → pending ns finished k + count k left ≡ 0
      → contains k (base ++ f.queue) ≡ true
  pub seen_zero :
      (k : String)
      → contains k (base ++ f.queue) ≡ true
      → (contains k (ids ns) ≡ true) × (pending ns finished k + count k left ≡ 0)
  pub nodup : distinct (base ++ f.queue) ≡ true

decrement_pos : (d : ℤ) (n : ℕ) → d ≡ pos (suc n) → decrement d ≡ pos n
decrement_pos d n h = rw h

zero_or_pos : (n : ℕ) → (n ≡ 0) ⊎ ((m : ℕ) × (n ≡ suc m))
zero_or_pos zero = inl refl
zero_or_pos (suc m) = inr (m, refl)

module _ (ns : List Node) (finished base : List String) (next : String) (left : List String)
    (f : Frontier) (inv : IsFrontier ns finished base (next ∷ left) f)
    (known : contains next (ids ns) ≡ true) where
  lowered : decrement (f.indegree next) ≡ pos (pending ns finished next + count next left)
  lowered = decrement_pos _ _ (inv.degrees next ∙ ap pos (ground (arith, eq_iff next next)))

  release-degrees :
      (k : String) → (release next f).indegree k ≡ pos (pending ns finished k + count k left)
  unfolding release
  release-degrees k = elim (Bool-cases (str_eq next k)) [
    | inl same ↦
        rw same
          (lowered ∙ ap (λ t. pos (pending ns finished t + count t left)) ((eq_iff next k).0 same))
    | inr other ↦ rw other (inv.degrees k ∙ ap pos (ground arith))
  ]

  -- The node is not among those seen: an edge into it was still to be released.
  next_unseen : contains next (base ++ f.queue) ≡ false
  next_unseen = elim (Bool-cases (contains next (base ++ f.queue))) [
    | inl seen ↦ absurd (ground (arith, eq_iff next next, (inv.seen_zero next seen).1))
    | inr unseen ↦ unseen
  ]

  release-queue :
      ((pending ns finished next + count next left ≡ 0)
        × ((release next f).queue ≡ f.queue ++ next ∷ []))
      ⊎ ((0 < pending ns finished next + count next left) × ((release next f).queue ≡ f.queue))
  unfolding release
  release-queue = elim (zero_or_pos (pending ns finished next + count next left)) [
    | inl z ↦ inl (z, rw (lowered, z))
    | inr (m, e) ↦ inr (omega arith, rw (lowered, e))
  ]

  seen_after :
      (k : String)
      → contains k (base ++ (release next f).queue) ≡ (
          contains k (base ++ f.queue)
          || (if str_eq next k
              then is_zero (pos (pending ns finished next + count next left))
              else false))
  seen_after k = elim release-queue [
    | inl (z, e) ↦
        rw (e, z)
          (ground (
            arith,
            contains-append k base (f.queue ++ next ∷ []),
            contains-append k f.queue (next ∷ []),
            contains-append k base f.queue,
          ))
    | inr (p, e) ↦ rw e (ground arith)
  ]

  pub release-IsFrontier : IsFrontier ns finished base left (release next f)
  release-IsFrontier = record {
    degrees = release-degrees;
    zero_seen = λ k mem z. elim (Bool-cases (str_eq next k)) [
      | inl same ↦ ground (arith, eq_iff next k, seen_after k)
      | inr other ↦ ground (arith, seen_after k, inv.zero_seen k mem)
    ];
    seen_zero = λ k seen. elim (Bool-cases (contains k (base ++ f.queue))) [
      | inl before ↦ let (mem, z) = inv.seen_zero k before in (mem, ground arith)
      | inr fresh ↦ ground (arith, eq_iff next k, seen_after k, known)
    ];
    nodup = elim release-queue [
      | inl (z, e) ↦
          rw (e, ← append_assoc) (distinct_snoc next (base ++ f.queue) inv.nodup next_unseen)
      | inr (p, e) ↦ rw e inv.nodup
    ];
  }

-- The loop over all successors.
pub release_all-IsFrontier :
    (ns : List Node) (finished base left : List String) (f : Frontier)
    → IsFrontier ns finished base left f
    → ((k : String) → contains k left ≡ true → contains k (ids ns) ≡ true)
    → IsFrontier ns finished base [] (release_all left f)
unfolding release_all
release_all-IsFrontier ns finished base [] f inv known = inv
release_all-IsFrontier ns finished base (next ∷ left) f inv known =
    release_all-IsFrontier ns finished base left (unfold release in (release next f))
      (release-IsFrontier ns finished base next left f inv
        (known next (ground (arith, eq_iff next next))))
      (λ k h. known k (ground arith))
