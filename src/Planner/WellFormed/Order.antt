-- ===== src/Planner/WellFormed/Order.antt =====
-- A given execution order.
use newser.Prelude.{
  ℕ, suc, Bool, true, false, not, ◌&&◌, String, some, List, [], ◌∷◌, ◌≡◌, refl, arith,
  if◌then◌else◌, contains, is_nil, is_some, Bool-cases, inl, inr, ◌+◌, ◌==◌, length, Option-cases,
}
use newser.Prelude.Dict.{lookup, insert, lookup-insert}
use newser.Planner.{PlanTask}
use newser.Planner.Validate.{
  Index, order_issues, position_issues, first_late, depends_on_at, validate_execution_order, absent,
}
use newser.Planner.WellFormed.{within, Indexes, is_nil-append}

-- Each name of the order is one of `names`, stands there once, and behind what it depends on.
abbrev pub order_ok : (String → List String) → List String → List String → List String → Bool
order_ok deps names seen [] = true
order_ok deps names seen (id ∷ order) =
    contains id names
    && not (contains id seen)
    && within seen (deps id)
    && order_ok deps names (id ∷ seen) order

first_late-none :
    (scheduled : Index) (seen deps : List String)
    → Indexes scheduled seen
    → is_some (first_late scheduled deps) ≡ not (within seen deps)
first_late-none scheduled seen [] h = refl
first_late-none scheduled seen (dep ∷ deps) h =
    ground (arith, h dep, first_late-none scheduled seen deps h)

length-insert_fresh :
    (k : String) (v : ℕ) (m : Index)
    → is_some (lookup k m) ≡ false
    → length (insert k v m) ≡ suc (length m)
unfolding lookup insert
length-insert_fresh k v [] h = refl
length-insert_fresh k v ((j, w) ∷ m) h = ground (arith, length-insert_fresh k v m)

module _ {F : Type 0} (tasks : List (PlanTask F)) (index : Index) (deps : String → List String)
    (names : List String) (known : Indexes index names)
    (at : (id : String) (p : ℕ) → lookup id index ≡ some p → depends_on_at tasks p ≡ deps id) where
  Indexes-insert :
      (id : String) (pos : ℕ) (scheduled : Index) (seen : List String)
      → Indexes scheduled seen
      → Indexes (insert id pos scheduled) (id ∷ seen)
  Indexes-insert id pos scheduled seen h k = ground (arith, h k, lookup-insert id k pos scheduled)

  position_issues-none :
      (scheduled : Index) (seen : List String) (pos : ℕ) (id : String)
      → Indexes scheduled seen
      → is_nil (position_issues tasks scheduled pos id (lookup id index) (lookup id scheduled))
        ≡ (contains id names && not (contains id seen) && within seen (deps id))
  position_issues-none scheduled seen pos id h = elim (Option-cases (lookup id index)) [
    | inl missing ↦ ground (arith, missing, known id)
    | inr (p, found) ↦ ground (
      arith,
      found,
      known id,
      h id,
      at id p found,
      first_late-none scheduled seen (depends_on_at tasks p) h,
    )
  ]

  abbrev next : ℕ → String → Index → Index
  next pos id scheduled =
      if is_some (lookup id index) && not (is_some (lookup id scheduled))
      then insert id pos scheduled
      else scheduled

  order_issues-none :
      (pos : ℕ) (order : List String) (scheduled : Index) (seen : List String)
      → Indexes scheduled seen
      → is_nil (order_issues tasks index pos order scheduled).1 ≡ order_ok deps names seen order
  unfolding order_issues
  order_issues-none pos [] scheduled seen h = refl
  order_issues-none pos (id ∷ order) scheduled seen h =
      elim (Bool-cases (contains id names && not (contains id seen) && within seen (deps id))) [
        | inl good ↦ ground (
          arith,
          known id,
          h id,
          is_nil-append
              (position_issues tasks scheduled pos id (lookup id index) (lookup id scheduled))
              (order_issues tasks index (suc pos) order (next pos id scheduled)).1,
          position_issues-none scheduled seen pos id h,
          order_issues-none (suc pos) order (insert id pos scheduled) (id ∷ seen)
              (Indexes-insert id pos scheduled seen h),
        )
        | inr bad ↦ ground (
          arith,
          is_nil-append
              (position_issues tasks scheduled pos id (lookup id index) (lookup id scheduled))
              (order_issues tasks index (suc pos) order (next pos id scheduled)).1,
          position_issues-none scheduled seen pos id h,
        )
      ]

  order_issues-length :
      (pos : ℕ) (order : List String) (scheduled : Index) (seen : List String)
      → Indexes scheduled seen
      → order_ok deps names seen order ≡ true
      → length (order_issues tasks index pos order scheduled).0 ≡ length scheduled + length order
  unfolding order_issues
  order_issues-length pos [] scheduled seen h good = ground arith
  order_issues-length pos (id ∷ order) scheduled seen h good = ground (
    arith,
    known id,
    h id,
    length-insert_fresh id pos scheduled,
    order_issues-length (suc pos) order (insert id pos scheduled) (id ∷ seen)
        (Indexes-insert id pos scheduled seen h),
  )

  absent_none :
      (order seen : List String) → order_ok deps names seen order ≡ true → absent index order ≡ []
  absent_none [] seen good = refl
  absent_none (id ∷ order) seen good = ground (arith, known id, absent_none order (id ∷ seen))

  -- No issue is found exactly when the order is one of all tasks, each once and behind its
  -- dependencies.
  pub validate_execution_order-none :
      (order : List String)
      → is_nil (validate_execution_order order tasks index)
        ≡ (order_ok deps names [] order && length order == length tasks)
  unfolding validate_execution_order lookup
  validate_execution_order-none order = elim (Bool-cases (order_ok deps names [] order)) [
    | inl good ↦ ground (
      arith,
      good,
      absent_none order [] good,
      order_issues-none 0 order [] [] (λ k. refl),
      order_issues-length 0 order [] [] (λ k. refl) good,
      is_nil-append (order_issues tasks index 0 order []).1 _,
    )
    | inr bad ↦ ground (
      arith,
      bad,
      order_issues-none 0 order [] [] (λ k. refl),
      is_nil-append (order_issues tasks index 0 order []).1 _,
    )
  ]
