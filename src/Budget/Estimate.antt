-- ===== src/Budget/Estimate.antt =====
-- EstimateFromPlan of internal/budget/budget.go.
use newser.Prelude.{
  ◌≡◌, refl, ◌&&◌, String, Option, none, some, List, [], ◌∷◌, if◌then◌else◌, is_empty,
}
use newser.Prelude.Int.{ℤ, pos, add64, ltb_ℤ, eqb_ℤ}
use newser.Prelude.Floats.{FloatOps}
use newser.Prelude.Duration.{parse_duration}
use newser.Planner.{PlanTask, PlanEstimates, PlanDocument}

pub record Estimate (F : Type 0) : Type 0 where
  pub cost : F
  pub tokens : ℤ
  pub duration : ℤ

-- A duration that is given and can be read.
abbrev pub duration_of : String → Option ℤ
duration_of s = if is_empty s then none else parse_duration s

module _ {F : Type 0} (fl : FloatOps F) where
  abbrev pub no_estimate : Estimate F
  no_estimate = record { cost = fl.zero_f; tokens = pos 0; duration = pos 0 }

  -- The totals that the document gives.
  unfoldable pub totals : Option (PlanEstimates F) → Estimate F
  totals none = no_estimate
  totals (some e) = record {
    cost = e.total_cost;
    tokens = e.total_tokens;
    duration = elim (duration_of e.total_time) [ none ↦ pos 0 | some d ↦ d ];
  }

  -- The sums over the tasks.
  unfoldable pub sum_tasks : List (PlanTask F) → Estimate F → Estimate F
  sum_tasks [] s = s
  sum_tasks (task ∷ tasks) s = sum_tasks tasks (record {
    cost = fl.add_f s.cost task.estimated_cost;
    tokens = add64 s.tokens task.estimated_tokens;
    duration = elim (duration_of task.estimated_time) [
      | none ↦ s.duration
      | some d ↦ add64 s.duration d
    ];
  })

  -- A total that is missing or zero is filled in by a positive sum.
  unfoldable pub backfill : Estimate F → Estimate F → Estimate F
  backfill out sum = record {
    cost = if fl.eq_f out.cost fl.zero_f && fl.lt_f fl.zero_f sum.cost then sum.cost else out.cost;
    tokens =
        if eqb_ℤ out.tokens (pos 0) && ltb_ℤ (pos 0) sum.tokens then sum.tokens else out.tokens;
    duration =
        if eqb_ℤ out.duration (pos 0) && ltb_ℤ (pos 0) sum.duration
        then sum.duration
        else out.duration;
  }

  unfoldable pub estimate_from_plan : Option (PlanDocument F) → Estimate F
  unfolding totals sum_tasks backfill
  estimate_from_plan none = no_estimate
  estimate_from_plan (some doc) = backfill (totals doc.estimates) (sum_tasks doc.tasks no_estimate)

  sum_tasks_untimed :
      (tasks : List (PlanTask F)) (s : Estimate F) (d : ℤ)
      → (sum_tasks tasks (record s { duration = d })).tokens ≡ (sum_tasks tasks s).tokens
  unfolding sum_tasks
  sum_tasks_untimed [] s d = refl
  sum_tasks_untimed (task ∷ tasks) s d =
      sum_tasks_untimed tasks
        (record {
          cost = fl.add_f s.cost task.estimated_cost;
          tokens = add64 s.tokens task.estimated_tokens;
          duration = elim (duration_of task.estimated_time) [
            | none ↦ s.duration
            | some e ↦ add64 s.duration e
          ];
        })
        (elim (duration_of task.estimated_time) [ none ↦ d | some e ↦ add64 d e ])
