-- ===== src/Tests/Budget.antt =====
-- Budgets at concrete amounts.
use newser.Prelude.{ℕ, ◌≡◌, refl, true, false, none, some, [], ◌∷◌, arith, is_some, ◌||◌, ap}
use newser.Prelude.Int.{pos, ltb_ℤ}
use newser.Prelude.Show.{append}
use newser.Value.{end}
use newser.Budget.{Config, threshold_exceeds_max_cost, merge, validate, clone}
use newser.Budget.Usage.{Usage, ErrExceeded, error_text}
use newser.Budget.Overlay.{silent, merge_all, last_given, last_wins, merge_all-last_wins}
use newser.Budget.Limits.{validate-merge}
use newser.Budget.Monitor.{
  new_monitor, add, add_all, check_time, exceeds, add_reports_breach, check_time_lem,
  check_time_wraps,
}
use newser.Budget.Report.{serialize_config, format_breach_reason}
use newser.Budget.Readback.{read_config, read-serialize_config, format_breach_reason_time}
use newser.Tests.Floats.{exact, plain}

abbrev capped : Config ℕ
capped = record silent { max_cost = some 5; max_tokens = some (pos 100) }

abbrev careful : Config ℕ
careful = record silent { approval_threshold = some 7; require_approval = false }

abbrev tokens_only : Config ℕ
tokens_only = record silent { max_tokens = some (pos 100); max_time_seconds = some (pos 60) }

abbrev forever : Config ℕ
forever = record silent { max_time_seconds = some (pos 9_223_372_037) }

validate-merge_example : validate exact (merge capped careful) ≡ some threshold_exceeds_max_cost
unfolding validate
validate-merge_example = validate-merge exact capped careful refl refl

-- The second override takes back nothing and gives the last time limit.
overlaid : (merge_all capped (careful ∷ forever ∷ [])).max_time_seconds ≡ some (pos 9_223_372_037)
unfolding last_given
overlaid =
    ap (λ (c : Config ℕ). c.max_time_seconds) (merge_all-last_wins capped (careful ∷ forever ∷ []))

merge_all-last_wins_example :
    merge_all capped (careful ∷ forever ∷ []) ≡ last_wins (capped ∷ careful ∷ forever ∷ [])
merge_all-last_wins_example = merge_all-last_wins capped (careful ∷ forever ∷ [])

add_reports_breach_example :
    is_some
      (add exact plain 1
        (pos 40)
        (add_all exact plain ((1, 30) ∷ (1, 31) ∷ []) (new_monitor exact capped))).1
    ≡ (exceeds exact exact.lt_f capped.max_cost 3
        || exceeds exact ltb_ℤ capped.max_tokens (pos 101))
add_reports_breach_example =
    add_reports_breach exact plain ((1, 30) ∷ (1, 31) ∷ []) 1 40 capped (omega arith)

check_time_lem_example :
    is_some (check_time exact plain (pos 61_000_000_000) (new_monitor exact tokens_only)) ≡ true
unfolding new_monitor clone
check_time_lem_example =
    check_time_lem exact plain 60 61_000_000_000 (new_monitor exact tokens_only) refl (omega arith)

check_time_wraps_example :
    is_some (check_time exact plain (pos 1) (new_monitor exact forever)) ≡ true
unfolding new_monitor clone
check_time_wraps_example = check_time_wraps exact plain 1 (new_monitor exact forever) refl

read-serialize_config_example :
    read_config (serialize_config (record capped { metadata = some end }))
    ≡ record (record capped { metadata = some end }) { metadata = none }
read-serialize_config_example = read-serialize_config (record capped { metadata = some end })

abbrev spent : Usage ℕ
spent = record { cost = 1; tokens = pos 1; elapsed = pos 61_000_000_000 }

abbrev late : ErrExceeded
late = record { kind = "time"; usage = "1m1s"; limit = "1m0s" }

format_breach_reason_time_example :
    format_breach_reason plain tokens_only spent late
    ≡ append (error_text late) (
        append
          (append " (" (append "elapsed=" (append (plain.fixed (plain.seconds spent.elapsed)) "s")))
          ")")
format_breach_reason_time_example = format_breach_reason_time plain tokens_only spent late refl
