-- ===== src/Budget/Report.antt =====
-- The reports of internal/budget/budget.go, as JSON-friendly maps.
use newser.Prelude.{
  String, Option, none, some, List, [], ◌∷◌, if◌then◌else◌, is_empty, is_nil, str_eq,
}
use newser.Prelude.Int.{ℤ, pos, ltb_ℤ, eqb_ℤ}
use newser.Prelude.Floats.{FloatOps}
use newser.Prelude.Show.{append}
use newser.Value.{
  bool, int, float, text, array, object, Items, nil, cons, Fields, end, field, get, put, is_end,
  as_float, as_int,
}
use newser.Budget.{Config, copy_fields}
use newser.Budget.Estimate.{Estimate}
use newser.Budget.Usage.{Usage, ErrExceeded, Formats, error_text}

module _ {F : Type 0} where
  abbrev pub put_float : String → Option F → Fields F → Fields F
  put_float k none m = m
  put_float k (some x) m = put k (float x) m

  abbrev pub put_int : String → Option ℤ → Fields F → Fields F
  put_int k none m = m
  put_int k (some n) m = put k (int n) m

  abbrev pub put_metadata : Option (Fields F) → Fields F → Fields F
  put_metadata none out = out
  put_metadata (some m) out = if is_end m then out else put "metadata" (object (copy_fields m)) out

  unfoldable pub serialize_config : Config F → Fields F
  unfolding put
  serialize_config cfg = put_metadata cfg.metadata (
      put "require_approval" (bool cfg.require_approval) (
        put_float "approval_threshold" cfg.approval_threshold (
          put_int "max_time_seconds" cfg.max_time_seconds
            (put_int "max_tokens" cfg.max_tokens (put_float "max_cost" cfg.max_cost end)))))

module _ {F : Type 0} (fl : FloatOps F) (fmt : Formats F) where
  -- The three amounts of an estimate or a usage, without those that are zero.
  amounts : F → ℤ → ℤ → Fields F
  amounts cost tokens time =
      let with_cost = if fl.eq_f cost fl.zero_f then end else put "cost" (float cost) end in
      let with_tokens =
        if eqb_ℤ tokens (pos 0) then with_cost else put "tokens" (int tokens) with_cost in
      if ltb_ℤ (pos 0) time
      then put "time_seconds" (float (fmt.seconds time)) with_tokens
      else with_tokens

  unfoldable pub serialize_estimate : Estimate F → Fields F
  unfolding amounts
  serialize_estimate est = amounts est.cost est.tokens est.duration

  unfoldable pub serialize_usage : Usage F → Fields F
  unfolding amounts
  serialize_usage usage = amounts usage.cost usage.tokens usage.elapsed

module _ {F : Type 0} (fmt : Formats F) where
  -- The `switch` on the kind.
  unfoldable pub breach_amounts : Config F → Usage F → String → Fields F → Fields F
  unfolding put
  breach_amounts cfg usage kind summary =
      if str_eq kind "cost"
      then put_float "limit_cost" cfg.max_cost (put "usage_cost" (float usage.cost) summary)
      else if str_eq kind "tokens"
      then put_int "limit_tokens" cfg.max_tokens (put "usage_tokens" (int usage.tokens) summary)
      else if str_eq kind "time"
      then put_int "limit_seconds" cfg.max_time_seconds
          (put "usage_seconds" (float (fmt.seconds usage.elapsed)) summary)
      else summary

  unfoldable pub serialize_breach : Config F → Usage F → ErrExceeded → Fields F
  unfolding breach_amounts put error_text
  serialize_breach cfg usage exceeded =
      let summary =
        breach_amounts cfg usage exceeded.kind
          (field "kind" (text exceeded.kind) (field "message" (text (error_text exceeded)) end)) in
      let labelled =
        if is_empty exceeded.limit
        then summary
        else put "limit_label" (text exceeded.limit) summary in
      put "usage_label" (text exceeded.usage) labelled

  unfoldable pub breach_items : Config F → Usage F → List ErrExceeded → Items F
  unfolding serialize_breach
  breach_items cfg usage [] = nil
  breach_items cfg usage (b ∷ breaches) =
      cons (object (serialize_breach cfg usage b)) (breach_items cfg usage breaches)

  unfoldable pub build_report :
      FloatOps F → Config F → Estimate F → Usage F → List ErrExceeded → Fields F
  unfolding serialize_config serialize_estimate serialize_usage breach_items
  build_report fl cfg estimate usage breaches =
      let report = field "config" (object (serialize_config cfg)) (
        field "estimate" (object (serialize_estimate fl fmt estimate))
          (field "usage" (object (serialize_usage fl fmt usage)) end)) in
      if is_nil breaches
      then report
      else put "breaches" (array (breach_items cfg usage breaches)) report

  -- ` (label=amount limit=limit)`, the limit if there is one.
  abbrev pub amount_text : String → String → Option String → String
  amount_text label amount limit =
      append (append " (" (append label (append "=" amount)))
        (append (elim limit [ none ↦ "" | some l ↦ append " limit=" l ]) ")")

  -- The limit is looked up by the type that the summary's reader asks for.
  unfoldable pub format_breach_reason : Config F → Usage F → ErrExceeded → String
  unfolding serialize_breach get
  format_breach_reason cfg usage exceeded =
      let summary = serialize_breach cfg usage exceeded in
      let fixed = λ (o : Option F). elim o as (λ _. Option String) [
        | none ↦ none
        | some x ↦ some (fmt.fixed x)
      ] in
      let whole = λ (o : Option ℤ). elim o as (λ _. Option String) [
        | none ↦ none
        | some n ↦ some (fmt.integer n)
      ] in
      append (error_text exceeded) (elim (as_float (get "usage_cost" summary)) [
        | some cost ↦
            amount_text "cost" (fmt.fixed cost) (fixed (as_float (get "limit_cost" summary)))
        | none ↦ elim (as_int (get "usage_tokens" summary)) [
          | some tokens ↦
              amount_text "tokens" (fmt.integer tokens)
                (whole (as_int (get "limit_tokens" summary)))
          | none ↦ elim (as_float (get "usage_seconds" summary)) [
            | some seconds ↦
                append (append " (" (append "elapsed=" (append (fmt.fixed seconds) "s"))) (
                  append
                    (elim (as_float (get "limit_seconds" summary)) [
                      | none ↦ ""
                      | some limit ↦ append " limit=" (append (fmt.fixed limit) "s")
                    ])
                    ")")
            | none ↦ ""
          ]
        ]
      ])
