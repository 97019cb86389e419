-- ===== src/Budget/Readback.antt =====
-- What a reader of the reports finds in them.
use newser.Prelude.{
  ◌≡◌, refl, false, String, Option, none, some, if◌then◌else◌, arith, ap, sym, subst,
}
use newser.Prelude.Int.{ℤ}
use newser.Prelude.Show.{append}
use newser.Value.{Fields, get, is_end, as_float, as_int, as_object, as_bool}
use newser.Budget.{Config, copy_fields}
use newser.Budget.Overlay.{copy_fields_same}
use newser.Budget.Usage.{Usage, ErrExceeded, Formats, error_text}
use newser.Budget.Report.{serialize_config, format_breach_reason}

-- The config that a serialised one tells of.
abbrev pub read_config : {F : Type 0} → Fields F → Config F
read_config m = record {
  max_cost = as_float (get "max_cost" m);
  max_tokens = as_int (get "max_tokens" m);
  max_time_seconds = as_int (get "max_time_seconds" m);
  approval_threshold = as_float (get "approval_threshold" m);
  require_approval = elim (as_bool (get "require_approval" m)) [ none ↦ false | some b ↦ b ];
  metadata = as_object (get "metadata" m);
}

-- Metadata without entries is left out.
abbrev pub given_metadata : {F : Type 0} → Option (Fields F) → Option (Fields F)
given_metadata none = none
given_metadata (some m) = if is_end m then none else some m

abbrev timed : String → String → ErrExceeded
timed usage limit = record { kind = "time"; usage = usage; limit = limit }

module _ {F : Type 0} where
  -- A serialised config reads back as it was, but for metadata without entries, which reads back
  -- as none.
  pub read-serialize_config :
      (cfg : Config F)
      → read_config (serialize_config cfg) ≡ record cfg { metadata = given_metadata cfg.metadata }
  unfolding serialize_config get
  read-serialize_config cfg = ground (arith, copied cfg.metadata)
    where
      copied : (o : Option (Fields F)) → elim o [ none ↦ none | some m ↦ some (copy_fields m) ] ≡ o
      copied none = refl
      copied (some m) = ap some (copy_fields_same m)

  reason_time_at :
      (fmt : Formats F) (cfg : Config F) (usage : Usage F) (used limit : String)
      (seconds : Option ℤ)
      → format_breach_reason fmt
          (record cfg { max_time_seconds = seconds })
          usage
          (timed used limit)
        ≡ append (error_text (timed used limit)) (
            append
              (append " (" (append "elapsed=" (append (fmt.fixed (fmt.seconds usage.elapsed)) "s")))
              ")")
  unfolding format_breach_reason
  reason_time_at fmt cfg usage used String.[] none = refl
  reason_time_at fmt cfg usage used String.[] (some n) = refl
  reason_time_at fmt cfg usage used (String.◌∷◌ c s) none = refl
  reason_time_at fmt cfg usage used (String.◌∷◌ c s) (some n) = refl

  -- The reason for a breach of the time limit is the text of the error, followed by the elapsed
  -- seconds in parentheses; no config puts its limit there, in seconds, as the reasons for the other
  -- breaches do: the limit stands in the summary as an integer, and is looked for as a float.
  pub format_breach_reason_time :
      (fmt : Formats F) (cfg : Config F) (usage : Usage F) (exceeded : ErrExceeded)
      → exceeded.kind ≡ "time"
      → format_breach_reason fmt cfg usage exceeded
        ≡ append (error_text exceeded) (
            append
              (append " (" (append "elapsed=" (append (fmt.fixed (fmt.seconds usage.elapsed)) "s")))
              ")")
  format_breach_reason_time fmt cfg usage exceeded e =
      subst
        (λ (x : ErrExceeded).
          format_breach_reason fmt cfg usage x
          ≡ append (error_text x) (
              append
                (append " ("
                  (append "elapsed=" (append (fmt.fixed (fmt.seconds usage.elapsed)) "s")))
                ")"))
        (sym (ap (λ k. record exceeded { kind = k }) e))
        (reason_time_at fmt cfg usage exceeded.usage exceeded.limit cfg.max_time_seconds)
