-- ===== src/Budget/Monitor.antt =====
-- internal/budget/monitor.go. The mutex makes each method one step, so a monitor is a record and a
-- method a function; the clock is read by the caller, as the elapsed nanoseconds.
use newser.Prelude.{
  ℕ, ◌+◌, ◌*◌, ◌^◌, ◌≤◌, ◌<◌, ◌≡◌, refl, Bool, true, false, ◌||◌, Option, none, some, List, [], ◌∷◌,
  if◌then◌else◌, arith, ltb, ap, ◌∙◌, is_some,
}
use newser.Prelude.Int.{ℤ, pos, ltb_ℤ, leb_ℤ, add64, mul64, wrap64, ◌+ℤ◌}
use newser.Prelude.Floats.{FloatOps}
use newser.Prelude.Show.{append}
use newser.Budget.{Config, clone}
use newser.Budget.Overlay.{clone_same}
use newser.Budget.Usage.{ErrExceeded, Usage, Formats}

pub record Monitor (F : Type 0) : Type 0 where
  pub config : Config F
  pub cost_used : F
  pub tokens_used : ℤ

module _ {F : Type 0} (fl : FloatOps F) where
  unfoldable pub new_monitor : Config F → Monitor F
  new_monitor cfg = record { config = clone cfg; cost_used = fl.zero_f; tokens_used = pos 0 }

  -- A given limit that the amount is above.
  abbrev pub over_f : F → Option F → Bool
  over_f used none = false
  over_f used (some limit) = fl.lt_f limit used

  abbrev pub over : ℤ → Option ℤ → Bool
  over used none = false
  over used (some limit) = ltb_ℤ limit used

  module _ (fmt : Formats F) where
    cost_breach : F → Option F → ErrExceeded
    cost_breach used limit = record {
      kind = "cost";
      usage = fmt.dollars used;
      limit = elim limit [ none ↦ "" | some l ↦ fmt.dollars l ];
    }

    token_breach : ℤ → Option ℤ → ErrExceeded
    token_breach used limit = record {
      kind = "tokens";
      usage = append (fmt.integer used) " tokens";
      limit = elim limit [ none ↦ "" | some l ↦ append (fmt.integer l) " tokens" ];
    }

    -- `Add`: the usage grows whether or not a limit is passed.
    unfoldable pub add : F → ℤ → Monitor F → Monitor F × Option ErrExceeded
    unfolding cost_breach token_breach
    add cost tokens m =
        let m' = record m {
          cost_used = fl.add_f m.cost_used cost;
          tokens_used = add64 m.tokens_used tokens;
        } in
        (
          m',
          if over_f m'.cost_used m'.config.max_cost
              then some (cost_breach m'.cost_used m'.config.max_cost)
              else if over m'.tokens_used m'.config.max_tokens
              then some (token_breach m'.tokens_used m'.config.max_tokens)
              else none,
        )

    -- `CheckTime`, `elapsed` nanoseconds after the start.
    unfoldable pub check_time : ℤ → Monitor F → Option ErrExceeded
    check_time elapsed m = elim m.config.max_time_seconds [
      | none ↦ none
      | some seconds ↦
          let limit = mul64 seconds 1_000_000_000 in
          if leb_ℤ seconds (pos 0)
          then none
          else if ltb_ℤ limit elapsed
          then some
              (record { kind = "time"; usage = fmt.duration elapsed; limit = fmt.duration limit })
          else none
    ]

  unfoldable pub usage : ℤ → Monitor F → Usage F
  usage elapsed m = record { cost = m.cost_used; tokens = m.tokens_used; elapsed = elapsed }

  unfoldable pub config_of : Monitor F → Config F
  config_of m = clone m.config

  -- `UsageFromMonitor`, which takes a nil monitor as one with no usage.
  unfoldable pub usage_from_monitor : ℤ → Option (Monitor F) → Usage F
  unfolding usage
  usage_from_monitor elapsed none = record { cost = fl.zero_f; tokens = pos 0; elapsed = pos 0 }
  usage_from_monitor elapsed (some m) = usage elapsed m

  -- A run of `Add` calls, with what the last one returned.
  unfoldable pub add_all : Formats F → List (F × ℕ) → Monitor F → Monitor F
  add_all fmt [] m = m
  add_all fmt ((cost, tokens) ∷ rest) m = add_all fmt rest (add fmt cost (pos tokens) m).0

  abbrev pub total_tokens : List (F × ℕ) → ℕ
  total_tokens [] = 0
  total_tokens ((cost, tokens) ∷ rest) = tokens + total_tokens rest

  add64_small : (a b : ℕ) → a + b < 2 ^ 63 → add64 (pos a) (pos b) ≡ pos (a + b)
  unfolding add64 ◌+ℤ◌ wrap64
  add64_small a b h = ground arith

  -- The tokens of any run of calls add up exactly, as long as the sum fits in an int64; the limits
  -- stay as they were.
  pub add_all-tokens :
      (fmt : Formats F) (calls : List (F × ℕ)) (m : Monitor F) (used : ℕ)
      → m.tokens_used ≡ pos used
      → used + total_tokens calls < 2 ^ 63
      → ((add_all fmt calls m).tokens_used ≡ pos (used + total_tokens calls))
        × ((add_all fmt calls m).config ≡ m.config)
  unfolding add_all add
  add_all-tokens fmt [] m used e fits = (e ∙ ap pos (omega arith), refl)
  add_all-tokens fmt ((cost, tokens) ∷ rest) m used e fits =
      let m' = (add fmt cost (pos tokens) m).0 in
      let (sum, same) =
        add_all-tokens fmt rest m' (used + tokens)
          (ap (λ t. add64 t (pos tokens)) e ∙ add64_small used tokens (omega arith))
          (omega arith) in
      (sum ∙ ap pos (omega arith), same)

  -- The cost of a run of calls, added up in their order.
  abbrev pub total_cost : F → List (F × ℕ) → F
  total_cost used [] = used
  total_cost used ((cost, tokens) ∷ rest) = total_cost (fl.add_f used cost) rest

  add_all-cost :
      (fmt : Formats F) (calls : List (F × ℕ)) (m : Monitor F)
      → (add_all fmt calls m).cost_used ≡ total_cost m.cost_used calls
  unfolding add_all add
  add_all-cost fmt [] m = refl
  add_all-cost fmt ((cost, tokens) ∷ rest) m = add_all-cost fmt rest (add fmt cost (pos tokens) m).0

  -- A limit that is given and less than the amount.
  abbrev pub exceeds : {A : Type 0} → (A → A → Bool) → Option A → A → Bool
  exceeds lt none amount = false
  exceeds lt (some limit) amount = lt limit amount

  over_f-exceeds : (used : F) (limit : Option F) → over_f used limit ≡ exceeds fl.lt_f limit used
  over_f-exceeds used none = refl
  over_f-exceeds used (some l) = refl

  over-exceeds : (used : ℤ) (limit : Option ℤ) → over used limit ≡ exceeds ltb_ℤ limit used
  over-exceeds used none = refl
  over-exceeds used (some l) = refl

  add-exceeds :
      (fmt : Formats F) (cost : F) (tokens : ℕ) (m : Monitor F)
      → is_some (add fmt cost (pos tokens) m).1 ≡ (
          exceeds fl.lt_f m.config.max_cost (fl.add_f m.cost_used cost)
          || exceeds ltb_ℤ m.config.max_tokens (add64 m.tokens_used (pos tokens)))
  unfolding add
  add-exceeds fmt cost tokens m =
      rw
        (
          over_f-exceeds (fl.add_f m.cost_used cost) m.config.max_cost,
          over-exceeds (add64 m.tokens_used (pos tokens)) m.config.max_tokens,
        )
        (ground arith)

  -- The call that follows a run of calls reports a breach exactly when there is a cost limit that the
  -- cost spent in all exceeds, or a token limit that the tokens spent in all exceed, its own cost and
  -- tokens included; the sum of the tokens has to fit in an int64.
  pub add_reports_breach :
      (fmt : Formats F) (calls : List (F × ℕ)) (cost : F) (tokens : ℕ) (cfg : Config F)
      → total_tokens calls + tokens < 2 ^ 63
      → is_some (add fmt cost (pos tokens) (add_all fmt calls (new_monitor cfg))).1 ≡ (
          exceeds fl.lt_f cfg.max_cost (fl.add_f (total_cost fl.zero_f calls) cost)
          || exceeds ltb_ℤ cfg.max_tokens (pos (total_tokens calls + tokens)))
  add_reports_breach fmt calls cost tokens cfg fits =
      let m = add_all fmt calls (new_monitor cfg) in
      let (sum, same) =
        add_all-tokens fmt calls (new_monitor cfg) 0 (unfold new_monitor in refl) (omega arith) in
      let config_same : m.config ≡ cfg = same ∙ (unfold new_monitor in clone_same cfg) in
      let spent : m.cost_used ≡ total_cost fl.zero_f calls =
        add_all-cost fmt calls (new_monitor cfg) ∙ (unfold new_monitor in refl) in
      let tokens_spent : add64 m.tokens_used (pos tokens) ≡ pos (total_tokens calls + tokens) =
        ap (λ t. add64 t (pos tokens)) sum
        ∙ add64_small (0 + total_tokens calls) tokens (omega arith)
        ∙ ap pos (omega arith) in
      add-exceeds fmt cost tokens m
      ∙ ap
          (λ (c : Config F).
            exceeds fl.lt_f c.max_cost (fl.add_f m.cost_used cost)
            || exceeds ltb_ℤ c.max_tokens (add64 m.tokens_used (pos tokens)))
          config_same
      ∙ ap
          (λ x.
            exceeds fl.lt_f cfg.max_cost (fl.add_f x cost)
            || exceeds ltb_ℤ cfg.max_tokens (add64 m.tokens_used (pos tokens)))
          spent
      ∙ ap
          (λ t.
            exceeds fl.lt_f cfg.max_cost (fl.add_f (total_cost fl.zero_f calls) cost)
            || exceeds ltb_ℤ cfg.max_tokens t)
          tokens_spent

  -- A time limit that fits in nanoseconds: a breach is reported exactly after more than so many
  -- seconds. A limit of zero is no limit.
  pub check_time_lem :
      (fmt : Formats F) (seconds elapsed : ℕ) (m : Monitor F)
      → m.config.max_time_seconds ≡ some (pos seconds)
      → seconds ≤ 9_223_372_036
      → is_some (check_time fmt (pos elapsed) m)
        ≡ (if ltb 0 seconds then ltb (seconds * 1_000_000_000) elapsed else false)
  unfolding check_time mul64 wrap64
  check_time_lem fmt seconds elapsed m e fits = rw e (ground arith)

  -- A larger limit wraps around: with one second more than fits, every check reports a breach,
  -- however little time has passed.
  pub check_time_wraps :
      (fmt : Formats F) (elapsed : ℕ) (m : Monitor F)
      → m.config.max_time_seconds ≡ some (pos 9_223_372_037)
      → is_some (check_time fmt (pos elapsed) m) ≡ true
  unfolding check_time mul64 wrap64
  check_time_wraps fmt elapsed m e = rw e (ground arith)
