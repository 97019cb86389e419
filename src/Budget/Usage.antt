-- ===== src/Budget/Usage.antt =====
-- internal/budget/errors.go and the usage of internal/budget/budget.go. How `fmt` and `time` print
-- floats and durations is an argument.
use newser.Prelude.{String, if◌then◌else◌, is_empty}
use newser.Prelude.Int.{ℤ}
use newser.Prelude.Show.{append}

pub record Usage (F : Type 0) : Type 0 where
  pub cost : F
  pub tokens : ℤ
  pub elapsed : ℤ

pub record ErrExceeded : Type 0 where
  pub kind : String
  pub usage : String
  pub limit : String

pub record Formats (F : Type 0) : Type 0 where
  pub dollars : F → String  -- `$%.4f`
  pub fixed : F → String  -- `%.2f`
  pub integer : ℤ → String  -- `%d`
  pub duration : ℤ → String  -- `Duration.String`
  pub seconds : ℤ → F  -- `Duration.Seconds`
  pub of_int : ℤ → F  -- the conversion of an integer to a float

-- `ErrExceeded.Error`.
unfoldable pub error_text : ErrExceeded → String
error_text e =
    let start = append "budget " (append e.kind (append " exceeded: usage=" e.usage)) in
    if is_empty e.limit then start else append start (append " limit=" e.limit)

-- `ErrBreach`: what was exceeded, with the usage at that time.
pub record ErrBreach (F : Type 0) : Type 0 where
  pub exceeded : ErrExceeded
  pub usage : Usage F

-- `NewBreach`.
unfoldable pub new_breach : {F : Type 0} → ErrExceeded → Usage F → ErrBreach F
new_breach exceeded usage = record { exceeded = exceeded; usage = usage }

-- `ErrBreach.Error` and `ErrBreach.Unwrap`.
unfoldable pub breach_text : {F : Type 0} → ErrBreach F → String
unfolding error_text
breach_text e = error_text e.exceeded

unfoldable pub unwrap : {F : Type 0} → ErrBreach F → ErrExceeded
unwrap e = e.exceeded

pub record ErrApprovalRequired (F : Type 0) : Type 0 where
  pub estimated_cost : F
  pub threshold : F

-- `ErrApprovalRequired.Error`.
unfoldable pub approval_text : {F : Type 0} → Formats F → ErrApprovalRequired F → String
approval_text fmt e = append "estimated cost $" (
    append (fmt.fixed e.estimated_cost)
      (append " exceeds approval threshold $" (fmt.fixed e.threshold)))
