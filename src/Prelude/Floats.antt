-- ===== src/Prelude/Floats.antt =====
-- Go's float64 as an interface: the carrier, its constants, arithmetic and tests.
use mathlib.Core.Path.{◌≡◌}
use mathlib.Core.Bool.{Bool, true, false}

pub record FloatOps (F : Type 0) : Type 0 where
  pub zero_f : F
  pub one_f : F
  pub add_f : F → F → F
  pub sub_f : F → F → F
  pub mul_f : F → F → F
  pub lt_f : F → F → Bool
  pub le_f : F → F → Bool
  pub eq_f : F → F → Bool

-- What IEEE 754 promises of the tests, NaN included: a comparison with a NaN is false.
pub record FloatLaws {F : Type 0} (fl : FloatOps F) : Type 0 where
  pub lt_irrefl : (a : F) → fl.lt_f a a ≡ false
  pub lt-of-le_false : (a b : F) → fl.lt_f a b ≡ true → fl.le_f b a ≡ false
  pub lt_trans : (a b c : F) → fl.lt_f a b ≡ true → fl.lt_f b c ≡ true → fl.lt_f a c ≡ true
  pub lt-le_trans : (a b c : F) → fl.lt_f a b ≡ true → fl.le_f b c ≡ true → fl.lt_f a c ≡ true
  pub le-of_lt : (a b : F) → fl.lt_f a b ≡ true → fl.le_f a b ≡ true
  pub le_trans : (a b c : F) → fl.le_f a b ≡ true → fl.le_f b c ≡ true → fl.le_f a c ≡ true
