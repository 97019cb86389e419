-- ===== src/Tests/Floats.antt =====
-- The float64 interface over the native numbers, for the tests: exact and without NaN.
use newser.Prelude.{ℕ, ◌+◌, ◌-◌, ◌*◌, ltb, leb, ◌==◌, arith}
use newser.Prelude.Floats.{FloatOps, FloatLaws}
use newser.Budget.Usage.{Formats}

abbrev pub exact : FloatOps ℕ
exact = record {
  zero_f = 0;
  one_f = 1;
  add_f = λ a b. a + b;
  sub_f = λ a b. a - b;
  mul_f = λ a b. a * b;
  lt_f = λ a b. ltb a b;
  le_f = λ a b. leb a b;
  eq_f = λ a b. a == b;
}

pub exact_laws : FloatLaws exact
exact_laws = record {
  lt_irrefl = λ a. ground arith;
  lt-of-le_false = λ a b h. ground arith;
  lt_trans = λ a b c h k. ground arith;
  lt-le_trans = λ a b c h k. ground arith;
  le-of_lt = λ a b h. ground arith;
  le_trans = λ a b c h k. ground arith;
}

abbrev pub plain : Formats ℕ
plain = record {
  dollars = λ x. "";
  fixed = λ x. "1.00";
  integer = λ n. "1";
  duration = λ n. "1s";
  seconds = λ n. 1;
  of_int = λ n. 1;
}
