-- ===== src/Executor/Effects.antt =====
-- Calls that change the world and may fail. The world outlives an error.
use newser.Prelude.{String, Option, none, some}

pub data Failure (E : Type 0) : Type 0 where
  unknown_dependency : String → String → Failure E
  cycle_detected out_of_fuel : Failure E
  failed : E → Failure E

pub data Result (E A : Type 0) : Type 0 where
  ok : A → Result E A
  err : Failure E → Result E A

abbrev pub Action : Type 0 → Type 0 → Type 0 → Type 0
Action W E A = W → W × Result E A

module _ {W E A : Type 0} where
  abbrev pub pure : A → Action W E A
  pure a w = (w, ok a)

  abbrev pub throw : Failure E → Action W E A
  throw e w = (w, err e)

-- A call that returns only an error.
abbrev pub check : {W E : Type 0} → (W → W × Option E) → Action W E (Unit {0})
check call w = let (w', e) = call w in (w', elim e [ none ↦ ok tt | some e ↦ err (failed e) ])

module _ {W E A B : Type 0} where
  abbrev pub and_then : Result E A → (A → Action W E B) → Action W E B
  and_then (ok a) f = f a
  and_then (err e) f = throw e

  infixl 5 ◌>>=◌ ◌>>◌
  abbrev pub ◌>>=◌ : Action W E A → (A → Action W E B) → Action W E B
  m >>= f = λ w. let (w', r) = m w in and_then r f w'

  abbrev pub ◌>>◌ : Action W E A → Action W E B → Action W E B
  m >> n = m >>= λ _. n
