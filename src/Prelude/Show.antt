-- ===== src/Prelude/Show.antt =====
-- Decimal numbers as text (`%d`, `%02d`).
use Prim.Native.Nat.{ℕ, zero, suc, ◌/◌, ◌%◌}
use Prim.Native.Char.{Char}
use Prim.Native.String.{String}
use mathlib.Core.Path.{◌≡◌, refl}
use newser.Prelude.Int.{ℤ, pos, negsuc}
use newser.Prelude.Tests.{ltb, if◌then◌else◌}
pub use newser.Prelude.Texts.{append}

abbrev digit : ℕ → Char
digit zero = "0"
digit (suc zero) = "1"
digit (suc (suc zero)) = "2"
digit (suc (suc (suc zero))) = "3"
digit (suc (suc (suc (suc zero)))) = "4"
digit (suc (suc (suc (suc (suc zero))))) = "5"
digit (suc (suc (suc (suc (suc (suc zero)))))) = "6"
digit (suc (suc (suc (suc (suc (suc (suc zero))))))) = "7"
digit (suc (suc (suc (suc (suc (suc (suc (suc zero)))))))) = "8"
digit (suc (suc (suc (suc (suc (suc (suc (suc (suc n))))))))) = "9"

-- A number of at most `fuel` digits; a number has at most as many digits as its value and one.
show_onto : ℕ → ℕ → String → String
show_onto zero n acc = acc
show_onto (suc fuel) n acc =
    let more = show_onto fuel (n / 10) (String.◌∷◌ (digit (n % 10)) acc) in
    if ltb n 10 then String.◌∷◌ (digit n) acc else more

unfoldable pub show_ℕ : ℕ → String
unfolding show_onto
show_ℕ n = show_onto (suc n) n String.[]

-- `%02d`.
unfoldable pub show_padded : ℕ → String
unfolding show_ℕ
show_padded n = if ltb n 10 then String.◌∷◌ "0" (show_ℕ n) else show_ℕ n

show_table : (show_ℕ 0 ≡ "0") × (show_ℕ 1207 ≡ "1207") × (show_padded 7 ≡ "07")
unfolding show_padded
show_table = (refl, refl, refl)

-- `%d` of an int64.
unfoldable pub show_ℤ : ℤ → String
unfolding show_ℕ
show_ℤ (pos n) = show_ℕ n
show_ℤ (negsuc n) = String.◌∷◌ "-" (show_ℕ (suc n))
