-- ===== src/Prelude/Duration.antt =====
-- Go's `time.ParseDuration`, in nanoseconds. The fraction of a unit is rounded down exactly, where
-- Go multiplies float64 values.
use newser.Prelude.{
  ℕ, zero, suc, ◌+◌, ◌-◌, ◌*◌, ◌/◌, ◌^◌, ◌≡◌, refl, Bool, true, false, ◌&&◌, ◌||◌, String, Option,
  none, some, ltb, leb, ◌==◌, if◌then◌else◌, str_eq, is_empty, not,
}
use newser.Prelude.Int.{ℤ, pos, negsuc}
use Prim.Native.Char.{Char, code}

abbrev is_digit : Char → Bool
is_digit c = leb b'0' (code c) && leb (code c) b'9'

-- A number read from the front of a text, how many digits it had, and the rest.
record Scanned : Type 0 where
  value : ℕ
  digits : ℕ
  overflow : Bool
  rest : String

leading_int : ℕ → ℕ → Bool → String → Scanned
leading_int v n over String.[] = record { value = v; digits = n; overflow = over; rest = String.[] }
leading_int v n over (String.◌∷◌ c s) =
    let v' = v * 10 + (code c - b'0') in
    let more = leading_int v' (suc n) (over || ltb (2 ^ 63 / 10) v || ltb (2 ^ 63) v') s in
    if is_digit c
    then more
    else (record { value = v; digits = n; overflow = over; rest = String.◌∷◌ c s })

-- Digits that would overflow are dropped from a fraction.
leading_fraction : ℕ → ℕ → Bool → String → Scanned
leading_fraction v n over String.[] = record {
  value = v;
  digits = n;
  overflow = over;
  rest = String.[];
}
leading_fraction v n over (String.◌∷◌ c s) =
    let y = v * 10 + (code c - b'0') in
    let stop = over || ltb ((2 ^ 63 - 1) / 10) v || ltb (2 ^ 63) y in
    let more = leading_fraction (if stop then v else y) (if stop then n else suc n) stop s in
    if is_digit c
    then more
    else (record { value = v; digits = n; overflow = over; rest = String.◌∷◌ c s })

abbrev is_unit_char : Char → Bool
is_unit_char c = not (code c == b'.' || is_digit c)

-- The text up to the next digit or point, and the rest.
split_unit : String → String × String
split_unit String.[] = (String.[], String.[])
split_unit (String.◌∷◌ c s) =
    let (u, rest) = split_unit s in
    if is_unit_char c then (String.◌∷◌ c u, rest) else (String.[], String.◌∷◌ c s)

unit_of : String → Option ℕ
unit_of u =
    if str_eq u "ns"
    then some 1
    else if str_eq u "us"
    then some 1_000
    else if str_eq u "µs"
    then some 1_000
    else if str_eq u "μs"
    then some 1_000
    else if str_eq u "ms"
    then some 1_000_000
    else if str_eq u "s"
    then some 1_000_000_000
    else if str_eq u "m"
    then some 60_000_000_000
    else if str_eq u "h"
    then some 3_600_000_000_000
    else none

abbrev starts_with_point : String → Bool
starts_with_point String.[] = false
starts_with_point (String.◌∷◌ c s) = code c == b'.'

abbrev tail_text : String → String
tail_text String.[] = String.[]
tail_text (String.◌∷◌ c s) = s

abbrev starts_number : String → Bool
starts_number String.[] = false
starts_number (String.◌∷◌ c s) = code c == b'.' || is_digit c

-- One number with its unit: its value and the rest of the text.
one_part : String → Option (ℕ × String)
unfolding leading_int leading_fraction split_unit unit_of
one_part s =
    let whole = leading_int 0 0 false s in
    let pointed = starts_with_point whole.rest in
    let fraction =
      leading_fraction 0 0 false (if pointed then tail_text whole.rest else String.[]) in
    let after = if pointed then fraction.rest else whole.rest in
    let (u, rest) = split_unit after in
    let any_fraction =
      starts_number (tail_text whole.rest) && not (starts_with_point (tail_text whole.rest)) in
    if not (starts_number s) || whole.overflow || is_empty u
    then none
    else if whole.digits == 0 && not (pointed && any_fraction)
    then none
    else elim (unit_of u) [
      | none ↦ none
      | some unit ↦
          let v = whole.value * unit + fraction.value * unit / 10 ^ fraction.digits in
          if ltb (2 ^ 63 / unit) whole.value || ltb (2 ^ 63) v then none else some (v, rest)
    ]

-- The loop over the parts; each takes at least one character, so the length is enough fuel.
parts : ℕ → ℕ → String → Option ℕ
unfolding one_part
parts fuel d String.[] = some d
parts zero d (String.◌∷◌ c s) = none
parts (suc fuel) d (String.◌∷◌ c s) = elim (one_part (String.◌∷◌ c s)) [
  | none ↦ none
  | some (v, rest) ↦ if ltb (2 ^ 63) (d + v) then none else parts fuel (d + v) rest
]

text_length : String → ℕ
text_length String.[] = 0
text_length (String.◌∷◌ c s) = suc (text_length s)

signed : Bool → Option ℕ → Option ℤ
signed neg none = none
signed true (some zero) = some (pos 0)
signed true (some (suc n)) = some (negsuc n)
signed false (some n) = if ltb (2 ^ 63 - 1) n then none else some (pos n)

unsigned_text : Bool → String → Option ℤ
unfolding parts text_length signed
unsigned_text neg s =
    if str_eq s "0"
    then some (pos 0)
    else if is_empty s
    then none
    else signed neg (parts (text_length s) 0 s)

unfoldable pub parse_duration : String → Option ℤ
unfolding unsigned_text
parse_duration String.[] = none
parse_duration (String.◌∷◌ c s) =
    if code c == b'-'
    then unsigned_text true s
    else if code c == b'+'
    then unsigned_text false s
    else unsigned_text false (String.◌∷◌ c s)

parse_duration_table :
    (parse_duration "1h30m" ≡ some (pos 5_400_000_000_000))
    × (parse_duration "-1.5s" ≡ some (negsuc 1_499_999_999))
    × (parse_duration ".5s" ≡ some (pos 500_000_000))
    × (parse_duration "0" ≡ some (pos 0))
    × (parse_duration "5" ≡ none)
    × (parse_duration "" ≡ none)
    × (parse_duration "." ≡ none)
    × (parse_duration "1x" ≡ none)
unfolding parse_duration
parse_duration_table = (refl, refl, refl, refl, refl, refl, refl, refl)
