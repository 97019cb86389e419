-- ===== src/Security/Texts.antt =====
-- Sizes, names and hosts in the texts of a policy. Letter case, `url.Parse` and the reading of a float64
-- are Go's, and arguments: `Reading`.
use newser.Prelude.{
  is_some, ◌==◌, ℕ, zero, suc, String, Option, none, some, Bool, false, List, [], ◌∷◌,
  if◌then◌else◌, is_empty, trim_space, str_eq, ◌||◌,
}
use Prim.Native.Char.{code}
use newser.Prelude.Int.{ℤ, pos}
use newser.Prelude.Duration.{parse_duration}
use newser.Prelude.Floats.{FloatOps}

pub record Reading (F : Type 0) : Type 0 where
  pub to_lower : String → String
  pub equal_fold : String → String → Bool
  pub parse_float : String → Option F
  pub kibi : F  -- 1024
  pub url_host : String → Option String  -- `url.Parse`, its host

-- `strings.HasPrefix` with `strings.TrimPrefix`.
abbrev pub cut_prefix : String → String → Option String
cut_prefix String.[] s = some s
cut_prefix (String.◌∷◌ p prefix) String.[] = none
cut_prefix (String.◌∷◌ p prefix) (String.◌∷◌ c s) =
    let rest = cut_prefix prefix s in if code p == code c then rest else none

abbrev trim_prefix : String → String → String
trim_prefix prefix s = elim (cut_prefix prefix s) [ none ↦ s | some rest ↦ rest ]

-- `strings.HasSuffix` with `strings.TrimSuffix`.
abbrev pub cut_suffix : String → String → Option String
cut_suffix suffix String.[] = if str_eq String.[] suffix then some "" else none
cut_suffix suffix (String.◌∷◌ c s) =
    let rest = cut_suffix suffix s in
    if str_eq (String.◌∷◌ c s) suffix
    then some ""
    else (elim rest [ none ↦ none | some front ↦ some (String.◌∷◌ c front) ])

-- The units with the power of 1024 that each stands for.
abbrev pub unit_multipliers : List (String × ℕ)
unit_multipliers =
    ("kb", 1)
    ∷ ("k", 1)
    ∷ ("kib", 1)
    ∷ ("mb", 2)
    ∷ ("m", 2)
    ∷ ("mi", 2)
    ∷ ("mib", 2)
    ∷ ("gb", 3)
    ∷ ("g", 3)
    ∷ ("gi", 3)
    ∷ ("gib", 3)
    ∷ ("tb", 4)
    ∷ ("t", 4)
    ∷ ("tib", 4)
    ∷ ("pb", 5)
    ∷ ("p", 5)
    ∷ ("pib", 5)
    ∷ ("b", 0)
    ∷ []

module _ {F : Type 0} (fl : FloatOps F) (rd : Reading F) where
  power : ℕ → F
  power zero = fl.one_f
  power (suc n) = fl.mul_f (power n) rd.kibi

  -- The loop over the units, in the order of the range.
  unfoldable pub scan_units : List (String × ℕ) → String → Option F
  unfolding power
  scan_units [] val = rd.parse_float val
  scan_units ((unit, n) ∷ units) val =
      let rest = scan_units units val in
      elim (cut_suffix unit val) [
        | none ↦ rest
        | some front ↦
            let number = trim_space front in
            if is_empty number then none else (elim (rd.parse_float number) [
              | none ↦ none
              | some f ↦ some (fl.mul_f f (power n))
            ])
      ]

  -- `parseMemoryString` and `parseMemoryBytes`: `units` is the table in the order that the loop
  -- happens to range over it.
  unfoldable pub parse_memory : List (String × ℕ) → String → Option F
  unfolding scan_units
  parse_memory units value =
      let val = trim_space (rd.to_lower value) in
      if is_empty val then some fl.zero_f else scan_units units val

-- `parseDurationString` and `parseDuration`.
unfoldable pub parse_duration_string : String → Option ℤ
unfolding parse_duration
parse_duration_string value =
    let v = trim_space value in if is_empty v then some (pos 0) else parse_duration v

unfoldable pub contains_string_fold : (String → String → Bool) → List String → String → Bool
contains_string_fold equal_fold [] candidate = false
contains_string_fold equal_fold (item ∷ items) candidate =
    equal_fold (trim_space item) (trim_space candidate)
    || contains_string_fold equal_fold items candidate

-- The host of a value that is a URL, where it has one; any other value is kept.
abbrev host_part : (String → Option String) → String → String
host_part url_host value =
    if is_some (cut_prefix "http://" value) || is_some (cut_prefix "https://" value)
    then (elim (url_host value) [
      | none ↦ value
      | some host ↦ if is_empty host then value else host
    ])
    else value

unfoldable pub normalize_host : {F : Type 0} → Reading F → String → String
normalize_host rd raw =
    let value = trim_space (rd.to_lower raw) in
    if is_empty value then "" else trim_prefix "www." (host_part rd.url_host value)
