-- ===== src/Capability/Versions.antt =====
-- splitVersion, stringsCompare and versionGreater of internal/capability/registry.go.
use newser.Prelude.{map, ◌==◌, String, Bool, true, false, List, [], ◌∷◌, if◌then◌else◌, str_eq}
use Prim.Native.Char.{Char, code}
use newser.Prelude.Int.{ℤ, pos, ltb_ℤ}

-- The answers -1, 0 and 1 of `stringsCompare`.
pub data Compared : Type 0 where
  less same greater : Compared

abbrev pub is_greater : Compared → Bool
is_greater greater = true
is_greater same = false
is_greater less = false

abbrev pub at_place : ℤ → ℤ → Compared → Compared
at_place a b rest = if ltb_ℤ b a then greater else if ltb_ℤ a b then less else rest

-- A missing place counts us 0.
unfoldable pub strings_compare : List ℤ → List ℤ → Compared
strings_compare [] [] = same
strings_compare (a ∷ us) [] = at_place a (pos 0) (strings_compare us [])
strings_compare [] (b ∷ vs) = at_place (pos 0) b (strings_compare [] vs)
strings_compare (a ∷ us) (b ∷ vs) = at_place a b (strings_compare us vs)

-- `strings.TrimPrefix(v, "v")`.
abbrev trim_v : String → String
trim_v String.[] = String.[]
trim_v (String.◌∷◌ c s) = if code c == b'v' then s else String.◌∷◌ c s

abbrev on_first : Char → List String → List String
on_first c [] = String.◌∷◌ c String.[] ∷ []
on_first c (part ∷ parts) = String.◌∷◌ c part ∷ parts

-- `strings.Split(v, ".")`.
abbrev split_dots : String → List String
split_dots String.[] = String.[] ∷ []
split_dots (String.◌∷◌ c s) =
    let rest = split_dots s in if code c == b'.' then String.[] ∷ rest else on_first c rest

-- `scan_int` is what `fmt.Sscanf` leaves in the number, which is 0 where it reads none.
unfoldable pub split_version : (String → ℤ) → String → List ℤ
split_version scan_int v = map scan_int (split_dots (trim_v v))

unfoldable pub version_greater : (String → ℤ) → String → String → Bool
unfolding strings_compare split_version
version_greater scan_int a b =
    if str_eq a b
    then false
    else is_greater (strings_compare (split_version scan_int a) (split_version scan_int b))
