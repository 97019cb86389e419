-- ===== src/Prelude/Texts.antt =====
-- The Go `strings` functions that the program calls, on texts as lists of characters.
use Prim.Native.Nat.{ℕ, ◌+◌, ◌-◌}
use Prim.Native.String.{String}
use Prim.Native.Char.{Char, code}
use mathlib.Core.Bool.{Bool, true, false, ◌||◌, ◌&&◌}
use mathlib.Core.List.{List, [], ◌∷◌}
use newser.Prelude.Tests.{leb, ltb, ◌==◌, if◌then◌else◌}

-- `unicode.IsSpace`.
abbrev pub is_space : ℕ → Bool
is_space c =
    leb 9 c && leb c 13
    || c == 32
    || c == 0x85
    || c == 0xa0
    || c == 0x1680
    || leb 0x2000 c && leb c 0x200a
    || c == 0x2028
    || c == 0x2029
    || c == 0x202f
    || c == 0x205f
    || c == 0x3000

abbrev pub trim_left : String → String
trim_left String.[] = String.[]
trim_left (String.◌∷◌ c s) =
    let rest = trim_left s in if is_space (code c) then rest else String.◌∷◌ c s

abbrev cons_trimmed : Char → String → String
cons_trimmed c String.[] = if is_space (code c) then String.[] else String.◌∷◌ c String.[]
cons_trimmed c (String.◌∷◌ d s) = String.◌∷◌ c (String.◌∷◌ d s)

abbrev pub trim_right : String → String
trim_right String.[] = String.[]
trim_right (String.◌∷◌ c s) = cons_trimmed c (trim_right s)

-- `strings.TrimSpace`.
abbrev pub trim_space : String → String
trim_space s = trim_right (trim_left s)

-- `s == ""`.
abbrev pub is_empty : String → Bool
is_empty String.[] = true
is_empty (String.◌∷◌ c s) = false

-- The bytes of a code point in UTF-8.
abbrev utf8_length : ℕ → ℕ
utf8_length c = if ltb c 0x80 then 1 else if ltb c 0x800 then 2 else if ltb c 0x10000 then 3 else 4

-- `len(s)`.
abbrev pub byte_length : String → ℕ
byte_length String.[] = 0
byte_length (String.◌∷◌ c s) = utf8_length (code c) + byte_length s

-- `s[:n]`, for `n` within the text. Go keeps the first bytes of a code point across which the cut
-- falls; texts here are whole code points, so that one is left out.
abbrev pub byte_prefix : ℕ → String → String
byte_prefix n String.[] = String.[]
byte_prefix n (String.◌∷◌ c s) =
    let rest = byte_prefix (n - utf8_length (code c)) s in
    if leb (utf8_length (code c)) n then String.◌∷◌ c rest else String.[]

-- `s[:strings.IndexRune(s, '\n')]`, or all of the text where it has one line.
abbrev pub first_line : String → String
first_line String.[] = String.[]
first_line (String.◌∷◌ c s) =
    let rest = first_line s in if code c == 10 then String.[] else String.◌∷◌ c rest

abbrev pub append : String → String → String
append String.[] t = t
append (String.◌∷◌ c s) t = String.◌∷◌ c (append s t)

-- `strings.Join`.
abbrev pub join : String → List String → String
join gap [] = String.[]
join gap (s ∷ []) = s
join gap (s ∷ t ∷ more) = append s (append gap (join gap (t ∷ more)))
