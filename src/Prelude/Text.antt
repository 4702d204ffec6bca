-- ===== src/Prelude/Text.antt =====
-- The functions of Go's `strings` that the program calls, over the characters of a text.
use Prim.Native.Nat.{ℕ}
use Prim.Native.Char.{Char, code}
use Prim.Native.String.{String}
use mathlib.Core.Bool.{Bool, ◌&&◌, ◌||◌}
use mathlib.Core.List.{List, [], ◌∷◌}
use mathlib.Core.Option.{Option, none, some}
use text.Mathlib.Text.{◌==◌}
use virt_platform_autopilot.Prelude.Tests.{leb, eqb, if◌then◌else◌}

-- `unicode.IsSpace`
unfoldable pub is_space : ℕ → Bool
is_space c =
    (leb 9 c && leb c 13)
    || eqb c 32
    || eqb c 0x85
    || eqb c 0xa0
    || eqb c 0x1680
    || (leb 0x2000 c && leb c 0x200a)
    || eqb c 0x2028
    || eqb c 0x2029
    || eqb c 0x202f
    || eqb c 0x205f
    || eqb c 0x3000

unfoldable pub trim_left : String → String
trim_left String.[] = String.[]
trim_left (String.◌∷◌ c s) =
    let rest = trim_left s in if is_space (code c) then rest else String.◌∷◌ c s

unfoldable pub trim_right : String → String
trim_right String.[] = String.[]
trim_right (String.◌∷◌ c s) =
    let rest = trim_right s in
    if is_space (code c) && rest == "" then String.[] else String.◌∷◌ c rest

-- `strings.TrimSpace`
unfoldable pub trim_space : String → String
unfolding trim_left trim_right is_space
trim_space s = trim_right (trim_left s)

abbrev add_first : Char → List String → List String
add_first c [] = String.◌∷◌ c String.[] ∷ []
add_first c (s ∷ ss) = String.◌∷◌ c s ∷ ss

-- `strings.Split` at one character, given by its code.
unfoldable pub split : ℕ → String → List String
split sep String.[] = String.[] ∷ []
split sep (String.◌∷◌ c s) =
    let rest = split sep s in if eqb (code c) sep then String.[] ∷ rest else add_first c rest

abbrev with_first : Char → Option (String × String) → Option (String × String)
with_first c none = none
with_first c (some (before, after)) = some (String.◌∷◌ c before, after)

-- `strings.SplitN(s, sep, 2)` where it gives two parts.
unfoldable pub cut : ℕ → String → Option (String × String)
cut sep String.[] = none
cut sep (String.◌∷◌ c s) =
    let rest = cut sep s in if eqb (code c) sep then some (String.[], s) else with_first c rest

-- The rest of a text behind its first character.
abbrev pub tail : String → String
tail String.[] = String.[]
tail (String.◌∷◌ c s) = s

-- `strings.ReplaceAll` of the two characters `a b` by the text `new`'s one character.
unfoldable pub replace_pair : ℕ → ℕ → Char → String → String
replace_pair a b new String.[] = String.[]
replace_pair a b new (String.◌∷◌ c String.[]) = String.◌∷◌ c String.[]
replace_pair a b new (String.◌∷◌ c (String.◌∷◌ d s)) =
    let after = String.◌∷◌ new (replace_pair a b new s) in
    let onward = String.◌∷◌ c (replace_pair a b new (String.◌∷◌ d s)) in
    if eqb (code c) a && eqb (code d) b then after else onward
