-- ===== src/Overrides/Escapes.antt =====
-- The RFC 6901 escapes that pkg/overrides/jsonpointer.go undoes.
use Prim.Native.Char.{Char, code}
use text.Mathlib.TextEquality.{Char-path}
use virt_platform_autopilot.Prelude.{
  ℕ, String, true, false, ◌≡◌, refl, sym, ap, ◌∙◌, Bool-cases, inl, inr, eqb, arith, if◌then◌else◌,
}
use virt_platform_autopilot.Prelude.Text.{replace_pair}
use virt_platform_autopilot.Overrides.Pointer.{unescape}

-- A "~" as "~0".
pub escape_tilde : String → String
escape_tilde String.[] = String.[]
escape_tilde (String.◌∷◌ c s) =
    let rest = escape_tilde s in
    if eqb (code c) b'~' then String.◌∷◌ "~" (String.◌∷◌ "0" rest) else String.◌∷◌ c rest

-- A name as a segment of a pointer: "~" as "~0" and "/" as "~1".
pub escape : String → String
escape String.[] = String.[]
escape (String.◌∷◌ c s) =
    let rest = escape s in
    if eqb (code c) b'~'
    then String.◌∷◌ "~" (String.◌∷◌ "0" rest)
    else if eqb (code c) b'/'
    then String.◌∷◌ "~" (String.◌∷◌ "1" rest)
    else String.◌∷◌ c rest

-- A character that does not begin the pair stays.
replace_pair_skip :
    (a b : ℕ) (new c : Char) (s : String)
    → eqb (code c) a ≡ false
    → replace_pair a b new (String.◌∷◌ c s) ≡ String.◌∷◌ c (replace_pair a b new s)
unfolding replace_pair
replace_pair_skip a b new c String.[] e = refl
replace_pair_skip a b new c (String.◌∷◌ d s) e = rw e refl

same_code : (c d : Char) → eqb (code c) (code d) ≡ true → c ≡ d
same_code c d e = Char-path c d (ground arith)

slashes : (s : String) → replace_pair b'~' b'1' "/" (escape s) ≡ escape_tilde s
unfolding escape escape_tilde replace_pair
slashes String.[] = refl
slashes (String.◌∷◌ c s) = elim (Bool-cases (eqb (code c) b'~')) [
  | inl t ↦ rw t (
      ap (String.◌∷◌ "~")
        (replace_pair_skip b'~' b'1' "/" "0" (escape s) refl ∙ ap (String.◌∷◌ "0") (slashes s)))
  | inr t ↦ elim (Bool-cases (eqb (code c) b'/')) [
    | inl p ↦
        rw (t, p)
          (ap (λ (d : Char). String.◌∷◌ d (replace_pair b'~' b'1' "/" (escape s)))
              (sym (same_code c "/" p))
            ∙ ap (String.◌∷◌ c) (slashes s))
    | inr p ↦
        rw (t, p) (replace_pair_skip b'~' b'1' "/" c (escape s) t ∙ ap (String.◌∷◌ c) (slashes s))
  ]
]

tildes : (s : String) → replace_pair b'~' b'0' "~" (escape_tilde s) ≡ s
unfolding escape_tilde replace_pair
tildes String.[] = refl
tildes (String.◌∷◌ c s) = elim (Bool-cases (eqb (code c) b'~')) [
  | inl t ↦ rw t (
      ap (λ (d : Char). String.◌∷◌ d (replace_pair b'~' b'0' "~" (escape_tilde s)))
        (sym (same_code c "~" t))
      ∙ ap (String.◌∷◌ c) (tildes s))
  | inr t ↦
      rw t (replace_pair_skip b'~' b'0' "~" c (escape_tilde s) t ∙ ap (String.◌∷◌ c) (tildes s))
]

-- Undoing the escapes of a pointer's segment gives back the name that RFC 6901 escapes to it, for
-- every name.
pub unescape-escape : (s : String) → unescape (escape s) ≡ s
unfolding unescape
unescape-escape s = ap (replace_pair b'~' b'0' "~") (slashes s) ∙ tildes s
