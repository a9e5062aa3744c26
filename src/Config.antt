-- ===== src/Config.antt =====
-- src/config.rs: `interpolate_env`, which puts the environment's values into the text of the
-- configuration file before it is parsed. The pattern of the regular expression is written out: a
-- name is as long as it can be, since neither `:` nor `}` is of a name. Texts are their bytes.
pub mod Templates
use knievel.Base.{
  leb, eqb, if◌then◌else◌, nat_eq, int_eq, length, is_empty, Text, text_eq, ℕ, zero, suc, ◌+◌, ◌-◌,
  Bool, not, ◌&&◌, ◌||◌, Option, none, some, List, [], ◌∷◌, ◌++◌,
}
use knievel.Base.Result.{Result, ok, err}

-- The longest front whose elements pass the test, and what follows it.
unfoldable pub span {ℓ} : {A : Type ℓ} → (A → Bool) → List A → List A × List A
span test [] = ([], [])
span test (x ∷ xs) =
    let (front, rest) = span test xs in if test x then (x ∷ front, rest) else ([], x ∷ xs)

-- `[A-Z_]`
abbrev pub is_name_start : ℕ → Bool
is_name_start c = (leb 65 c && leb c 90) || eqb c 95

-- `[A-Z0-9_]`
abbrev pub is_name_char : ℕ → Bool
is_name_char c = is_name_start c || (leb 48 c && leb c 57)

-- `[^}]`
abbrev pub is_default_char : ℕ → Bool
is_default_char c = not (eqb c 125)

-- The captures, and how many bytes were matched.
pub record Match : Type 0 where
  pub var : Text
  pub default : Option Text
  pub size : ℕ

-- `(?::([^}]*))?\}` behind a name.
unfoldable pub match_end : Text → Text → Option Match
match_end var [] = none
match_end var (c ∷ cs) =
    if eqb c 125
    then some (record { var = var; default = none; size = length var + 3 })
    else if eqb c 58
    then (let (default, rest) = span is_default_char cs in
        if is_empty rest
        then none
        else some
            (record { var = var; default = some default; size = length var + length default + 4 }))
    else none

-- Whether the pattern matches at the beginning of the text.
unfoldable pub match_at : Text → Option Match
match_at (d ∷ b ∷ c ∷ cs) =
    let (name, rest) = span is_name_char cs in
    if eqb d 36 && eqb b 123 && is_name_start c then match_end (c ∷ name) rest else none
match_at _ = none

-- What a match puts out, and the variable that is left without a value.
unfoldable pub resolved : (Text → Option Text) → Match → Text × List Text
resolved env m = elim (env m.var) [
  | some v ↦ (v, [])
  | none ↦ elim m.default [ some d ↦ (d, []) | none ↦ ([], m.var ∷ []) ]
]

abbrev pub put_front : Text × List Text → Text × List Text → Text × List Text
put_front (out, errors) (out', errors') = (out ++ out', errors ++ errors')

-- The loop over the matches, with as many bytes to pass over as are left of the last one.
unfoldable pub scan : (Text → Option Text) → ℕ → Text → Text × List Text
scan env k [] = ([], [])
scan env (suc k) (c ∷ cs) = scan env k cs
scan env zero (c ∷ cs) = elim (match_at (c ∷ cs)) [
  | none ↦ put_front (c ∷ [], []) (scan env zero cs)
  | some m ↦ put_front (resolved env m) (scan env (m.size - 1) cs)
]

-- An error has the names that are not resolved.
unfoldable pub interpolate_env : (Text → Option Text) → Text → Result (List Text) Text
interpolate_env env input =
    let (out, errors) = scan env 0 input in if is_empty errors then ok out else err errors
