-- ===== src/Examples/Inputs.antt =====
-- A configuration text, a header that lists etags, and a batch under savepoints.
use knievel.Base.{
  if◌then◌else◌, Bool-cases, nat_eq, ◌==◌, int_eq, any, Text, text, text_eq, ℕ, ◌+◌, ◌%◌, ◌≡◌, refl,
  inl, inr, true, false, Option, none, some, List, [], ◌∷◌,
}
use knievel.Base.Result.{Result, ok, err}
use knievel.Config.{interpolate_env, scan, match_at, match_end, span}
use knievel.Config.Templates.{Piece, literal, reference, IsPiece, interpolate_env-print}
use knievel.Etag.{mismatch, check_if_match_value}
use knievel.Etag.Lists.{bare, quoted, IsTag, check_if_match_value-listed}
use knievel.Batch.Savepoints.{Session, run_batch_with_savepoints}
use knievel.Batch.Savepoints.Laws.{Performs, run_batch-IsPerRow}

-- Two variables are set, and the value of one looks like a reference.
abbrev toy_env : Text → Option Text
toy_env name =
    if name == text "HOST"
    then some (text "db")
    else if name == text "ODD"
    then some (text "${HOST}")
    else none

abbrev url_template : List Piece
url_template =
    literal (text "url: ")
    ∷ reference (text "HOST") none
    ∷ literal (text ":")
    ∷ reference (text "PORT") (some (text "5432"))
    ∷ reference (text "ODD") none
    ∷ []

url_is_literal : IsPiece (literal (text "url: "))
url_is_literal = (refl, (refl, (refl, (refl, (refl, tt)))))

host_is_reference : IsPiece (reference (text "HOST") none)
host_is_reference = ((refl, (refl, (refl, (refl, tt)))), tt)

colon_is_literal : IsPiece (literal (text ":"))
colon_is_literal = (refl, tt)

port_is_reference : IsPiece (reference (text "PORT") (some (text "5432")))
port_is_reference = ((refl, (refl, (refl, (refl, tt)))), (refl, (refl, (refl, (refl, tt)))))

odd_is_reference : IsPiece (reference (text "ODD") none)
odd_is_reference = ((refl, (refl, (refl, tt))), tt)

interpolate_env-print_example :
    interpolate_env toy_env (text "url: ${HOST}:${PORT:5432}${ODD}")
    ≡ ok (text "url: db:5432${HOST}")
interpolate_env-print_example = interpolate_env-print toy_env url_template (
  url_is_literal,
  (host_is_reference, (colon_is_literal, (port_is_reference, (odd_is_reference, tt)))),
)

-- What is no reference is left as it is.
no_references : interpolate_env toy_env (text "$HOST ${host} ${A") ≡ ok (text "$HOST ${host} ${A")
unfolding interpolate_env scan match_at match_end span
no_references = refl

ab-IsTag : IsTag (quoted (text "ab"))
ab-IsTag = (refl, ((refl, refl, refl, refl), ((refl, refl, refl, refl), tt)))

cd-IsTag : IsTag (bare (text "cd"))
cd-IsTag = (refl, ((refl, refl, refl, refl), ((refl, refl, refl, refl), tt)))

check_if_match_value-listed_example :
    check_if_match_value (some (text "\"ab\", cd")) (text "ef") ≡ err mismatch
unfolding any
check_if_match_value-listed_example =
    check_if_match_value-listed (text "ef") (quoted (text "ab")) (bare (text "cd") ∷ [])
      (ab-IsTag, (cd-IsTag, tt))

-- A counter to which even numbers are added, and odd numbers are an error that aborts.
abbrev add_even : ℕ → ℕ → ℕ → Result Text (ℕ × ℕ)
add_even s idx row = if row % 2 == 0 then ok (row, s + row) else err (text "odd")

abbrev add_row : Session ℕ → ℕ → ℕ → Result Text ℕ × Session ℕ
add_row tx idx row =
    if row % 2 == 0
    then (ok row, record tx { data_of = tx.data_of + row })
    else (err (text "odd"), record tx { data_of = 99; is_aborted = true })

add_row-Performs : Performs add_even add_row
add_row-Performs tx idx row live = elim (Bool-cases (row % 2 == 0)) [
  | inl t ↦ rw t refl
  | inr f ↦ rw f (refl, refl)
]

run_batch-IsPerRow_example :
    run_batch_with_savepoints
      (λ idx statement. none)
      (text "refused")
      add_row
      (2 ∷ 3 ∷ 4 ∷ [])
      (record { data_of = 10; is_aborted = false; savepoints = [] })
    ≡ (
      ok 2 ∷ err (text "odd") ∷ ok 4 ∷ [],
      record { data_of = 16; is_aborted = false; savepoints = [] },
    )
run_batch-IsPerRow_example =
    run_batch-IsPerRow add_even (text "refused") add_row (2 ∷ 3 ∷ 4 ∷ [])
      (record { data_of = 10; is_aborted = false; savepoints = [] }) add_row-Performs refl
