-- ===== src/Examples/Pages.antt =====
-- The theorems on pagination at a toy encoding.
use knievel.Base.{
  Text, text, ℤ, pos, negsuc, ℕ, zero, suc, ◌≡◌, refl, Option, none, some, List, [], ◌∷◌,
}
use knievel.Base.Result.{ok}
use knievel.Pagination.{
  CursorState, Codec, Resolved, limit_of, after_of, resolve, encode_cursor, next_cursor,
}
use knievel.Pagination.Cursor.{IsFaithful, Resumes, next_cursor-Resumes}

-- The id with its sign, and the kind.
abbrev numbers_of : ℤ → Text → List ℕ
numbers_of (pos n) kind = 0 ∷ n ∷ kind
numbers_of (negsuc n) kind = 1 ∷ n ∷ kind

abbrev to_numbers : CursorState → List ℕ
to_numbers state = numbers_of state.last_id state.kind

abbrev of_numbers : List ℕ → Option CursorState
of_numbers [] = none
of_numbers (sign ∷ []) = none
of_numbers (zero ∷ n ∷ kind) = some (record { kind = kind; last_id = pos n })
of_numbers (suc sign ∷ n ∷ kind) = some (record { kind = kind; last_id = negsuc n })

abbrev pub toy_codec : Codec
toy_codec = record {
  b64_encode = λ bs. bs;
  b64_decode = λ t. some t;
  to_vec = to_numbers;
  from_slice = of_numbers;
}

of-numbers_of :
    (id : ℤ) (kind : Text)
    → of_numbers (numbers_of id kind) ≡ some (record { kind = kind; last_id = id })
of-numbers_of (pos n) kind = refl
of-numbers_of (negsuc n) kind = refl

pub toy_codec-IsFaithful : IsFaithful toy_codec
toy_codec-IsFaithful = record {
  decode-encode = λ state. refl;
  from-to = λ state. of-numbers_of state.last_id state.kind;
}

abbrev page1 : Resolved
page1 = record { after_id = none; effective_limit = 2; bumped_limit = 3 }

resolved1 : resolve toy_codec (some (pos 2)) none (text "ads") ≡ ok page1
unfolding resolve limit_of after_of
resolved1 = refl

abbrev rows3 : List ℤ
rows3 = pos 9 ∷ pos 8 ∷ pos 7 ∷ []

abbrev cursor1 : Text
cursor1 = 0 ∷ 8 ∷ text "ads"

cursor1-made : next_cursor toy_codec rows3 page1 (text "ads") (λ id. id) ≡ some cursor1
unfolding next_cursor encode_cursor
cursor1-made = refl

next_cursor-Resumes_example :
    Resumes toy_codec rows3 page1 (text "ads") (λ id. id) cursor1 (text "campaigns")
next_cursor-Resumes_example =
    next_cursor-Resumes toy_codec toy_codec-IsFaithful rows3 page1 (text "ads") (λ id. id) cursor1
      (text "campaigns") cursor1-made
