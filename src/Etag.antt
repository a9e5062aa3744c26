-- ===== src/Etag.antt =====
-- src/etag.rs: the `If-Match` precondition. `HeaderValue::to_str` is a parameter; it gives visible
-- ASCII and tabs alone, so that the blanks of `trim` are those of ASCII.
pub mod Lists
use knievel.Base.{
  leb, eqb, if◌then◌else◌, nat_eq, ◌==◌, int_eq, any, is_empty, Text, text, text_eq, ℕ, ◌*◌, Bool,
  ◌&&◌, ◌||◌, Option, none, some, List, [], ◌∷◌,
}
use knievel.Base.Result.{Result, ok, err}

pub data IfMatchError : Type 0 where
  mismatch : IfMatchError

abbrev pub is_blank : ℕ → Bool
is_blank c = eqb c 32 || (leb 9 c && leb c 13)

unfoldable pub trim_start_by : (ℕ → Bool) → Text → Text
trim_start_by test [] = []
trim_start_by test (c ∷ cs) = let rest = trim_start_by test cs in if test c then rest else c ∷ cs

unfoldable pub trim_end_by : (ℕ → Bool) → Text → Text
trim_end_by test [] = []
trim_end_by test (c ∷ cs) =
    let rest = trim_end_by test cs in if is_empty rest && test c then [] else c ∷ rest

-- `.trim()`, and `.trim_matches('"')`
abbrev pub trim_by : (ℕ → Bool) → Text → Text
trim_by test s = trim_end_by test (trim_start_by test s)

abbrev pub put_in_first : ℕ → List Text → List Text
put_in_first c [] = (c ∷ []) ∷ []
put_in_first c (s ∷ ss) = (c ∷ s) ∷ ss

-- `.split(separator)`
unfoldable pub split : ℕ → Text → List Text
split separator [] = [] ∷ []
split separator (c ∷ cs) =
    let pieces = split separator cs in
    if eqb c separator then [] ∷ pieces else put_in_first c pieces

abbrev pub is_quote : ℕ → Bool
is_quote c = eqb c 34

abbrev pub tag_is : Text → Text → Bool
tag_is current_etag tag = trim_by is_quote (trim_by is_blank tag) == current_etag

unfoldable pub check_if_match_value : Option Text → Text → Result IfMatchError Unit
check_if_match_value none current_etag = ok tt
check_if_match_value (some value) current_etag =
    let trimmed = trim_by is_blank value in
    if is_empty trimmed
    then ok tt
    else if trimmed == text "*"
    then ok tt
    else if any (tag_is current_etag) (split 44 trimmed)
    then ok tt
    else err mismatch

-- The header's raw value, where there is one.
unfoldable pub check_if_match :
    (List ℕ → Option Text) → Option (List ℕ) → Text → Result IfMatchError Unit
check_if_match to_str none current_etag = ok tt
check_if_match to_str (some raw) current_etag = elim (to_str raw) [
  | none ↦ err mismatch
  | some value ↦ check_if_match_value (some value) current_etag
]
