-- ===== src/Sql.antt =====
-- src/sql.rs: the classes of database errors. `DbError` is what the program reads of an `sqlx::Error`:
-- whether the database sent it, its SQLSTATE, the constraint it names, and the message.
use knievel.Base.{
  eqb, if◌then◌else◌, nat_eq, ◌==◌, int_eq, Text, text, text_eq, Bool, true, false, not, ◌&&◌, ◌||◌,
  Option, none, some, [], ◌∷◌,
}

pub data PgErrorKind : Type 0 where
  unique_violation : Option Text → PgErrorKind
  foreign_key_violation : Option Text → PgErrorKind
  check_violation : Option Text → PgErrorKind
  not_null_violation : PgErrorKind
  other : PgErrorKind

pub record DbError : Type 0 where
  pub is_database_error : Bool
  pub sqlstate : Option Text
  pub constraint_name : Option Text
  pub message : Text

-- `s.starts_with(prefix)`
unfoldable pub starts_with : Text → Text → Bool
starts_with s [] = true
starts_with [] (p ∷ ps) = false
starts_with (c ∷ cs) (p ∷ ps) = eqb c p && starts_with cs ps

-- `s.contains(part)`
unfoldable pub contains_text : Text → Text → Bool
contains_text [] part = starts_with [] part
contains_text (c ∷ cs) part = starts_with (c ∷ cs) part || contains_text cs part

unfoldable pub is_external_id_conflict : PgErrorKind → Bool
is_external_id_conflict (unique_violation (some c)) = contains_text c (text "external_id")
is_external_id_conflict (unique_violation none) = false
is_external_id_conflict (foreign_key_violation c) = false
is_external_id_conflict (check_violation c) = false
is_external_id_conflict not_null_violation = false
is_external_id_conflict other = false

unfoldable pub is_unique_violation : PgErrorKind → Bool
is_unique_violation (unique_violation c) = true
is_unique_violation (foreign_key_violation c) = false
is_unique_violation (check_violation c) = false
is_unique_violation not_null_violation = false
is_unique_violation other = false

unfoldable pub is_fk_violation : PgErrorKind → Bool
is_fk_violation (unique_violation c) = false
is_fk_violation (foreign_key_violation c) = true
is_fk_violation (check_violation c) = false
is_fk_violation not_null_violation = false
is_fk_violation other = false

-- The match on the SQLSTATE.
unfoldable pub kind_of_code : Text → Option Text → PgErrorKind
kind_of_code sqlstate constraint =
    if sqlstate == text "23505"
    then unique_violation constraint
    else if sqlstate == text "23503"
    then foreign_key_violation constraint
    else if sqlstate == text "23514"
    then check_violation constraint
    else if sqlstate == text "23502"
    then not_null_violation
    else other

unfoldable pub classify_pg_error : DbError → PgErrorKind
classify_pg_error e =
    if not e.is_database_error
    then other
    else elim e.sqlstate [ none ↦ other | some c ↦ kind_of_code c e.constraint_name ]

-- The code and the default message of a detail.
abbrev pub BatchDetail : Type 0
BatchDetail = Text × Option Text

unfoldable pub as_batch_detail : PgErrorKind → BatchDetail
as_batch_detail (foreign_key_violation c) =
    (text "fk_not_found", some (text "foreign key reference does not exist"))
as_batch_detail (unique_violation c) =
    (text "unique_violation", some (text "unique constraint violated for this row"))
as_batch_detail (check_violation c) =
    (text "validation_failed", some (text "check constraint violated for this row"))
as_batch_detail not_null_violation =
    (text "validation_failed", some (text "required field is missing"))
as_batch_detail other = (text "validation_failed", none)
