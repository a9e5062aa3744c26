-- ===== src/Batch.antt =====
-- src/batch.rs: the details of a batch, and their codes by the database's message.
pub mod Savepoints
use knievel.Base.{if◌then◌else◌, nat_eq, int_eq, Text, text, text_eq, ℕ, ◌||◌, Option, none, some}
use knievel.Sql.{contains_text, BatchDetail}

pub record BatchErrorDetail : Type 0 where
  pub index : ℕ
  pub field : Option Text
  pub code : Text
  pub message : Text

-- The legacy form, by the message.
unfoldable pub classify_message : Text → BatchDetail
classify_message msg =
    if contains_text msg (text "foreign key")
    then (text "fk_not_found", some (text "foreign key reference does not exist"))
    else if contains_text msg (text "duplicate key") || contains_text msg (text "unique constraint")
    then (text "unique_violation", some (text "unique constraint violated for this row"))
    else (text "validation_failed", none)
