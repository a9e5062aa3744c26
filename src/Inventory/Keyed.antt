-- ===== src/Inventory/Keyed.antt =====
-- The constraints of migrations/0006_demand.sql and migrations/0007_inventory.sql that several tables
-- share, and how src/zones.rs, src/campaigns.rs and src/ads.rs answer an insert that breaks one.
use knievel.Base.{
  if◌then◌else◌, nat_eq, ◌==◌, ℤ, int_eq, any, Text, text, text_eq, Option, none, some, List,
}
use knievel.Sql.{DbError, PgErrorKind, is_external_id_conflict, is_fk_violation}
use knievel.Inventory.{Row, violated, conflicts_with}
use knievel.Inventory.Handlers.{CreateResp, db_error}

-- `UNIQUE (project_id, external_id)`
unfoldable pub unique_external_id : {C : Type 0} → Text → List (Row C) → Row C → Option DbError
unique_external_id constraint rows row =
    if any (conflicts_with row) rows
    then some
        (violated (text "23505") constraint (text "duplicate key value violates unique constraint"))
    else none

-- `REFERENCES table(id)`: a row of any project will do, since the check of a foreign key is not under
-- the policy.
unfoldable pub references : {D : Type 0} → Text → List (Row D) → ℤ → Option DbError
references constraint table id =
    if any (λ row. row.entity.id == id) table
    then none
    else some (
        violated (text "23503") constraint
          (text "insert or update on table violates foreign key constraint"))

-- `first`, else `second`.
abbrev pub or_else : Option DbError → Option DbError → Option DbError
or_else none second = second
or_else (some e) second = some e

abbrev pub insert_failed_with_fk : {C : Type 0} → PgErrorKind → CreateResp C
insert_failed_with_fk kind =
    if is_external_id_conflict kind
    then CreateResp.conflict
    else if is_fk_violation kind
    then CreateResp.unprocessable
    else CreateResp.internal db_error

-- The field of a batch detail.
abbrev pub fk_field : Text → Text → Option Text
fk_field name code = if code == text "fk_not_found" then some name else none
