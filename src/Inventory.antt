-- ===== src/Inventory.antt =====
-- The project-scoped tables of migrations/0007_inventory.sql, and the statements that the handlers of
-- src/sites.rs, src/zones.rs and their like run on them in a transaction of `open_project_tx`.
-- `C` is a resource's own columns. The database is a parameter where the program only calls it: the
-- ids of the sequence, the etags (`gen_random_bytes`), the clock, which statements it answers
-- and whether it commits. The time of a row is in microseconds, its text form is left out.
use mathlib.Core.Option
use knievel.Base.{
  if◌then◌else◌, nat_eq, ◌==◌, ℤ, ltb_ℤ, int_eq, take, filter, find, Text, text, text_eq, ℕ, Bool,
  true, false, not, ◌&&◌, Option, none, some, List, [], ◌∷◌, map,
}
pub mod Rows
pub mod Keyed
pub mod External
pub mod Handlers
pub mod Order
pub mod Pages
use knievel.Base.Result.{Result, ok, err}
use knievel.Sql.{DbError}
use knievel.Auth.{Principal, Role}
use knievel.Auth.Tenancy.{AuthzError, Database, Tx, open_project_tx}

-- What a handler returns of a row.
pub record Entity (C : Type 0) : Type 0 where
  pub id : ℤ
  pub external_id : Option Text
  pub columns : C
  pub etag : Text
  pub created_at : ℤ
  pub updated_at : ℤ

pub record Row (C : Type 0) : Type 0 where
  pub org_id : Text
  pub project_id : Text
  pub entity : Entity C

-- Around one call of a handler. `answers i` is the error of its i-th statement, if it fails for a
-- reason outside the tables.
pub record Env : Type 0 where
  pub db : Option Database
  pub answers : ℕ → Option DbError
  pub commits : Bool
  pub now : ℤ
  pub fresh_id : ℕ → ℤ
  pub fresh_etag : ℕ → Text

-- A violation of a constraint of a table, as the database reports it.
abbrev pub violated : Text → Text → Text → DbError
violated sqlstate constraint message = record {
  is_database_error = true;
  sqlstate = some sqlstate;
  constraint_name = some constraint;
  message = message;
}

-- Row-level security refuses the row.
abbrev pub refused : DbError
refused = record {
  is_database_error = true;
  sqlstate = some (text "42501");
  constraint_name = none;
  message = text "new row violates row-level security policy";
}

-- Why a handler ends before its first statement: no pool is configured, or `open_project_tx` refuses.
pub data OpenError : Type 0 where
  no_pool : OpenError
  denied : AuthzError → OpenError

-- How every handler begins.
unfoldable pub open_tx : Env → Principal → Text → Role → Result OpenError Tx
open_tx env principal project least = elim env.db [
  | none ↦ err no_pool
  | some pool ↦ elim (open_project_tx pool principal project least) [
    | err e ↦ err (denied e)
    | ok tx ↦ ok tx
  ]
]

module _ {C : Type 0} where
  -- `project_id = current_setting('knievel.project_id', true)`
  unfoldable pub policy : Tx → Row C → Bool
  policy tx row = elim tx.project_id [ none ↦ false | some p ↦ row.project_id == p ]

  -- `SELECT ... WHERE test`, under the policy.
  unfoldable pub select_one : Tx → (Entity C → Bool) → List (Row C) → Option (Entity C)
  select_one tx test rows =
      Option.map Row.entity (find (λ (row : Row C). policy tx row && test row.entity) rows)

  -- `ORDER BY id DESC`
  unfoldable pub insert_desc : Entity C → List (Entity C) → List (Entity C)
  insert_desc e [] = e ∷ []
  insert_desc e (x ∷ xs) =
      let rest = insert_desc e xs in if ltb_ℤ e.id x.id then x ∷ rest else e ∷ x ∷ xs

  unfoldable pub sort_desc : List (Entity C) → List (Entity C)
  sort_desc [] = []
  sort_desc (x ∷ xs) = insert_desc x (sort_desc xs)

  -- `WHERE id < after`
  unfoldable pub is_after : Option ℤ → Entity C → Bool
  is_after none e = true
  is_after (some after) e = ltb_ℤ e.id after

  -- The rows that the policy shows, newest first.
  unfoldable pub select_all : Tx → List (Row C) → List (Entity C)
  select_all tx rows = sort_desc (map Row.entity (filter (policy tx) rows))

  -- `SELECT ... [WHERE id < after] ORDER BY id DESC LIMIT limit`
  unfoldable pub select_page : Tx → Option ℤ → ℕ → List (Row C) → List (Entity C)
  select_page tx after limit rows = take limit (filter (is_after after) (select_all tx rows))

  -- `ON CONFLICT (project_id, external_id) DO UPDATE`: an absent id conflicts with none.
  unfoldable pub conflicts_with : Row C → Row C → Bool
  conflicts_with new old = (old.project_id == new.project_id) && elim new.entity.external_id [
    | none ↦ false
    | some x ↦ elim old.entity.external_id [ none ↦ false | some y ↦ x == y ]
  ]

  -- The rows that the update leaves.
  unfoldable pub without : Row C → List (Row C) → List (Row C)
  without new rows = filter (λ (old : Row C). not (conflicts_with new old)) rows

  -- `violation rows row` is the constraint that the row breaks beside the others.
  module _ (violation : List (Row C) → Row C → Option DbError) where
    unfoldable pub insert_row : Tx → Row C → List (Row C) → Result DbError (List (Row C))
    insert_row tx row rows =
        if not (policy tx row)
        then err refused
        else elim (violation rows row) [ some e ↦ err e | none ↦ ok (row ∷ rows) ]

    -- The row that is written, and the rows with it.
    unfoldable pub upsert_row :
        (Row C → Row C → Row C) → Tx → Row C → List (Row C) → Result DbError (Row C × List (Row C))
    upsert_row merge tx row rows =
        if not (policy tx row) then err refused else elim (find (conflicts_with row) rows) [
          | none ↦ elim (violation rows row) [ some e ↦ err e | none ↦ ok (row, row ∷ rows) ]
          | some old ↦
              let new = merge old row in
              let others = without row rows in
              elim (violation others new) [ some e ↦ err e | none ↦ ok (new, new ∷ others) ]
        ]

  -- `UPDATE ... WHERE id = $1`, of columns that no constraint reads.
  unfoldable pub update_rows : Tx → ℤ → (Entity C → Entity C) → List (Row C) → List (Row C)
  update_rows tx id change [] = []
  update_rows tx id change (row ∷ rows) =
      let rest = update_rows tx id change rows in
      if policy tx row && (row.entity.id == id)
      then record row { entity = change row.entity } ∷ rest
      else row ∷ rest
