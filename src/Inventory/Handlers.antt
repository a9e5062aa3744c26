-- ===== src/Inventory/Handlers.antt =====
-- The handlers that src/sites.rs, src/zones.rs, src/advertisers.rs, src/campaigns.rs, src/flights.rs
-- and src/ads.rs write alike: create, list, get, update and batch upsert on the rows of one table. A
-- `Resource` says what differs. A handler takes the table's rows and gives the rows that are
-- committed, and its response; a transaction that is dropped or does not commit leaves the rows. The
-- texts of the messages are left out.
pub mod Writes
pub mod Isolation
pub mod Update
pub mod Batches
pub mod Walk
use mathlib.Core.Option
use knievel.Base.{
  if◌then◌else◌, nat_eq, ◌==◌, ℤ, int_eq, length, take, Text, text, text_eq, ℕ, ◌+◌, Bool, ◌&&◌,
  Option, none, some, List, [], ◌∷◌,
}
use knievel.Base.Result.{Result}
use knievel.Auth.{Principal, Role}
use knievel.Auth.Tenancy.{AuthzError, Tx}
use knievel.Sql.{DbError, PgErrorKind, classify_pg_error}
use knievel.Batch.{BatchErrorDetail, classify_message}
use knievel.Pagination.{Codec, PaginationError, Resolved, resolve, next_cursor}
use knievel.Inventory.{
  Entity, Row, Env, OpenError, open_tx, select_one, select_page, insert_row, upsert_row,
  update_rows,
}

pub data InternalError : Type 0 where
  no_db db_error : InternalError

pub data CreateResp (C : Type 0) : Type 0 where
  created : Entity C → CreateResp C
  forbidden : AuthzError → CreateResp C
  conflict : CreateResp C
  unprocessable : CreateResp C
  internal : InternalError → CreateResp C

pub record Page (C : Type 0) : Type 0 where
  pub items : List (Entity C)
  pub next_page : Option Text

pub data ListResp (C : Type 0) : Type 0 where
  ok : Page C → ListResp C
  bad_request : PaginationError → ListResp C
  forbidden : AuthzError → ListResp C
  internal : InternalError → ListResp C

pub data GetResp (C : Type 0) : Type 0 where
  ok : Entity C → GetResp C
  forbidden : AuthzError → GetResp C
  not_found : GetResp C
  internal : InternalError → GetResp C

pub data UpdateResp (C : Type 0) : Type 0 where
  ok : Entity C → UpdateResp C
  forbidden : AuthzError → UpdateResp C
  not_found : UpdateResp C
  internal : InternalError → UpdateResp C

-- `partial_failure` carries the number of rows of the request and the details.
pub data BatchResp (C : Type 0) : Type 0 where
  ok : List (Entity C) → BatchResp C
  forbidden : AuthzError → BatchResp C
  partial_failure : ℕ → List BatchErrorDetail → BatchResp C
  internal : InternalError → BatchResp C

-- A table with columns `C`, and the bodies of its requests. The constraints may read other tables, as
-- they stand.
pub record Resource (C New Patch Item : Type 0) : Type 0 where
  pub cursor_kind : Text
  pub violation : List (Row C) → Row C → Option DbError
  pub id_of_new : New → Option Text
  pub columns_of_new : New → C
  pub insert_failed : PgErrorKind → CreateResp C
  pub patched : Patch → C → C
  -- The constraints that an `UPDATE` may break hold of the columns. A broken one and a failed commit
  -- are answered alike.
  pub update_holds : C → Bool
  pub id_of_item : Item → Text
  pub columns_of_item : Item → C
  -- The columns of the row that is there, by those proposed.
  pub excluded : C → C → C
  pub field_of : Text → Option Text

module _ {R : Type 0} (forbidden : AuthzError → R) (internal : InternalError → R) where
  abbrev pub stopped : OpenError → R
  stopped (OpenError.denied e) = forbidden e
  stopped OpenError.no_pool = internal no_db

abbrev pub has_id : {C : Type 0} → ℤ → Entity C → Bool
has_id id e = e.id == id

module _ {C : Type 0} (env : Env) (principal : Principal) (project : Text) where
  -- The row that an `INSERT` writes as the handler's n-th statement.
  abbrev pub new_row : ℕ → Option Text → C → Row C
  new_row n external_id columns = record {
    org_id = principal.org_id;
    project_id = project;
    entity = record {
      id = env.fresh_id n;
      external_id = external_id;
      columns = columns;
      etag = env.fresh_etag n;
      created_at = env.now;
      updated_at = env.now;
    };
  }

module _ {C New Patch Item : Type 0} (r : Resource C New Patch Item) (env : Env)
    (principal : Principal) (project : Text) where
  -- `INSERT ... RETURNING`, as statement `n`.
  unfoldable pub insert_one : ℕ → Tx → Row C → List (Row C) → Result DbError (List (Row C))
  insert_one n tx row rows = elim (env.answers n) [
    | some e ↦ Result.err e
    | none ↦ insert_row r.violation tx row rows
  ]

  abbrev pub row_of_create : New → Row C
  row_of_create req = new_row env principal project 0 (r.id_of_new req) (r.columns_of_new req)

  unfoldable pub create : New → List (Row C) → List (Row C) × CreateResp C
  create req rows = elim (open_tx env principal project Role.editor) [
    | Result.err e ↦ (rows, stopped CreateResp.forbidden CreateResp.internal e)
    | Result.ok tx ↦ elim (insert_one 0 tx (row_of_create req) rows) [
      | Result.err e ↦ (rows, r.insert_failed (classify_pg_error e))
      | Result.ok written ↦
          if env.commits
          then (written, CreateResp.created (row_of_create req).entity)
          else (rows, CreateResp.internal db_error)
    ]
  ]

  abbrev pub page_of : Codec → Resolved → List (Entity C) → Page C
  page_of codec resolved rows = record {
    items = take resolved.effective_limit rows;
    next_page = next_cursor codec rows resolved r.cursor_kind Entity.id;
  }

  unfoldable pub list : Codec → Option ℤ → Option Text → List (Row C) → ListResp C
  list codec limit cursor rows = elim (resolve codec limit cursor r.cursor_kind) [
    | Result.err e ↦ ListResp.bad_request e
    | Result.ok resolved ↦ elim (open_tx env principal project Role.reader) [
      | Result.err e ↦ stopped ListResp.forbidden ListResp.internal e
      | Result.ok tx ↦ elim (env.answers 0) [
        | some e ↦ ListResp.internal db_error
        | none ↦
            ListResp.ok
              (page_of codec resolved (select_page tx resolved.after_id resolved.bumped_limit rows))
      ]
    ]
  ]

  unfoldable pub get : ℤ → List (Row C) → GetResp C
  get id rows = elim (open_tx env principal project Role.reader) [
    | Result.err e ↦ stopped GetResp.forbidden GetResp.internal e
    | Result.ok tx ↦ elim (env.answers 0) [
      | some e ↦ GetResp.internal db_error
      | none ↦ elim (select_one tx (has_id id) rows) [
        | some entity ↦ GetResp.ok entity
        | none ↦ GetResp.not_found
      ]
    ]
  ]

  abbrev pub coalesced : Patch → Entity C → Entity C
  coalesced req e = record e {
    columns = r.patched req e.columns;
    etag = env.fresh_etag 0;
    updated_at = env.now;
  }

  unfoldable pub update : ℤ → Patch → List (Row C) → List (Row C) × UpdateResp C
  update id req rows = elim (open_tx env principal project Role.editor) [
    | Result.err e ↦ (rows, stopped UpdateResp.forbidden UpdateResp.internal e)
    | Result.ok tx ↦ elim (env.answers 0) [
      | some e ↦ (rows, UpdateResp.internal db_error)
      | none ↦ elim (select_one tx (has_id id) rows) [
        | none ↦ (rows, UpdateResp.not_found)
        | some entity ↦
            if r.update_holds (r.patched req entity.columns) && env.commits
            then (update_rows tx id (coalesced req) rows, UpdateResp.ok (coalesced req entity))
            else (rows, UpdateResp.internal db_error)
      ]
    ]
  ]

  abbrev pub row_of_batch : ℕ → Item → Row C
  row_of_batch n item =
      new_row env principal project n (some (r.id_of_item item)) (r.columns_of_item item)

  -- `DO UPDATE SET`, of the row that is there by the proposed one.
  abbrev pub merged : ℕ → Row C → Row C → Row C
  merged n old new = record old {
    entity = record {
      id = old.entity.id;
      external_id = old.entity.external_id;
      columns = r.excluded old.entity.columns new.entity.columns;
      etag = env.fresh_etag n;
      created_at = old.entity.created_at;
      updated_at = env.now;
    };
  }

  unfoldable pub upsert_one : ℕ → Tx → Item → List (Row C) → Result DbError (Row C × List (Row C))
  upsert_one n tx item rows = elim (env.answers n) [
    | some e ↦ Result.err e
    | none ↦ upsert_row r.violation (merged n) tx (row_of_batch n item) rows
  ]

  abbrev pub detail_of : ℕ → DbError → BatchErrorDetail
  detail_of n e =
      let (detail_code, detail_message) = classify_message e.message in
      record {
        index = n;
        field = r.field_of detail_code;
        code = detail_code;
        message = Option.get_or detail_message (text "row failed validation");
      }

  -- The loop, from row `n` on: what is answered in order and the rows, or the detail at which it
  -- breaks.
  unfoldable pub upsert_all :
      ℕ → Tx → List Item → List (Row C) → Result BatchErrorDetail (List (Entity C) × List (Row C))
  upsert_all n tx [] rows = Result.ok ([], rows)
  upsert_all n tx (item ∷ items) rows = elim (upsert_one n tx item rows) [
    | Result.err e ↦ Result.err (detail_of n e)
    | Result.ok (written, rows') ↦ elim (upsert_all (n + 1) tx items rows') [
      | Result.err d ↦ Result.err d
      | Result.ok (out, rows'') ↦ Result.ok (written.entity ∷ out, rows'')
    ]
  ]

  unfoldable pub batch_upsert : List Item → List (Row C) → List (Row C) × BatchResp C
  batch_upsert items rows = elim (open_tx env principal project Role.editor) [
    | Result.err e ↦ (rows, stopped BatchResp.forbidden BatchResp.internal e)
    | Result.ok tx ↦ elim (upsert_all 0 tx items rows) [
      | Result.err detail ↦ (rows, BatchResp.partial_failure (length items) (detail ∷ []))
      | Result.ok (out, written) ↦
          if env.commits then (written, BatchResp.ok out) else (rows, BatchResp.internal db_error)
    ]
  ]
