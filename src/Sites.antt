-- ===== src/Sites.antt =====
-- src/sites.rs: the sites of a project, an instance of the handlers of Inventory.Handlers, and the
-- upsert by URL.
pub mod Writes
pub mod Keys
pub mod Urls
use mathlib.Core.Option
use knievel.Base.{
  if◌then◌else◌, nat_eq, ◌==◌, ℤ, int_eq, any, Text, text, text_eq, Bool, true, ◌&&◌, Option, none,
  some, List, [],
}
use knievel.Base.Result.{Result}
use knievel.Auth.{Principal, Role}
use knievel.Auth.Tenancy.{AuthzError}
use knievel.Pagination.{Codec}
use knievel.Sql.{DbError, PgErrorKind, is_unique_violation}
use knievel.Inventory.{Entity, Row, Env, open_tx, violated, select_one, conflicts_with}
use knievel.Inventory.Handlers.{
  Resource, CreateResp, InternalError, db_error, new_row, insert_one, stopped, ListResp, GetResp,
  UpdateResp, BatchResp, create, list, get, update, batch_upsert,
}

-- The columns of `knievel.sites` beside those of every resource.
pub record SiteColumns : Type 0 where
  pub channel_id : Option ℤ
  pub name : Text
  pub url : Text
  pub aliases : List Text
  pub is_active : Bool

abbrev pub Site : Type 0
Site = Entity SiteColumns

abbrev pub Sites : Type 0
Sites = List (Row SiteColumns)

pub record CreateSiteRequest : Type 0 where
  pub external_id : Option Text
  pub channel_id : Option ℤ
  pub name : Text
  pub url : Text
  pub aliases : Option (List Text)
  pub is_active : Option Bool

pub record UpsertSiteByUrlRequest : Type 0 where
  pub url : Text
  pub name : Text
  pub aliases : Option (List Text)
  pub channel_id : Option ℤ

pub record UpdateSiteRequest : Type 0 where
  pub name : Option Text
  pub aliases : Option (List Text)
  pub channel_id : Option ℤ
  pub is_active : Option Bool

pub record BatchUpsertSiteRow : Type 0 where
  pub external_id : Text
  pub channel_id : Option ℤ
  pub name : Text
  pub url : Text
  pub aliases : Option (List Text)
  pub is_active : Option Bool

pub data UpsertResp : Type 0 where
  existing : Site → UpsertResp
  created : Site → UpsertResp
  forbidden : AuthzError → UpsertResp
  internal : InternalError → UpsertResp

abbrev pub site_columns : Option ℤ → Text → Text → Option (List Text) → Option Bool → SiteColumns
site_columns channel_id name url aliases is_active = record {
  channel_id = channel_id;
  name = name;
  url = url;
  aliases = Option.get_or aliases [];
  is_active = Option.get_or is_active true;
}

-- `UNIQUE (project_id, url)`
abbrev pub shares_url : Row SiteColumns → Row SiteColumns → Bool
shares_url new old =
    (old.project_id == new.project_id) && (old.entity.columns.url == new.entity.columns.url)

-- The unique constraints of the table, in the order in which it declares them.
unfoldable pub violation : Sites → Row SiteColumns → Option DbError
violation rows row =
    if any (conflicts_with row) rows
    then some (
        violated (text "23505") (text "sites_project_id_external_id_key")
          (text "duplicate key value violates unique constraint"))
    else if any (shares_url row) rows
    then some (
        violated (text "23505") (text "sites_project_id_url_key")
          (text "duplicate key value violates unique constraint"))
    else none

-- The kind of a failed insert: both unique keys are answered alike.
abbrev pub site_insert_failed : PgErrorKind → CreateResp SiteColumns
site_insert_failed kind =
    if is_unique_violation kind then CreateResp.conflict else CreateResp.internal db_error

-- `SET name = COALESCE($2, name), ...`: an absent field is left.
abbrev pub patched_site : UpdateSiteRequest → SiteColumns → SiteColumns
patched_site req c = record {
  channel_id = elim req.channel_id [ none ↦ c.channel_id | some i ↦ some i ];
  name = Option.get_or req.name c.name;
  url = c.url;
  aliases = Option.get_or req.aliases c.aliases;
  is_active = Option.get_or req.is_active c.is_active;
}

-- All columns are those of the proposed row. `EXCLUDED.is_active` is never NULL, since the `VALUES`
-- list has put `true` for an absent one.
abbrev pub sites : Resource SiteColumns CreateSiteRequest UpdateSiteRequest BatchUpsertSiteRow
sites = record {
  cursor_kind = text "sites";
  violation = violation;
  id_of_new = CreateSiteRequest.external_id;
  columns_of_new = λ req. site_columns req.channel_id req.name req.url req.aliases req.is_active;
  insert_failed = site_insert_failed;
  patched = patched_site;
  update_holds = λ c. true;
  id_of_item = BatchUpsertSiteRow.external_id;
  columns_of_item = λ row. site_columns row.channel_id row.name row.url row.aliases row.is_active;
  excluded = λ old new. new;
  field_of = λ code. none;
}

abbrev pub is_at : Text → Site → Bool
is_at url site = site.columns.url == url

module _ (env : Env) (principal : Principal) (project : Text) where
  abbrev pub row_of_upsert : UpsertSiteByUrlRequest → Row SiteColumns
  row_of_upsert req =
      new_row env principal project 1 none
        (site_columns req.channel_id req.name req.url req.aliases none)

  -- Statement 0 looks for the URL, and statement 1 inserts.
  unfoldable pub upsert_by_url : UpsertSiteByUrlRequest → Sites → Sites × UpsertResp
  upsert_by_url req rows = elim (open_tx env principal project Role.editor) [
    | Result.err e ↦ (rows, stopped UpsertResp.forbidden UpsertResp.internal e)
    | Result.ok tx ↦ elim (env.answers 0) [
      | some e ↦ (rows, UpsertResp.internal db_error)
      | none ↦ elim (select_one tx (is_at req.url) rows) [
        | some site ↦ (rows, UpsertResp.existing site)
        | none ↦ elim (insert_one sites env principal project 1 tx (row_of_upsert req) rows) [
          | Result.err e ↦ (rows, UpsertResp.internal db_error)
          | Result.ok written ↦
              if env.commits
              then (written, UpsertResp.created (row_of_upsert req).entity)
              else (rows, UpsertResp.internal db_error)
        ]
      ]
    ]
  ]

module _ (env : Env) (principal : Principal) (project : Text) where
  abbrev pub create_site :
      CreateSiteRequest → List (Row SiteColumns) → List (Row SiteColumns) × CreateResp SiteColumns
  create_site = create sites env principal project

  abbrev pub list_sites :
      Codec → Option ℤ → Option Text → List (Row SiteColumns) → ListResp SiteColumns
  list_sites = list sites env principal project

  abbrev pub get_site : ℤ → List (Row SiteColumns) → GetResp SiteColumns
  get_site = get sites env principal project

  abbrev pub update_site :
      ℤ
      → UpdateSiteRequest
      → List (Row SiteColumns)
      → List (Row SiteColumns) × UpdateResp SiteColumns
  update_site = update sites env principal project

  abbrev pub upsert_sites :
      List BatchUpsertSiteRow
      → List (Row SiteColumns)
      → List (Row SiteColumns) × BatchResp SiteColumns
  upsert_sites = batch_upsert sites env principal project
