-- ===== src/Advertisers.antt =====
-- src/advertisers.rs: the advertisers of a project, an instance of the handlers of Inventory.Handlers.
use mathlib.Core.Option
use knievel.Base.{
  if◌then◌else◌, nat_eq, ℤ, int_eq, Text, text, text_eq, Bool, true, Option, none, List,
}
use knievel.Auth.{Principal}
use knievel.Pagination.{Codec}
use knievel.Sql.{DbError, PgErrorKind, is_external_id_conflict}
use knievel.Inventory.{Entity, Row, Env}
use knievel.Inventory.Handlers.{
  Resource, CreateResp, db_error, ListResp, GetResp, UpdateResp, BatchResp, create, list, get,
  update, batch_upsert,
}
use knievel.Inventory.Keyed.{unique_external_id}

pub record AdvertiserColumns : Type 0 where
  pub name : Text
  pub is_active : Bool

abbrev pub Advertiser : Type 0
Advertiser = Entity AdvertiserColumns

pub record CreateAdvertiserRequest : Type 0 where
  pub external_id : Option Text
  pub name : Text
  pub is_active : Option Bool

pub record UpdateAdvertiserRequest : Type 0 where
  pub name : Option Text
  pub is_active : Option Bool

pub record BatchUpsertAdvertiserRow : Type 0 where
  pub external_id : Text
  pub name : Text
  pub is_active : Option Bool

abbrev pub advertiser_violation :
    List (Row AdvertiserColumns) → Row AdvertiserColumns → Option DbError
advertiser_violation = unique_external_id (text "advertisers_project_id_external_id_key")

abbrev pub advertiser_insert_failed : PgErrorKind → CreateResp AdvertiserColumns
advertiser_insert_failed kind =
    if is_external_id_conflict kind then CreateResp.conflict else CreateResp.internal db_error

-- `COALESCE`: an absent field is left.
abbrev pub patched_advertiser : UpdateAdvertiserRequest → AdvertiserColumns → AdvertiserColumns
patched_advertiser req c = record c {
  name = Option.get_or req.name c.name;
  is_active = Option.get_or req.is_active c.is_active;
}

abbrev pub advertiser_columns : Text → Option Bool → AdvertiserColumns
advertiser_columns name is_active = record { name = name; is_active = Option.get_or is_active true }

abbrev pub advertisers :
    Resource AdvertiserColumns CreateAdvertiserRequest UpdateAdvertiserRequest
      BatchUpsertAdvertiserRow
advertisers = record {
  cursor_kind = text "advertisers";
  violation = advertiser_violation;
  id_of_new = CreateAdvertiserRequest.external_id;
  columns_of_new = λ req. advertiser_columns req.name req.is_active;
  insert_failed = advertiser_insert_failed;
  patched = patched_advertiser;
  update_holds = λ c. true;
  id_of_item = BatchUpsertAdvertiserRow.external_id;
  columns_of_item = λ row. advertiser_columns row.name row.is_active;
  excluded = λ old new. new;
  field_of = λ code. none;
}

module _ (env : Env) (principal : Principal) (project : Text) where
  abbrev pub create_advertiser :
      CreateAdvertiserRequest
      → List (Row AdvertiserColumns)
      → List (Row AdvertiserColumns) × CreateResp AdvertiserColumns
  create_advertiser = create advertisers env principal project

  abbrev pub list_advertisers :
      Codec → Option ℤ → Option Text → List (Row AdvertiserColumns) → ListResp AdvertiserColumns
  list_advertisers = list advertisers env principal project

  abbrev pub get_advertiser : ℤ → List (Row AdvertiserColumns) → GetResp AdvertiserColumns
  get_advertiser = get advertisers env principal project

  abbrev pub update_advertiser :
      ℤ
      → UpdateAdvertiserRequest
      → List (Row AdvertiserColumns)
      → List (Row AdvertiserColumns) × UpdateResp AdvertiserColumns
  update_advertiser = update advertisers env principal project

  abbrev pub upsert_advertisers :
      List BatchUpsertAdvertiserRow
      → List (Row AdvertiserColumns)
      → List (Row AdvertiserColumns) × BatchResp AdvertiserColumns
  upsert_advertisers = batch_upsert advertisers env principal project
