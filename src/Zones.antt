-- ===== src/Zones.antt =====
-- src/zones.rs: the zones of a project, an instance of the handlers of Inventory.Handlers.
use mathlib.Core.Option
use knievel.Base.{nat_eq, ℤ, int_eq, Text, text, text_eq, Bool, true, Option, List}
use knievel.Auth.{Principal}
use knievel.Pagination.{Codec}
use knievel.Sql.{DbError}
use knievel.Inventory.{Entity, Row, Env}
use knievel.Inventory.Handlers.{
  Resource, CreateResp, ListResp, GetResp, UpdateResp, BatchResp, create, list, get, update,
  batch_upsert,
}
use knievel.Inventory.Keyed.{
  unique_external_id, references, or_else, insert_failed_with_fk, fk_field,
}
use knievel.Sites.{SiteColumns}

pub record ZoneColumns : Type 0 where
  pub site_id : ℤ
  pub name : Text
  pub is_active : Bool

abbrev pub Zone : Type 0
Zone = Entity ZoneColumns

pub record CreateZoneRequest : Type 0 where
  pub external_id : Option Text
  pub site_id : ℤ
  pub name : Text
  pub is_active : Option Bool

pub record UpdateZoneRequest : Type 0 where
  pub name : Option Text
  pub is_active : Option Bool

pub record BatchUpsertZoneRow : Type 0 where
  pub external_id : Text
  pub site_id : ℤ
  pub name : Text
  pub is_active : Option Bool

unfoldable pub zone_violation :
    List (Row SiteColumns) → List (Row ZoneColumns) → Row ZoneColumns → Option DbError
zone_violation table rows row =
    or_else (unique_external_id (text "zones_project_id_external_id_key") rows row)
      (references (text "zones_site_id_fkey") table row.entity.columns.site_id)

-- `COALESCE`: an absent field is left.
abbrev pub patched_zone : UpdateZoneRequest → ZoneColumns → ZoneColumns
patched_zone req c = record c {
  name = Option.get_or req.name c.name;
  is_active = Option.get_or req.is_active c.is_active;
}

abbrev pub zone_columns : ℤ → Text → Option Bool → ZoneColumns
zone_columns site_id name is_active = record {
  site_id = site_id;
  name = name;
  is_active = Option.get_or is_active true;
}

-- The table that they refer to is a parameter.
abbrev pub zones :
    List (Row SiteColumns)
    → Resource ZoneColumns CreateZoneRequest UpdateZoneRequest BatchUpsertZoneRow
zones table = record {
  cursor_kind = text "zones";
  violation = zone_violation table;
  id_of_new = CreateZoneRequest.external_id;
  columns_of_new = λ req. zone_columns req.site_id req.name req.is_active;
  insert_failed = insert_failed_with_fk;
  patched = patched_zone;
  update_holds = λ c. true;
  id_of_item = BatchUpsertZoneRow.external_id;
  columns_of_item = λ row. zone_columns row.site_id row.name row.is_active;
  excluded = λ old new. new;
  field_of = fk_field (text "siteId");
}

module _ (env : Env) (principal : Principal) (project : Text) (table : List (Row SiteColumns)) where
  abbrev pub create_zone :
      CreateZoneRequest → List (Row ZoneColumns) → List (Row ZoneColumns) × CreateResp ZoneColumns
  create_zone = create (zones table) env principal project

  abbrev pub list_zones :
      Codec → Option ℤ → Option Text → List (Row ZoneColumns) → ListResp ZoneColumns
  list_zones = list (zones table) env principal project

  abbrev pub get_zone : ℤ → List (Row ZoneColumns) → GetResp ZoneColumns
  get_zone = get (zones table) env principal project

  abbrev pub update_zone :
      ℤ
      → UpdateZoneRequest
      → List (Row ZoneColumns)
      → List (Row ZoneColumns) × UpdateResp ZoneColumns
  update_zone = update (zones table) env principal project

  abbrev pub upsert_zones :
      List BatchUpsertZoneRow
      → List (Row ZoneColumns)
      → List (Row ZoneColumns) × BatchResp ZoneColumns
  upsert_zones = batch_upsert (zones table) env principal project
