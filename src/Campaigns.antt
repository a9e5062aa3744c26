-- ===== src/Campaigns.antt =====
-- src/campaigns.rs: the campaigns of a project, an instance of the handlers of Inventory.Handlers.
use mathlib.Core.Option
use knievel.Base.{nat_eq, ℤ, int_eq, Text, text, text_eq, Bool, true, Option, List}
use knievel.Auth.{Principal}
use knievel.Pagination.{Codec}
use knievel.Sql.{DbError}
use knievel.Inventory.{Entity, Row, Env}
use knievel.Inventory.Handlers.{
  Resource, CreateResp, ListResp, GetResp, UpdateResp, BatchResp, create, list, get, update,
  batch_upsert,
}
use knievel.Inventory.Keyed.{
  unique_external_id, references, or_else, insert_failed_with_fk, fk_field,
}
use knievel.Advertisers.{AdvertiserColumns}

pub record CampaignColumns : Type 0 where
  pub advertiser_id : ℤ
  pub name : Text
  pub is_active : Bool

abbrev pub Campaign : Type 0
Campaign = Entity CampaignColumns

pub record CreateCampaignRequest : Type 0 where
  pub external_id : Option Text
  pub advertiser_id : ℤ
  pub name : Text
  pub is_active : Option Bool

pub record UpdateCampaignRequest : Type 0 where
  pub name : Option Text
  pub is_active : Option Bool

pub record BatchUpsertCampaignRow : Type 0 where
  pub external_id : Text
  pub advertiser_id : ℤ
  pub name : Text
  pub is_active : Option Bool

unfoldable pub campaign_violation :
    List (Row AdvertiserColumns) → List (Row CampaignColumns) → Row CampaignColumns → Option DbError
campaign_violation table rows row =
    or_else (unique_external_id (text "campaigns_project_id_external_id_key") rows row)
      (references (text "campaigns_advertiser_id_fkey") table row.entity.columns.advertiser_id)

-- `COALESCE`: an absent field is left.
abbrev pub patched_campaign : UpdateCampaignRequest → CampaignColumns → CampaignColumns
patched_campaign req c = record c {
  name = Option.get_or req.name c.name;
  is_active = Option.get_or req.is_active c.is_active;
}

abbrev pub campaign_columns : ℤ → Text → Option Bool → CampaignColumns
campaign_columns advertiser_id name is_active = record {
  advertiser_id = advertiser_id;
  name = name;
  is_active = Option.get_or is_active true;
}

-- The table that they refer to is a parameter.
abbrev pub campaigns :
    List (Row AdvertiserColumns)
    → Resource CampaignColumns CreateCampaignRequest UpdateCampaignRequest BatchUpsertCampaignRow
campaigns table = record {
  cursor_kind = text "campaigns";
  violation = campaign_violation table;
  id_of_new = CreateCampaignRequest.external_id;
  columns_of_new = λ req. campaign_columns req.advertiser_id req.name req.is_active;
  insert_failed = insert_failed_with_fk;
  patched = patched_campaign;
  update_holds = λ c. true;
  id_of_item = BatchUpsertCampaignRow.external_id;
  columns_of_item = λ row. campaign_columns row.advertiser_id row.name row.is_active;
  excluded = λ old new. new;
  field_of = fk_field (text "advertiserId");
}

module _ (env : Env) (principal : Principal) (project : Text)
    (table : List (Row AdvertiserColumns)) where
  abbrev pub create_campaign :
      CreateCampaignRequest
      → List (Row CampaignColumns)
      → List (Row CampaignColumns) × CreateResp CampaignColumns
  create_campaign = create (campaigns table) env principal project

  abbrev pub list_campaigns :
      Codec → Option ℤ → Option Text → List (Row CampaignColumns) → ListResp CampaignColumns
  list_campaigns = list (campaigns table) env principal project

  abbrev pub get_campaign : ℤ → List (Row CampaignColumns) → GetResp CampaignColumns
  get_campaign = get (campaigns table) env principal project

  abbrev pub update_campaign :
      ℤ
      → UpdateCampaignRequest
      → List (Row CampaignColumns)
      → List (Row CampaignColumns) × UpdateResp CampaignColumns
  update_campaign = update (campaigns table) env principal project

  abbrev pub upsert_campaigns :
      List BatchUpsertCampaignRow
      → List (Row CampaignColumns)
      → List (Row CampaignColumns) × BatchResp CampaignColumns
  upsert_campaigns = batch_upsert (campaigns table) env principal project
