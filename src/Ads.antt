-- ===== src/Ads.antt =====
-- src/ads.rs: the ads of a project, an instance of the handlers of Inventory.Handlers. Ads on library
-- items are written by src/ad_library.rs.
use mathlib.Core.Option
use knievel.Base.{
  if◌then◌else◌, nat_eq, ℤ, int_eq, Text, text, text_eq, pos, Bool, true, false, not, ◌&&◌, ◌||◌,
  Option, none, some, List,
}
use knievel.Auth.{Principal}
use knievel.Pagination.{Codec}
use knievel.Sql.{DbError}
use knievel.Inventory.{Row, Env, violated}
use knievel.Inventory.Handlers.{
  Resource, CreateResp, ListResp, GetResp, UpdateResp, BatchResp, create, list, get, update,
  batch_upsert,
}
use knievel.Inventory.Keyed.{
  unique_external_id, references, or_else, insert_failed_with_fk, fk_field,
}

pub record AdColumns : Type 0 where
  pub flight_id : ℤ
  pub creative_id : Option ℤ
  pub ad_library_item_id : Option Text
  pub weight : ℤ
  pub is_active : Bool

pub record CreateAdRequest : Type 0 where
  pub external_id : Option Text
  pub flight_id : ℤ
  pub creative_id : ℤ
  pub weight : Option ℤ
  pub is_active : Option Bool

pub record UpdateAdRequest : Type 0 where
  pub creative_id : Option ℤ
  pub weight : Option ℤ
  pub is_active : Option Bool

pub record BatchUpsertAdRow : Type 0 where
  pub external_id : Text
  pub flight_id : ℤ
  pub creative_id : ℤ
  pub weight : Option ℤ
  pub is_active : Option Bool

abbrev pub is_some : {A : Type 0} → Option A → Bool
is_some none = false
is_some (some a) = true

-- `ads_kind_check`: a creative or a library item, and not both.
unfoldable pub kind_holds : AdColumns → Bool
kind_holds c =
    (is_some c.creative_id && not (is_some c.ad_library_item_id))
    || (not (is_some c.creative_id) && is_some c.ad_library_item_id)

module _ {F K : Type 0} (flights : List (Row F)) (creatives : List (Row K)) where
  -- `REFERENCES knievel.creatives(id)`, of a column that may be NULL.
  abbrev pub creative_exists : Option ℤ → Option DbError
  creative_exists none = none
  creative_exists (some id) = references (text "ads_creative_id_fkey") creatives id

  unfoldable pub ad_violation : List (Row AdColumns) → Row AdColumns → Option DbError
  ad_violation rows row =
      or_else
        (if kind_holds row.entity.columns
          then none
          else some (
              violated (text "23514") (text "ads_kind_check")
                (text "new row violates check constraint")))
        (or_else (unique_external_id (text "ads_project_id_external_id_key") rows row) (
          or_else (references (text "ads_flight_id_fkey") flights row.entity.columns.flight_id)
            (creative_exists row.entity.columns.creative_id)))

  abbrev pub ad_columns : ℤ → ℤ → Option ℤ → Option Bool → AdColumns
  ad_columns flight_id creative_id weight is_active = record {
    flight_id = flight_id;
    creative_id = some creative_id;
    ad_library_item_id = none;
    weight = Option.get_or weight (pos 100);
    is_active = Option.get_or is_active true;
  }

  -- `COALESCE`: an absent field is left.
  abbrev pub patched_ad : UpdateAdRequest → AdColumns → AdColumns
  patched_ad req c = record c {
    creative_id = elim req.creative_id [ none ↦ c.creative_id | some i ↦ some i ];
    weight = Option.get_or req.weight c.weight;
    is_active = Option.get_or req.is_active c.is_active;
  }

  -- `EXCLUDED` has all columns of the request; the library item of the row that is there stays.
  abbrev pub excluded_ad : AdColumns → AdColumns → AdColumns
  excluded_ad old new = record new { ad_library_item_id = old.ad_library_item_id }

  abbrev pub ads : Resource AdColumns CreateAdRequest UpdateAdRequest BatchUpsertAdRow
  ads = record {
    cursor_kind = text "ads";
    violation = ad_violation;
    id_of_new = CreateAdRequest.external_id;
    columns_of_new = λ req. ad_columns req.flight_id req.creative_id req.weight req.is_active;
    insert_failed = insert_failed_with_fk;
    patched = patched_ad;
    update_holds =
        λ c. kind_holds c && elim (creative_exists c.creative_id) [ none ↦ true | some e ↦ false ];
    id_of_item = BatchUpsertAdRow.external_id;
    columns_of_item = λ row. ad_columns row.flight_id row.creative_id row.weight row.is_active;
    excluded = excluded_ad;
    field_of = fk_field (text "flightId");
  }

  module _ (env : Env) (principal : Principal) (project : Text) where
    abbrev pub create_ad :
        CreateAdRequest → List (Row AdColumns) → List (Row AdColumns) × CreateResp AdColumns
    create_ad = create ads env principal project

    abbrev pub list_ads : Codec → Option ℤ → Option Text → List (Row AdColumns) → ListResp AdColumns
    list_ads = list ads env principal project

    abbrev pub get_ad : ℤ → List (Row AdColumns) → GetResp AdColumns
    get_ad = get ads env principal project

    abbrev pub update_ad :
        ℤ → UpdateAdRequest → List (Row AdColumns) → List (Row AdColumns) × UpdateResp AdColumns
    update_ad = update ads env principal project

    abbrev pub upsert_ads :
        List BatchUpsertAdRow → List (Row AdColumns) → List (Row AdColumns) × BatchResp AdColumns
    upsert_ads = batch_upsert ads env principal project
