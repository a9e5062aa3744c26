-- ===== src/Flights.antt =====
-- src/flights.rs: the flights of a project, an instance of the handlers of Inventory.Handlers behind a
-- check of the ad types. The casts to `timestamptz` are the database's, a parameter: they give a time in
-- microseconds, or the error that the statement fails with.
pub mod Batches
use knievel.Base.{
  is_empty, if◌then◌else◌, nat_eq, ℤ, int_eq, length, Text, text, text_eq, ℕ, zero, suc, ◌+◌, Bool,
  true, false, Option, none, some, List, [], ◌∷◌,
}
use mathlib.Core.Option
use knievel.Base.Result.{Result}
use knievel.Auth.{Principal}
use knievel.Pagination.{Codec}
use knievel.Sql.{DbError}
use knievel.Batch.{BatchErrorDetail}
use knievel.Inventory.{Row, Env}
use knievel.Inventory.Handlers.{
  Resource, CreateResp, ListResp, GetResp, UpdateResp, BatchResp, no_db, create, list, get, update,
  batch_upsert,
}
use knievel.Inventory.Keyed.{
  unique_external_id, references, or_else, insert_failed_with_fk, fk_field,
}
use knievel.Campaigns.{CampaignColumns}

pub record FlightColumns : Type 0 where
  pub campaign_id : ℤ
  pub name : Text
  pub priority_id : ℤ
  pub start_date : Option ℤ
  pub end_date : Option ℤ
  pub site_ids : List ℤ
  pub zone_ids : List ℤ
  pub ad_types : List ℤ
  pub is_active : Bool

pub record CreateFlightRequest : Type 0 where
  pub external_id : Option Text
  pub campaign_id : ℤ
  pub name : Text
  pub priority_id : ℤ
  pub start_date : Option Text
  pub end_date : Option Text
  pub site_ids : Option (List ℤ)
  pub zone_ids : Option (List ℤ)
  pub ad_types : List ℤ
  pub is_active : Option Bool

pub record UpdateFlightRequest : Type 0 where
  pub name : Option Text
  pub priority_id : Option ℤ
  pub start_date : Option Text
  pub end_date : Option Text
  pub site_ids : Option (List ℤ)
  pub zone_ids : Option (List ℤ)
  pub ad_types : Option (List ℤ)
  pub is_active : Option Bool

pub record BatchUpsertFlightRow : Type 0 where
  pub external_id : Text
  pub campaign_id : ℤ
  pub name : Text
  pub priority_id : ℤ
  pub start_date : Option Text
  pub end_date : Option Text
  pub site_ids : Option (List ℤ)
  pub zone_ids : Option (List ℤ)
  pub ad_types : List ℤ
  pub is_active : Option Bool

-- The answers of `create`: the refusal of its own, or one that the resources share.
pub data CreateFlightResp : Type 0 where
  ad_types_required : CreateFlightResp
  answered : CreateResp FlightColumns → CreateFlightResp

unfoldable pub flight_violation :
    List (Row CampaignColumns) → List (Row FlightColumns) → Row FlightColumns → Option DbError
flight_violation table rows row =
    or_else (unique_external_id (text "flights_project_id_external_id_key") rows row)
      (references (text "flights_campaign_id_fkey") table row.entity.columns.campaign_id)

-- The first item without ad types, from index `n` on.
unfoldable pub first_untyped : ℕ → List BatchUpsertFlightRow → Option ℕ
first_untyped n [] = none
first_untyped n (item ∷ items) =
    let rest = first_untyped (n + 1) items in if is_empty item.ad_types then some n else rest

abbrev pub untyped_detail : ℕ → BatchErrorDetail
untyped_detail n = record {
  index = n;
  field = some (text "adTypes");
  code = text "validation_failed";
  message = text "ad_types must be a non-empty array";
}

module _ (timestamptz : Text → Result DbError ℤ) where
  -- `$n::timestamptz`: NULL stays NULL.
  abbrev pub date_of : Option Text → Option ℤ
  date_of none = none
  date_of (some t) = elim (timestamptz t) [ Result.ok at ↦ some at | Result.err e ↦ none ]

  abbrev pub cast_error : Option Text → Option DbError
  cast_error none = none
  cast_error (some t) = elim (timestamptz t) [ Result.ok at ↦ none | Result.err e ↦ some e ]

  abbrev pub dates_error : Option Text → Option Text → Option DbError
  dates_error start stop = or_else (cast_error start) (cast_error stop)

  -- The n-th item's own failure, before its row meets the table.
  abbrev pub item_error : List BatchUpsertFlightRow → ℕ → Option DbError
  item_error [] n = none
  item_error (item ∷ items) zero = dates_error item.start_date item.end_date
  item_error (item ∷ items) (suc n) = item_error items n

  -- A statement also fails at a text that does not cast.
  abbrev pub casting : (ℕ → Option DbError) → Env → Env
  casting errors env = record env { answers = λ n. or_else (env.answers n) (errors n) }

  abbrev pub create_columns : CreateFlightRequest → FlightColumns
  create_columns req = record {
    campaign_id = req.campaign_id;
    name = req.name;
    priority_id = req.priority_id;
    start_date = date_of req.start_date;
    end_date = date_of req.end_date;
    site_ids = Option.get_or req.site_ids [];
    zone_ids = Option.get_or req.zone_ids [];
    ad_types = req.ad_types;
    is_active = Option.get_or req.is_active true;
  }

  abbrev pub item_columns : BatchUpsertFlightRow → FlightColumns
  item_columns row = record {
    campaign_id = row.campaign_id;
    name = row.name;
    priority_id = row.priority_id;
    start_date = date_of row.start_date;
    end_date = date_of row.end_date;
    site_ids = Option.get_or row.site_ids [];
    zone_ids = Option.get_or row.zone_ids [];
    ad_types = row.ad_types;
    is_active = Option.get_or row.is_active true;
  }

  -- `COALESCE`: an absent field is left.
  abbrev pub patched_flight : UpdateFlightRequest → FlightColumns → FlightColumns
  patched_flight req c = record c {
    name = Option.get_or req.name c.name;
    priority_id = Option.get_or req.priority_id c.priority_id;
    start_date = elim (date_of req.start_date) [ none ↦ c.start_date | some at ↦ some at ];
    end_date = elim (date_of req.end_date) [ none ↦ c.end_date | some at ↦ some at ];
    site_ids = Option.get_or req.site_ids c.site_ids;
    zone_ids = Option.get_or req.zone_ids c.zone_ids;
    ad_types = Option.get_or req.ad_types c.ad_types;
    is_active = Option.get_or req.is_active c.is_active;
  }

  -- `EXCLUDED.is_active` is never NULL: the insert has put its default there.
  abbrev pub flights :
      List (Row CampaignColumns)
      → Resource FlightColumns CreateFlightRequest UpdateFlightRequest BatchUpsertFlightRow
  flights table = record {
    cursor_kind = text "flights";
    violation = flight_violation table;
    id_of_new = CreateFlightRequest.external_id;
    columns_of_new = create_columns;
    insert_failed = insert_failed_with_fk;
    patched = patched_flight;
    update_holds = λ c. true;
    id_of_item = BatchUpsertFlightRow.external_id;
    columns_of_item = item_columns;
    excluded = λ old new. new;
    field_of = fk_field (text "campaignId");
  }

  -- An update of a row that is there fails at a date that does not cast.
  abbrev pub flights_at :
      UpdateFlightRequest
      → List (Row CampaignColumns)
      → Resource FlightColumns CreateFlightRequest UpdateFlightRequest BatchUpsertFlightRow
  flights_at req table = record (flights table) {
    update_holds =
        λ c. elim (dates_error req.start_date req.end_date) [ none ↦ true | some e ↦ false ];
  }

  module _ (env : Env) (principal : Principal) (project : Text)
      (table : List (Row CampaignColumns)) where
    unfoldable pub create_flight :
        CreateFlightRequest → List (Row FlightColumns) → List (Row FlightColumns) × CreateFlightResp
    create_flight req rows =
        if is_empty req.ad_types
        then (rows, ad_types_required)
        else let (written, resp) =
            create (flights table) (casting (λ n. dates_error req.start_date req.end_date) env)
              principal project req rows in
          (written, answered resp)

    abbrev pub list_flights :
        Codec → Option ℤ → Option Text → List (Row FlightColumns) → ListResp FlightColumns
    list_flights = list (flights table) env principal project

    abbrev pub get_flight : ℤ → List (Row FlightColumns) → GetResp FlightColumns
    get_flight = get (flights table) env principal project

    abbrev pub update_flight :
        ℤ
        → UpdateFlightRequest
        → List (Row FlightColumns)
        → List (Row FlightColumns) × UpdateResp FlightColumns
    update_flight id req = update (flights_at req table) env principal project id req

    -- The pool, the ad types of all items, and then the batch.
    unfoldable pub upsert_flights :
        List BatchUpsertFlightRow
        → List (Row FlightColumns)
        → List (Row FlightColumns) × BatchResp FlightColumns
    upsert_flights items rows = elim env.db [
      | none ↦ (rows, BatchResp.internal no_db)
      | some pool ↦ elim (first_untyped 0 items) [
        | some n ↦ (rows, BatchResp.partial_failure (length items) (untyped_detail n ∷ []))
        | none ↦
            batch_upsert (flights table) (casting (item_error items) env) principal project items
              rows
      ]
    ]
