-- ===== src/Examples/Demand.antt =====
-- The theorem on the flights of a project at a small batch.
use knievel.Base.{
  if◌then◌else◌, nat_eq, ◌==◌, ℤ, int_eq, Text, text, text_eq, pos, true, none, some, List, [], ◌∷◌,
}
use knievel.Base.Result.{Result}
use knievel.Sql.{DbError}
use knievel.Inventory.{Row, violated}
use knievel.Campaigns.{CampaignColumns}
use knievel.Flights.{BatchUpsertFlightRow, upsert_flights}
use knievel.Flights.Batches.{IsValidated, upsert_flights-IsValidated}
use knievel.Examples.Inventory.{pj, editor1, env1}

-- Reads one text as a date, and refuses all others.
abbrev toy_timestamptz : Text → Result DbError ℤ
toy_timestamptz t =
    if t == text "2026-01-01"
    then Result.ok (pos 70)
    else Result.err
        (violated (text "22007") (text "none") (text "invalid input syntax for type timestamp"))

abbrev campaigns1 : List (Row CampaignColumns)
campaigns1 =
    record {
      org_id = text "org";
      project_id = pj;
      entity = record {
        id = pos 4;
        external_id = none;
        columns = record { advertiser_id = pos 2; name = text "Spring"; is_active = true };
        etag = text "e";
        created_at = pos 5;
        updated_at = pos 5;
      };
    }
    ∷ []

abbrev item : Text → List ℤ → BatchUpsertFlightRow
item external_id ad_types = record {
  external_id = external_id;
  campaign_id = pos 4;
  name = text "Homepage";
  priority_id = pos 1;
  start_date = some (text "2026-01-01");
  end_date = none;
  site_ids = none;
  zone_ids = none;
  ad_types = ad_types;
  is_active = none;
}

abbrev items1 : List BatchUpsertFlightRow
items1 = item (text "x") (pos 5 ∷ []) ∷ item (text "y") [] ∷ []

upsert_flights-IsValidated_example :
    IsValidated toy_timestamptz env1 editor1 pj campaigns1 [] items1
      (upsert_flights toy_timestamptz env1 editor1 pj campaigns1 items1 [])
upsert_flights-IsValidated_example =
    upsert_flights-IsValidated toy_timestamptz env1 editor1 pj campaigns1 items1 []
