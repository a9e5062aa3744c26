-- ===== src/Tables.antt =====
-- src/sites.rs, src/zones.rs, src/advertisers.rs, src/campaigns.rs, src/flights.rs and src/ads.rs
-- together: the tables of migrations/0007_inventory.sql that they write, with the references between
-- them, and every call of theirs that writes, as what it commits. Creatives are written elsewhere and
-- only referred to; `K` is their columns.
use knievel.Base.{ℤ, List, Text}
pub mod Isolation
use knievel.Base.Result.{Result}
use knievel.Auth.{Principal}
use knievel.Sql.{DbError}
use knievel.Inventory.{Row, Env}
use knievel.Inventory.Handlers.Writes.{Call, committed}
use knievel.Sites.{SiteColumns}
use knievel.Sites.Writes.{SiteCall, site_committed}
use knievel.Zones.{ZoneColumns, CreateZoneRequest, UpdateZoneRequest, BatchUpsertZoneRow, zones}
use knievel.Advertisers.{
  AdvertiserColumns, CreateAdvertiserRequest, UpdateAdvertiserRequest, BatchUpsertAdvertiserRow,
  advertisers,
}
use knievel.Campaigns.{
  CampaignColumns, CreateCampaignRequest, UpdateCampaignRequest, BatchUpsertCampaignRow, campaigns,
}
use knievel.Flights.{
  FlightColumns, CreateFlightRequest, UpdateFlightRequest, BatchUpsertFlightRow, create_flight,
  update_flight, upsert_flights,
}
use knievel.Ads.{AdColumns, CreateAdRequest, UpdateAdRequest, BatchUpsertAdRow, ads}

pub record Tables (K : Type 0) : Type 0 where
  pub sites : List (Row SiteColumns)
  pub zones : List (Row ZoneColumns)
  pub advertisers : List (Row AdvertiserColumns)
  pub campaigns : List (Row CampaignColumns)
  pub flights : List (Row FlightColumns)
  pub ads : List (Row AdColumns)
  pub creatives : List (Row K)

pub data FlightCall : Type 0 where
  create_flight_call : CreateFlightRequest → FlightCall
  update_flight_call : ℤ → UpdateFlightRequest → FlightCall
  upsert_flights_call : List BatchUpsertFlightRow → FlightCall

-- A call that writes.
pub data Write : Type 0 where
  site_write : SiteCall → Write
  zone_write : Call CreateZoneRequest UpdateZoneRequest BatchUpsertZoneRow → Write
  advertiser_write :
      Call CreateAdvertiserRequest UpdateAdvertiserRequest BatchUpsertAdvertiserRow → Write
  campaign_write : Call CreateCampaignRequest UpdateCampaignRequest BatchUpsertCampaignRow → Write
  flight_write : FlightCall → Write
  ad_write : Call CreateAdRequest UpdateAdRequest BatchUpsertAdRow → Write

module _ (timestamptz : Text → Result DbError ℤ) (env : Env) (principal : Principal)
    (project : Text) where
  unfoldable pub flight_committed :
      List (Row CampaignColumns) → FlightCall → List (Row FlightColumns) → List (Row FlightColumns)
  flight_committed table (create_flight_call req) rows =
      (create_flight timestamptz env principal project table req rows).0
  flight_committed table (update_flight_call id req) rows =
      (update_flight timestamptz env principal project table id req rows).0
  flight_committed table (upsert_flights_call items) rows =
      (upsert_flights timestamptz env principal project table items rows).0

  unfoldable pub run : {K : Type 0} → Write → Tables K → Tables K
  run (site_write call) t = record t { sites = site_committed env principal project call t.sites }
  run (zone_write call) t = record t {
    zones = committed (zones t.sites) env principal project call t.zones;
  }
  run (advertiser_write call) t = record t {
    advertisers = committed advertisers env principal project call t.advertisers;
  }
  run (campaign_write call) t = record t {
    campaigns = committed (campaigns t.advertisers) env principal project call t.campaigns;
  }
  run (flight_write call) t = record t { flights = flight_committed t.campaigns call t.flights }
  run (ad_write call) t = record t {
    ads = committed (ads t.flights t.creatives) env principal project call t.ads;
  }
