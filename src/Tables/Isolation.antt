-- ===== src/Tables/Isolation.antt =====
-- The inventory tables together: what any write leaves of other projects.
use knievel.Base.{
  Bool-cases, Option-cases, nat_eq, int_eq, ℤ, List, Text, text_eq, ◌≡◌, refl, inl, inr, is_empty,
}
use knievel.Base.Result.{Result}
use knievel.Auth.{Principal}
use knievel.Sql.{DbError}
use knievel.Inventory.{Row, Env}
use knievel.Inventory.Rows.{of_others}
use knievel.Inventory.Handlers.Writes.{committed, create_call, update_call, batch_call}
use knievel.Inventory.Handlers.Isolation.{Same, Same-IsKept, committed-of_others}
use knievel.Sites.{sites}
use knievel.Sites.Writes.{site_committed-keeps}
use knievel.Zones.{zones}
use knievel.Advertisers.{advertisers}
use knievel.Campaigns.{CampaignColumns, campaigns}
use knievel.Flights.{
  FlightColumns, casting, dates_error, item_error, first_untyped, flights, flights_at,
  create_flight, upsert_flights,
}
use knievel.Ads.{ads}
use knievel.Tables.{
  Tables, FlightCall, create_flight_call, update_flight_call, upsert_flights_call, Write,
  site_write, zone_write, advertiser_write, campaign_write, flight_write, ad_write,
  flight_committed, run,
}

-- Every table has the rows of the other projects as they were, in their order; creatives are not
-- written at all.
abbrev pub SameOthers : {K : Type 0} → Text → Tables K → Tables K → Type 0
SameOthers project after before =
    (of_others project after.sites ≡ of_others project before.sites)
    × (of_others project after.zones ≡ of_others project before.zones)
    × (of_others project after.advertisers ≡ of_others project before.advertisers)
    × (of_others project after.campaigns ≡ of_others project before.campaigns)
    × (of_others project after.flights ≡ of_others project before.flights)
    × (of_others project after.ads ≡ of_others project before.ads)
    × (after.creatives ≡ before.creatives)

module _ (timestamptz : Text → Result DbError ℤ) (env : Env) (principal : Principal)
    (project : Text) where
  flight_committed-of_others :
      (table : List (Row CampaignColumns)) (call : FlightCall) (rows : List (Row FlightColumns))
      → of_others project (flight_committed timestamptz env principal project table call rows)
        ≡ of_others project rows
  unfolding flight_committed create_flight upsert_flights committed
  flight_committed-of_others table (create_flight_call req) rows =
      elim (Bool-cases (is_empty req.ad_types)) [
        | inl e ↦ rw (e, flight_committed, create_flight) refl
        | inr f ↦
            rw (f, flight_committed, create_flight)
              (committed-of_others (flights timestamptz table)
                (casting timestamptz (λ n. dates_error timestamptz req.start_date req.end_date) env)
                principal project (create_call req) rows)
      ]
  flight_committed-of_others table (update_flight_call id req) rows =
      committed-of_others (flights_at timestamptz req table) env principal project
        (update_call id req) rows
  flight_committed-of_others table (upsert_flights_call items) rows = elim (Option-cases env.db) [
    | inl n ↦ rw (n, flight_committed, upsert_flights) refl
    | inr (pool, s) ↦ elim (Option-cases (first_untyped 0 items)) [
      | inr (m, f) ↦ rw (s, f, flight_committed, upsert_flights) refl
      | inl f ↦
          rw (s, f, flight_committed, upsert_flights)
            (committed-of_others (flights timestamptz table)
              (casting timestamptz (item_error timestamptz items) env) principal project
              (batch_call items) rows)
    ]
  ]

  -- Whichever handler of the six files writes, on the path of one project: of all other projects every
  -- table has the same rows, in the same order, and no creative is touched.
  pub run-SameOthers :
      {K : Type 0} (write : Write) (t : Tables K)
      → SameOthers project (run timestamptz env principal project write t) t
  unfolding run
  run-SameOthers (site_write call) t = (
    site_committed-keeps env principal project (Same sites env principal project t.sites)
        (Same-IsKept sites env principal project t.sites) call t.sites refl,
    refl,
    refl,
    refl,
    refl,
    refl,
    refl,
  )
  run-SameOthers (zone_write call) t = (
    refl,
    committed-of_others (zones t.sites) env principal project call t.zones,
    refl,
    refl,
    refl,
    refl,
    refl,
  )
  run-SameOthers (advertiser_write call) t = (
    refl,
    refl,
    committed-of_others advertisers env principal project call t.advertisers,
    refl,
    refl,
    refl,
    refl,
  )
  run-SameOthers (campaign_write call) t = (
    refl,
    refl,
    refl,
    committed-of_others (campaigns t.advertisers) env principal project call t.campaigns,
    refl,
    refl,
    refl,
  )
  run-SameOthers (flight_write call) t =
      (refl, refl, refl, refl, flight_committed-of_others t.campaigns call t.flights, refl, refl)
  run-SameOthers (ad_write call) t = (
    refl,
    refl,
    refl,
    refl,
    refl,
    committed-of_others (ads t.flights t.creatives) env principal project call t.ads,
    refl,
  )
