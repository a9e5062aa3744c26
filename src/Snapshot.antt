-- ===== src/Snapshot.antt =====
-- src/snapshot.rs: the configuration that decisions read, its store and its loader. `J` is
-- `serde_json::Value`; what the database answers to the loader's queries is a parameter.
pub mod Load
pub mod Refresh
use mathlib.Core.Option
use knievel.Base.{
  if◌then◌else◌, nat_eq, ℤ, leb_ℤ, int_eq, Text, text_eq, pos, ℕ, suc, Bool, Option, none, List, [],
  ◌∷◌, ◌++◌,
}
use knievel.Base.Assoc.{Assoc, insert, update}
use knievel.Base.Result.{Result, ok, err, ◌>>=◌}
use knievel.Selection.{Flight, Ad}

pub record SnapshotSite : Type 0 where
  pub id : ℤ
  pub url : Text
  pub aliases : List Text

pub record SnapshotZone : Type 0 where
  pub id : ℤ
  pub site_id : ℤ

pub record SnapshotCreative (J : Type 0) : Type 0 where
  pub id : ℤ
  pub kind : Text
  pub image_url : Option Text
  pub width : Option ℤ
  pub height : Option ℤ
  pub alt : Option Text
  pub body : Option Text
  pub template_name : Option Text
  pub template_source : Option Text
  pub values : J
  pub click_through_url : Option Text

pub record ProjectSnapshot (J : Type 0) : Type 0 where
  pub project_id : Text
  pub org_id_for_event : Text
  pub flights : List Flight
  pub ads : List Ad
  pub sites : List SnapshotSite
  pub zones : List SnapshotZone
  pub click_through_urls : Assoc ℤ Text
  pub creatives : Assoc ℤ (SnapshotCreative J)
  pub hmac_secret : List ℕ
  pub hmac_secret_previous : Option (List ℕ)
  pub allow_force_decision : Bool

pub record Snapshot (J : Type 0) : Type 0 where
  pub config_version : ℤ
  pub projects : Assoc Text (ProjectSnapshot J)

-- The pointer behind the lock, and how often the waiters were notified.
pub record SnapshotStore (J : Type 0) : Type 0 where
  pub inner : Snapshot J
  pub bumped : ℕ

module _ {J : Type 0} where
  unfoldable pub new : Snapshot J → SnapshotStore J
  new initial = record { inner = initial; bumped = 0 }

  unfoldable pub empty : SnapshotStore J
  unfolding new
  empty = new (record { config_version = pos 0; projects = [] })

  unfoldable pub read : SnapshotStore J → Snapshot J
  read store = store.inner

  unfoldable pub swap : SnapshotStore J → Snapshot J → SnapshotStore J
  swap store next = record { inner = next; bumped = suc store.bumped }

-- A database error; the loader only logs it.
pub data DbError : Type 0 where
  db_error : DbError

-- A row of `knievel.projects WHERE is_active`, as the loader selects it.
pub record ProjectRow : Type 0 where
  pub id : Text
  pub org_id : Text
  pub hmac_secret : List ℕ
  pub allow_force_decision : Bool

-- A row of `knievel.creatives` with the joined template; `values` may be NULL.
pub record CreativeRow (J : Type 0) : Type 0 where
  pub id : ℤ
  pub kind : Text
  pub image_url : Option Text
  pub width : Option ℤ
  pub height : Option ℤ
  pub alt : Option Text
  pub body : Option Text
  pub template_name : Option Text
  pub template_source : Option Text
  pub values : Option J
  pub click_through_url : Option Text

-- What the queries of one load answer, each row with its project's id; an error is that of the query
-- or of the decoding of a row.
pub record LoaderDb (J : Type 0) : Type 0 where
  pub set_role : Result DbError Bool
  pub config_version : Result DbError ℤ
  pub projects : Result DbError (List ProjectRow)
  pub flights : Result DbError (List (Text × Flight))
  pub ads : Result DbError (List (Text × Ad))
  pub sites : Result DbError (List (Text × SnapshotSite))
  pub zones : Result DbError (List (Text × SnapshotZone))
  pub clicks : Result DbError (List (Text × (ℤ × Text)))
  pub creatives : Result DbError (List (Text × CreativeRow J))
  pub commit : Result DbError Bool

module _ {J : Type 0} where
  -- `..Default::default()` gives the rest. The rotation overlap is never loaded.
  unfoldable pub seed_project : ProjectRow → ProjectSnapshot J
  seed_project r = record {
    project_id = r.id;
    org_id_for_event = r.org_id;
    flights = [];
    ads = [];
    sites = [];
    zones = [];
    click_through_urls = [];
    creatives = [];
    hmac_secret = r.hmac_secret;
    hmac_secret_previous = none;
    allow_force_decision = r.allow_force_decision;
  }

  unfoldable pub seed_projects :
      List ProjectRow → Assoc Text (ProjectSnapshot J) → Assoc Text (ProjectSnapshot J)
  unfolding seed_project
  seed_projects [] m = m
  seed_projects (r ∷ rows) m = seed_projects rows (insert r.id (seed_project r) m)

  -- One loop over rows: each changes the slice of its project, if that one is loaded.
  unfoldable pub add_rows :
      {R : Type 0}
      → (R → ProjectSnapshot J → ProjectSnapshot J)
      → List (Text × R)
      → Assoc Text (ProjectSnapshot J)
      → Assoc Text (ProjectSnapshot J)
  add_rows put [] m = m
  add_rows put ((pid, r) ∷ rows) m = add_rows put rows (update pid (put r) m)

  unfoldable pub push_flight : Flight → ProjectSnapshot J → ProjectSnapshot J
  push_flight f proj = record proj { flights = proj.flights ++ f ∷ [] }

  unfoldable pub push_ad : Ad → ProjectSnapshot J → ProjectSnapshot J
  push_ad a proj = record proj { ads = proj.ads ++ a ∷ [] }

  unfoldable pub push_site : SnapshotSite → ProjectSnapshot J → ProjectSnapshot J
  push_site s proj = record proj { sites = proj.sites ++ s ∷ [] }

  unfoldable pub push_zone : SnapshotZone → ProjectSnapshot J → ProjectSnapshot J
  push_zone z proj = record proj { zones = proj.zones ++ z ∷ [] }

  unfoldable pub insert_click : ℤ × Text → ProjectSnapshot J → ProjectSnapshot J
  insert_click (ad_id, url) proj = record proj {
    click_through_urls = insert ad_id url proj.click_through_urls;
  }

  -- `{}` stands for NULL values.
  unfoldable pub creative_of : J → CreativeRow J → SnapshotCreative J
  creative_of empty_object r = record {
    id = r.id;
    kind = r.kind;
    image_url = r.image_url;
    width = r.width;
    height = r.height;
    alt = r.alt;
    body = r.body;
    template_name = r.template_name;
    template_source = r.template_source;
    values = Option.get_or r.values empty_object;
    click_through_url = r.click_through_url;
  }

  unfoldable pub insert_creative : J → CreativeRow J → ProjectSnapshot J → ProjectSnapshot J
  unfolding creative_of
  insert_creative empty_object r proj = record proj {
    creatives = insert r.id (creative_of empty_object r) proj.creatives;
  }

  unfoldable pub load_snapshot : J → LoaderDb J → Result DbError (Snapshot J)
  unfolding seed_projects add_rows push_flight push_ad push_site push_zone insert_click
      insert_creative
  load_snapshot empty_object db = do
    role ← db.set_role
    config_version ← db.config_version
    project_rows ← db.projects
    flight_rows ← db.flights
    ad_rows ← db.ads
    site_rows ← db.sites
    zone_rows ← db.zones
    click_rows ← db.clicks
    creative_rows ← db.creatives
    committed ← db.commit
    let projects0 = seed_projects project_rows []
    let projects1 = add_rows push_flight flight_rows projects0
    let projects2 = add_rows push_ad ad_rows projects1
    let projects3 = add_rows push_site site_rows projects2
    let projects4 = add_rows push_zone zone_rows projects3
    let projects5 = add_rows insert_click click_rows projects4
    let projects6 = add_rows (insert_creative empty_object) creative_rows projects5
    ok (record { config_version = config_version; projects = projects6 })

  -- The cold load, before the loop.
  unfoldable pub cold_load : Result DbError (Snapshot J) → SnapshotStore J → SnapshotStore J
  unfolding swap
  cold_load (ok snap) store = swap store snap
  cold_load (err e) store = store

  -- One tick: the version polled, and the reload that is run when it moved.
  unfoldable pub tick :
      Result DbError ℤ → Result DbError (Snapshot J) → SnapshotStore J → SnapshotStore J
  unfolding read swap
  tick (err e) reload store = store
  tick (ok db_version) reload store =
      if leb_ℤ db_version (read store).config_version
      then store
      else elim reload [ ok snap ↦ swap store snap | err e ↦ store ]

  -- The loop, over what its ticks are answered.
  unfoldable pub ticks_from :
      List (Result DbError ℤ × Result DbError (Snapshot J)) → SnapshotStore J → SnapshotStore J
  unfolding tick
  ticks_from [] s = s
  ticks_from ((polled, reload) ∷ ts) s = ticks_from ts (tick polled reload s)

  pub run_loader :
      Result DbError (Snapshot J)
      → List (Result DbError ℤ × Result DbError (Snapshot J))
      → SnapshotStore J
      → SnapshotStore J
  unfolding cold_load ticks_from
  run_loader cold ticks store = ticks_from ticks (cold_load cold store)
