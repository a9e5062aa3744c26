-- ===== src/Decisions.antt =====
-- src/decisions.rs and src/rendering.rs: the decision of a request against the snapshot. The random
-- number generator, the hash builder, SHA-256, HMAC and Liquid are parameters; `J` is `serde_json::Value`.
pub mod Parts
pub mod Serve
pub mod Decide
pub mod Handler
pub mod Explain
use mathlib.Core.Option
use knievel.Base.{nat_eq, ℤ, int_eq, Text, text_eq, ℕ, ◌*◌, Bool, Option, List}
use knievel.Base.Assoc.{Assoc}
use knievel.Auth.{Principal}
use knievel.Selection.{Rng}
use knievel.Hmac.{Crypto}
use knievel.Snapshot.{ProjectSnapshot}
use knievel.Events.{Event}

pub record DecisionContext : Type 0 where
  pub url : Option Text
  pub referrer : Option Text
  pub user_agent : Option Text

pub record ForceOverride : Type 0 where
  pub ad_id : Option ℤ
  pub campaign_id : Option ℤ
  pub flight_id : Option ℤ
  pub creative_id : Option ℤ

pub record DecisionPlacement : Type 0 where
  pub id : Text
  pub site_id : Option ℤ
  pub site_url : Option Text
  pub site_external_id : Option Text
  pub zone_ids : Option (List ℤ)
  pub ad_types : List ℤ
  pub count : Option ℤ
  pub force : Option ForceOverride

pub record DecisionBlock : Type 0 where
  pub creative_ids : Option (List ℤ)
  pub advertiser_ids : Option (List ℤ)
  pub campaign_ids : Option (List ℤ)

pub record DecisionsRequest : Type 0 where
  pub context : Option DecisionContext
  pub placements : List DecisionPlacement
  pub block : Option DecisionBlock
  pub force_reason : Option Text

pub record ImageCreative : Type 0 where
  pub image_url : Option Text
  pub width : Option ℤ
  pub height : Option ℤ
  pub alt : Option Text
  pub click_through_url : Option Text

pub record HtmlCreative : Type 0 where
  pub body : Option Text
  pub click_through_url : Option Text

pub record NativeCreative (J : Type 0) : Type 0 where
  pub template : Option Text
  pub values : J
  pub click_through_url : Option Text

pub record TemplatedCreative (J : Type 0) : Type 0 where
  pub template : Option Text
  pub values : J
  pub body : Text
  pub click_through_url : Option Text

pub data DecisionCreative (J : Type 0) : Type 0 where
  image : ImageCreative → DecisionCreative J
  html : HtmlCreative → DecisionCreative J
  native : NativeCreative J → DecisionCreative J
  templated : TemplatedCreative J → DecisionCreative J

pub record DecisionAd (J : Type 0) : Type 0 where
  pub ad_id : ℤ
  pub creative_id : ℤ
  pub flight_id : ℤ
  pub campaign_id : ℤ
  pub advertiser_id : ℤ
  pub priority_id : ℤ
  pub site_id : ℤ
  pub click_url : Text
  pub impression_url : Text
  pub creative : Option (DecisionCreative J)

pub record DecisionsResponse (J : Type 0) : Type 0 where
  pub snapshot_version : ℤ
  pub decisions : Assoc Text (List (DecisionAd J))

pub record DecideOutcome (J : Type 0) : Type 0 where
  pub response : DecisionsResponse J
  pub events : List Event

pub data DecideError : Type 0 where
  placements_required too_many_placements ad_types_required : DecideError

-- A panic is that of the assertion in `pack_record`.
pub data Halt : Type 0 where
  panicked : Halt
  refused : DecideError → Halt

-- `RenderCtx`
pub record RenderCtx : Type 0 where
  pub ad_id : ℤ
  pub click_url : Text
  pub impression_url : Text
  pub placement_id : Text
  pub snapshot_version : ℤ

abbrev pub max_output_bytes : ℕ
max_output_bytes = 256 * 1024

-- The crates `rand`, `hmac` and the like, `liquid` (a parsed template, and the globals that are built
-- of the values and the context), and the standard library's randomly keyed hash builder: the hash
-- that the n-th builder gives of some bytes and an i64.
pub record Crates (J : Type 0) : Type 1 where
  pub rng : Rng
  pub crypto : Crypto
  pub hash_of : ℕ → Text → ℤ → ℕ
  pub Template : Type 0
  pub Globals : Type 0
  pub to_object : J → RenderCtx → Option Globals
  pub parse : Text → Option Template
  pub render : Template → Globals → Option Text

-- What the loops of `decide_pure` read.
pub record Call (J : Type 0) : Type 0 where
  pub project : ProjectSnapshot J
  pub snapshot_version : ℤ
  pub principal : Principal
  pub project_id : Text
  pub req : DecisionsRequest
  pub now_ms : ℤ
  pub force_active : Bool

-- The decisions and the events so far, and the number of hash builders made.
pub record Progress (J : Type 0) : Type 0 where
  pub seeded : ℕ
  pub decisions : Assoc Text (List (DecisionAd J))
  pub events : List Event
