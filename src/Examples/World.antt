-- ===== src/Examples/World.antt =====
-- A toy encoding, tag and generator, and a deployment of one project.
use mathlib.Core.Option
use knievel.Base.{
  nat_eq, int_eq, length, All, Text, text, text_eq, pos, ℕ, zero, suc, ◌+◌, ◌-◌, ◌*◌, ◌/◌, ◌%◌, ◌<◌,
  ◌≡◌, refl, ap, ◌≢◌, true, false, Option, none, some, List, [], ◌∷◌, arith,
}
use knievel.Base.Bytes.{IsByte}
use knievel.Selection.{Flight, Ad, Placement, BlockSet, Candidate, Rng, sum}
use knievel.Hmac.{Crypto, IsLawful}
use knievel.Snapshot.{SnapshotCreative, ProjectSnapshot, Snapshot}
use knievel.Auth.{Principal, Role, Scope, TokenType}
use knievel.Auth.Tenancy.{Database}
use knievel.Events.{Channel}
use knievel.Decisions.{DecisionPlacement, DecisionsRequest, RenderCtx, Crates, Call}
use knievel.Decisions.Handler.{AppState}

-- Two letters for a byte.
abbrev pub encode : List ℕ → Text
encode [] = []
encode (b ∷ bs) = (65 + b / 16) ∷ (65 + b % 16) ∷ encode bs

abbrev pub decode : Text → Option (List ℕ)
decode [] = some []
decode (x ∷ []) = none
decode (x ∷ y ∷ rest) = Option.map (◌∷◌ (16 * (x - 65) + (y - 65))) (decode rest)

abbrev pub replicate : ℕ → ℕ → List ℕ
replicate zero b = []
replicate (suc n) b = b ∷ replicate n b

abbrev pub toy_crypto : Crypto
toy_crypto = record {
  b64_encode = encode;
  b64_decode = decode;
  hmac_sha256 = λ key message. replicate 32 ((sum key + sum message) % 256);
  sha256 = λ message. replicate 32 (sum message % 256);
}

decode-encode : (bs : List ℕ) → All IsByte bs → decode (encode bs) ≡ some bs
decode-encode [] h = refl
decode-encode (b ∷ bs) h = rw (decode-encode bs h.1) (ap (λ x. some (x ∷ bs)) (omega arith))

encode-no_dot : (bs : List ℕ) → All (λ x. x ≢ b'.') (encode bs)
encode-no_dot [] = tt
encode-no_dot (b ∷ bs) = (λ e. omega arith, (λ e. omega arith, encode-no_dot bs))

length-replicate : (n b : ℕ) → length (replicate n b) ≡ n
length-replicate zero b = refl
length-replicate (suc n) b = ap suc (length-replicate n b)

replicate-IsByte : (n b : ℕ) → IsByte b → All IsByte (replicate n b)
replicate-IsByte zero b h = tt
replicate-IsByte (suc n) b h = (h, replicate-IsByte n b h)

pub toy_crypto-IsLawful : IsLawful toy_crypto
toy_crypto-IsLawful = record {
  decode-encode = decode-encode;
  encode_no_dot = encode-no_dot;
  length-hmac = λ key message. length-replicate 32 ((sum key + sum message) % 256);
  hmac-IsByte = λ key message. replicate-IsByte 32 ((sum key + sum message) % 256) (omega arith);
}

abbrev pub toy_roll : ℕ → ℕ → ℕ
toy_roll s zero = 0
toy_roll s (suc n) = s % suc n

pub toy_roll-lt : (s high : ℕ) → 0 < high → toy_roll s high < high
toy_roll-lt s zero h = omega arith
toy_roll-lt s (suc n) h = omega arith

-- A counter.
abbrev pub toy_rng : Rng
toy_rng = record {
  State = ℕ;
  seed_from_u64 = λ seed. seed;
  gen_range = λ s high. (toy_roll s high, suc s);
  gen_range-lt = toy_roll-lt;
}

-- Liquid without tags; a JSON value is a number.
abbrev pub toy_crates : Crates ℕ
toy_crates = record {
  rng = toy_rng;
  crypto = toy_crypto;
  hash_of = λ n id now_ms. n + length id;
  Template = Text;
  Globals = ℕ × RenderCtx;
  to_object = λ values ctx. some (values, ctx);
  parse = λ source. some source;
  render = λ template globals. some template;
}

abbrev pub flight1 : Flight
flight1 = record {
  id = pos 1;
  campaign_id = pos 10;
  advertiser_id = pos 100;
  priority_tier = pos 1;
  start_ms = some (pos 1000);
  end_ms = none;
  site_ids = [];
  zone_ids = [];
  ad_types = pos 5 ∷ [];
  is_active = true;
}

abbrev pub ad1 : Ad
ad1 = record {
  id = pos 7;
  flight_id = pos 1;
  creative_id = some (pos 3);
  weight = pos 2;
  is_active = true;
}

abbrev pub ad2 : Ad
ad2 = record { id = pos 8; flight_id = pos 1; creative_id = none; weight = pos 0; is_active = true }

abbrev pub placement1 : Placement
placement1 = record { site_id = pos 4; zone_ids = []; ad_types = pos 5 ∷ []; count = 2 }

abbrev pub no_block : BlockSet
no_block = record { creative_ids = []; advertiser_ids = []; campaign_ids = [] }

abbrev pub candidate1 : Candidate
candidate1 = record { ad = ad1; flight = flight1 }

abbrev pub creative3 : SnapshotCreative ℕ
creative3 = record {
  id = pos 3;
  kind = text "html";
  image_url = none;
  width = none;
  height = none;
  alt = none;
  body = some (text "<b>hi</b>");
  template_name = none;
  template_source = none;
  values = 0;
  click_through_url = some (text "https://shop");
}

abbrev pub project1 : ProjectSnapshot ℕ
project1 = record {
  project_id = text "pj";
  org_id_for_event = text "org";
  flights = flight1 ∷ [];
  ads = ad1 ∷ ad2 ∷ [];
  sites = record { id = pos 4; url = text "site"; aliases = [] } ∷ [];
  zones = [];
  click_through_urls = (pos 7, text "https://shop") ∷ [];
  creatives = (pos 3, creative3) ∷ [];
  hmac_secret = 1 ∷ 2 ∷ [];
  hmac_secret_previous = none;
  allow_force_decision = true;
}

abbrev pub snapshot1 : Snapshot ℕ
snapshot1 = record { config_version = pos 9; projects = (text "pj", project1) ∷ [] }

abbrev pub asked : DecisionPlacement
asked = record {
  id = text "top";
  site_id = some (pos 4);
  site_url = none;
  site_external_id = none;
  zone_ids = none;
  ad_types = pos 5 ∷ [];
  count = some (pos 2);
  force = none;
}

abbrev pub request1 : DecisionsRequest
request1 = record { context = none; placements = asked ∷ []; block = none; force_reason = none }

abbrev pub reader1 : Principal
reader1 = record {
  org_id = text "org";
  project_id = none;
  role = Role.reader;
  scope = Scope.org;
  token_type = TokenType.opaque;
  actor_id = text "tok";
}

abbrev pub call1 : Call ℕ
call1 = record {
  project = project1;
  snapshot_version = pos 9;
  principal = reader1;
  project_id = text "pj";
  req = request1;
  now_ms = pos 5000;
  force_active = false;
}

abbrev pub database1 : Database
database1 = record {
  projects =
      record { id = text "pj"; org_id = text "org" }
      ∷ record { id = text "px"; org_id = text "other" }
      ∷ [];
  begins = true;
  binds_org = true;
  selects = true;
  binds_project = true;
}

abbrev pub channel1 : Channel
channel1 = record { capacity = 3; is_open = true; queue = [] }

abbrev pub state1 : AppState ℕ
state1 = record {
  db = some database1;
  snapshot = snapshot1;
  force_overrides_enabled = true;
  events = some channel1;
  audit_inserts = true;
  audit_commits = true;
  audit_log = [];
}
