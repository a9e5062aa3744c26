-- ===== src/Examples/Projects.antt =====
-- A project that is created twice under one key. The toy JSON knows one answer.
use knievel.Base.{
  if◌then◌else◌, Bool-cases, nat_eq, ◌==◌, ◌+ℤ◌, ◌<ℤ◌, int_eq, any, find, Text, text, eqb_text_iff,
  text_eq, pos, ◌≡◌, refl, ap, inl, inr, Bool, true, false, ◌&&◌, none, some, [], ◌∷◌, arith,
}
use knievel.Base.Result.{ok, none≢some}
use knievel.Auth.{Principal, Role, Scope, TokenType, has_role_at_least}
use knievel.Auth.Tenancy.{Database, begin_bound, bind_project, open_project_tx}
use knievel.Tokens.{hex}
use knievel.Idempotency.{replay_window, store, check}
use knievel.Orgs.{
  CreateProjectRequest, ProjectResponse, Tables, Forms, Env, created, conflicts, create_project,
  create_in, answer_of, replayed, execute, store_answer, insert_project,
}
use knievel.Orgs.Writes.{IsAllOrNothing, create_project-IsAllOrNothing}
use knievel.Orgs.Later.{here, called, no_tables}
use knievel.Orgs.Replays.{IsServed, create_project-replayed}
use knievel.Taxonomy
use knievel.Taxonomy.{found, default_priorities, list_priorities}
use knievel.Orgs.Seeds.{list_priorities-seeded}
use knievel.Orgs.Lists.{listed, list_projects, list_projects-resolves}
use knievel.Examples.World.{database1}

abbrev project_answer : ProjectResponse
project_answer = record {
  id = text "pj_ab";
  external_id = none;
  name = text "shop";
  is_active = true;
  etag = text "e";
  created_at = text "t";
  updated_at = text "t";
}

abbrev is_known : ProjectResponse → Bool
is_known r =
    r.id == text "pj_ab"
    && elim r.external_id [ none ↦ true | some e ↦ false ]
    && (r.name == text "shop")
    && r.is_active
    && (r.etag == text "e")
    && (r.created_at == text "t")
    && (r.updated_at == text "t")

abbrev toy_forms : Forms
toy_forms = record {
  request_json = λ req. some req.name;
  response_json = λ r. if is_known r then some (text "{}") else none;
  read_response = λ b. some project_answer;
  sha256 = λ b. b;
  to_char = λ at. text "t";
}

known-same : (r : ProjectResponse) → is_known r ≡ true → project_answer ≡ r
known-same r h =
    let e1 : text "pj_ab" ≡ r.id = ground (arith, eqb_text_iff r.id (text "pj_ab"), h) in
    let e2 : none ≡ r.external_id = ground (arith, h) in
    let e3 : text "shop" ≡ r.name = ground (arith, eqb_text_iff r.name (text "shop"), h) in
    let e4 : true ≡ r.is_active = ground (arith, h) in
    let e5 : text "e" ≡ r.etag = ground (arith, eqb_text_iff r.etag (text "e"), h) in
    let e6 : text "t" ≡ r.created_at = ground (arith, eqb_text_iff r.created_at (text "t"), h) in
    let e7 : text "t" ≡ r.updated_at = ground (arith, eqb_text_iff r.updated_at (text "t"), h) in
    λ i. record {
      id = e1 i;
      external_id = e2 i;
      name = e3 i;
      is_active = e4 i;
      etag = e5 i;
      created_at = e6 i;
      updated_at = e7 i;
    }

reads_back :
    (r : ProjectResponse) (b : Text)
    → toy_forms.response_json r ≡ some b
    → toy_forms.read_response b ≡ some r
reads_back r b h = elim (Bool-cases (is_known r)) [
  | inl t ↦ ap some (known-same r t)
  | inr f ↦ none≢some (rw f at h)
]

abbrev project_env : Env
project_env = record {
  db = some database1;
  checks = true;
  inserts = true;
  binds_project = true;
  seeds = true;
  stores = true;
  commits = true;
  now = pos 50;
  id_bytes = 0xab ∷ [];
  channel_ids = λ i. pos i;
  priority_ids = λ i. pos i;
  ad_type_ids = λ i. pos i;
  etag = text "e";
}

abbrev org_admin1 : Principal
org_admin1 = record {
  token_type = TokenType.opaque;
  scope = Scope.org;
  org_id = text "org";
  project_id = none;
  role = Role.org_admin;
  actor_id = text "tok_aa";
}

abbrev shop_request : CreateProjectRequest
shop_request = record { external_id = none; name = text "shop" }

abbrev created_tables : Tables
created_tables =
    (create_project toy_forms project_env org_admin1 (text "org") (some (text "k")) shop_request
      no_tables).0

shop_created :
    create_project toy_forms project_env org_admin1
      (text "org")
      (some (text "k"))
      shop_request
      no_tables
    ≡ (created_tables, created project_answer none)
unfolding create_project create_in replayed execute store_answer insert_project store check
    has_role_at_least begin_bound bind_project any find hex answer_of
shop_created = refl

create_project-IsAllOrNothing_example :
    IsAllOrNothing toy_forms project_env org_admin1
      (text "org")
      (some (text "k"))
      shop_request
      no_tables
      (create_project toy_forms project_env org_admin1
        (text "org")
        (some (text "k"))
        shop_request
        no_tables)
create_project-IsAllOrNothing_example =
    create_project-IsAllOrNothing toy_forms project_env org_admin1 (text "org") (some (text "k"))
      shop_request no_tables

-- An hour later, with other random bytes.
abbrev later_env : Env
later_env = record project_env { now = pos 3600000050; id_bytes = 0xcd ∷ [] }

later_served : IsServed later_env org_admin1 (text "org")
unfolding has_role_at_least begin_bound bind_project
later_served = record {
  own = refl;
  admin = refl;
  db = database1;
  has_db = refl;
  tx = record { org_id = text "org"; project_id = none };
  begun = refl;
  checked = refl;
}

within_a_day : later_env.now <ℤ project_env.now +ℤ replay_window
unfolding ◌+ℤ◌
within_a_day = omega arith

-- The same body is replayed, and another body under the key is refused.
create_project-replayed_example :
    create_project toy_forms later_env org_admin1
      (text "org")
      (some (text "k"))
      (record { external_id = none; name = text "bar" })
      created_tables
    ≡ (created_tables, conflicts (text "idempotency_conflict"))
unfolding hex any
create_project-replayed_example =
    create_project-replayed toy_forms project_env later_env org_admin1 org_admin1 (text "org")
      (text "k") shop_request (record { external_id = none; name = text "bar" }) project_answer
      reads_back here refl shop_created here within_a_day later_served refl refl

reads_org : has_role_at_least org_admin1 Role.reader ≡ true
unfolding has_role_at_least
reads_org = refl

begun_org :
    begin_bound database1 (text "org") none
    ≡ some (record { org_id = text "org"; project_id = none })
unfolding begin_bound bind_project
begun_org = refl

-- The database of a reader who comes later.
abbrev database2 : Database
database2 = record database1 { projects = record { id = text "pj_ab"; org_id = text "org" } ∷ [] }

abbrev host2 : knievel.Taxonomy.Env
host2 = record { db = some database2; selects = true }

opens2 :
    open_project_tx database2 org_admin1 (text "pj_ab") Role.reader
    ≡ ok (record { org_id = text "org"; project_id = some (text "pj_ab") })
unfolding open_project_tx any
opens2 = refl

list_priorities-seeded_example :
    list_priorities host2 org_admin1 (text "pj_ab") created_tables.priorities
    ≡ found (default_priorities (λ i. pos i) (pos 50) (text "org") (text "pj_ab"))
list_priorities-seeded_example =
    list_priorities-seeded toy_forms project_env org_admin1 org_admin1 (text "org")
      (some (text "k")) shop_request project_answer host2 database2 here shop_created here refl refl
      opens2

-- A project with an external id, and another one after it.
abbrev named_request : CreateProjectRequest
named_request = record { external_id = some (text "x1"); name = text "shop" }

abbrev named_answer : ProjectResponse
named_answer = record project_answer { external_id = some (text "x1") }

abbrev named_tables : Tables
named_tables =
    (create_project toy_forms project_env org_admin1 (text "org") none named_request no_tables).0

named_created :
    create_project toy_forms project_env org_admin1 (text "org") none named_request no_tables
    ≡ (named_tables, created named_answer none)
unfolding create_project create_in replayed execute store_answer insert_project has_role_at_least
    begin_bound bind_project any find hex
named_created = refl

list_projects-resolves_example :
    list_projects
      (λ a b. false)
      toy_forms
      (some database1)
      true
      org_admin1
      (text "org")
      none
      (some (text "x1"))
      (create_project toy_forms later_env org_admin1
        (text "org")
        none
        shop_request
        named_tables).0.projects
    ≡ listed (named_answer ∷ [])
list_projects-resolves_example =
    list_projects-resolves (λ a b. false) toy_forms project_env org_admin1 org_admin1 (text "org")
      (text "x1") none named_request named_answer database1 none no_tables refl named_created
      (called later_env org_admin1 (text "org") none shop_request here) refl reads_org begun_org
