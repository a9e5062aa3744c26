-- ===== src/Orgs.antt =====
-- src/orgs.rs: `create_project` with its idempotent replay, and the taxonomy that it seeds
-- (src/taxonomy.rs). The database's answers, JSON, SHA-256 and random bytes are parameters; the texts
-- of messages are left out.
pub mod Writes
pub mod Later
pub mod Replays
pub mod Reads
pub mod Seeds
pub mod Lists
use knievel.Base.{
  if◌then◌else◌, nat_eq, ◌==◌, ℤ, ◌+ℤ◌, int_eq, any, Text, text, text_eq, pos, ℕ, Bool, true, false,
  not, ◌&&◌, ◌||◌, Option, none, some, List, ◌∷◌, ◌++◌,
}
use knievel.Base.Result.{Result, ok, err}
use knievel.Auth.{Principal, Role, has_role_at_least}
use knievel.Auth.Tenancy.{Database, Tx, begin_bound}
use knievel.Sql.{PgErrorKind, unique_violation, other, is_external_id_conflict}
use knievel.Tokens.{hex}
use knievel.Taxonomy.{
  Channel, Priority, AdType, default_channels, default_priorities, default_ad_types,
}
use knievel.Idempotency.{
  IdempotencyKey, CheckResult, fresh, replay, conflict, body_hash, replay_window, check, store,
}

pub record CreateProjectRequest : Type 0 where
  pub external_id : Option Text
  pub name : Text

pub record ProjectResponse : Type 0 where
  pub id : Text
  pub external_id : Option Text
  pub name : Text
  pub is_active : Bool
  pub etag : Text
  pub created_at : Text
  pub updated_at : Text

pub record Project : Type 0 where
  pub id : Text
  pub org_id : Text
  pub external_id : Option Text
  pub name : Text
  pub is_active : Bool
  pub etag : Text
  pub created_at : ℤ
  pub updated_at : ℤ

pub record Tables : Type 0 where
  pub projects : List Project
  pub channels : List Channel
  pub priorities : List Priority
  pub ad_types : List AdType
  pub idempotency_keys : List IdempotencyKey

-- The forms of bodies, and SHA-256.
pub record Forms : Type 0 where
  pub request_json : CreateProjectRequest → Option Text
  pub response_json : ProjectResponse → Option Text
  pub read_response : Text → Option ProjectResponse
  pub sha256 : Text → List ℕ
  pub to_char : ℤ → Text

-- What the database answers to a call, its clock, the random bytes of a call, and the ids that the
-- sequences give to its rows.
pub record Env : Type 0 where
  pub db : Option Database
  pub checks : Bool
  pub inserts : Bool
  pub binds_project : Bool
  pub seeds : Bool
  pub stores : Bool
  pub commits : Bool
  pub now : ℤ
  pub id_bytes : List ℕ
  pub channel_ids : ℕ → ℤ
  pub priority_ids : ℕ → ℤ
  pub ad_type_ids : ℕ → ℤ
  pub etag : Text

pub data CreateProjectResponse : Type 0 where
  created : (response : ProjectResponse) (replayed : Option Text) → CreateProjectResponse
  forbidden : (code : Text) → CreateProjectResponse
  conflicts : (code : Text) → CreateProjectResponse
  internal : (code : Text) → CreateProjectResponse

abbrev pub route : Text
route = text "POST /v1/orgs/{org_id}/projects"

abbrev pub response_of : Forms → Project → ProjectResponse
response_of forms row = record {
  id = row.id;
  external_id = row.external_id;
  name = row.name;
  is_active = row.is_active;
  etag = row.etag;
  created_at = forms.to_char row.created_at;
  updated_at = forms.to_char row.updated_at;
}

abbrev pub new_project : Env → Text → CreateProjectRequest → Project
new_project env org_id req = record {
  id = text "pj_" ++ hex env.id_bytes;
  org_id = org_id;
  external_id = req.external_id;
  name = req.name;
  is_active = true;
  etag = env.etag;
  created_at = env.now;
  updated_at = env.now;
}

-- `UNIQUE (org_id, external_id)`, where NULLs differ.
abbrev pub has_external_id : Text → Option Text → Project → Bool
has_external_id org_id none row = false
has_external_id org_id (some e) row =
    row.org_id == org_id && elim row.external_id [ none ↦ false | some f ↦ f == e ]

-- `INSERT INTO knievel.projects`, under the `WITH CHECK` of the policy.
unfoldable pub insert_project :
    Env → Tx → Project → List Project → Result PgErrorKind (List Project)
insert_project env tx row rows =
    if not env.inserts || not (row.org_id == tx.org_id)
    then err other
    else if any (λ (old : Project). old.id == row.id) rows
    then err (unique_violation (some (text "projects_pkey")))
    else if any (has_external_id row.org_id row.external_id) rows
    then err (unique_violation (some (text "projects_org_id_external_id_key")))
    else ok (row ∷ rows)

abbrev pub seed_default_taxonomy : Env → Text → Text → Tables → Tables
seed_default_taxonomy env o p t = record t {
  channels = default_channels env.channel_ids env.now o p ++ t.channels;
  priorities = default_priorities env.priority_ids env.now o p ++ t.priorities;
  ad_types = default_ad_types env.ad_type_ids env.now o p ++ t.ad_types;
}

abbrev pub key_row : Forms → Env → Text → Text → Text → Text → IdempotencyKey
key_row forms env org_id key hash body = record {
  org_id = org_id;
  project_id = none;
  key = key;
  route = route;
  body_hash = hash;
  response_status = pos 201;
  response_body = body;
  created_at = env.now;
  expires_at = env.now +ℤ replay_window;
}

-- The answer to a `CheckResult`, unless the handler goes on.
unfoldable pub answer_of : Forms → CheckResult → Option CreateProjectResponse
answer_of forms fresh = none
answer_of forms conflict = some (conflicts (text "idempotency_conflict"))
answer_of forms (replay status body) = elim (forms.read_response body) [
  | none ↦ none
  | some response ↦ if status == 201 then some (created response (some (text "true"))) else none
]

unfoldable pub insert_failed : PgErrorKind → CreateProjectResponse
insert_failed kind =
    if is_external_id_conflict kind
    then conflicts (text "external_id_conflict")
    else internal (text "db_error")

module _ (forms : Forms) (env : Env) (principal : Principal) (path_org_id : Text) where
  unfoldable pub replayed : Tx → Text → Option Text → Tables → Option CreateProjectResponse
  replayed tx hash none tables = none
  replayed tx hash (some key) tables =
      elim (check env.checks env.now tx path_org_id none key route hash tables.idempotency_keys) [
        | none ↦ some (internal (text "db_error"))
        | some result ↦ answer_of forms result
      ]

  -- The rows with that of the answer, where there is a key; the code of an error.
  unfoldable pub store_answer :
      Tx
      → Text
      → Option Text
      → ProjectResponse
      → List IdempotencyKey
      → Result Text (List IdempotencyKey)
  store_answer tx hash none response rows = ok rows
  store_answer tx hash (some key) response rows = elim (forms.response_json response) [
    | none ↦ err (text "internal_error")
    | some body ↦ elim (store env.stores tx (key_row forms env path_org_id key hash body) rows) [
      | none ↦ err (text "db_error")
      | some rows' ↦ ok rows'
    ]
  ]

  -- From the insert on.
  unfoldable pub execute :
      Tx → Text → Option Text → CreateProjectRequest → Tables → Tables × CreateProjectResponse
  execute tx hash key req tables =
      let row = new_project env path_org_id req in
      elim (insert_project env tx row tables.projects) [
        | err kind ↦ (tables, insert_failed kind)
        | ok projects ↦
            if not env.binds_project || not env.seeds
            then (tables, internal (text "db_error"))
            else elim (store_answer tx hash key (response_of forms row) tables.idempotency_keys) [
              | err code ↦ (tables, internal code)
              | ok keys ↦
                  if env.commits
                  then (
                    seed_default_taxonomy env path_org_id row.id
                        (record tables { projects = projects; idempotency_keys = keys }),
                    created (response_of forms row) none,
                  )
                  else (tables, internal (text "db_error"))
            ]
      ]

  unfoldable pub create_in :
      Tx → Option Text → CreateProjectRequest → Tables → Tables × CreateProjectResponse
  create_in tx key req tables = elim (body_hash forms.sha256 (forms.request_json req)) [
    | none ↦ (tables, internal (text "internal_error"))
    | some hash ↦ elim (replayed tx hash key tables) [
      | some answer ↦ (tables, answer)
      | none ↦ execute tx hash key req tables
    ]
  ]

  unfoldable pub create_project :
      Option Text → CreateProjectRequest → Tables → Tables × CreateProjectResponse
  create_project key req tables =
      if not (principal.org_id == path_org_id)
      then (tables, forbidden (text "wrong_tenant"))
      else if not (has_role_at_least principal Role.org_admin)
      then (tables, forbidden (text "role_insufficient"))
      else elim env.db [
        | none ↦ (tables, internal (text "no_db"))
        | some db ↦ elim (begin_bound db path_org_id none) [
          | none ↦ (tables, internal (text "db_error"))
          | some tx ↦ create_in tx key req tables
        ]
      ]
