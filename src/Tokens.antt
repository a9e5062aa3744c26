-- ===== src/Tokens.antt =====
-- src/tokens.rs and src/audit.rs: the tokens of an organization, and the rows of `knievel.audit_log`
-- that minting and revoking write. The state is the two tables. Random bytes, argon2, serde and SHA-256
-- are parameters, and so is what the database answers for a reason outside these tables.
pub mod Writes
pub mod Minted
pub mod Revoked
use mathlib.Core.Option
use knievel.Base.{
  ltb, if◌then◌else◌, nat_eq, ◌==◌, ℤ, ltb_ℤ, int_eq, take, filter, any, Text, text, text_eq, ℕ,
  suc, ◌+◌, ◌/◌, ◌%◌, Bool, true, false, not, ◌&&◌, ◌||◌, Option, none, some, List, [], ◌∷◌, ◌++◌,
  map,
}
use knievel.Auth.{Principal, Role, has_role_at_least}
use knievel.Auth.Tenancy.{Database, ProjectRow, Tx, begin_bound}
use knievel.Auth.Bearer.{ApiToken}

pub record CreateTokenRequest : Type 0 where
  pub name : Text
  pub scope : Text
  pub project_id : Option Text
  pub role : Text
  pub expires_at : Option Text
  pub ip_allowlist : Option (List Text)

pub record CreateTokenResponse : Type 0 where
  pub id : Text
  pub secret : Text
  pub name : Text
  pub scope : Text
  pub role : Text
  pub created_at : ℤ

pub record TokenSummary : Type 0 where
  pub id : Text
  pub name : Text
  pub scope : Text
  pub role : Text
  pub project_id : Option Text
  pub created_at : ℤ
  pub last_used_at : Option ℤ
  pub revoked_at : Option ℤ
  pub expires_at : Option ℤ

-- By the code of the error.
pub data CreateTokenResp : Type 0 where
  created : CreateTokenResponse → CreateTokenResp
  bad_request : Text → CreateTokenResp
  forbidden : Text → CreateTokenResp
  internal : Text → CreateTokenResp

pub data ListTokensResp : Type 0 where
  ok_tokens : List TokenSummary → ListTokensResp
  forbidden : Text → ListTokensResp
  internal : Text → ListTokensResp

pub data RevokeTokenResp : Type 0 where
  no_content : RevokeTokenResp
  forbidden : Text → RevokeTokenResp
  not_found : RevokeTokenResp
  internal : Text → RevokeTokenResp

pub record AuditRow : Type 0 where
  pub org_id : Text
  pub project_id : Option Text
  pub actor : Text
  pub operation : Text
  pub payload_hash : Option Text

pub record Tables : Type 0 where
  pub api_tokens : List ApiToken
  pub audit_log : List AuditRow

-- Around one call. `hash` is argon2 with the salt that it drew; `bytes` are those of the two draws.
pub record Env : Type 0 where
  pub db : Option Database
  pub statement_fails : Bool
  pub audit_fails : Bool
  pub commits : Bool
  pub now : ℤ
  pub id_bytes : List ℕ
  pub secret_bytes : List ℕ
  pub hash : Text → Option Text
  pub to_json : CreateTokenRequest → Option Text
  pub sha256 : Text → List ℕ

abbrev pub hex_digit : ℕ → ℕ
hex_digit d = if ltb d 10 then 48 + d else 87 + d

-- `hex::encode`
unfoldable pub hex : List ℕ → Text
hex [] = []
hex (b ∷ bs) = hex_digit (b / 16) ∷ hex_digit (b % 16) ∷ hex bs

unfoldable pub hash_input : Text → Text → Text → Text
hash_input resource_kind resource_id body = resource_kind ++ 0 ∷ (resource_id ++ 0 ∷ body)

-- `none` is a body that does not serialize.
abbrev pub hash_payload : Env → Text → Text → Option Text → Option Text
hash_payload env resource_kind resource_id body =
    Option.map (λ b. hex (env.sha256 (hash_input resource_kind resource_id b))) body

abbrev pub audit_row : Principal → Text → Option Text → AuditRow
audit_row actor action payload_hash = record {
  org_id = actor.org_id;
  project_id = actor.project_id;
  actor = actor.actor_id;
  operation = action;
  payload_hash = payload_hash;
}

-- `emit`: the log with the row, or `none`. The payload's hash is given if there is a payload.
unfoldable pub emit :
    Env → Principal → Text → Option (Option Text) → List AuditRow → Option (List AuditRow)
emit env actor action payload log = elim payload [
  | none ↦ if env.audit_fails then none else some (log ++ audit_row actor action none ∷ [])
  | some hashed ↦ elim hashed [
    | none ↦ none
    | some h ↦ if env.audit_fails then none else some (log ++ audit_row actor action (some h) ∷ [])
  ]
]

abbrev pub role_names : List Text
role_names = text "reader" ∷ text "editor" ∷ text "admin" ∷ text "org-admin" ∷ text "org-owner" ∷ []

-- The tests on the request, in order.
unfoldable pub request_error : CreateTokenRequest → Option Text
request_error req =
    if not (req.scope == text "org") && not (req.scope == text "project")
    then some (text "invalid_scope")
    else if not (any (λ r. req.role == r) role_names)
    then some (text "invalid_role")
    else if (req.scope == text "project") && elim req.project_id [ none ↦ true | some p ↦ false ]
    then some (text "project_id_required")
    else if (req.scope == text "org") && elim req.project_id [ none ↦ false | some p ↦ true ]
    then some (text "project_id_forbidden")
    else none

-- Whose tokens a principal may manage.
unfoldable pub denied : Principal → Text → Option Text
denied principal path_org_id =
    if not (principal.org_id == path_org_id)
    then some (text "wrong_tenant")
    else if not (has_role_at_least principal Role.org_admin)
    then some (text "role_insufficient")
    else none

abbrev pub token_row : Env → Text → CreateTokenRequest → Text → ApiToken
token_row env org_id req secret_hash = record {
  id = text "tok_" ++ hex env.id_bytes;
  org_id = org_id;
  project_id = req.project_id;
  scope = req.scope;
  role = req.role;
  name = req.name;
  secret_hash = secret_hash;
  ip_allowlist = Option.get_or req.ip_allowlist [];
  expires_at = none;
  revoked_at = none;
  created_at = env.now;
  last_used_at = none;
}

abbrev pub plaintext_of : Env → CreateTokenRequest → Text
plaintext_of env req =
    text "kvl_prod_" ++ (req.scope ++ 95 ∷ (hex env.id_bytes ++ 95 ∷ hex env.secret_bytes))

-- `REFERENCES knievel.projects(id)`, of a column that may be NULL.
abbrev pub project_exists : Database → Option Text → Bool
project_exists db none = true
project_exists db (some p) = any (λ (row : ProjectRow). row.id == p) db.projects

-- `INSERT INTO knievel.api_tokens`, under the `WITH CHECK` of the policy.
unfoldable pub insert_token :
    Env → Database → Tx → ApiToken → List ApiToken → Option (List ApiToken)
insert_token env db tx row rows =
    if env.statement_fails
      || not (row.org_id == tx.org_id)
      || any (λ (old : ApiToken). old.id == row.id) rows
      || not (project_exists db row.project_id)
    then none
    else some (row ∷ rows)

-- Newest first.
unfoldable pub insert_newest : ApiToken → List ApiToken → List ApiToken
insert_newest row [] = row ∷ []
insert_newest row (x ∷ xs) =
    let rest = insert_newest row xs in
    if ltb_ℤ row.created_at x.created_at then x ∷ rest else row ∷ x ∷ xs

unfoldable pub newest : List ApiToken → List ApiToken
newest [] = []
newest (x ∷ xs) = insert_newest x (newest xs)

abbrev pub summary_of : ApiToken → TokenSummary
summary_of row = record {
  id = row.id;
  name = row.name;
  scope = row.scope;
  role = row.role;
  project_id = row.project_id;
  created_at = row.created_at;
  last_used_at = row.last_used_at;
  revoked_at = row.revoked_at;
  expires_at = row.expires_at;
}

-- The policy, in a transaction that has no project.
abbrev pub token_policy : Tx → ApiToken → Bool
token_policy tx row = row.org_id == tx.org_id

abbrev pub revokes : Tx → Text → ApiToken → Bool
revokes tx id row =
    token_policy tx row && (row.id == id) && elim row.revoked_at [ none ↦ true | some at ↦ false ]

-- The rows behind `SET revoked_at = now()`, and how many of them there are.
unfoldable pub set_revoked : Env → Tx → Text → List ApiToken → List ApiToken × ℕ
set_revoked env tx id [] = ([], 0)
set_revoked env tx id (row ∷ rows) =
    let (rest, n) = set_revoked env tx id rows in
    if revokes tx id row
    then (record row { revoked_at = some env.now } ∷ rest, suc n)
    else (row ∷ rest, n)

module _ (env : Env) (principal : Principal) (path_org_id : Text) where
  unfoldable pub mint : Database → CreateTokenRequest → Text → Tables → Tables × CreateTokenResp
  mint db req secret_hash tables =
      let row = token_row env path_org_id req secret_hash in
      elim (begin_bound db path_org_id none) [
        | none ↦ (tables, CreateTokenResp.internal (text "db_error"))
        | some tx ↦ elim (insert_token env db tx row tables.api_tokens) [
          | none ↦ (tables, CreateTokenResp.internal (text "db_error"))
          | some tokens ↦
              elim (emit env principal (text "tokens.mint")
                (some (hash_payload env (text "token") row.id (env.to_json req)))
                tables.audit_log) [
                  | none ↦ (tables, CreateTokenResp.internal (text "db_error"))
                  | some log ↦
                      if env.commits
                      then (
                        record { api_tokens = tokens; audit_log = log },
                        created (record {
                          id = row.id;
                          secret = plaintext_of env req;
                          name = row.name;
                          scope = row.scope;
                          role = row.role;
                          created_at = row.created_at;
                        }),
                      )
                      else (tables, CreateTokenResp.internal (text "db_error"))
                ]
        ]
      ]

  unfoldable pub create_token : CreateTokenRequest → Tables → Tables × CreateTokenResp
  create_token req tables = elim (denied principal path_org_id) [
    | some code ↦ (tables, CreateTokenResp.forbidden code)
    | none ↦ elim (request_error req) [
      | some code ↦ (tables, bad_request code)
      | none ↦ elim env.db [
        | none ↦ (tables, CreateTokenResp.internal (text "no_db"))
        | some db ↦ elim (env.hash (hex env.secret_bytes)) [
          | none ↦ (tables, CreateTokenResp.internal (text "hash_failed"))
          | some secret_hash ↦ mint db req secret_hash tables
        ]
      ]
    ]
  ]

  unfoldable pub list_tokens : Tables → ListTokensResp
  list_tokens tables = elim (denied principal path_org_id) [
    | some code ↦ ListTokensResp.forbidden code
    | none ↦ elim env.db [
      | none ↦ ListTokensResp.internal (text "no_db")
      | some db ↦ elim (begin_bound db path_org_id none) [
        | none ↦ ListTokensResp.internal (text "db_error")
        | some tx ↦
            if env.statement_fails
            then ListTokensResp.internal (text "db_error")
            else ok_tokens
                (map summary_of (take 500 (newest (filter (token_policy tx) tables.api_tokens))))
      ]
    ]
  ]

  unfoldable pub revoke_in : Tx → Text → Tables → Tables × RevokeTokenResp
  revoke_in tx id tables =
      if env.statement_fails
      then (tables, RevokeTokenResp.internal (text "db_error"))
      else (let (rows, updated) = set_revoked env tx id tables.api_tokens in
          if updated == 0
          then (tables, not_found)
          else elim (emit env principal (text "tokens.revoke") none tables.audit_log) [
            | none ↦ (tables, RevokeTokenResp.internal (text "db_error"))
            | some log ↦
                if env.commits
                then (record { api_tokens = rows; audit_log = log }, no_content)
                else (tables, RevokeTokenResp.internal (text "db_error"))
          ])

  unfoldable pub revoke_token : Text → Tables → Tables × RevokeTokenResp
  revoke_token id tables = elim (denied principal path_org_id) [
    | some code ↦ (tables, RevokeTokenResp.forbidden code)
    | none ↦ elim env.db [
      | none ↦ (tables, RevokeTokenResp.internal (text "no_db"))
      | some db ↦ elim (begin_bound db path_org_id none) [
        | none ↦ (tables, RevokeTokenResp.internal (text "db_error"))
        | some tx ↦ revoke_in tx id tables
      ]
    ]
  ]
