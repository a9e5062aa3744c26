-- ===== src/Tokens/Writes.antt =====
-- src/tokens.rs: what a call that mints or revokes leaves in the two tables, by its answer.
use knievel.Base.{
  Bool-cases, Option-cases, nat_eq, ◌==◌, int_eq, any, Text, text, eqb_text_iff, text_eq, ◌≤◌, ◌≡◌,
  refl, sym, inl, inr, false, Option, none, some, List, [], ◌∷◌, ◌++◌, arith,
}
use knievel.Auth.{Principal, Role, rank, has_role_at_least}
use knievel.Auth.Tenancy.{Database, Tx, begin_bound}
use knievel.Auth.Bearer.{ApiToken}
use knievel.Tokens.{
  CreateTokenRequest, CreateTokenResponse, CreateTokenResp, created, bad_request, AuditRow, Tables,
  Env, hex, hash_payload, audit_row, emit, request_error, denied, token_row, plaintext_of,
  insert_token, mint, create_token,
}

-- The principal manages the tokens of the organization.
abbrev pub Manages : Principal → Text → Type 0
Manages principal org = (principal.org_id ≡ org) × (rank Role.org_admin ≤ rank principal.role)

pub denied-none :
    (principal : Principal) (org : Text) → denied principal org ≡ none → Manages principal org
unfolding denied has_role_at_least
denied-none principal org h = ground (arith, eqb_text_iff principal.org_id org)

-- What a mint that is answered with a token has done.
pub record IsMinted (env : Env) (principal : Principal) (org : Text) (req : CreateTokenRequest)
    (before after : Tables) (resp : CreateTokenResponse) : Type 0 where
  pub manages : Manages principal org
  pub accepted : request_error req ≡ none
  pub secret_hash : Text
  pub hashed : env.hash (hex env.secret_bytes) ≡ some secret_hash
  pub is_new :
      any (λ (old : ApiToken). old.id == (token_row env org req secret_hash).id) before.api_tokens
      ≡ false
  pub row_added : after.api_tokens ≡ token_row env org req secret_hash ∷ before.api_tokens
  pub payload_hash : Option Text
  pub audited :
      after.audit_log
      ≡ before.audit_log ++ audit_row principal (text "tokens.mint") payload_hash ∷ []
  pub id_is : resp.id ≡ text "tok_" ++ hex env.id_bytes
  pub secret_is : resp.secret ≡ plaintext_of env req

module _ (env : Env) (principal : Principal) (org : Text) (req : CreateTokenRequest)
    (tables : Tables) where
  unfoldable pub IsAllOrNothing : Tables × CreateTokenResp → Type 0
  IsAllOrNothing (after, created resp) = IsMinted env principal org req tables after resp
  IsAllOrNothing (after, bad_request code) = after ≡ tables
  IsAllOrNothing (after, CreateTokenResp.forbidden code) = after ≡ tables
  IsAllOrNothing (after, CreateTokenResp.internal code) = after ≡ tables

  emit-some :
      (action : Text) (payload : Option (Option Text)) {log : List AuditRow}
      → emit env principal action payload tables.audit_log ≡ some log
      → (hash : Option Text) × (log ≡ tables.audit_log ++ audit_row principal action hash ∷ [])
  unfolding emit
  emit-some action none h = (none, ground arith)
  emit-some action (some none) h = (none, ground arith)
  emit-some action (some (some hash)) h = (some hash, ground arith)

  insert_token-some :
      (db : Database) (tx : Tx) (row : ApiToken) (rows : List ApiToken) {written : List ApiToken}
      → insert_token env db tx row rows ≡ some written
      → (any (λ (old : ApiToken). old.id == row.id) rows ≡ false) × (row ∷ rows ≡ written)
  unfolding insert_token
  insert_token-some db tx row rows h = ground arith

  mint-IsAllOrNothing :
      (db : Database) (secret_hash : Text)
      → Manages principal org
      → request_error req ≡ none
      → env.hash (hex env.secret_bytes) ≡ some secret_hash
      → IsAllOrNothing (mint env principal org db req secret_hash tables)
  unfolding mint IsAllOrNothing
  mint-IsAllOrNothing db secret_hash manages accepted hashed =
      let row = token_row env org req secret_hash in
      let payload = hash_payload env (text "token") row.id (env.to_json req) in
      elim (Option-cases (begin_bound db org none)) [
        | inl n ↦ rw (n, mint) refl
        | inr (tx, b) ↦ elim (Option-cases (insert_token env db tx row tables.api_tokens)) [
          | inl n ↦ rw (b, n, mint) refl
          | inr (rows, i) ↦
              elim (Option-cases
                (emit env principal (text "tokens.mint") (some payload) tables.audit_log)) [
                  | inl n ↦ rw (b, i, n, mint) refl
                  | inr (log, e) ↦ elim (Bool-cases env.commits) [
                    | inr c ↦ rw (b, i, e, c, mint) refl
                    | inl c ↦
                        let (is_new, same) = insert_token-some db tx row tables.api_tokens i in
                        let (hash, logged) = emit-some (text "tokens.mint") (some payload) e in
                        rw (b, i, e, c, mint)
                          (record {
                            manages = manages;
                            accepted = accepted;
                            secret_hash = secret_hash;
                            hashed = hashed;
                            is_new = is_new;
                            row_added = sym same;
                            payload_hash = hash;
                            audited = logged;
                            id_is = refl;
                            secret_is = refl;
                          })
                  ]
                ]
        ]
      ]

-- A mint that is answered with a token was made by an admin of that organization for a request in
-- order; it has added the one row of the token, whose id was free, and its audit row. Every other
-- answer leaves both tables.
pub create_token-IsAllOrNothing :
    (env : Env) (principal : Principal) (org : Text) (req : CreateTokenRequest) (tables : Tables)
    → IsAllOrNothing env principal org req tables (create_token env principal org req tables)
unfolding create_token IsAllOrNothing
create_token-IsAllOrNothing env principal org req tables =
    elim (Option-cases (denied principal org)) [
      | inr (code, d) ↦ rw (d, create_token) refl
      | inl d ↦ elim (Option-cases (request_error req)) [
        | inr (code, q) ↦ rw (d, q, create_token) refl
        | inl q ↦ elim (Option-cases env.db) [
          | inl n ↦ simp (d, q, n, create_token) refl
          | inr (db, s) ↦ elim (Option-cases (env.hash (hex env.secret_bytes))) [
            | inl n ↦ rw (d, q, s, n, create_token) refl
            | inr (h, e) ↦
                simp (d, q, s, e, create_token)
                  (mint-IsAllOrNothing env principal org req tables db h
                    (denied-none principal org d) q e)
          ]
        ]
      ]
    ]
