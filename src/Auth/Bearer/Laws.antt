-- ===== src/Auth/Bearer/Laws.antt =====
-- src/auth/security.rs: what stands behind a principal that a bearer token is given.
use knievel.Base.{
  Bool-cases, Option-cases, nat_eq, ◌==◌, ℤ, ◌<ℤ◌, int_eq, In, find-some, Text, eqb_text_iff,
  text_eq, ◌≡◌, refl, sym, ap, subst, ◌⊎◌, inl, inr, Bool, true, ◌&&◌, Option, none, some, List,
  arith,
}
use knievel.Base.Result.{Result, ok, err, Result-cases, none≢some, some-injective}
use knievel.Auth.{Principal, TokenType, from_str}
use knievel.Auth.Opaque.{ParsedOpaque, db_id, parse}
use knievel.Auth.Jwt.{JwtError, Crates}
use knievel.Auth.Jwt.Verifier.{JwksCache, verify}
use knievel.Auth.Jwt.Verifier.Laws.{IsVouched, verify-IsVouched}
use knievel.Auth.Bearer.{
  ApiToken, Host, lookup_policy, is_live, select_token, scope_of, principal_of_row, check_row,
  accepted, verify_parsed, verify_opaque, is_enabled, looks_like_jwt, verify_bearer,
}

-- The principal that a row stands for.
pub record IsOf (row : ApiToken) (p : Principal) : Type 0 where
  pub token_type_is : p.token_type ≡ TokenType.opaque
  pub org_is : p.org_id ≡ row.org_id
  pub project_is : p.project_id ≡ row.project_id
  pub scope_is : scope_of row.scope ≡ some p.scope
  pub role_is : from_str row.role ≡ some p.role
  pub actor_is : p.actor_id ≡ row.id

-- The token names a row that is neither revoked nor expired, its secret fits the row's hash, and the
-- principal is the row's.
pub record IsLetIn (host : Host) (rows : List ApiToken) (token : Text) (p : Principal)
    : Type 0 where
  pub parsed : ParsedOpaque
  pub is_parsed : parse token ≡ ok parsed
  pub row : ApiToken
  pub stands : In row rows
  pub id_is : row.id ≡ db_id parsed
  pub not_revoked : row.revoked_at ≡ none
  pub not_expired : (at : ℤ) → row.expires_at ≡ some at → host.now <ℤ at
  pub fits : host.argon2 parsed.secret row.secret_hash ≡ true
  pub is_of : IsOf row p

principal_of_row-IsOf :
    (id : Text) (row : ApiToken) {p : Principal}
    → principal_of_row id row ≡ some p
    → row.id ≡ id
    → IsOf row p
unfolding principal_of_row
principal_of_row-IsOf id row {p} h same = elim (Option-cases (scope_of row.scope)) [
  | inl n ↦ none≢some (simp (n, principal_of_row) at h)
  | inr (scope, s) ↦ elim (Option-cases (from_str row.role)) [
    | inl n ↦ none≢some (simp (s, n, principal_of_row) at h)
    | inr (role, r) ↦
        subst (IsOf row) (some-injective (simp (s, r, principal_of_row) at h)) (record {
          token_type_is = refl;
          org_is = refl;
          project_is = refl;
          scope_is = s;
          role_is = r;
          actor_is = sym same;
        })
  ]
]

-- What the statement finds is live and has the id.
select_token-some :
    (host : Host) (bound id : Text) (rows : List ApiToken) {row : ApiToken}
    → select_token host bound id rows ≡ some row
    → In row rows × (row.id ≡ id) × (is_live host.now row ≡ true)
unfolding select_token
select_token-some host bound id rows {row} h = elim (Bool-cases host.selects) [
  | inr f ↦ none≢some (simp (f, select_token) at h)
  | inl t ↦
      let test : ApiToken → Bool =
        λ r. lookup_policy bound r && (r.id == id) && is_live host.now r in
      let (stands, passes) = find-some test rows (simp (t, select_token) at h) in
      (stands, ground (arith, passes, eqb_text_iff row.id id), ground (arith, passes))
]

is_live-true :
    (now : ℤ) (row : ApiToken)
    → is_live now row ≡ true
    → (row.revoked_at ≡ none) × ((at : ℤ) → row.expires_at ≡ some at → now <ℤ at)
unfolding is_live
is_live-true now row h = (ground arith, λ at e. ground arith)

check_row-some :
    (host : Host) (parsed : ParsedOpaque) (found : Option ApiToken) {p : Principal}
    → check_row host parsed found ≡ some p
    → (row : ApiToken) × (found ≡ some row)
      × (host.argon2 parsed.secret row.secret_hash ≡ true)
      × (principal_of_row (db_id parsed) row ≡ some p)
unfolding check_row
check_row-some host parsed none h = none≢some h
check_row-some host parsed (some row) h =
    elim (Bool-cases (host.argon2 parsed.secret row.secret_hash)) [
      | inr f ↦ none≢some (simp (f, check_row) at h)
      | inl t ↦ (row, refl, t, simp (t, check_row) at h)
    ]

verify_opaque-IsLetIn :
    (host : Host) (rows : List ApiToken) (token : Text) {p : Principal}
    → verify_opaque host rows token ≡ some p
    → IsLetIn host rows token p
unfolding verify_opaque verify_parsed
verify_opaque-IsLetIn host rows token {p} h = elim (Bool-cases host.has_pool) [
  | inr f ↦ none≢some (simp (f, verify_opaque) at h)
  | inl t ↦ elim (Result-cases (parse token)) [
    | inr (e, q) ↦ none≢some (simp (t, q, verify_opaque) at h)
    | inl (parsed, q) ↦ elim (Bool-cases (host.begins && host.binds_lookup)) [
      | inr f ↦ none≢some (simp (t, q, f, verify_opaque, verify_parsed) at h)
      | inl b ↦
          let id = db_id parsed in
          let (row, s, fits, is_row) =
            check_row-some host parsed (select_token host id id rows)
              (simp (t, q, b, verify_opaque, verify_parsed) at h) in
          let (stands, same, live) = select_token-some host id id rows s in
          let (unrevoked, fresh) = is_live-true host.now row live in
          record {
            parsed = parsed;
            is_parsed = q;
            row = row;
            stands = stands;
            id_is = same;
            not_revoked = unrevoked;
            not_expired = fresh;
            fits = fits;
            is_of = principal_of_row-IsOf id row is_row same;
          }
    ]
  ]
]

accepted-some :
    (verdict : Result JwtError Principal) {p : Principal}
    → accepted verdict ≡ some p
    → verdict ≡ ok p
accepted-some (ok q) h = ap ok (some-injective h)
accepted-some (err e) h = none≢some h

-- A bearer token that is given a principal is a JWT that a trusted issuer vouches for, where issuers are
-- configured, or it names a live row of the table and has the secret of its hash.
pub verify_bearer-IsBacked :
    {J K : Type 0} (crates : Crates J K) (host : Host) (cache : JwksCache) (rows : List ApiToken)
    (token : Text) {cache' : JwksCache} {p : Principal}
    → verify_bearer crates host cache rows token ≡ (cache', some p)
    → ((is_enabled crates host ≡ true) × IsVouched crates host.policies cache cache' token p)
      ⊎ ((cache' ≡ cache) × IsLetIn host rows token p)
unfolding verify_bearer
verify_bearer-IsBacked crates host cache rows token {cache'} {p} h =
    elim (Bool-cases (is_enabled crates host && looks_like_jwt crates token)) [
      | inr f ↦
          let h1 = simp (f, verify_bearer) at h in
          inr (sym (ap (λ r. r.0) h1), verify_opaque-IsLetIn host rows token (ap (λ r. r.1) h1))
      | inl t ↦
          let h1 = simp (t, verify_bearer) at h in
          let v = accepted-some (verify crates host.policies cache token).1 (ap (λ r. r.1) h1) in
          let verdict : verify crates host.policies cache token ≡ (cache', ok p) =
            λ i. (ap (λ r. r.0) h1 i, v i) in
          inl (ground arith, verify-IsVouched crates host.policies cache token verdict)
    ]
