-- ===== src/Tokens/Revoked.antt =====
-- src/tokens.rs with src/auth/security.rs: a token that was revoked is let in no more.
use knievel.Base.{
  Bool-cases, Option-cases, nat_eq, ◌==◌, int_eq, All, any, find, Text, text, eqb_text_iff, text_eq,
  ℕ, suc, ◌≡◌, refl, sym, ap, ◌∙◌, subst, ◌≢◌, ◌⊎◌, inl, inr, Bool, true, false, none, some, List,
  [], ◌∷◌, arith,
}
use knievel.Base.Result.{ok}
use knievel.Auth.{Principal}
use knievel.Auth.Tenancy.{Tx, begin_bound}
use knievel.Auth.Opaque.{ParsedOpaque, db_id, parse}
use knievel.Auth.Bearer.{
  check_row, ApiToken, Host, is_live, select_token, verify_parsed, verify_opaque,
}
use knievel.Tokens.{
  CreateTokenRequest, CreateTokenResp, created, bad_request, RevokeTokenResp, no_content, Tables,
  Env, emit, denied, token_row, create_token, revokes, set_revoked, revoke_in, revoke_token,
}
use knievel.Tokens.Writes.{IsAllOrNothing, create_token-IsAllOrNothing}

-- The tables after calls on them, of whatever principals on whatever organizations.
pub data Later (start : Tables) : Tables → Type 0 where
  here : Later start start
  minted :
      (env : Env) (principal : Principal) (org : Text) (req : CreateTokenRequest) {tables : Tables}
      → Later start tables
      → Later start (create_token env principal org req tables).0
  revoked :
      (env : Env) (principal : Principal) (org id : Text) {tables : Tables}
      → Later start tables
      → Later start (revoke_token env principal org id tables).0

abbrev pub no_tables : Tables
no_tables = record { api_tokens = []; audit_log = [] }

abbrev has_id : Text → ApiToken → Bool
has_id id row = row.id == id

abbrev HasKeys : List ApiToken → Type 0
HasKeys [] = Unit
HasKeys (row ∷ rows) = (any (has_id row.id) rows ≡ false) × HasKeys rows

abbrev IsOver : Text → ApiToken → Type 0
IsOver id row = row.id ≡ id → row.revoked_at ≢ none

-- A row with the id is there, and whatever row has the id is revoked.
abbrev IsDead : Text → List ApiToken → Type 0
IsDead id rows = (any (has_id id) rows ≡ true) × All (IsOver id) rows

module _ (env : Env) (principal : Principal) (org : Text) where
  create_token-rows :
      (req : CreateTokenRequest) (tables : Tables)
      → ((create_token env principal org req tables).0.api_tokens ≡ tables.api_tokens)
        ⊎ ((row : ApiToken) × (any (has_id row.id) tables.api_tokens ≡ false)
            × ((create_token env principal org req tables).0.api_tokens ≡ row ∷ tables.api_tokens))
  unfolding IsAllOrNothing
  create_token-rows req tables =
      from (create_token env principal org req tables)
        (create_token-IsAllOrNothing env principal org req tables)
    where
      from :
          (end : Tables × CreateTokenResp)
          → IsAllOrNothing env principal org req tables end
          → (end.0.api_tokens ≡ tables.api_tokens)
            ⊎ ((row : ApiToken) × (any (has_id row.id) tables.api_tokens ≡ false)
                × (end.0.api_tokens ≡ row ∷ tables.api_tokens))
      from (after, created resp) m =
          inr (token_row env org req m.secret_hash, m.is_new, m.row_added)
      from (after, bad_request code) m = inl (ap Tables.api_tokens m)
      from (after, CreateTokenResp.forbidden code) m = inl (ap Tables.api_tokens m)
      from (after, CreateTokenResp.internal code) m = inl (ap Tables.api_tokens m)

  -- What a revocation leaves: all, or the rows of the statement, of which there is one.
  abbrev Revokes : Text → Tables → Tables × RevokeTokenResp → Type 0
  Revokes id tables (after, resp) =
      ((after ≡ tables) × (resp ≢ no_content))
      ⊎ ((tx : Tx) × (after.api_tokens ≡ (set_revoked env tx id tables.api_tokens).0)
          × ((set_revoked env tx id tables.api_tokens).1 ≢ 0))

  revoke_in-Revokes :
      (tx : Tx) (id : Text) (tables : Tables)
      → Revokes id tables (revoke_in env principal org tx id tables)
  unfolding revoke_in set_revoked emit
  revoke_in-Revokes tx id tables = elim (Bool-cases env.statement_fails) [
    | inl f ↦ rw (f, revoke_in) (inl (refl, λ e. cc))
    | inr f ↦ elim (Bool-cases ((set_revoked env tx id tables.api_tokens).1 == 0)) [
      | inl z ↦ rw (f, z, revoke_in) (inl (refl, λ e. cc))
      | inr z ↦
          elim (Option-cases (emit env principal (text "tokens.revoke") none tables.audit_log)) [
            | inl n ↦ rw (f, z, n, revoke_in) (inl (refl, λ e. cc))
            | inr (log, e) ↦ elim (Bool-cases env.commits) [
              | inr c ↦ rw (f, z, e, c, revoke_in) (inl (refl, λ e. cc))
              | inl c ↦ rw (f, z, e, c, revoke_in) (inr (tx, refl, λ n. ground (arith, z)))
            ]
          ]
    ]
  ]

  revoke_token-Revokes :
      (id : Text) (tables : Tables) → Revokes id tables (revoke_token env principal org id tables)
  unfolding revoke_token
  revoke_token-Revokes id tables = elim (Option-cases (denied principal org)) [
    | inr (code, d) ↦ rw (d, revoke_token) (inl (refl, λ e. cc))
    | inl d ↦ elim (Option-cases env.db) [
      | inl n ↦ simp (d, n, revoke_token) (inl (refl, λ e. cc))
      | inr (db, s) ↦ elim (Option-cases (begin_bound db org none)) [
        | inl n ↦ simp (d, s, n, revoke_token) (inl (refl, λ e. cc))
        | inr (tx, b) ↦ simp (d, s, b, revoke_token) (revoke_in-Revokes tx id tables)
      ]
    ]
  ]

module _ (env : Env) (tx : Tx) (id : Text) where
  abbrev after_revoke : List ApiToken → List ApiToken
  after_revoke rows = (set_revoked env tx id rows).0

  set_revoked-any :
      (other : Text) (rows : List ApiToken)
      → any (has_id other) (after_revoke rows) ≡ any (has_id other) rows
  unfolding set_revoked any
  set_revoked-any other [] = refl
  set_revoked-any other (row ∷ rows) = ground (arith, set_revoked-any other rows)

  abbrev rest_of : List ApiToken → List ApiToken × ℕ
  rest_of rows = set_revoked env tx id rows

  abbrev ended : ApiToken → ApiToken
  ended row = record row { revoked_at = some env.now }

  set_revoked-cons :
      (row : ApiToken) (rows : List ApiToken)
      → ((revokes tx id row ≡ true)
          × ((ended row ∷ (rest_of rows).0, suc (rest_of rows).1)
              ≡ set_revoked env tx id (row ∷ rows)))
        ⊎ ((revokes tx id row ≡ false)
            × ((row ∷ (rest_of rows).0, (rest_of rows).1) ≡ set_revoked env tx id (row ∷ rows)))
  unfolding set_revoked
  set_revoked-cons row rows = elim (Bool-cases (revokes tx id row)) [
    | inl r ↦ inl (r, rw (r, set_revoked) refl)
    | inr r ↦ inr (r, rw (r, set_revoked) refl)
  ]

  set_revoked-HasKeys : (rows : List ApiToken) → HasKeys rows → HasKeys (rest_of rows).0
  unfolding set_revoked
  set_revoked-HasKeys [] keys = tt
  set_revoked-HasKeys (row ∷ rows) keys =
      let rest : (any (has_id row.id) (rest_of rows).0 ≡ false) × HasKeys (rest_of rows).0 =
        (set_revoked-any row.id rows ∙ keys.0, set_revoked-HasKeys rows keys.1) in
      elim (set_revoked-cons row rows) [
        | inl (r, e) ↦ subst (λ (p : List ApiToken × ℕ). HasKeys p.0) e rest
        | inr (r, e) ↦ subst (λ (p : List ApiToken × ℕ). HasKeys p.0) e rest
      ]

  set_revoked-IsOver :
      (other : Text) (rows : List ApiToken)
      → All (IsOver other) rows
      → All (IsOver other) (rest_of rows).0
  unfolding set_revoked
  set_revoked-IsOver other [] over = tt
  set_revoked-IsOver other (row ∷ rows) over = elim (set_revoked-cons row rows) [
    | inl (r, e) ↦
        subst (λ (p : List ApiToken × ℕ). All (IsOver other) p.0) e
          ((λ same n. cc), set_revoked-IsOver other rows over.1)
    | inr (r, e) ↦
        subst (λ (p : List ApiToken × ℕ). All (IsOver other) p.0) e
          (over.0, set_revoked-IsOver other rows over.1)
  ]

  -- A table without the id has nothing to revoke.
  abbrev IsUntouched : List ApiToken × ℕ → Type 0
  IsUntouched p = (p.1 ≡ 0) × All (IsOver id) p.0

  set_revoked-absent :
      (rows : List ApiToken) → any (has_id id) rows ≡ false → IsUntouched (rest_of rows)
  unfolding set_revoked any
  set_revoked-absent [] h = (refl, tt)
  set_revoked-absent (row ∷ rows) h =
      let apart : has_id id row ≡ false = ground arith in
      let others : any (has_id id) rows ≡ false = ground arith in
      let (none_left, over) = set_revoked-absent rows others in
      elim (set_revoked-cons row rows) [
        | inl (r, e) ↦ let r' = r in ground arith
        | inr (r, e) ↦
            subst IsUntouched e
              (none_left, ((λ same n. ground (arith, eqb_text_iff row.id id)), over))
      ]

  set_revoked-IsDead :
      (rows : List ApiToken) → HasKeys rows → (rest_of rows).1 ≢ 0 → IsDead id (rest_of rows).0
  unfolding set_revoked any
  set_revoked-IsDead [] keys found = absurd (found refl)
  set_revoked-IsDead (row ∷ rows) keys found = elim (set_revoked-cons row rows) [
    | inl (r, e) ↦
        let same : row.id ≡ id = ground (arith, eqb_text_iff row.id id) in
        let apart = subst (λ i. any (has_id i) rows ≡ false) same keys.0 in
        subst (λ (p : List ApiToken × ℕ). IsDead id p.0) e
          (ground (arith, eqb_text_iff row.id id), ((λ e n. cc), (set_revoked-absent rows apart).1))
    | inr (r, e) ↦
        let left : (rest_of rows).1 ≢ 0 = λ z. found (ap (λ p. p.1) (sym e) ∙ z) in
        let (there, over) = set_revoked-IsDead rows keys.1 left in
        let mine : IsOver id row = λ same n.
          left (set_revoked-absent rows (subst (λ i. any (has_id i) rows ≡ false) same keys.0)).0 in
        subst (λ (p : List ApiToken × ℕ). IsDead id p.0) e (ground (arith, there), (mine, over))
  ]

-- The invariant of the ids, and of a revoked one, along whatever calls.
Later-HasKeys :
    {start tables : Tables}
    → Later start tables
    → HasKeys start.api_tokens
    → HasKeys tables.api_tokens
Later-HasKeys here keys = keys
Later-HasKeys (minted env principal org req {tables} l) keys =
    elim (create_token-rows env principal org req tables) [
      | inl same ↦ subst HasKeys (sym same) (Later-HasKeys l keys)
      | inr (row, is_new, added) ↦ subst HasKeys (sym added) (is_new, Later-HasKeys l keys)
    ]
Later-HasKeys (revoked env principal org id {tables} l) keys =
    elim (revoke_token-Revokes env principal org id tables) [
      | inl (same, _) ↦ subst (λ t. HasKeys t.api_tokens) (sym same) (Later-HasKeys l keys)
      | inr (tx, same, _) ↦
          subst HasKeys (sym same)
            (set_revoked-HasKeys env tx id tables.api_tokens (Later-HasKeys l keys))
    ]

Later-IsDead :
    (id : Text) {start tables : Tables}
    → Later start tables
    → IsDead id start.api_tokens
    → IsDead id tables.api_tokens
unfolding any
Later-IsDead id here dead = dead
Later-IsDead id (minted env principal org req {tables} l) dead =
    let (there, over) = Later-IsDead id l dead in
    elim (create_token-rows env principal org req tables) [
      | inl same ↦ subst (IsDead id) (sym same) (there, over)
      | inr (row, is_new, added) ↦
          let apart : IsOver id row = λ same n.
            let clash = subst (λ i. any (has_id i) tables.api_tokens ≡ false) same is_new in
            ground arith in
          subst (IsDead id) (sym added) (ground (arith, there), (apart, over))
    ]
Later-IsDead id (revoked env principal org other {tables} l) dead =
    let (there, over) = Later-IsDead id l dead in
    elim (revoke_token-Revokes env principal org other tables) [
      | inl (same, _) ↦ subst (λ t. IsDead id t.api_tokens) (sym same) (there, over)
      | inr (tx, same, _) ↦ subst (IsDead id) (sym same) (
        set_revoked-any env tx other id tables.api_tokens ∙ there,
        set_revoked-IsOver env tx other id tables.api_tokens over,
      )
    ]

dead-select_token :
    (host : Host) (bound id : Text) (rows : List ApiToken)
    → All (IsOver id) rows
    → select_token host bound id rows ≡ none
unfolding select_token find is_live
dead-select_token host bound id [] over = ground arith
dead-select_token host bound id (row ∷ rows) over =
    let rest = dead-select_token host bound id rows over.1 in
    let mine = over.0 in
    elim (Option-cases row.revoked_at) [
      | inr (at, r) ↦ ground (arith, r, rest)
      | inl n ↦
          let apart : has_id id row ≡ false = elim (Bool-cases (has_id id row)) [
            | inl t ↦ absurd (mine ((eqb_text_iff row.id id).0 t) n)
            | inr f ↦ f
          ] in
          ground (arith, rest, apart)
    ]

-- Once a revocation is answered with 204, no bearer token of that id is let in, at whatever time and
-- whatever tokens are minted and revoked in between, on tables that began empty.
pub revoke_token-stays :
    (env : Env) (principal : Principal) (org id : Text) (host : Host) (token : Text)
    (parsed : ParsedOpaque) {before after later : Tables}
    → Later no_tables before
    → revoke_token env principal org id before ≡ (after, no_content)
    → Later after later
    → parse token ≡ ok parsed
    → db_id parsed ≡ id
    → verify_opaque host later.api_tokens token ≡ none
unfolding verify_opaque verify_parsed check_row
revoke_token-stays env principal org id host token parsed {before} {after} {later} began h l p
      same =
    let keys = Later-HasKeys began tt in
    let dead : IsDead id after.api_tokens =
      elim (subst (Revokes env principal org id before) h
        (revoke_token-Revokes env principal org id before)) [
          | inl (_, other) ↦ absurd (other refl)
          | inr (tx, rows, found) ↦
              subst (IsDead id) (sym rows)
                (set_revoked-IsDead env tx id before.api_tokens keys found)
        ] in
    let over = (Later-IsDead id l dead).1 in
    ground (
      arith,
      p,
      dead-select_token host (db_id parsed) (db_id parsed) later.api_tokens
          (subst (λ i. All (IsOver i) later.api_tokens) (sym same) over),
    )
