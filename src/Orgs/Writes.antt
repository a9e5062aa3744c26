-- ===== src/Orgs/Writes.antt =====
-- src/orgs.rs: what a call of `create_project` leaves in the tables, by its answer.
use knievel.Base.{
  Bool-cases, Option-cases, nat_eq, ◌==◌, int_eq, any, Text, eqb_text_iff, text_eq, ◌≡◌, refl, sym,
  ap, ◌∙◌, subst, inl, inr, true, false, not, ◌||◌, Option, none, some, List, ◌∷◌, arith,
}
use knievel.Base.Result.{ok, err≢ok, ok-injective, none≢some, some-injective, Result-cases}
use knievel.Auth.{Principal, Role, has_role_at_least}
use knievel.Auth.Tenancy.{Tx, begin_bound}
use knievel.Tokens.Writes.{Manages}
use knievel.Idempotency.{
  IdempotencyKey, CheckResult, fresh, replay, conflict, body_hash, check, store,
}
use knievel.Sql.{PgErrorKind, is_external_id_conflict}
use knievel.Orgs.{
  CreateProjectRequest, ProjectResponse, Project, Tables, Forms, Env, CreateProjectResponse,
  created, forbidden, conflicts, internal, route, response_of, new_project, has_external_id,
  insert_project, seed_default_taxonomy, key_row, answer_of, replayed, store_answer, insert_failed,
  execute, create_in, create_project,
}

-- The rows of the keys, by the key of the call.
unfoldable pub KeysAfter :
    Forms
    → Env
    → Text
    → Text
    → ProjectResponse
    → Option Text
    → List IdempotencyKey
    → List IdempotencyKey
    → Type 0
KeysAfter forms env org hash resp none rows rows' = rows' ≡ rows
KeysAfter forms env org hash resp (some key) rows rows' =
    (tx : Tx) × (body : Text) × (forms.response_json resp ≡ some body)
    × (store env.stores tx (key_row forms env org key hash body) rows ≡ some rows')

-- What a call that is answered with a new project has done.
pub record IsCreated (forms : Forms) (env : Env) (principal : Principal) (org : Text)
    (key : Option Text) (req : CreateProjectRequest) (before after : Tables)
    (resp : ProjectResponse) : Type 0 where
  pub manages : Manages principal org
  pub hash : Text
  pub hashed : body_hash forms.sha256 (forms.request_json req) ≡ some hash
  pub id_is_new :
      any (λ (old : Project). old.id == (new_project env org req).id) before.projects ≡ false
  pub external_id_is_new : any (has_external_id org req.external_id) before.projects ≡ false
  pub keys : KeysAfter forms env org hash resp key before.idempotency_keys after.idempotency_keys
  pub rows_added :
      after
      ≡ seed_default_taxonomy env org (new_project env org req).id (record before {
        projects = new_project env org req ∷ before.projects;
        idempotency_keys = after.idempotency_keys;
      })
  pub answered : resp ≡ response_of forms (new_project env org req)

module _ (forms : Forms) (env : Env) (principal : Principal) (org : Text) (key : Option Text)
    (req : CreateProjectRequest) (tables : Tables) where
  unfoldable pub IsAllOrNothing : Tables × CreateProjectResponse → Type 0
  IsAllOrNothing (after, created resp none) =
      IsCreated forms env principal org key req tables after resp
  IsAllOrNothing (after, created resp (some replayed)) = after ≡ tables
  IsAllOrNothing (after, forbidden code) = after ≡ tables
  IsAllOrNothing (after, conflicts code) = after ≡ tables
  IsAllOrNothing (after, internal code) = after ≡ tables

  insert_project-ok :
      (tx : Tx) (row : Project) (rows : List Project) {written : List Project}
      → insert_project env tx row rows ≡ ok written
      → (any (λ (old : Project). old.id == row.id) rows ≡ false)
        × (any (has_external_id row.org_id row.external_id) rows ≡ false)
        × (row ∷ rows ≡ written)
  unfolding insert_project
  insert_project-ok tx row rows h = ground arith

  insert_failed-nothing : (kind : PgErrorKind) → IsAllOrNothing (tables, insert_failed kind)
  unfolding insert_failed IsAllOrNothing
  insert_failed-nothing kind = elim (Bool-cases (is_external_id_conflict kind)) [
    | inl t ↦ rw (t, insert_failed) refl
    | inr f ↦ rw (f, insert_failed) refl
  ]

  answer_of-nothing :
      (result : CheckResult) {answer : CreateProjectResponse}
      → answer_of forms result ≡ some answer
      → IsAllOrNothing (tables, answer)
  unfolding answer_of IsAllOrNothing
  answer_of-nothing fresh h = none≢some h
  answer_of-nothing conflict h = subst (λ a. IsAllOrNothing (tables, a)) (some-injective h) refl
  answer_of-nothing (replay status body) h = elim (Option-cases (forms.read_response body)) [
    | inl n ↦ none≢some (rw (n, answer_of) at h)
    | inr (resp, r) ↦ elim (Bool-cases (status == 201)) [
      | inl t ↦
          subst (λ a. IsAllOrNothing (tables, a)) (some-injective (rw (r, t, answer_of) at h)) refl
      | inr f ↦ none≢some (rw (r, f, answer_of) at h)
    ]
  ]

  replayed-nothing :
      (tx : Tx) (hash : Text) (key : Option Text) {answer : CreateProjectResponse}
      → replayed forms env principal org tx hash key tables ≡ some answer
      → IsAllOrNothing (tables, answer)
  unfolding replayed IsAllOrNothing
  replayed-nothing tx hash none h = none≢some h
  replayed-nothing tx hash (some key) h =
      elim (Option-cases
        (check env.checks env.now tx org none key route hash tables.idempotency_keys)) [
          | inl n ↦
              subst (λ a. IsAllOrNothing (tables, a)) (some-injective (rw (n, replayed) at h)) refl
          | inr (result, c) ↦ answer_of-nothing result (rw (c, replayed) at h)
        ]

  store_answer-ok :
      (tx : Tx) (hash : Text) (key : Option Text) (resp : ProjectResponse)
      (rows : List IdempotencyKey) {rows' : List IdempotencyKey}
      → store_answer forms env principal org tx hash key resp rows ≡ ok rows'
      → KeysAfter forms env org hash resp key rows rows'
  unfolding store_answer KeysAfter
  store_answer-ok tx hash none resp rows h = sym (ok-injective h)
  store_answer-ok tx hash (some key) resp rows {rows'} h =
      elim (Option-cases (forms.response_json resp)) [
        | inl n ↦ err≢ok (rw (n, store_answer) at h)
        | inr (body, j) ↦
            elim (Option-cases (store env.stores tx (key_row forms env org key hash body) rows)) [
              | inl n ↦ err≢ok (rw (j, n, store_answer) at h)
              | inr (stored, s) ↦
                  (tx, body, j, s ∙ ap some (ok-injective (rw (j, s, store_answer) at h)))
            ]
      ]

  execute-IsAllOrNothing :
      (tx : Tx) (hash : Text)
      → Manages principal org
      → body_hash forms.sha256 (forms.request_json req) ≡ some hash
      → IsAllOrNothing (execute forms env principal org tx hash key req tables)
  unfolding execute IsAllOrNothing
  execute-IsAllOrNothing tx hash manages hashed =
      let row = new_project env org req in
      elim (Result-cases (insert_project env tx row tables.projects)) [
        | inr (kind, n) ↦ rw (n, execute) (insert_failed-nothing kind)
        | inl (rows, i) ↦ elim (Bool-cases (not env.binds_project || not env.seeds)) [
          | inl t ↦ rw (i, t, execute) refl
          | inr f ↦
              elim (Result-cases (
                store_answer forms env principal org tx hash key (response_of forms row)
                  tables.idempotency_keys)) [
                    | inr (code, n) ↦ rw (i, f, n, execute) refl
                    | inl (keys, s) ↦ elim (Bool-cases env.commits) [
                      | inr c ↦ rw (i, f, s, c, execute) refl
                      | inl c ↦
                          let (id_is_new, external_id_is_new, same) =
                            insert_project-ok tx row tables.projects i in
                          simp (i, f, s, c, execute)
                            (record {
                              manages = manages;
                              hash = hash;
                              hashed = hashed;
                              id_is_new = id_is_new;
                              external_id_is_new = external_id_is_new;
                              keys =
                                  store_answer-ok tx hash key (response_of forms row)
                                    tables.idempotency_keys s;
                              rows_added =
                                  ap
                                    (λ ps.
                                      seed_default_taxonomy env org row.id
                                        (record tables { projects = ps; idempotency_keys = keys }))
                                    (sym same);
                              answered = refl;
                            })
                    ]
                  ]
        ]
      ]

  create_in-IsAllOrNothing :
      (tx : Tx)
      → Manages principal org
      → IsAllOrNothing (create_in forms env principal org tx key req tables)
  unfolding create_in IsAllOrNothing
  create_in-IsAllOrNothing tx manages =
      elim (Option-cases (body_hash forms.sha256 (forms.request_json req))) [
        | inl n ↦ rw (n, create_in) refl
        | inr (hash, h) ↦
            elim (Option-cases (replayed forms env principal org tx hash key tables)) [
              | inr (answer, r) ↦ rw (h, r, create_in) (replayed-nothing tx hash key r)
              | inl n ↦ rw (h, n, create_in) (execute-IsAllOrNothing tx hash manages h)
            ]
      ]

Manages-of :
    (principal : Principal) (org : Text)
    → (principal.org_id == org) ≡ true
    → has_role_at_least principal Role.org_admin ≡ true
    → Manages principal org
unfolding has_role_at_least
Manages-of principal org o r = ground (arith, eqb_text_iff principal.org_id org)

-- A call that is answered with a new project was made by an admin of that organization; the
-- project's id and its external id were free, and the tables gained its row, its default taxonomy
-- and, under a key, what the store makes of the answer. Every other answer leaves all tables.
pub create_project-IsAllOrNothing :
    (forms : Forms) (env : Env) (principal : Principal) (org : Text) (key : Option Text)
    (req : CreateProjectRequest) (tables : Tables)
    → IsAllOrNothing forms env principal org key req tables
        (create_project forms env principal org key req tables)
unfolding create_project IsAllOrNothing
create_project-IsAllOrNothing forms env principal org key req tables =
    elim (Bool-cases (principal.org_id == org)) [
      | inr f ↦ rw (f, create_project) refl
      | inl o ↦ elim (Bool-cases (has_role_at_least principal Role.org_admin)) [
        | inr f ↦ rw (o, f, create_project) refl
        | inl r ↦ elim (Option-cases env.db) [
          | inl n ↦ simp (o, r, n, create_project) refl
          | inr (db, d) ↦ elim (Option-cases (begin_bound db org none)) [
            | inl n ↦ simp (o, r, d, n, create_project) refl
            | inr (tx, b) ↦
                simp (o, r, d, b, create_project)
                  (create_in-IsAllOrNothing forms env principal org key req tables tx
                    (Manages-of principal org o r))
          ]
        ]
      ]
    ]
