-- ===== src/Orgs/Replays.antt =====
-- src/orgs.rs with src/idempotency.rs: a call of `create_project` that is repeated under its key.
use knievel.Base.{
  if◌then◌else◌, lt→ltb, Bool-cases, nat_eq, ◌==◌, pos_part, neg_part, ◌+ℤ◌, ◌<ℤ◌, int_eq, as_u64,
  In, any, Text, text, text_eq, ◌+◌, ◌≡◌, refl, sym, ap, ◌∙◌, subst, inl, inr, true, false, Option,
  none, some, List, arith,
}
use knievel.Base.Result.{some-injective}
use knievel.Auth.{Principal, Role, has_role_at_least}
use knievel.Auth.Tenancy.{Database, Tx, begin_bound, bind_project}
use knievel.Idempotency.{
  IdempotencyKey, CheckResult, is_slot, result_of, replay_window, body_hash, check,
}
use knievel.Idempotency.Laws.{HasUniqueSlots, check-stored, store-keeps}
use knievel.Orgs.{
  CreateProjectRequest, ProjectResponse, Tables, Forms, Env, CreateProjectResponse, created,
  conflicts, route, key_row, answer_of, replayed, create_in, create_project,
}
use knievel.Orgs.Writes.{KeysAfter}
use knievel.Orgs.Later.{Later, no_tables, created-IsCreated, Later-inv}

-- What calls keep of the stored answers.
Keeps : List IdempotencyKey → List IdempotencyKey → Type 0
Keeps rows rows' =
    HasUniqueSlots rows → HasUniqueSlots rows' × ((x : IdempotencyKey) → In x rows → In x rows')

KeysAfter-Keeps :
    (forms : Forms) (env : Env) (org hash : Text) (resp : ProjectResponse) (key : Option Text)
    (rows rows' : List IdempotencyKey)
    → KeysAfter forms env org hash resp key rows rows'
    → Keeps rows rows'
unfolding KeysAfter Keeps
KeysAfter-Keeps forms env org hash resp none rows rows' h u =
    subst (λ r. HasUniqueSlots r × ((x : IdempotencyKey) → In x rows → In x r)) (sym h)
      (u, λ x i. i)
KeysAfter-Keeps forms env org hash resp (some key) rows rows' (tx, body, _, s) u =
    let (u', kept, _) = store-keeps env.stores tx (key_row forms env org key hash body) rows s u in
    (u', kept)

Later-Keeps :
    (forms : Forms) (start t : Tables)
    → Later forms start t
    → Keeps start.idempotency_keys t.idempotency_keys
unfolding Keeps
Later-Keeps forms start t l =
    Later-inv forms (λ k. Keeps start.idempotency_keys k.idempotency_keys)
      (λ env principal org key req k k' resp m kept u.
        let (u1, has) = kept u in
        let (u2, has') =
          KeysAfter-Keeps forms env org m.hash resp key k.idempotency_keys k'.idempotency_keys
            m.keys u1 in
        (u2, λ x i. has' x (has x i)))
      start t l (λ u. (u, λ x i. i))

-- A call that reaches the look-up of its key.
pub record IsServed (env : Env) (principal : Principal) (org : Text) : Type 0 where
  pub own : (principal.org_id == org) ≡ true
  pub admin : has_role_at_least principal Role.org_admin ≡ true
  pub db : Database
  pub has_db : env.db ≡ some db
  pub tx : Tx
  pub begun : begin_bound db org none ≡ some tx
  pub checked : env.checks ≡ true

pub begin_bound-org_id :
    (db : Database) (org : Text) {tx : Tx} → begin_bound db org none ≡ some tx → org ≡ tx.org_id
unfolding begin_bound bind_project
begin_bound-org_id db org h = ground arith

module _ (forms : Forms) (env : Env) (principal : Principal) (org : Text)
    (req : CreateProjectRequest) where
  create_project-served :
      (key : Option Text) (t : Tables) (served : IsServed env principal org)
      → create_project forms env principal org key req t
        ≡ create_in forms env principal org served.tx key req t
  unfolding create_project
  create_project-served key t served =
      simp (served.own, served.admin, served.has_db, served.begun, create_project) refl

  create_in-answered :
      (tx : Tx) (key hash : Text) (result : CheckResult) (answer : CreateProjectResponse)
      (t : Tables)
      → body_hash forms.sha256 (forms.request_json req) ≡ some hash
      → check env.checks env.now tx org none key route hash t.idempotency_keys ≡ some result
      → answer_of forms result ≡ some answer
      → create_in forms env principal org tx (some key) req t ≡ (t, answer)
  unfolding create_in replayed
  create_in-answered tx key hash result answer t hashed found answers =
      rw (hashed, found, answers, create_in, replayed) refl

-- What a stored answer makes of a call, by the hashes of the two bodies.
abbrev pub answer_again : Text → Text → ProjectResponse → CreateProjectResponse
answer_again hash hash' resp =
    if hash == hash'
    then created resp (some (text "true"))
    else conflicts (text "idempotency_conflict")

answer_of-key_row :
    (forms : Forms) (env : Env) (org key hash hash' body : Text) (resp : ProjectResponse)
    → forms.read_response body ≡ some resp
    → answer_of forms (result_of hash' (some (key_row forms env org key hash body)))
      ≡ some (answer_again hash hash' resp)
unfolding answer_of as_u64
answer_of-key_row forms env org key hash hash' body resp reads = elim (Bool-cases (hash == hash')) [
  | inl e ↦ rw (e, reads, answer_of) refl
  | inr n ↦ rw (n, answer_of) refl
]

-- Once a create was answered with a new project under a key whose slot was free, every call of
-- that organization under that key within the 24 hours, by whoever may create there and whatever
-- was called in between, changes nothing: a body of the same hash is answered with the same
-- project as a replay, and any other with `idempotency_conflict`. The tables began empty, and a
-- stored answer reads back as it was.
pub create_project-replayed :
    (forms : Forms) (env env' : Env) (principal principal' : Principal) (org key : Text)
    (req req' : CreateProjectRequest) (resp : ProjectResponse) {before after later : Tables}
    {hash hash' : Text}
    → ((r : ProjectResponse) (b : Text)
        → forms.response_json r ≡ some b
        → forms.read_response b ≡ some r)
    → Later forms no_tables before
    → any (is_slot org none key route) before.idempotency_keys ≡ false
    → create_project forms env principal org (some key) req before ≡ (after, created resp none)
    → Later forms after later
    → env'.now <ℤ env.now +ℤ replay_window
    → IsServed env' principal' org
    → body_hash forms.sha256 (forms.request_json req) ≡ some hash
    → body_hash forms.sha256 (forms.request_json req') ≡ some hash'
    → create_project forms env' principal' org (some key) req' later
      ≡ (later, answer_again hash hash' resp)
unfolding KeysAfter Keeps HasUniqueSlots
create_project-replayed forms env env' principal principal' org key req req' resp {before} {after}
      {later} {hash} {hash'} faithful began vacant call l within served h h' =
    let m = created-IsCreated forms env principal org (some key) req before call in
    let (u, _) = Later-Keeps forms no_tables before began tt in
    let (tx, body, j, s) = m.keys in
    let row = key_row forms env org key m.hash body in
    let (u1, _, stored) = store-keeps env.stores tx row before.idempotency_keys s u in
    let (u2, kept) = Later-Keeps forms after later l u1 in
    let same : m.hash ≡ hash = some-injective (sym m.hashed ∙ h) in
    let found =
      check-stored env'.now served.tx row hash' later.idempotency_keys u2 (kept row (stored vacant))
        (begin_bound-org_id served.db org served.begun)
        (lt→ltb (pos_part env'.now + neg_part (env.now +ℤ replay_window))
          (pos_part (env.now +ℤ replay_window) + neg_part env'.now) within) in
    create_project-served forms env' principal' org req' (some key) later served
    ∙ create_in-answered forms env' principal' org req' served.tx key hash'
        (result_of hash' (some row)) (answer_again m.hash hash' resp) later h'
        (ap (λ b. check b env'.now served.tx org none key route hash' later.idempotency_keys)
            served.checked
          ∙ found)
        (answer_of-key_row forms env org key m.hash hash' body resp (faithful resp body j))
    ∙ ap (λ k. (later, answer_again k hash' resp)) same
