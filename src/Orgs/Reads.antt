-- ===== src/Orgs/Reads.antt =====
-- src/orgs.rs: `get_project`, and what it answers behind `create_project`.
use knievel.Base.{
  if◌then◌else◌, Bool-cases, nat_eq, ◌==◌, ==_refl, int_eq, In, any, find, any_of_In, Text, text,
  eqb_text_iff, text_eq, ◌≡◌, refl, sym, ap, ◌∙◌, subst, inl, inr, Bool, true, false, not, ◌&&◌,
  ◌||◌, Option, none, some, List, [], ◌∷◌, arith,
}
use knievel.Auth.{Principal, Role, has_role_at_least}
use knievel.Auth.Tenancy.{Database, Tx, begin_bound}
use knievel.Orgs.{
  CreateProjectRequest, ProjectResponse, Project, Tables, Forms, Env, created, response_of,
  new_project, create_project,
}
use knievel.Orgs.Writes.{IsAllOrNothing}
use knievel.Orgs.Later.{Later, no_tables, created-IsCreated, Later-inv}
use knievel.Orgs.Replays.{begin_bound-org_id}

pub data GetProjectResponse : Type 0 where
  found : (response : ProjectResponse) → GetProjectResponse
  not_found : GetProjectResponse
  forbids : (code : Text) → GetProjectResponse
  fails : (code : Text) → GetProjectResponse

-- The policy `projects_tenant_isolation`.
abbrev pub is_readable : Tx → Project → Bool
is_readable tx row =
    row.org_id == tx.org_id || elim tx.project_id [ none ↦ false | some p ↦ row.id == p ]

abbrev pub get_answer : Forms → Option Project → GetProjectResponse
get_answer forms none = not_found
get_answer forms (some row) = found (response_of forms row)

-- `selects` is whether the database answers the query.
unfoldable pub get_project :
    Forms → Option Database → Bool → Principal → Text → Text → List Project → GetProjectResponse
get_project forms db selects principal path_org_id id projects =
    if not (principal.org_id == path_org_id)
    then forbids (text "wrong_tenant")
    else if not (has_role_at_least principal Role.reader)
    then forbids (text "role_insufficient")
    else elim db [
      | none ↦ fails (text "no_db")
      | some pool ↦ elim (begin_bound pool path_org_id none) [
        | none ↦ fails (text "db_error")
        | some tx ↦
            if not selects
            then fails (text "db_error")
            else get_answer forms (find (λ row. row.id == id && is_readable tx row) projects)
      ]
    ]

abbrev has_id : Text → Project → Bool
has_id id row = row.id == id

HasUniqueIds : List Project → Type 0
HasUniqueIds [] = Unit
HasUniqueIds (row ∷ rows) = (any (has_id row.id) rows ≡ false) × HasUniqueIds rows

Keeps : List Project → List Project → Type 0
Keeps rows rows' = HasUniqueIds rows → HasUniqueIds rows' × ((x : Project) → In x rows → In x rows')

added-Keeps :
    (row : Project) (rows rows' : List Project)
    → any (has_id row.id) rows ≡ false
    → rows' ≡ row ∷ rows
    → Keeps rows rows'
unfolding Keeps HasUniqueIds
added-Keeps row rows rows' new e =
    subst (λ k. HasUniqueIds rows → HasUniqueIds k × ((x : Project) → In x rows → In x k)) (sym e)
      (λ u. ((new, u), λ x i. inr i))

Later-Keeps :
    (forms : Forms) (start t : Tables) → Later forms start t → Keeps start.projects t.projects
unfolding Keeps
Later-Keeps forms start t l =
    Later-inv forms (λ k. Keeps start.projects k.projects)
      (λ env principal org key req k k' resp m kept u.
        let (u1, has) = kept u in
        let (u2, has') =
          added-Keeps (new_project env org req) k.projects k'.projects m.id_is_new
            (ap Tables.projects m.rows_added) u1 in
        (u2, λ x i. has' x (has x i)))
      start t l (λ u. (u, λ x i. i))

find-id :
    (tx : Tx) (row : Project) (rows : List Project)
    → HasUniqueIds rows
    → In row rows
    → row.org_id ≡ tx.org_id
    → find (λ x. has_id row.id x && is_readable tx x) rows ≡ some row
unfolding find HasUniqueIds
find-id tx row [] u i own = elim i [ ]
find-id tx row (x ∷ rows) (alone, u) (inl e) own =
    let same = (eqb_text_iff row.org_id tx.org_id).1 own in
    subst (λ y. find (λ z. has_id row.id z && is_readable tx z) (y ∷ rows) ≡ some row) e
      (rw (==_refl row.id, same, find) refl)
find-id tx row (x ∷ rows) (alone, u) (inr i) own = elim (Bool-cases (has_id row.id x)) [
  | inr f ↦ rw (f, find) (find-id tx row rows u i own)
  | inl t ↦
      let back : has_id x.id row ≡ true =
        (eqb_text_iff row.id x.id).1 (sym ((eqb_text_iff x.id row.id).0 t)) in
      let both = any_of_In (has_id x.id) row rows i back in ground (arith, both, alone)
]

-- A project that a create was answered with is what `get_project` answers under its id, to every
-- reader of the organization and whatever was created in between, on tables that began empty.
get_project-created :
    (forms : Forms) (env : Env) (principal reader : Principal) (org : Text) (key : Option Text)
    (req : CreateProjectRequest) (resp : ProjectResponse) (db : Database) {tx : Tx}
    {before after later : Tables}
    → Later forms no_tables before
    → create_project forms env principal org key req before ≡ (after, created resp none)
    → Later forms after later
    → reader.org_id ≡ org
    → has_role_at_least reader Role.reader ≡ true
    → begin_bound db org none ≡ some tx
    → get_project forms (some db) true reader org resp.id later.projects ≡ found resp
unfolding get_project IsAllOrNothing Keeps HasUniqueIds
get_project-created forms env principal reader org key req resp db {tx} {before} {after} {later}
      began call l own least begun =
    let m = created-IsCreated forms env principal org key req before call in
    let row = new_project env org req in
    let (u, _) = Later-Keeps forms no_tables before began tt in
    let (u1, _) =
      added-Keeps row before.projects after.projects m.id_is_new (ap Tables.projects m.rows_added)
        u in
    let there : In row after.projects =
      subst (In row) (sym (ap Tables.projects m.rows_added)) (inl refl) in
    let (u2, kept) = Later-Keeps forms after later l u1 in
    let f = find-id tx row later.projects u2 (kept row there) (begin_bound-org_id db org begun) in
    let mine = (eqb_text_iff reader.org_id org).1 own in
    ap (λ (r : ProjectResponse). get_project forms (some db) true reader org r.id later.projects)
      m.answered
    ∙ answer row.id later.projects mine f
    ∙ ap found (sym m.answered)
  where
    answer :
        (id : Text) (rows : List Project)
        → (reader.org_id == org) ≡ true
        → find (λ x. has_id id x && is_readable tx x) rows ≡ some (new_project env org req)
        → get_project forms (some db) true reader org id rows
          ≡ found (response_of forms (new_project env org req))
    answer id rows mine f = simp (mine, least, begun, get_project) (ap (get_answer forms) f)
