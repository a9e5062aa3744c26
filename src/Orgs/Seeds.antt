-- ===== src/Orgs/Seeds.antt =====
-- src/orgs.rs with src/taxonomy.rs: what the readers of a project that was created find.
use knievel.Base.{
  Bool-cases, nat_eq, ◌==◌, ==_refl, ℤ, int_eq, All, filter, any, Text, eqb_text_iff, text_eq, ℕ,
  ◌≡◌, refl, sym, ap, ◌∙◌, subst, inl, inr, Bool, true, false, Option, none, some, List, [], ◌∷◌,
  ◌++◌, arith,
}
use knievel.Base.Result.{ok}
use knievel.Auth.{Principal, Role}
use knievel.Auth.Tenancy.{Database, Tx, open_project_tx}
use knievel.Taxonomy.{
  Priority, default_priorities, found, Env, is_bound, insert_asc, sort_asc, list_rows,
  list_priorities,
}
use knievel.Orgs
use knievel.Orgs.{
  CreateProjectRequest, ProjectResponse, Project, Tables, Forms, created, new_project,
  create_project,
}
use knievel.Orgs.Writes.{IsCreated}
use knievel.Orgs.Later.{Later, no_tables, created-IsCreated, Later-inv}

abbrev has_id : Text → Project → Bool
has_id id row = row.id == id

abbrev is_of : Text → Priority → Bool
is_of project row = row.project_id == project

-- The foreign key of the priorities.
abbrev HasProjects : List Project → List Priority → Type 0
HasProjects projects = All (λ (r : Priority). any (has_id r.project_id) projects ≡ true)

-- A new project with its rows.
record Adds (t t' : Tables) : Type 0 where
  row : Project
  ids : ℕ → ℤ
  is_new : any (has_id row.id) t.projects ≡ false
  projects : t'.projects ≡ row ∷ t.projects
  rows : t'.priorities ≡ default_priorities ids row.created_at row.org_id row.id ++ t.priorities

created-Adds :
    {forms : Forms} {env : knievel.Orgs.Env} {principal : Principal} {org : Text}
    {key : Option Text} {req : CreateProjectRequest} {t t' : Tables} {resp : ProjectResponse}
    → IsCreated forms env principal org key req t t' resp
    → Adds t t'
created-Adds {env = env} {org = org} {req = req} m = record {
  row = new_project env org req;
  ids = env.priority_ids;
  is_new = m.id_is_new;
  projects = ap Tables.projects m.rows_added;
  rows = ap Tables.priorities m.rows_added;
}

any-added :
    (id : Text) (row : Project) (rows : List Project)
    → any (has_id id) rows ≡ true
    → any (has_id id) (row ∷ rows) ≡ true
unfolding any
any-added id row rows h = elim (Bool-cases (has_id id row)) [
  | inl t ↦ rw (t, any) refl
  | inr f ↦ rw (f, any) h
]

any-top : (row : Project) (rows : List Project) → any (has_id row.id) (row ∷ rows) ≡ true
unfolding any
any-top row rows = rw (==_refl row.id, any) refl

added-HasProjects :
    (row : Project) (projects : List Project) (rows : List Priority)
    → HasProjects projects rows
    → HasProjects (row ∷ projects) rows
added-HasProjects row projects [] h = tt
added-HasProjects row projects (r ∷ rows) (there, h) =
    (any-added r.project_id row projects there, added-HasProjects row projects rows h)

Adds-HasProjects :
    (t t' : Tables)
    → Adds t t'
    → HasProjects t.projects t.priorities
    → HasProjects t'.projects t'.priorities
Adds-HasProjects t t' m h =
    let top = any-top m.row t.projects in
    subst (λ ps. HasProjects ps t'.priorities) (sym m.projects)
      (subst (HasProjects (m.row ∷ t.projects)) (sym m.rows)
        (top, (top, (top, added-HasProjects m.row t.projects t.priorities h))))

-- A project that is not there has no rows.
none-of :
    (project : Text) (projects : List Project) (rows : List Priority)
    → any (has_id project) projects ≡ false
    → HasProjects projects rows
    → filter (is_of project) rows ≡ []
unfolding filter
none-of project projects [] new h = refl
none-of project projects (r ∷ rows) new (there, h) = elim (Bool-cases (is_of project r)) [
  | inr f ↦ rw (f, filter) (none-of project projects rows new h)
  | inl t ↦
      let there' : any (has_id project) projects ≡ true =
        subst (λ p. any (has_id p) projects ≡ true) ((eqb_text_iff r.project_id project).0 t)
          there in
      ground (arith, there', new)
]

-- The rows of a project that is there stay.
abbrev Keeps : Text → List Priority → Tables → Type 0
Keeps project rows t =
    (any (has_id project) t.projects ≡ true) × (filter (is_of project) t.priorities ≡ rows)

Adds-Keeps :
    (project : Text) (found_rows : List Priority) (t t' : Tables)
    → Adds t t'
    → Keeps project found_rows t
    → Keeps project found_rows t'
unfolding filter
Adds-Keeps project found_rows t t' m (h, same) = elim (Bool-cases (m.row.id == project)) [
  | inl e ↦
      let there =
        subst (λ p. any (has_id p) t.projects ≡ true) (sym ((eqb_text_iff m.row.id project).0 e))
          h in
      ground (arith, there, m.is_new)
  | inr f ↦ (
    ap (any (has_id project)) m.projects ∙ any-added project m.row t.projects h,
    ap (filter (is_of project)) m.rows ∙ rw (f, filter) refl ∙ same,
  )
]

seeded :
    (ids : ℕ → ℤ) (now : ℤ) (o project : Text) (rows : List Priority)
    → filter (is_of project) rows ≡ []
    → filter (is_of project) (default_priorities ids now o project ++ rows)
      ≡ default_priorities ids now o project
unfolding filter
seeded ids now o project rows h =
    rw (==_refl project, filter) (ap (λ rs. default_priorities ids now o project ++ rs) h)

sorted :
    (ids : ℕ → ℤ) (now : ℤ) (o project : Text)
    → sort_asc Priority.project_id Priority.tier (default_priorities ids now o project)
      ≡ default_priorities ids now o project
unfolding sort_asc insert_asc
sorted ids now o project = refl

open_project_tx-bound :
    (db : Database) (reader : Principal) (project : Text) (least : Role) {tx : Tx}
    → open_project_tx db reader project least ≡ ok tx
    → tx.project_id ≡ some project
unfolding open_project_tx
open_project_tx-bound db reader project least h = ground (arith, h)

bound-filter :
    (tx : Tx) (project : Text) (rows : List Priority)
    → tx.project_id ≡ some project
    → filter (λ (r : Priority). is_bound tx r.project_id) rows ≡ filter (is_of project) rows
bound-filter tx project rows h =
    ap (λ b. filter (λ (r : Priority). elim b [ none ↦ false | some p ↦ r.project_id == p ]) rows) h

-- Every reader to whom a project that was created is opened finds exactly the three default
-- priorities under it, in the order of their tiers, whatever projects are created before and
-- after; the tables began empty and the database answers.
pub list_priorities-seeded :
    (forms : Forms) (env : knievel.Orgs.Env) (principal reader : Principal) (org : Text)
    (key : Option Text) (req : CreateProjectRequest) (resp : ProjectResponse) (host : Env)
    (db : Database) {tx : Tx} {before after later : Tables}
    → Later forms no_tables before
    → create_project forms env principal org key req before ≡ (after, created resp none)
    → Later forms after later
    → host.db ≡ some db
    → host.selects ≡ true
    → open_project_tx db reader resp.id Role.reader ≡ ok tx
    → list_priorities host reader resp.id later.priorities
      ≡ found (default_priorities env.priority_ids env.now org resp.id)
unfolding list_rows
list_priorities-seeded forms env principal reader org key req resp host db {tx} {before} {after}
      {later} began call l has_db selects opens =
    let m = created-IsCreated forms env principal org key req before call in
    let id_is : resp.id ≡ (new_project env org req).id = ap ProjectResponse.id m.answered in
    simp (has_db, opens, selects, list_rows)
      (ap (λ rs. found (sort_asc Priority.project_id Priority.tier rs)) (rows m id_is)
        ∙ ap found (sorted env.priority_ids env.now org resp.id))
  where
    rows :
        IsCreated forms env principal org key req before after resp
        → resp.id ≡ (new_project env org req).id
        → filter (λ (r : Priority). is_bound tx r.project_id) later.priorities
          ≡ default_priorities env.priority_ids env.now org resp.id
    rows m id_is =
        let row = new_project env org req in
        let there =
          ap (λ (t : Tables). any (has_id row.id) t.projects) m.rows_added
          ∙ any-top row before.projects in
        let had =
          Later-inv forms (λ t. HasProjects t.projects t.priorities)
            (λ e p o k q t t' r n. Adds-HasProjects t t' (created-Adds n)) no_tables before began
            tt in
        let had_none = none-of row.id before.projects before.priorities m.id_is_new had in
        bound-filter tx resp.id later.priorities
          (open_project_tx-bound db reader resp.id Role.reader opens)
        ∙ ap (λ p. filter (is_of p) later.priorities) id_is
        ∙ (Later-inv forms (Keeps row.id (filter (is_of row.id) after.priorities))
            (λ e p o k q t t' r n.
              Adds-Keeps row.id (filter (is_of row.id) after.priorities) t t' (created-Adds n))
            after later l (there, refl)).1
        ∙ ap (λ (t : Tables). filter (is_of row.id) t.priorities) m.rows_added
        ∙ seeded env.priority_ids env.now org row.id before.priorities had_none
        ∙ ap (default_priorities env.priority_ids env.now org) (sym id_is)
