-- ===== src/Orgs/Lists.antt =====
-- src/orgs.rs: `list_projects` and `get_org`. The order of ids is the database's collation.
use knievel.Base.{
  if◌then◌else◌, Bool-cases, Option-cases, nat_eq, ◌==◌, ==_refl, ℤ, pos_part, ltb_ℤ, eqb_ℤ, int_eq,
  take, filter, any, find, take-all, any_of_In, Text, text, eqb_text_iff, text_eq, pos, ℕ, min, max,
  ◌≡◌, refl, sym, ap, ◌∙◌, inl, inr, Bool, true, false, not, ◌&&◌, ◌||◌, Option, none, some, List,
  [], ◌∷◌, map, arith,
}
use mathlib.Core.Option
use mathlib.Core.Path.{fun_ext}
use knievel.Auth.{Principal, Role, has_role_at_least}
use knievel.Auth.Tenancy.{Database, Tx, begin_bound, bind_project}
use knievel.Orgs.{
  CreateProjectRequest, ProjectResponse, Project, Tables, Forms, Env, created, response_of,
  new_project, has_external_id, create_project,
}
use knievel.Orgs.Writes.{IsCreated}
use knievel.Orgs.Later.{Later, created-IsCreated, Later-inv}
use knievel.Orgs.Reads.{GetProjectResponse, is_readable}

-- `.unwrap_or(500).clamp(1, 500)`
abbrev pub limit_value : Option ℤ → ℕ
limit_value limit = max 1 (min 500 (pos_part (Option.get_or limit (pos 500))))

abbrev pub external_id_is : Option Text → Project → Bool
external_id_is none row = true
external_id_is (some e) row = elim row.external_id [ none ↦ false | some f ↦ f == e ]

pub data ListProjectsResponse : Type 0 where
  listed : (items : List ProjectResponse) → ListProjectsResponse
  refuses : (code : Text) → ListProjectsResponse
  breaks : (code : Text) → ListProjectsResponse

module _ (id_before : Text → Text → Bool) where
  -- `ORDER BY created_at DESC, id DESC`
  abbrev pub comes_first : Project → Project → Bool
  comes_first a b =
      ltb_ℤ b.created_at a.created_at || (eqb_ℤ a.created_at b.created_at && id_before b.id a.id)

  unfoldable pub insert_latest : Project → List Project → List Project
  insert_latest row [] = row ∷ []
  insert_latest row (x ∷ xs) =
      let rest = insert_latest row xs in if comes_first x row then x ∷ rest else row ∷ x ∷ xs

  unfoldable pub sort_latest : List Project → List Project
  sort_latest [] = []
  sort_latest (x ∷ xs) = insert_latest x (sort_latest xs)

  -- `selects` is whether the database answers the query.
  unfoldable pub list_projects :
      Forms
      → Option Database
      → Bool
      → Principal
      → Text
      → Option ℤ
      → Option Text
      → List Project
      → ListProjectsResponse
  list_projects forms db selects principal path_org_id limit external_id projects =
      if not (principal.org_id == path_org_id)
      then refuses (text "wrong_tenant")
      else if not (has_role_at_least principal Role.reader)
      then refuses (text "role_insufficient")
      else elim db [
        | none ↦ breaks (text "no_db")
        | some pool ↦ elim (begin_bound pool path_org_id none) [
          | none ↦ breaks (text "db_error")
          | some tx ↦
              if not selects
              then breaks (text "db_error")
              else listed (
                  map (response_of forms) (
                    take (limit_value limit) (
                      sort_latest (
                        filter (λ row. is_readable tx row && external_id_is external_id row)
                          projects))))
        ]
      ]

pub record Org : Type 0 where
  pub id : Text
  pub external_id : Option Text
  pub name : Text
  pub is_active : Bool
  pub etag : Text
  pub created_at : ℤ
  pub updated_at : ℤ

-- The columns of an organization are those of a project.
abbrev pub org_response : Forms → Org → ProjectResponse
org_response forms row = record {
  id = row.id;
  external_id = row.external_id;
  name = row.name;
  is_active = row.is_active;
  etag = row.etag;
  created_at = forms.to_char row.created_at;
  updated_at = forms.to_char row.updated_at;
}

abbrev pub org_answer : Forms → Option Org → GetProjectResponse
org_answer forms none = GetProjectResponse.not_found
org_answer forms (some row) = GetProjectResponse.found (org_response forms row)

-- Under the policy `organizations_tenant_isolation`, without a project.
unfoldable pub get_org :
    Forms → Option Database → Bool → Principal → Text → List Org → GetProjectResponse
get_org forms db selects principal path_org_id orgs =
    if not (principal.org_id == path_org_id)
    then GetProjectResponse.forbids (text "wrong_tenant")
    else if not (has_role_at_least principal Role.reader)
    then GetProjectResponse.forbids (text "role_insufficient")
    else elim db [
      | none ↦ GetProjectResponse.fails (text "no_db")
      | some pool ↦ elim (begin_bound pool path_org_id none) [
        | none ↦ GetProjectResponse.fails (text "db_error")
        | some tx ↦
            if not selects
            then GetProjectResponse.fails (text "db_error")
            else org_answer forms
                (find (λ (row : Org). row.id == path_org_id && (row.id == tx.org_id)) orgs)
      ]
    ]

filter-top :
    (test : Project → Bool) (x : Project) (rows : List Project)
    → test x ≡ true
    → filter test (x ∷ rows) ≡ x ∷ filter test rows
unfolding filter
filter-top test x rows h = rw (h, filter) refl

filter-none :
    (test : Project → Bool) (rows : List Project) → any test rows ≡ false → filter test rows ≡ []
unfolding filter any
filter-none test [] h = refl
filter-none test (x ∷ rows) h = ground (arith, h, filter-none test rows)

has_external_id-parts :
    (org e : Text) (row : Project)
    → has_external_id org (some e) row ≡ true
    → (row.org_id ≡ org) × (row.external_id ≡ some e)
has_external_id-parts org e row t = elim (Option-cases row.external_id) [
  | inl n ↦ ground (arith, n, t)
  | inr (f, x) ↦
      let same : (row.org_id ≡ org) × (f ≡ e) =
        ground (arith, eqb_text_iff row.org_id org, eqb_text_iff f e, x, t) in
      (same.0, x ∙ ap some same.1)
]

-- A row with an external id that is taken would have been refused.
external_ids-differ :
    (org e : Text) (row : Project) (rows : List Project)
    → any (has_external_id row.org_id row.external_id) rows ≡ false
    → any (has_external_id org (some e)) rows ≡ true
    → has_external_id org (some e) row ≡ false
external_ids-differ org e row rows new taken =
    elim (Bool-cases (has_external_id org (some e) row)) [
      | inr f ↦ f
      | inl t ↦
          let (o, x) = has_external_id-parts org e row t in
          let clash : any (has_external_id row.org_id row.external_id) rows ≡ true =
            (λ i. any (has_external_id (o i) (x i)) rows) ∙ taken in
          ground (arith, clash, new)
    ]

-- The rows of an external id that is taken stay.
abbrev Keeps : Text → Text → List Project → Tables → Type 0
Keeps org e rows t =
    (any (has_external_id org (some e)) t.projects ≡ true)
    × (filter (has_external_id org (some e)) t.projects ≡ rows)

created-Keeps :
    (org e : Text) (rows : List Project) (row : Project) (t t' : Tables)
    → any (has_external_id row.org_id row.external_id) t.projects ≡ false
    → t'.projects ≡ row ∷ t.projects
    → Keeps org e rows t
    → Keeps org e rows t'
unfolding filter any
created-Keeps org e rows row t t' new added (h, same) =
    let f = external_ids-differ org e row t.projects new h in
    (
      ap (any (has_external_id org (some e))) added ∙ rw (f, any) h,
      ap (filter (has_external_id org (some e))) added ∙ rw (f, filter) same,
    )

begin_bound-tx :
    (db : Database) (org : Text) {tx : Tx}
    → begin_bound db org none ≡ some tx
    → record { org_id = org; project_id = none } ≡ tx
unfolding begin_bound bind_project
begin_bound-tx db org h = ground arith

readable-has :
    (db : Database) (org e : Text) (tx : Tx)
    → begin_bound db org none ≡ some tx
    → (λ (row : Project). is_readable tx row && external_id_is (some e) row)
      ≡ has_external_id org (some e)
readable-has db org e tx h = fun_ext λ row.
    ap (λ (t : Tx). is_readable t row && external_id_is (some e) row)
      (sym (begin_bound-tx db org h))
    ∙ ap (λ b. b && external_id_is (some e) row) (or_false (row.org_id == org))
  where
    or_false : (b : Bool) → (b || false) ≡ b
    or_false true = refl
    or_false false = refl

latest_one :
    (id_before : Text → Text → Bool) (row : Project) → sort_latest id_before (row ∷ []) ≡ row ∷ []
unfolding sort_latest insert_latest
latest_one id_before row = refl

-- A project that was created with an external id is the one row that `list_projects` answers to a
-- reader of the organization who asks for that external id, whatever is created in between and
-- whatever limit is sent, since a limit out of range is not refused but brought into it.
pub list_projects-resolves :
    (id_before : Text → Text → Bool) (forms : Forms) (env : Env) (principal reader : Principal)
    (org e : Text) (key : Option Text) (req : CreateProjectRequest) (resp : ProjectResponse)
    (db : Database) (limit : Option ℤ) (before : Tables) {tx : Tx} {after later : Tables}
    → req.external_id ≡ some e
    → create_project forms env principal org key req before ≡ (after, created resp none)
    → Later forms after later
    → reader.org_id ≡ org
    → has_role_at_least reader Role.reader ≡ true
    → begin_bound db org none ≡ some tx
    → list_projects id_before forms (some db) true reader org limit (some e) later.projects
      ≡ listed (resp ∷ [])
unfolding list_projects
list_projects-resolves id_before forms env principal reader org e key req resp db limit before {tx}
      {after} {later} named call l own least begun =
    let m = created-IsCreated forms env principal org key req before call in
    let mine = (eqb_text_iff reader.org_id org).1 own in
    simp (mine, least, begun, list_projects) (ap answer (rows m) ∙ one m)
  where
    answer : List Project → ListProjectsResponse
    answer rows =
        listed (map (response_of forms) (take (limit_value limit) (sort_latest id_before rows)))

    rows :
        IsCreated forms env principal org key req before after resp
        → filter (λ row. is_readable tx row && external_id_is (some e) row) later.projects
          ≡ new_project env org req ∷ []
    rows m =
        let has = has_external_id org (some e) in
        let row = new_project env org req in
        let mine : has row ≡ true =
          ap (λ x. (org == org) && elim x [ none ↦ false | some f ↦ f == e ]) named
          ∙ (λ i. ==_refl org i && ==_refl e i) in
        let vacant : any has before.projects ≡ false =
          ap (λ x. any (has_external_id org x) before.projects) (sym named)
          ∙ m.external_id_is_new in
        let added = ap Tables.projects m.rows_added in
        let there =
          ap (any has) added ∙ any_of_In has row (row ∷ before.projects) (inl refl) mine in
        ap (λ f. filter f later.projects) (readable-has db org e tx begun)
        ∙ (Later-inv forms (Keeps org e (filter has after.projects))
            (λ env' p o k q t t' r n.
              created-Keeps org e (filter has after.projects) (new_project env' o q) t t'
                n.external_id_is_new (ap Tables.projects n.rows_added))
            after later l (there, refl)).1
        ∙ ap (filter has) added
        ∙ filter-top has row before.projects mine
        ∙ ap (λ rs. row ∷ rs) (filter-none has before.projects vacant)

    one :
        IsCreated forms env principal org key req before after resp
        → answer (new_project env org req ∷ []) ≡ listed (resp ∷ [])
    one m =
        let row = new_project env org req in
        ap (λ rs. listed (map (response_of forms) (take (limit_value limit) rs)))
          (latest_one id_before row)
        ∙ ap (λ rs. listed (map (response_of forms) rs))
            (take-all (limit_value limit) (row ∷ []) (ground arith))
        ∙ ap (λ r. listed (r ∷ [])) (sym m.answered)
