-- ===== src/Sites/Urls.antt =====
-- src/sites.rs: upserts by URL, one after another.
use knievel.Base.{
  Bool-cases, Option-cases, nat_eq, ==_refl, int_eq, find, Text, text_eq, ◌≡◌, refl, sym, ap, ◌∙◌,
  inl, inr, some, ◌∷◌, arith,
}
use knievel.Base.Result.{Result-cases}
use knievel.Auth.{Principal, Role}
use knievel.Auth.Tenancy.{Tx}
use knievel.Auth.Tenancy.Laws.{bound_to}
use knievel.Inventory.{Row, Env, OpenError, open_tx, policy, select_one}
use knievel.Inventory.Rows.{IsServed, IsServed-opens, insert_row→}
use knievel.Sites.{
  SiteColumns, Site, Sites, UpsertSiteByUrlRequest, UpsertResp, violation, row_of_upsert,
  upsert_by_url, is_at, sites,
}
use knievel.Inventory.Handlers.{insert_one}
use knievel.Inventory.Handlers.Writes.{insert_one→}

created_site : {a b : Site} → UpsertResp.created a ≡ UpsertResp.created b → a ≡ b
created_site h = cc

select_one-head :
    (tx : Tx) (row : Row SiteColumns) (rows : Sites) (project : Text)
    → tx.project_id ≡ some project
    → row.project_id ≡ project
    → select_one tx (is_at row.entity.columns.url) (row ∷ rows) ≡ some row.entity
unfolding select_one find policy
select_one-head tx row rows project bound mine =
    ground (arith, bound, mine, ==_refl project, ==_refl row.entity.columns.url)

module _ (env : Env) (principal : Principal) (project : Text) where
  -- What an upsert that created a site has written.
  created→ :
      (req : UpsertSiteByUrlRequest) (rows : Sites) {written : Sites} {site : Site}
      → upsert_by_url env principal project req rows ≡ (written, UpsertResp.created site)
      → (row_of_upsert env principal project req ∷ rows ≡ written)
        × ((row_of_upsert env principal project req).entity ≡ site)
  unfolding upsert_by_url
  created→ req rows h = elim (Result-cases (open_tx env principal project Role.editor)) [
    | inr (OpenError.no_pool, f) ↦ let h1 = rw (f, upsert_by_url) at h in ground arith
    | inr (OpenError.denied e, f) ↦ let h1 = rw (f, upsert_by_url) at h in ground arith
    | inl (tx, f) ↦ elim (Option-cases (env.answers 0)) [
      | inr (e, a) ↦ let h1 = rw (f, a, upsert_by_url) at h in ground arith
      | inl a ↦ elim (Option-cases (select_one tx (is_at req.url) rows)) [
        | inr (old, s) ↦ let h1 = rw (f, a, s, upsert_by_url) at h in ground arith
        | inl s ↦
            elim (Result-cases (
              insert_one sites env principal project 1 tx (row_of_upsert env principal project req)
                rows)) [
                  | inr (e, g) ↦ let h1 = rw (f, a, s, g, upsert_by_url) at h in ground arith
                  | inl (stored, g) ↦ elim (Bool-cases env.commits) [
                    | inr c ↦ let h1 = rw (f, a, s, g, c, upsert_by_url) at h in ground arith
                    | inl c ↦
                        let h1 = rw (f, a, s, g, c, upsert_by_url) at h in
                        let (free, e) =
                          insert_row→ violation tx (row_of_upsert env principal project req) rows (
                            insert_one→ sites env principal project 1 tx
                              (row_of_upsert env principal project req) rows g) in
                        (e ∙ ap (λ r. r.0) h1, created_site (ap (λ r. r.1) h1))
                  ]
                ]
      ]
    ]
  ]

  upsert_by_url-existing :
      (req : UpsertSiteByUrlRequest) (rows : Sites) {site : Site}
      → IsServed env principal project Role.editor
      → select_one (bound_to principal project) (is_at req.url) rows ≡ some site
      → upsert_by_url env principal project req rows ≡ (rows, UpsertResp.existing site)
  unfolding upsert_by_url
  upsert_by_url-existing req rows served s =
      rw
        (IsServed-opens env principal project Role.editor served, served.answered, s, upsert_by_url)
        refl

-- After an upsert that created a site, every upsert of that URL in the project, by whatever principal
-- it is served and whatever else it asks, gives that site as it is and changes nothing.
upsert_by_url-again :
    (env env' : Env) (principal principal' : Principal) (project : Text)
    (req req' : UpsertSiteByUrlRequest) (rows written : Sites) (site : Site)
    → upsert_by_url env principal project req rows ≡ (written, UpsertResp.created site)
    → req.url ≡ req'.url
    → IsServed env' principal' project Role.editor
    → upsert_by_url env' principal' project req' written ≡ (written, UpsertResp.existing site)
upsert_by_url-again env env' principal principal' project req req' rows written site h same served =
    let (e, f) = created→ env principal project req rows h in
    let row = row_of_upsert env principal project req in
    let head = select_one-head (bound_to principal' project) row rows project refl refl in
    let found : select_one (bound_to principal' project) (is_at req'.url) written ≡ some site =
      ap (select_one (bound_to principal' project) (is_at req'.url)) (sym e)
      ∙ ap (λ u. select_one (bound_to principal' project) (is_at u) (row ∷ rows)) (sym same)
      ∙ head
      ∙ ap (λ x. some x) f in
    upsert_by_url-existing env' principal' project req' written served found
