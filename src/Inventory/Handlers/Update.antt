-- ===== src/Inventory/Handlers/Update.antt =====
-- The handlers of a resource: an update of one site, in the abstract view of the table.
use mathlib.Core.Option
use knievel.Base.{
  if◌then◌else◌, Bool-cases, Option-cases, nat_eq, ◌==◌, ℤ, eqb_ℤ_iff, int_eq, Text, eqb_text_iff,
  text_eq, ◌≡◌, refl, sym, ap, ◌∙◌, subst, inl, inr, true, ◌&&◌, some, List, arith,
}
use knievel.Base.Result.{Result-cases}
use knievel.Auth.{Principal, Role}
use knievel.Inventory.Rows.{open_tx-project, lookup, lookup-select_one, lookup-update_rows}
use knievel.Inventory.{Entity, Row, Env, open_tx, select_one, update_rows}
use knievel.Inventory.Handlers.{Resource, UpdateResp, has_id, coalesced, update}

updated_ok : {C : Type 0} {a b : Entity C} → UpdateResp.ok a ≡ UpdateResp.ok b → a ≡ b
updated_ok h = cc

lookup-at :
    {C : Type 0} (q project : Text) (j id : ℤ) (sites : List (Row C))
    → ((q == project) && (j == id)) ≡ true
    → lookup q j sites ≡ lookup project id sites
lookup-at q project j id sites t =
    let a : q ≡ project = ground (arith, t, eqb_text_iff q project) in
    let b : j ≡ id = ground (arith, t, eqb_ℤ_iff j id) in
    ap (λ x. lookup x j sites) a ∙ ap (λ x. lookup project x sites) b

module _ {C New Patch Item : Type 0} (r : Resource C New Patch Item) (env : Env)
    (principal : Principal) (project : Text) where
  -- The row answered, of the one that was there: its columns are those that the resource makes of the
  -- request and the old ones, its etag and time are new, and the rest stays.
  pub record IsPatched (req : Patch) (old site : Entity C) : Type 0 where
    pub same_id : site.id ≡ old.id
    pub same_external_id : site.external_id ≡ old.external_id
    pub columns : site.columns ≡ r.patched req old.columns
    pub holds : r.update_holds site.columns ≡ true
    pub etag : site.etag ≡ env.fresh_etag 0
    pub same_created_at : site.created_at ≡ old.created_at
    pub updated_at : site.updated_at ≡ env.now

  -- In the abstract view: the row was there, the one answered is patched from it, and every other id
  -- of every project finds what it found.
  abbrev pub Updates : ℤ → Patch → List (Row C) → List (Row C) → Entity C → Type 0
  Updates id req sites written site =
      (old : Entity C) × (lookup project id sites ≡ some old)
      × IsPatched req old site
      × ((q : Text) (j : ℤ)
          → lookup q j written
            ≡ (if (q == project) && (j == id) then some site else lookup q j sites))

  coalesced-IsPatched :
      (req : Patch) (old : Entity C)
      → r.update_holds (r.patched req old.columns) ≡ true
      → IsPatched req old (coalesced r env principal project req old)
  coalesced-IsPatched req old held = record {
    same_id = refl;
    same_external_id = refl;
    columns = refl;
    holds = held;
    etag = refl;
    same_created_at = refl;
    updated_at = refl;
  }

  -- An update that is answered with a row has changed the row of that id in the project of the path and
  -- nothing else: in its place is the row answered, whose columns are what the resource's `patched`
  -- makes of the request and the old columns, and are allowed by the constraints; its etag is the
  -- database's fresh one, its time of update is now, and its id, external id and time of creation stay.
  pub update-Updates :
      (id : ℤ) (req : Patch) (sites : List (Row C)) {written : List (Row C)} {site : Entity C}
      → update r env principal project id req sites ≡ (written, UpdateResp.ok site)
      → Updates id req sites written site
  unfolding update
  update-Updates id req sites {written} {site} h =
      elim (Result-cases (open_tx env principal project Role.editor)) [
        | inr (e, f) ↦ let h1 = rw (f, update) at h in ground arith
        | inl (tx, f) ↦ elim (Option-cases (env.answers 0)) [
          | inr (e, a) ↦ let h1 = rw (f, a, update) at h in ground arith
          | inl a ↦ elim (Option-cases (select_one tx (has_id id) sites)) [
            | inl s ↦ let h1 = rw (f, a, s, update) at h in ground arith
            | inr (old, s) ↦
                elim (Bool-cases (r.update_holds (r.patched req old.columns) && env.commits)) [
                  | inr c ↦ let h1 = rw (f, a, s, c, update) at h in ground arith
                  | inl c ↦
                      let bound : tx.project_id ≡ some project =
                        open_tx-project env principal project Role.editor f in
                      let h' = rw (f, a, s, c, update) at h in
                      let e : update_rows tx id (coalesced r env principal project req) sites
                          ≡ written =
                        ap (λ r. r.0) h' in
                      let same : coalesced r env principal project req old ≡ site =
                        updated_ok (ap (λ r. r.1) h') in
                      let found = sym (lookup-select_one tx project bound id sites) ∙ s in
                      (
                        old,
                        found,
                        subst (λ e. IsPatched req old e) same
                            (coalesced-IsPatched req old (ground arith)),
                        λ q j. ground (
                          arith,
                          subst
                              (λ rows. lookup q j rows ≡ (
                                if (q == project) && (j == id)
                                then Option.map (coalesced r env principal project req)
                                    (lookup q j sites)
                                else lookup q j sites))
                              e
                              (lookup-update_rows tx project bound id
                                (coalesced r env principal project req) q j sites (λ e. refl)),
                          lookup-at q project j id sites,
                          found,
                          same,
                        ),
                      )
                ]
          ]
        ]
      ]
