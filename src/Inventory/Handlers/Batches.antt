-- ===== src/Inventory/Handlers/Batches.antt =====
-- The handlers of a resource: a batch of sites, all or nothing.
use mathlib.Core.Option
use knievel.Base.{
  if◌then◌else◌, Bool-cases, nat_eq, ◌==◌, int_eq, Never, length, Text, text_eq, ℕ, ◌+◌, ◌<◌, ◌≡◌,
  refl, sym, ap, ◌∙◌, subst, inl, inr, ◌&&◌, Option, none, some, List, [], ◌∷◌, arith,
}
use knievel.Base.Result.{ok, err, Result-cases, ok-injective, err≢ok, err-injective}
use knievel.Auth.{Principal, Role}
use knievel.Auth.Tenancy.{Tx}
use knievel.Batch.{BatchErrorDetail}
use knievel.Inventory.Rows.{upsert_row→}
use knievel.Inventory.External.{
  by_external, unnamed, by_external-cons, find-by_external, find-entry, by_external-upserted,
  unnamed-cons, unnamed-without,
}
use knievel.Inventory.{Entity, Row, Env, OpenError, open_tx, without}
use knievel.Inventory.Handlers.{
  Resource, BatchResp, row_of_batch, merged, upsert_one, upsert_all, batch_upsert,
}
use knievel.Inventory.Handlers.Writes.{upsert_one→}

module _ {C New Patch Item : Type 0} (r : Resource C New Patch Item) (env : Env)
    (principal : Principal) (project : Text) where
  -- The row that an item leaves, as statement `n`, where its external id found `old`: a new one, or the
  -- one that was there with the item's columns, a new etag and a new time.
  abbrev pub IsUpserted : ℕ → Item → Option (Entity C) → Entity C → Type 0
  IsUpserted n item none e = e ≡ record {
    id = env.fresh_id n;
    external_id = some (r.id_of_item item);
    columns = r.columns_of_item item;
    etag = env.fresh_etag n;
    created_at = env.now;
    updated_at = env.now;
  }
  IsUpserted n item (some old) e = e ≡ record {
    id = old.id;
    external_id = some (r.id_of_item item);
    columns = r.excluded old.columns (r.columns_of_item item);
    etag = env.fresh_etag n;
    created_at = old.created_at;
    updated_at = env.now;
  }

  abbrev pub View : Type 0
  View = Text → Text → Option (Entity C)

  -- The view of the table with one more entry in the project of the path.
  abbrev pub with_entry : Text → Entity C → View → View
  with_entry x e view q y = if (q == project) && (y == x) then some e else view q y

  -- The answers of the items, each on what those before it have left, and what is found at the end.
  abbrev pub Batched : ℕ → List Item → List (Entity C) → View → View → Type 0
  Batched n [] [] before after = (q y : Text) → after q y ≡ before q y
  Batched n [] (e ∷ es) before after = Never
  Batched n (item ∷ items) [] before after = Never
  Batched n (item ∷ items) (e ∷ es) before after =
      let x = r.id_of_item item in
      IsUpserted n item (before project x) e
      × Batched (n + 1) items es (with_entry x e before) after

  abbrev pub view_of : List (Row C) → View
  view_of rows q y = by_external q y rows

  -- All of the batch or nothing of it.
  unfoldable pub IsAtomic : List (Row C) → List Item → List (Row C) × BatchResp C → Type 0
  IsAtomic sites items (written, BatchResp.ok out) =
      Batched 0 items out (view_of sites) (view_of written) × (unnamed written ≡ unnamed sites)
  IsAtomic sites items (written, BatchResp.partial_failure total details) =
      (written ≡ sites)
      × (total ≡ length items)
      × ((detail : BatchErrorDetail) × (details ≡ detail ∷ []) × (detail.index < length items))
  IsAtomic sites items (written, BatchResp.forbidden e) = written ≡ sites
  IsAtomic sites items (written, BatchResp.internal e) = written ≡ sites

  upsert_one-IsUpserted :
      (n : ℕ) (tx : Tx) (row : Item) (sites : List (Row C)) {new : Row C} {written : List (Row C)}
      → upsert_one r env principal project n tx row sites ≡ ok (new, written)
      → IsUpserted n row (by_external project (r.id_of_item row) sites) new.entity
        × ((q y : Text)
            → by_external q y written
              ≡ with_entry (r.id_of_item row) new.entity (view_of sites) q y)
        × (unnamed written ≡ unnamed sites)
  upsert_one-IsUpserted n tx row sites {new} {written} h =
      let x = r.id_of_item row in
      let proposed = row_of_batch r env principal project n row in
      let met = find-by_external project x proposed sites refl refl in
      elim (upsert_row→ r.violation (merged r env principal project n) tx proposed sites
        (upsert_one→ r env principal project n tx row sites h)) [
          | inl (missing, free, e, w) ↦ (
            subst (λ o. IsUpserted n row o new.entity)
                (ap (Option.map Row.entity) (sym missing) ∙ met) (sym (ap Row.entity e)),
            (λ q y.
                ap (by_external q y) (sym w)
                ∙ by_external-cons project x proposed sites q y refl refl
                ∙ ap (λ (z : Row C). with_entry x z.entity (view_of sites) q y) e),
            ap unnamed (sym w) ∙ unnamed-cons project x proposed sites refl,
          )
          | inr (old, found, free, e, w) ↦
              let (mine, named) = find-entry project x proposed sites refl refl found in
              let of_project = ap Row.project_id (sym e) ∙ mine in
              let of_id = ap (λ (z : Row C). z.entity.external_id) (sym e) ∙ named in
              (
                subst (λ o. IsUpserted n row o new.entity)
                    (ap (Option.map Row.entity) (sym found) ∙ met)
                    (sym (ap Row.entity e)
                      ∙ ap
                          (λ o. record (merged r env principal project n old proposed).entity {
                            external_id = o;
                          })
                          named),
                (λ q y.
                    ap (by_external q y) (sym w)
                    ∙ by_external-upserted project x proposed new sites q y refl refl of_project
                        of_id),
                ap unnamed (sym w)
                    ∙ unnamed-cons project x new (without proposed sites) of_id
                    ∙ unnamed-without project x proposed sites refl,
              )
        ]

  with_entry-cong :
      (x : Text) (e : Entity C) {view view' : View}
      → ((q y : Text) → view q y ≡ view' q y)
      → (q y : Text) → with_entry x e view q y ≡ with_entry x e view' q y
  with_entry-cong x e same q y = ground (arith, same q y)

  upsert_all-Batched :
      (n : ℕ) (tx : Tx) (items : List Item) (sites : List (Row C)) (before : View)
      {out : List (Entity C)} {written : List (Row C)}
      → ((q y : Text) → by_external q y sites ≡ before q y)
      → upsert_all r env principal project n tx items sites ≡ ok (out, written)
      → Batched n items out before (view_of written) × (unnamed written ≡ unnamed sites)
  unfolding upsert_all
  upsert_all-Batched n tx [] sites before seen h =
      subst
        (λ (end : List (Entity C) × List (Row C)).
          Batched n [] end.0 before (view_of end.1) × (unnamed end.1 ≡ unnamed sites))
        (ok-injective h) (seen, refl)
  upsert_all-Batched n tx (row ∷ rows) sites before seen h =
      elim (Result-cases (upsert_one r env principal project n tx row sites)) [
        | inr (e, f) ↦ err≢ok (rw (f, upsert_all) at h)
        | inl ((new, sites'), f) ↦
            elim (Result-cases (upsert_all r env principal project (n + 1) tx rows sites')) [
              | inr (e, g) ↦ err≢ok (rw (f, g, upsert_all) at h)
              | inl ((out', written'), g) ↦
                  let x = r.id_of_item row in
                  let (one, view, same) = upsert_one-IsUpserted n tx row sites f in
                  let (rest, same') =
                    upsert_all-Batched (n + 1) tx rows sites' (with_entry x new.entity before)
                      (λ q y. view q y ∙ with_entry-cong x new.entity seen q y) g in
                  subst
                    (λ (end : List (Entity C) × List (Row C)).
                      Batched n (row ∷ rows) end.0 before (view_of end.1)
                      × (unnamed end.1 ≡ unnamed sites))
                    (ok-injective (rw (f, g, upsert_all) at h))
                    (
                      (subst (λ o. IsUpserted n row o new.entity) (seen project x) one, rest),
                      same' ∙ same,
                    )
            ]
      ]

  upsert_all-index :
      (n : ℕ) (tx : Tx) (items : List Item) (sites : List (Row C)) {detail : BatchErrorDetail}
      → upsert_all r env principal project n tx items sites ≡ err detail
      → detail.index < n + length items
  unfolding upsert_all
  upsert_all-index n tx [] sites h = err≢ok (sym h)
  upsert_all-index n tx (row ∷ rows) sites {detail} h =
      elim (Result-cases (upsert_one r env principal project n tx row sites)) [
        | inr (e, f) ↦
            let at_n : n ≡ detail.index =
              ap BatchErrorDetail.index (err-injective (rw (f, upsert_all) at h)) in
            omega arith
        | inl ((new, sites'), f) ↦
            elim (Result-cases (upsert_all r env principal project (n + 1) tx rows sites')) [
              | inr (d, g) ↦
                  let same =
                    ap BatchErrorDetail.index (err-injective (rw (f, g, upsert_all) at h)) in
                  omega (arith, same, upsert_all-index (n + 1) tx rows sites' g)
              | inl ((out', written'), g) ↦ err≢ok (sym (rw (f, g, upsert_all) at h))
            ]
      ]

  pub batch_upsert-IsAtomic :
      (items : List Item) (sites : List (Row C))
      → IsAtomic sites items (batch_upsert r env principal project items sites)
  unfolding batch_upsert IsAtomic
  batch_upsert-IsAtomic items sites =
      elim (Result-cases (open_tx env principal project Role.editor)) [
        | inr (OpenError.no_pool, f) ↦ rw (f, batch_upsert) refl
        | inr (OpenError.denied e, f) ↦ rw (f, batch_upsert) refl
        | inl (tx, f) ↦ elim (Result-cases (upsert_all r env principal project 0 tx items sites)) [
          | inr (detail, g) ↦
              rw (f, g, batch_upsert)
                (refl, refl, (detail, refl, omega (arith, upsert_all-index 0 tx items sites g)))
          | inl ((out, written), g) ↦ elim (Bool-cases env.commits) [
            | inr c ↦ rw (f, g, c, batch_upsert) refl
            | inl c ↦
                rw (f, g, c, batch_upsert)
                  (upsert_all-Batched 0 tx items sites (view_of sites) (λ q y. refl) g)
          ]
        ]
      ]
