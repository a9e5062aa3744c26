-- ===== src/Inventory/Handlers/Writes.antt =====
-- The handlers of a resource: the writes of the handlers, as the rows that they commit, and their sequences.
use knievel.Base.{
  Bool-cases, Option-cases, nat_eq, ℤ, int_eq, Text, text_eq, ℕ, ◌+◌, ◌≡◌, refl, ap, subst, inl,
  inr, ◌&&◌, some, List, [], ◌∷◌, arith,
}
use knievel.Base.Result.{ok, Result-cases, ok-injective, err≢ok}
use knievel.Auth.{Principal, Role}
use knievel.Auth.Tenancy.{Tx}
use knievel.Inventory.Rows.{open_tx-project}
use knievel.Inventory.{Entity, Row, Env, open_tx, select_one, insert_row, upsert_row, update_rows}
use knievel.Inventory.Handlers.{
  Resource, has_id, insert_one, row_of_create, create, coalesced, update, row_of_batch, merged,
  upsert_one, upsert_all, batch_upsert,
}

-- A call that may write.
pub data Call (New Patch Item : Type 0) : Type 0 where
  create_call : New → Call New Patch Item
  update_call : ℤ → Patch → Call New Patch Item
  batch_call : List Item → Call New Patch Item

module _ {C New Patch Item : Type 0} (r : Resource C New Patch Item) (env : Env)
    (principal : Principal) (project : Text) where
  unfoldable pub committed : Call New Patch Item → List (Row C) → List (Row C)
  committed (create_call req) sites = (create r env principal project req sites).0
  committed (update_call id req) sites = (update r env principal project id req sites).0
  committed (batch_call items) sites = (batch_upsert r env principal project items sites).0

  pub insert_one→ :
      (n : ℕ) (tx : Tx) (row : Row C) (sites : List (Row C)) {written : List (Row C)}
      → insert_one r env principal project n tx row sites ≡ ok written
      → insert_row r.violation tx row sites ≡ ok written
  unfolding insert_one
  insert_one→ n tx row sites h = ground arith

  pub upsert_one→ :
      (n : ℕ) (tx : Tx) (row : Item) (sites : List (Row C)) {written : Row C × List (Row C)}
      → upsert_one r env principal project n tx row sites ≡ ok written
      → upsert_row r.violation
          (merged r env principal project n)
          tx
          (row_of_batch r env principal project n row)
          sites
        ≡ ok written
  unfolding upsert_one
  upsert_one→ n tx row sites h = ground arith

  -- A property of the rows that every statement keeps is kept by the handlers.
  module _ (P : List (Row C) → Type 0) where
    pub record IsKept : Type 0 where
      pub inserted :
          (tx : Tx) (row : Row C) (sites written : List (Row C))
          → tx.project_id ≡ some project
          → row.project_id ≡ project
          → insert_row r.violation tx row sites ≡ ok written
          → P sites
          → P written
      pub upserted :
          (n : ℕ) (tx : Tx) (row new : Row C) (sites written : List (Row C))
          → tx.project_id ≡ some project
          → row.project_id ≡ project
          → upsert_row r.violation (merged r env principal project n) tx row sites
            ≡ ok (new, written)
          → P sites
          → P written
      pub updated :
          (tx : Tx) (id : ℤ) (req : Patch) (sites : List (Row C))
          → tx.project_id ≡ some project
          → P sites
          → P (update_rows tx id (coalesced r env principal project req) sites)

    create-keeps :
        IsKept
        → (req : New) (sites : List (Row C)) → P sites
        → P (create r env principal project req sites).0
    unfolding create
    create-keeps kept req sites p =
        elim (Result-cases (open_tx env principal project Role.editor)) [
          | inr (e, f) ↦ rw (f, create) p
          | inl (tx, f) ↦
              elim (Result-cases (
                insert_one r env principal project 0 tx (row_of_create r env principal project req)
                  sites)) [
                    | inr (e, g) ↦ rw (f, g, create) p
                    | inl (written, g) ↦ elim (Bool-cases env.commits) [
                      | inr c ↦ rw (f, g, c, create) p
                      | inl c ↦
                          rw (f, g, c, create)
                            (kept.inserted tx (row_of_create r env principal project req) sites
                              written (open_tx-project env principal project Role.editor f) refl
                              (insert_one→ 0 tx (row_of_create r env principal project req) sites g)
                              p)
                    ]
                  ]
        ]

    update-keeps :
        IsKept
        → (id : ℤ) (req : Patch) (sites : List (Row C)) → P sites
        → P (update r env principal project id req sites).0
    unfolding update
    update-keeps kept id req sites p =
        elim (Result-cases (open_tx env principal project Role.editor)) [
          | inr (e, f) ↦ rw (f, update) p
          | inl (tx, f) ↦ elim (Option-cases (env.answers 0)) [
            | inr (e, a) ↦ rw (f, a, update) p
            | inl a ↦ elim (Option-cases (select_one tx (has_id id) sites)) [
              | inl s ↦ rw (f, a, s, update) p
              | inr (site, s) ↦
                  elim (Bool-cases (r.update_holds (r.patched req site.columns) && env.commits)) [
                    | inr c ↦ rw (f, a, s, c, update) p
                    | inl c ↦
                        rw (f, a, s, c, update)
                          (kept.updated tx id req sites
                            (open_tx-project env principal project Role.editor f) p)
                  ]
            ]
          ]
        ]

    upsert_all-keeps :
        IsKept
        → (n : ℕ) (tx : Tx) (items : List Item) (sites : List (Row C)) {out : List (Entity C)}
          {written : List (Row C)}
        → tx.project_id ≡ some project
        → upsert_all r env principal project n tx items sites ≡ ok (out, written)
        → P sites
        → P written
    unfolding upsert_all
    upsert_all-keeps kept n tx [] sites bound h p = subst P (ap (λ r. r.1) (ok-injective h)) p
    upsert_all-keeps kept n tx (row ∷ rows) sites bound h p =
        elim (Result-cases (upsert_one r env principal project n tx row sites)) [
          | inr (e, f) ↦ err≢ok (rw (f, upsert_all) at h)
          | inl ((new, sites'), f) ↦
              let p' =
                kept.upserted n tx (row_of_batch r env principal project n row) new sites sites'
                  bound refl (upsert_one→ n tx row sites f) p in
              elim (Result-cases (upsert_all r env principal project (n + 1) tx rows sites')) [
                | inr (e, g) ↦ err≢ok (rw (f, g, upsert_all) at h)
                | inl ((out', written'), g) ↦
                    subst P (ap (λ r. r.1) (ok-injective (rw (f, g, upsert_all) at h)))
                      (upsert_all-keeps kept (n + 1) tx rows sites' bound g p')
              ]
        ]

    batch_upsert-keeps :
        IsKept
        → (items : List Item) (sites : List (Row C)) → P sites
        → P (batch_upsert r env principal project items sites).0
    unfolding batch_upsert
    batch_upsert-keeps kept items sites p =
        elim (Result-cases (open_tx env principal project Role.editor)) [
          | inr (e, f) ↦ rw (f, batch_upsert) p
          | inl (tx, f) ↦
              elim (Result-cases (upsert_all r env principal project 0 tx items sites)) [
                | inr (e, g) ↦ rw (f, g, batch_upsert) p
                | inl ((out, written), g) ↦ elim (Bool-cases env.commits) [
                  | inr c ↦ rw (f, g, c, batch_upsert) p
                  | inl c ↦
                      rw (f, g, c, batch_upsert)
                        (upsert_all-keeps kept 0 tx items sites
                          (open_tx-project env principal project Role.editor f) g p)
                ]
              ]
        ]

    pub committed-keeps :
        IsKept
        → (call : Call New Patch Item) (sites : List (Row C)) → P sites
        → P (committed call sites)
    unfolding committed
    committed-keeps kept (create_call req) sites p = create-keeps kept req sites p
    committed-keeps kept (update_call id req) sites p = update-keeps kept id req sites p
    committed-keeps kept (batch_call items) sites p = batch_upsert-keeps kept items sites p
