-- ===== src/Inventory/Rows.antt =====
-- The statements on the project-scoped tables: what they leave of other projects, and what a lookup
-- finds after them.
use mathlib.Core.Option
use knievel.Base.{
  if◌then◌else◌, Bool-cases, Option-cases, nat_eq, ◌==◌, ==_refl, ℤ, eqb_ℤ_iff, int_eq, filter,
  find, Text, eqb_text_iff, text_eq, ◌≡◌, refl, sym, ap, ◌∙◌, subst, ◌⊎◌, inl, inr, not, ◌&&◌,
  Option, none, some, List, [], ◌∷◌, arith,
}
use knievel.Base.Result.{ok, err≢ok, Result-cases, ok-injective}
use knievel.Auth.{Principal, Role}
use knievel.Auth.Tenancy.{Database, Tx, open_project_tx}
use knievel.Auth.Tenancy.Laws.{bound_to, open_project_tx→, →open_project_tx, IsAllowed, IsUp}
use knievel.Sql.{DbError}
use knievel.Inventory.{
  Entity, Row, Env, open_tx, policy, select_one, conflicts_with, without, insert_row, upsert_row,
  update_rows,
}

-- A transaction that a handler has is bound to the project of its path.
pub open_tx→ :
    (env : Env) (principal : Principal) (project : Text) (least : Role) {tx : Tx}
    → open_tx env principal project least ≡ ok tx
    → (pool : Database) × (env.db ≡ some pool)
      × (tx ≡ bound_to principal project)
      × IsAllowed pool principal project least
unfolding open_tx
open_tx→ env principal project least {tx} h = elim (Option-cases env.db) [
  | inl n ↦ err≢ok (rw (n, open_tx) at h)
  | inr (pool, s) ↦ elim (Result-cases (open_project_tx pool principal project least)) [
    | inr (e, f) ↦ err≢ok (rw (s, f, open_tx) at h)
    | inl (t, f) ↦
        let h1 = rw (s, f, open_tx) at h in
        let (a, b) = open_project_tx→ pool principal project least f in
        (pool, s, sym (ok-injective h1) ∙ a, b)
  ]
]

pub open_tx-project :
    (env : Env) (principal : Principal) (project : Text) (least : Role) {tx : Tx}
    → open_tx env principal project least ≡ ok tx
    → tx.project_id ≡ some project
open_tx-project env principal project least h =
    let (pool, a, b, c) = open_tx→ env principal project least h in ap Tx.project_id b

pub →open_tx :
    (env : Env) (principal : Principal) (project : Text) (least : Role) (pool : Database)
    → env.db ≡ some pool
    → IsUp pool
    → IsAllowed pool principal project least
    → open_tx env principal project least ≡ ok (bound_to principal project)
unfolding open_tx
→open_tx env principal project least pool has_pool up allowed =
    ground (arith, →open_project_tx pool principal project least up allowed)

-- A handler that asks for the role runs its first statement for the principal.
pub record IsServed (env : Env) (principal : Principal) (project : Text) (least : Role)
    : Type 0 where
  pub pool : Database
  pub has_pool : env.db ≡ some pool
  pub is_up : IsUp pool
  pub allowed : IsAllowed pool principal project least
  pub answered : env.answers 0 ≡ none

pub IsServed-opens :
    (env : Env) (principal : Principal) (project : Text) (least : Role)
    → IsServed env principal project least
    → open_tx env principal project least ≡ ok (bound_to principal project)
IsServed-opens env principal project least served =
    →open_tx env principal project least served.pool served.has_pool served.is_up served.allowed

-- The rows of the other projects.
unfoldable pub of_others : {C : Type 0} → Text → List (Row C) → List (Row C)
of_others project rows = filter (λ row. not (row.project_id == project)) rows

module _ {C : Type 0} (project : Text) where
  pub of_others-cons :
      (row : Row C) (rows : List (Row C))
      → row.project_id ≡ project
      → of_others project (row ∷ rows) ≡ of_others project rows
  unfolding of_others filter
  of_others-cons row rows e = ground (arith, ==_refl project)

  pub of_others-without :
      (new : Row C) (rows : List (Row C))
      → new.project_id ≡ project
      → of_others project (without new rows) ≡ of_others project rows
  unfolding of_others filter without conflicts_with
  of_others-without new [] e = refl
  of_others-without new (row ∷ rows) e = ground (
    arith,
    of_others-without new rows e,
    eqb_text_iff row.project_id project,
    eqb_text_iff row.project_id new.project_id,
  )

  pub of_others-update_rows :
      (tx : Tx) (id : ℤ) (change : Entity C → Entity C) (rows : List (Row C))
      → tx.project_id ≡ some project
      → of_others project (update_rows tx id change rows) ≡ of_others project rows
  unfolding of_others filter update_rows policy
  of_others-update_rows tx id change [] e = refl
  of_others-update_rows tx id change (row ∷ rows) e =
      ground (arith, of_others-update_rows tx id change rows e, eqb_text_iff row.project_id project)

module _ {C : Type 0} (violation : List (Row C) → Row C → Option DbError) where
  -- What an insert that goes through has written.
  pub insert_row→ :
      (tx : Tx) (row : Row C) (rows : List (Row C)) {written : List (Row C)}
      → insert_row violation tx row rows ≡ ok written
      → (violation rows row ≡ none) × (row ∷ rows ≡ written)
  unfolding insert_row
  insert_row→ tx row rows h = ground arith

  -- The row that an upsert has written, and beside which rows.
  pub upsert_row→ :
      (merge : Row C → Row C → Row C) (tx : Tx) (row : Row C) (rows : List (Row C)) {new : Row C}
      {written : List (Row C)}
      → upsert_row violation merge tx row rows ≡ ok (new, written)
      → ((find (conflicts_with row) rows ≡ none)
          × (violation rows row ≡ none)
          × (row ≡ new)
          × (row ∷ rows ≡ written))
        ⊎ ((old : Row C) × (find (conflicts_with row) rows ≡ some old)
            × (violation (without row rows) new ≡ none)
            × (merge old row ≡ new)
            × (new ∷ without row rows ≡ written))
  unfolding upsert_row
  upsert_row→ merge tx row rows {new} {written} h = elim (Bool-cases (policy tx row)) [
    | inr p ↦ err≢ok (rw (p, upsert_row) at h)
    | inl p ↦ elim (Option-cases (find (conflicts_with row) rows)) [
      | inl n ↦ elim (Option-cases (violation rows row)) [
        | inl v ↦
            let e = ok-injective (rw (p, n, v, upsert_row) at h) in
            inl (n, v, ap (λ p. p.0) e, ap (λ p. p.1) e)
        | inr (b, v) ↦ err≢ok (rw (p, n, v, upsert_row) at h)
      ]
      | inr (old, s) ↦ elim (Option-cases (violation (without row rows) (merge old row))) [
        | inl v ↦
            let e = ok-injective (rw (p, s, v, upsert_row) at h) in
            inr (
              old,
              s,
              subst (λ r. violation (without row rows) r ≡ none) (ap (λ p. p.0) e) v,
              ap (λ p. p.0) e,
              subst (λ r. r ∷ without row rows ≡ written) (ap (λ p. p.0) e) (ap (λ p. p.1) e),
            )
        | inr (b, v) ↦ err≢ok (rw (p, s, v, upsert_row) at h)
      ]
    ]
  ]

-- The abstract view of the table: for each project a map from ids.
unfoldable pub lookup : {C : Type 0} → Text → ℤ → List (Row C) → Option (Entity C)
lookup project id rows =
    Option.map Row.entity (find (λ row. (row.project_id == project) && (row.entity.id == id)) rows)

module _ {C : Type 0} (tx : Tx) (project : Text) (bound : tx.project_id ≡ some project) where
  pub lookup-select_one :
      (id : ℤ) (rows : List (Row C))
      → select_one tx (λ (e : Entity C). e.id == id) rows ≡ lookup project id rows
  unfolding select_one lookup find policy
  lookup-select_one id [] = refl
  lookup-select_one id (row ∷ rows) = ground (arith, bound, lookup-select_one id rows)

  pub lookup-update_rows :
      (id : ℤ) (change : Entity C → Entity C) (q : Text) (j : ℤ) (rows : List (Row C))
      → ((e : Entity C) → (change e).id ≡ e.id)
      → lookup q j (update_rows tx id change rows) ≡ (
          if (q == project) && (j == id)
          then Option.map change (lookup q j rows)
          else lookup q j rows)
  unfolding lookup find policy update_rows
  lookup-update_rows id change q j [] keeps = ground arith
  lookup-update_rows id change q j (row ∷ rows) keeps = ground (
    arith,
    bound,
    lookup-update_rows id change q j rows keeps,
    keeps row.entity,
    eqb_text_iff row.project_id project,
    eqb_text_iff row.project_id q,
    eqb_text_iff q project,
    eqb_ℤ_iff row.entity.id id,
    eqb_ℤ_iff row.entity.id j,
    eqb_ℤ_iff j id,
  )
