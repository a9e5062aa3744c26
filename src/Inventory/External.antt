-- ===== src/Inventory/External.antt =====
-- The project-scoped tables, as maps from the external ids of each project: what an upsert finds there
-- and what it leaves.
use mathlib.Core.Option
use knievel.Base.{
  if◌then◌else◌, nat_eq, ◌==◌, int_eq, filter, find, Text, eqb_text_iff, text_eq, Bool, true, false,
  ◌&&◌, ◌≡◌, refl, Option, none, some, List, [], ◌∷◌, arith, Option-cases, Bool-cases, find-some,
  ap, ◌∙◌, inl, inr,
}
use knievel.Inventory.{Entity, Row, conflicts_with, without}

module _ {C : Type 0} where
  unfoldable pub is_named : Text → Row C → Bool
  is_named x row = elim row.entity.external_id [ none ↦ false | some y ↦ x == y ]

  -- The abstract view: for each project a map from external ids.
  unfoldable pub by_external : Text → Text → List (Row C) → Option (Entity C)
  by_external project x rows =
      Option.map Row.entity (find (λ row. (row.project_id == project) && is_named x row) rows)

  unfoldable pub is_unnamed : Row C → Bool
  is_unnamed row = elim row.entity.external_id [ none ↦ true | some y ↦ false ]

  -- The rows that no external id finds.
  unfoldable pub unnamed : List (Row C) → List (Row C)
  unnamed rows = filter is_unnamed rows

  module _ (project x : Text) where
    pub by_external-cons :
        (row : Row C) (rows : List (Row C)) (q y : Text)
        → row.project_id ≡ project
        → row.entity.external_id ≡ some x
        → by_external q y (row ∷ rows)
          ≡ (if (q == project) && (y == x) then some row.entity else by_external q y rows)
    unfolding by_external find is_named
    by_external-cons row rows q y p n =
        ground (arith, p, n, eqb_text_iff row.project_id q, eqb_text_iff q project)

    -- Of the other external ids, the rows without those in conflict find what the rows find.
    pub by_external-without :
        (new : Row C) (rows : List (Row C)) (q y : Text)
        → new.project_id ≡ project
        → new.entity.external_id ≡ some x
        → ((q == project) && (y == x)) ≡ false
        → by_external q y (without new rows) ≡ by_external q y rows
    unfolding by_external find filter without conflicts_with is_named
    by_external-without new [] q y p n other = refl
    by_external-without new (row ∷ rows) q y p n other =
        elim (Option-cases row.entity.external_id) [
          | inl m ↦ ground (arith, p, n, m, other, by_external-without new rows q y p n other)
          | inr (z, m) ↦ ground (
            arith,
            p,
            n,
            m,
            other,
            by_external-without new rows q y p n other,
            eqb_text_iff row.project_id q,
            eqb_text_iff row.project_id new.project_id,
            eqb_text_iff q project,
            eqb_text_iff y x,
            eqb_text_iff y z,
            eqb_text_iff x z,
          )
        ]

    -- What an upsert conflicts with is what its external id finds.
    pub find-by_external :
        (new : Row C) (rows : List (Row C))
        → new.project_id ≡ project
        → new.entity.external_id ≡ some x
        → Option.map Row.entity (find (conflicts_with new) rows) ≡ by_external project x rows
    unfolding by_external find conflicts_with is_named
    find-by_external new [] p n = refl
    find-by_external new (row ∷ rows) p n = ground (arith, p, n, find-by_external new rows p n)

    -- The row that an upsert meets is of its project and has its external id.
    pub find-entry :
        (new : Row C) (rows : List (Row C)) {old : Row C}
        → new.project_id ≡ project
        → new.entity.external_id ≡ some x
        → find (conflicts_with new) rows ≡ some old
        → (old.project_id ≡ project) × (old.entity.external_id ≡ some x)
    unfolding conflicts_with
    find-entry new rows {old} p n h =
        let (_, t) = find-some (conflicts_with new) rows h in
        elim (Option-cases old.entity.external_id) [
          | inl m ↦ let t' = rw (n, m, conflicts_with) at t in ground arith
          | inr (y, m) ↦
              let t' = rw (n, m, conflicts_with) at t in
              let same : y ≡ x = ground (arith, t', eqb_text_iff x y) in
              (
                ground (arith, t', p, eqb_text_iff old.project_id new.project_id),
                m ∙ ap (λ z. some z) same,
              )
        ]

    -- After the row that an upsert writes beside those without a conflict, its external id finds it, and
    -- every other one what it found.
    pub by_external-upserted :
        (proposed new : Row C) (rows : List (Row C)) (q y : Text)
        → proposed.project_id ≡ project
        → proposed.entity.external_id ≡ some x
        → new.project_id ≡ project
        → new.entity.external_id ≡ some x
        → by_external q y (new ∷ without proposed rows)
          ≡ (if (q == project) && (y == x) then some new.entity else by_external q y rows)
    by_external-upserted proposed new rows q y p n p' n' =
        by_external-cons new (without proposed rows) q y p' n'
        ∙ (elim (Bool-cases ((q == project) && (y == x))) [
          | inl t ↦ rw t refl
          | inr f ↦ rw f (by_external-without proposed rows q y p n f)
        ])

    pub unnamed-cons :
        (row : Row C) (rows : List (Row C))
        → row.entity.external_id ≡ some x
        → unnamed (row ∷ rows) ≡ unnamed rows
    unfolding unnamed filter is_unnamed
    unnamed-cons row rows n = ground (arith, n)

    pub unnamed-without :
        (new : Row C) (rows : List (Row C))
        → new.entity.external_id ≡ some x
        → unnamed (without new rows) ≡ unnamed rows
    unfolding unnamed filter without conflicts_with is_unnamed
    unnamed-without new [] n = refl
    unnamed-without new (row ∷ rows) n = elim (Option-cases row.entity.external_id) [
      | inl m ↦ ground (arith, n, m, unnamed-without new rows n)
      | inr (z, m) ↦ ground (arith, n, m, unnamed-without new rows n)
    ]
