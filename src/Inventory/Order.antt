-- ===== src/Inventory/Order.antt =====
-- `ORDER BY id DESC`: what a list query shows, and in which order.
use knievel.Base.{
  Bool-cases, nat_eq, ℤ, ◌<ℤ◌, ltb_ℤ, int_eq, eq_of_parts, length, In, All, filter, All-In,
  All-of_In, In-filter, filter-In, length-filter, map-In, In-map, length-map, Text, eqb_text_iff,
  text_eq, suc, ◌≤◌, ◌≡◌, refl, sym, ap, ◌∙◌, subst, ◌≢◌, ◌↔◌, inl, inr, Bool, true, some, List, [],
  ◌∷◌, map, arith,
}
use knievel.Auth.Tenancy.{Tx}
use knievel.Inventory.{Entity, Row, policy, insert_desc, sort_desc, select_all}

module _ {C : Type 0} where
  -- The newest first, and none twice.
  abbrev pub IsDescending : List (Entity C) → Type 0
  IsDescending [] = Unit
  IsDescending (e ∷ es) = All (λ (x : Entity C). x.id <ℤ e.id) es × IsDescending es

  -- The primary key.
  abbrev pub HasIds : List (Entity C) → Type 0
  HasIds [] = Unit
  HasIds (e ∷ es) = All (λ (x : Entity C). x.id ≢ e.id) es × HasIds es

  All-insert_desc :
      (P : Entity C → Type 0) (e : Entity C) (es : List (Entity C))
      → P e
      → All P es
      → All P (insert_desc e es)
  unfolding insert_desc
  All-insert_desc P e [] p all = (p, tt)
  All-insert_desc P e (x ∷ xs) p all = elim (Bool-cases (ltb_ℤ e.id x.id)) [
    | inl t ↦ rw (t, insert_desc) (all.0, All-insert_desc P e xs p all.1)
    | inr f ↦ rw (f, insert_desc) (p, all)
  ]

  pub All-sort_desc :
      (P : Entity C → Type 0) (es : List (Entity C)) → All P es → All P (sort_desc es)
  unfolding sort_desc
  All-sort_desc P [] all = tt
  All-sort_desc P (e ∷ es) all = All-insert_desc P e (sort_desc es) all.0 (All-sort_desc P es all.1)

  All-below :
      (a b : ℤ) (es : List (Entity C))
      → a <ℤ b
      → All (λ (x : Entity C). x.id <ℤ a) es
      → All (λ (x : Entity C). x.id <ℤ b) es
  All-below a b [] lt all = tt
  All-below a b (x ∷ xs) lt all = (omega (arith, all.0), All-below a b xs lt all.1)

  IsDescending-insert :
      (e : Entity C) (es : List (Entity C))
      → All (λ (x : Entity C). x.id ≢ e.id) es
      → IsDescending es
      → IsDescending (insert_desc e es)
  unfolding insert_desc
  IsDescending-insert e [] apart desc = (tt, tt)
  IsDescending-insert e (x ∷ xs) apart desc = elim (Bool-cases (ltb_ℤ e.id x.id)) [
    | inl t ↦
        rw (t, insert_desc)
          (
            All-insert_desc (λ (y : Entity C). y.id <ℤ x.id) e xs (ground arith) desc.0,
            IsDescending-insert e xs apart.1 desc.1,
          )
    | inr f ↦
        let lt : x.id <ℤ e.id = ground (arith, f, apart.0, eq_of_parts x.id e.id) in
        rw (f, insert_desc) ((lt, All-below x.id e.id xs lt desc.0), desc)
  ]

  pub IsDescending-sort : (es : List (Entity C)) → HasIds es → IsDescending (sort_desc es)
  unfolding sort_desc
  IsDescending-sort [] ids = tt
  IsDescending-sort (e ∷ es) ids =
      IsDescending-insert e (sort_desc es) (All-sort_desc (λ (x : Entity C). x.id ≢ e.id) es ids.0)
        (IsDescending-sort es ids.1)

  In-insert_desc : (a e : Entity C) (es : List (Entity C)) → In a (insert_desc e es) ↔ In a (e ∷ es)
  unfolding insert_desc
  In-insert_desc a e [] = ((λ i. i), (λ i. i))
  In-insert_desc a e (x ∷ xs) = ground (arith, In-insert_desc a e xs)

  pub In-sort_desc : (a : Entity C) (es : List (Entity C)) → In a (sort_desc es) ↔ In a es
  unfolding sort_desc
  In-sort_desc a [] = ((λ i. i), (λ i. i))
  In-sort_desc a (e ∷ es) = ground (arith, In-insert_desc a e (sort_desc es), In-sort_desc a es)

  length-insert_desc :
      (e : Entity C) (es : List (Entity C)) → length (insert_desc e es) ≡ suc (length es)
  unfolding insert_desc
  length-insert_desc e [] = refl
  length-insert_desc e (x ∷ xs) = ground (arith, length-insert_desc e xs)

  length-sort_desc : (es : List (Entity C)) → length (sort_desc es) ≡ length es
  unfolding sort_desc
  length-sort_desc [] = refl
  length-sort_desc (e ∷ es) = length-insert_desc e (sort_desc es) ∙ ap suc (length-sort_desc es)

  pub length-select_all :
      (tx : Tx) (rows : List (Row C)) → length (select_all tx rows) ≤ length rows
  unfolding select_all
  length-select_all tx rows = omega (
    arith,
    length-sort_desc (map Row.entity (filter (policy tx) rows)),
    length-map Row.entity (filter (policy tx) rows),
    length-filter (policy tx) rows,
  )

  HasIds-filter :
      (test : Row C → Bool) (rows : List (Row C))
      → HasIds (map Row.entity rows)
      → HasIds (map Row.entity (filter test rows))
  unfolding filter
  HasIds-filter test [] ids = tt
  HasIds-filter test (row ∷ rows) ids = elim (Bool-cases (test row)) [
    | inl t ↦
        rw (t, filter)
          (
            All-of_In (λ (x : Entity C). x.id ≢ row.entity.id) (map Row.entity (filter test rows))
                (λ x i.
                  let (r, j, q) = In-map Row.entity x (filter test rows) i in
                  All-In (λ (x : Entity C). x.id ≢ row.entity.id) x (map Row.entity rows) ids.0
                    (subst (λ y. In y (map Row.entity rows)) (sym q)
                      (map-In Row.entity r rows (In-filter test r rows j).0))),
            HasIds-filter test rows ids.1,
          )
    | inr f ↦ rw (f, filter) (HasIds-filter test rows ids.1)
  ]

  pub IsDescending-select_all :
      (tx : Tx) (rows : List (Row C))
      → HasIds (map Row.entity rows)
      → IsDescending (select_all tx rows)
  unfolding select_all
  IsDescending-select_all tx rows ids =
      IsDescending-sort (map Row.entity (filter (policy tx) rows))
        (HasIds-filter (policy tx) rows ids)

  -- The entity is one of the rows of the project.
  abbrev pub IsShown : Text → List (Row C) → Entity C → Type 0
  IsShown project rows e =
      (row : Row C) × In row rows × (row.project_id ≡ project) × (e ≡ row.entity)

  pub In-select_all :
      (tx : Tx) (project : Text) (rows : List (Row C)) (e : Entity C)
      → tx.project_id ≡ some project
      → In e (select_all tx rows) ↔ IsShown project rows e
  unfolding select_all policy
  In-select_all tx project rows e bound = (
    (λ i.
        let (row, j, q) =
          In-map Row.entity e (filter (policy tx) rows)
            ((In-sort_desc e (map Row.entity (filter (policy tx) rows))).0 i) in
        let (k, t) = In-filter (policy tx) row rows j in
        (row, k, ground (arith, t, eqb_text_iff row.project_id project), q)),
    (λ h.
        let (row, k, mine, q) = h in
        let shown : policy tx row ≡ true = ground (arith, eqb_text_iff row.project_id project) in
        (In-sort_desc e (map Row.entity (filter (policy tx) rows))).1 (
          subst (λ x. In x (map Row.entity (filter (policy tx) rows))) (sym q)
            (map-In Row.entity row (filter (policy tx) rows)
              (filter-In (policy tx) row rows k shown)))),
  )
