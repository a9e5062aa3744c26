-- ===== src/Sites/Keys.antt =====
-- src/sites.rs: the unique keys of the table across all writes.
use knievel.Base.{
  Bool-cases, nat_eq, ◌==◌, ==_refl, ℤ, int_eq, All, filter, any, All-filter, Text, eqb_text_iff,
  text_eq, ◌≡◌, refl, ◌∙◌, subst, ◌≢◌, inl, inr, Bool, false, not, ◌&&◌, none, some, List, [], ◌∷◌,
  arith,
}
use knievel.Auth.{Principal}
use knievel.Auth.Tenancy.{Tx}
use knievel.Inventory.{Row, Env, policy, conflicts_with, without, update_rows}
use knievel.Inventory.Rows.{insert_row→, upsert_row→}
use knievel.Sites.{SiteColumns, Sites, UpdateSiteRequest, violation, shares_url, sites}
use knievel.Inventory.Handlers.{coalesced, merged}
use knievel.Inventory.Handlers.Writes.{IsKept}
use knievel.Sites.Writes.{SiteCall, site_committed, site_committed-keeps}

-- Two rows of one project have different URLs, and no external id in common.
abbrev pub Distinct : Row SiteColumns → Row SiteColumns → Type 0
Distinct r s =
    r.project_id ≡ s.project_id
    → (r.entity.columns.url ≢ s.entity.columns.url)
      × ((x : Text) → r.entity.external_id ≡ some x → s.entity.external_id ≢ some x)

abbrev pub IsKeyed : Sites → Type 0
IsKeyed [] = Unit
IsKeyed (row ∷ rows) = All (Distinct row) rows × IsKeyed rows

Distinct-conflicts :
    (new old : Row SiteColumns)
    → conflicts_with new old ≡ false
    → shares_url new old ≡ false
    → Distinct new old
unfolding conflicts_with
Distinct-conflicts new old f g same = (
  (λ e. ground (
    arith,
    ==_refl new.entity.columns.url,
    eqb_text_iff old.project_id new.project_id,
    eqb_text_iff old.entity.columns.url new.entity.columns.url,
  )),
  (λ x a b. ground (arith, eqb_text_iff old.project_id new.project_id, ==_refl x)),
)

any-false :
    {A : Type 0} (test : A → Bool) (xs : List A)
    → any test xs ≡ false
    → All (λ x. test x ≡ false) xs
unfolding any
any-false test [] h = tt
any-false test (x ∷ xs) h = ground (arith, any-false test xs)

All-Distinct :
    (row : Row SiteColumns) (rows : Sites)
    → All (λ old. conflicts_with row old ≡ false) rows
    → All (λ old. shares_url row old ≡ false) rows
    → All (Distinct row) rows
All-Distinct row [] f g = tt
All-Distinct row (old ∷ rows) f g =
    (Distinct-conflicts row old f.0 g.0, All-Distinct row rows f.1 g.1)

violation-none :
    (rows : Sites) (row : Row SiteColumns) → violation rows row ≡ none → All (Distinct row) rows
unfolding violation
violation-none rows row h =
    All-Distinct row rows (any-false (conflicts_with row) rows (ground arith))
      (any-false (shares_url row) rows (ground arith))

IsKeyed-filter :
    (test : Row SiteColumns → Bool) (rows : Sites) → IsKeyed rows → IsKeyed (filter test rows)
unfolding filter
IsKeyed-filter test [] h = tt
IsKeyed-filter test (x ∷ xs) h = elim (Bool-cases (test x)) [
  | inl t ↦ rw (t, filter) (All-filter (Distinct x) test xs h.0, IsKeyed-filter test xs h.1)
  | inr f ↦ rw (f, filter) (IsKeyed-filter test xs h.1)
]

-- An update keeps the keys of a row.
abbrev SameKeys : Row SiteColumns → Row SiteColumns → Type 0
SameKeys r s =
    (r.project_id ≡ s.project_id)
    × (r.entity.external_id ≡ s.entity.external_id)
    × (r.entity.columns.url ≡ s.entity.columns.url)

Distinct-keys :
    (row row' old : Row SiteColumns) → SameKeys row row' → Distinct row old → Distinct row' old
Distinct-keys row row' old (same_project, same_id, same_url) d e =
    let (urls, ids) = d (same_project ∙ e) in
    ((λ u. urls (same_url ∙ u)), (λ x p q. ids x (same_id ∙ p) q))

module _ (env : Env) (principal : Principal) (project : Text) (tx : Tx) (id : ℤ)
    (req : UpdateSiteRequest) where
  abbrev changed : Sites → Sites
  changed rows = update_rows tx id (coalesced sites env principal project req) rows

  Distinct-update :
      (row row' : Row SiteColumns) (rows : Sites)
      → SameKeys row row'
      → All (Distinct row) rows
      → All (Distinct row') (changed rows)
  unfolding update_rows
  Distinct-update row row' [] same h = tt
  Distinct-update row row' (r ∷ rows) same h =
      elim (Bool-cases (policy tx r && (r.entity.id == id))) [
        | inl t ↦
            rw (t, update_rows)
              (Distinct-keys row row' r same h.0, Distinct-update row row' rows same h.1)
        | inr f ↦
            rw (f, update_rows)
              (Distinct-keys row row' r same h.0, Distinct-update row row' rows same h.1)
      ]

  IsKeyed-update : (rows : Sites) → IsKeyed rows → IsKeyed (changed rows)
  unfolding update_rows
  IsKeyed-update [] h = tt
  IsKeyed-update (r ∷ rows) h = elim (Bool-cases (policy tx r && (r.entity.id == id))) [
    | inl t ↦
        rw (t, update_rows)
          (
            Distinct-update r
                (record r { entity = coalesced sites env principal project req r.entity }) rows
                (refl, refl, refl) h.0,
            IsKeyed-update rows h.1,
          )
    | inr f ↦
        rw (f, update_rows)
          (Distinct-update r r rows (refl, refl, refl) h.0, IsKeyed-update rows h.1)
  ]

module _ (env : Env) (principal : Principal) (project : Text) where
  IsKeyed-IsKept : IsKept sites env principal project IsKeyed
  unfolding without
  IsKeyed-IsKept = record {
    inserted = λ tx row rows written bound mine h keyed.
        let (free, e) = insert_row→ violation tx row rows h in
        subst IsKeyed e (violation-none rows row free, keyed);
    upserted = λ n tx row new rows written bound mine h keyed.
        elim (upsert_row→ violation (merged sites env principal project n) tx row rows h) [
          | inl (missing, free, _, e) ↦ subst IsKeyed e (violation-none rows row free, keyed)
          | inr (old, found, free, _, e) ↦ subst IsKeyed e (
            violation-none (without row rows) new free,
            IsKeyed-filter (λ old. not (conflicts_with row old)) rows keyed,
          )
        ];
    updated =
        λ tx id req rows bound keyed. IsKeyed-update env principal project tx id req rows keyed;
  }

-- The rows that calls reach from the empty table, by whatever principals on whatever projects.
pub data Reaches : Sites → Type 0 where
  empty : Reaches []
  step :
      (env : Env) (principal : Principal) (project : Text) (call : SiteCall) {rows : Sites}
      → Reaches rows
      → Reaches (site_committed env principal project call rows)

-- No two sites of one project ever share a URL or an external id, after whatever calls of the
-- handlers that write, batches and updates included.
pub Reaches-IsKeyed : {rows : Sites} → Reaches rows → IsKeyed rows
Reaches-IsKeyed empty = tt
Reaches-IsKeyed (step env principal project call {rows} r) =
    site_committed-keeps env principal project IsKeyed (IsKeyed-IsKept env principal project) call
      rows (Reaches-IsKeyed r)
