-- ===== src/Flights/Batches.antt =====
-- src/flights.rs: a batch of flights is checked for ad types before the database is asked.
use knievel.Base.{
  Bool-cases, Option-cases, nat_eq, ℤ, int_eq, Never, length, All, is_empty, Text, text_eq, ℕ, zero,
  suc, Option, ◌+◌, ◌<◌, ◌≡◌, refl, sym, ap, ◌∙◌, subst, inl, inr, true, false, none, some, List,
  [], ◌∷◌, arith,
}
use knievel.Base.Result.{Result}
use knievel.Auth.{Principal}
use knievel.Sql.{DbError}
use knievel.Batch.{BatchErrorDetail}
use knievel.Inventory.{Entity, Row, Env}
use knievel.Inventory.Handlers.{BatchResp, batch_upsert}
use knievel.Inventory.Handlers.Batches.{
  View, view_of, IsUpserted, Batched, with_entry, IsAtomic, batch_upsert-IsAtomic,
}
use knievel.Inventory.External.{unnamed}
use knievel.Campaigns.{CampaignColumns}
use knievel.Flights.{
  FlightColumns, BatchUpsertFlightRow, first_untyped, untyped_detail, casting, item_error, flights,
  upsert_flights,
}

abbrev pub IsTyped : BatchUpsertFlightRow → Type 0
IsTyped item = is_empty item.ad_types ≡ false

-- Item `k` has no ad types, and all before it have some.
abbrev pub IsFirstUntyped : List BatchUpsertFlightRow → ℕ → Type 0
IsFirstUntyped [] k = Never
IsFirstUntyped (item ∷ items) zero = is_empty item.ad_types ≡ true
IsFirstUntyped (item ∷ items) (suc k) = IsTyped item × IsFirstUntyped items k

first_untyped-none :
    (n : ℕ) (items : List BatchUpsertFlightRow) → first_untyped n items ≡ none → All IsTyped items
unfolding first_untyped
first_untyped-none n [] h = tt
first_untyped-none n (item ∷ items) h = elim (Bool-cases (is_empty item.ad_types)) [
  | inl t ↦ let h' = rw (t, first_untyped) at h in ground arith
  | inr f ↦ (f, first_untyped-none (n + 1) items (rw (f, first_untyped) at h))
]

first_untyped-some :
    (n : ℕ) (items : List BatchUpsertFlightRow) {m : ℕ}
    → first_untyped n items ≡ some m
    → (k : ℕ) × (m ≡ n + k) × IsFirstUntyped items k
unfolding first_untyped
first_untyped-some n [] h = ground arith
first_untyped-some n (item ∷ items) {m} h = elim (Bool-cases (is_empty item.ad_types)) [
  | inl t ↦ let h' = rw (t, first_untyped) at h in (0, ground arith, t)
  | inr f ↦
      let (k, e, first) = first_untyped-some (n + 1) items (rw (f, first_untyped) at h) in
      (suc k, omega arith, (f, first))
]

IsFirstUntyped-unique :
    (items : List BatchUpsertFlightRow) (j k : ℕ)
    → IsFirstUntyped items j
    → IsFirstUntyped items k
    → j ≡ k
IsFirstUntyped-unique [] j k p q = elim p [ ]
IsFirstUntyped-unique (item ∷ items) zero zero p q = refl
IsFirstUntyped-unique (item ∷ items) zero (suc k) p q = let q0 = q.0 in ground arith
IsFirstUntyped-unique (item ∷ items) (suc j) zero p q = let p0 = p.0 in ground arith
IsFirstUntyped-unique (item ∷ items) (suc j) (suc k) p q =
    ap (λ n. suc n) (IsFirstUntyped-unique items j k p.1 q.1)

IsFirstUntyped-lt :
    (items : List BatchUpsertFlightRow) (k : ℕ) → IsFirstUntyped items k → k < length items
IsFirstUntyped-lt [] k p = elim p [ ]
IsFirstUntyped-lt (item ∷ items) zero p = omega arith
IsFirstUntyped-lt (item ∷ items) (suc k) p = omega (arith, IsFirstUntyped-lt items k p.1)

IsTyped-none :
    (items : List BatchUpsertFlightRow) (k : ℕ) → All IsTyped items → ¬ (IsFirstUntyped items k)
IsTyped-none [] k all p = elim p [ ]
IsTyped-none (item ∷ items) zero all p = let a = all.0 in ground arith
IsTyped-none (item ∷ items) (suc k) all p = IsTyped-none items k all.1 p.1

abbrev pub HasAdTypes : Entity FlightColumns → Type 0
HasAdTypes e = is_empty e.columns.ad_types ≡ false

module _ (timestamptz : Text → Result DbError ℤ) (env : Env) (principal : Principal)
    (project : Text) (table : List (Row CampaignColumns)) where
  -- What a batch may end in, by what it has committed and its response.
  unfoldable pub IsValidated :
      List (Row FlightColumns)
      → List BatchUpsertFlightRow
      → List (Row FlightColumns) × BatchResp FlightColumns
      → Type 0
  IsValidated rows items (written, BatchResp.ok out) =
      (Batched (flights timestamptz table) env principal project 0 items out
          (view_of (flights timestamptz table) env principal project rows)
          (view_of (flights timestamptz table) env principal project written)
        × (unnamed written ≡ unnamed rows))
      × All HasAdTypes out
  IsValidated rows items (written, BatchResp.partial_failure total details) =
      (written ≡ rows)
      × (total ≡ length items)
      × ((detail : BatchErrorDetail) × (details ≡ detail ∷ [])
          × (detail.index < length items)
          × ((k : ℕ) → IsFirstUntyped items k → detail ≡ untyped_detail k))
  IsValidated rows items (written, BatchResp.forbidden e) = (written ≡ rows) × All IsTyped items
  IsValidated rows items (written, BatchResp.internal e) = written ≡ rows

  IsUpserted-HasAdTypes :
      (n : ℕ) (item : BatchUpsertFlightRow) (old : Option (Entity FlightColumns))
      (e : Entity FlightColumns)
      → IsTyped item
      → IsUpserted (flights timestamptz table) env principal project n item old e
      → HasAdTypes e
  IsUpserted-HasAdTypes n item none e typed a =
      ap (λ (x : Entity FlightColumns). is_empty x.columns.ad_types) a ∙ typed
  IsUpserted-HasAdTypes n item (some old) e typed a =
      ap (λ (x : Entity FlightColumns). is_empty x.columns.ad_types) a ∙ typed

  Batched-HasAdTypes :
      (n : ℕ) (items : List BatchUpsertFlightRow) (out : List (Entity FlightColumns))
      (before after : View (flights timestamptz table) env principal project)
      → All IsTyped items
      → Batched (flights timestamptz table) env principal project n items out before after
      → All HasAdTypes out
  Batched-HasAdTypes n [] [] before after all a = tt
  Batched-HasAdTypes n [] (e ∷ es) before after all a = elim a [ ]
  Batched-HasAdTypes n (item ∷ items) [] before after all a = elim a [ ]
  Batched-HasAdTypes n (item ∷ items) (e ∷ es) before after all a = (
    IsUpserted-HasAdTypes n item (before project item.external_id) e all.0 a.0,
    Batched-HasAdTypes (n + 1) items es
        (with_entry (flights timestamptz table) env principal project item.external_id e before)
        after all.1 a.1,
  )

  IsAtomic-IsValidated :
      (items : List BatchUpsertFlightRow) (rows : List (Row FlightColumns))
      (end : List (Row FlightColumns) × BatchResp FlightColumns)
      → All IsTyped items
      → IsAtomic (flights timestamptz table) env principal project rows items end
      → IsValidated rows items end
  unfolding IsAtomic IsValidated
  IsAtomic-IsValidated items rows (written, BatchResp.ok out) all a = (
    a,
    Batched-HasAdTypes 0 items out (view_of (flights timestamptz table) env principal project rows)
        (view_of (flights timestamptz table) env principal project written) all a.0,
  )
  IsAtomic-IsValidated items rows (written, BatchResp.partial_failure total details) all
        (same, n, (detail, one, low)) =
      (same, n, (detail, one, low, λ k first. absurd (IsTyped-none items k all first)))
  IsAtomic-IsValidated items rows (written, BatchResp.forbidden e) all a = (a, all)
  IsAtomic-IsValidated items rows (written, BatchResp.internal e) all a = a

-- A batch of flights that answers ok has committed all its rows, as they are answered and in the order
-- of the request, each put on what its external id found, and every flight that it answers has ad
-- types; all other external ids find what they found, and the rows without one are as before. Any other
-- answer leaves the table. A batch that names an item names the first without ad types, where an item
-- has none. A batch is refused for the principal's rights only when every item has ad types.
pub upsert_flights-IsValidated :
    (timestamptz : Text → Result DbError ℤ) (env : Env) (principal : Principal) (project : Text)
    (table : List (Row CampaignColumns)) (items : List BatchUpsertFlightRow)
    (rows : List (Row FlightColumns))
    → IsValidated timestamptz env principal project table rows items
        (upsert_flights timestamptz env principal project table items rows)
unfolding upsert_flights IsValidated
upsert_flights-IsValidated timestamptz env principal project table items rows =
    elim (Option-cases env.db) [
      | inl n ↦ rw (n, upsert_flights) refl
      | inr (pool, s) ↦ elim (Option-cases (first_untyped 0 items)) [
        | inl n ↦
            let cast_env = casting timestamptz (item_error timestamptz items) env in
            rw (s, n, upsert_flights)
              (IsAtomic-IsValidated timestamptz cast_env principal project table items rows
                (batch_upsert (flights timestamptz table) cast_env principal project items rows)
                (first_untyped-none 0 items n)
                (batch_upsert-IsAtomic (flights timestamptz table) cast_env principal project items
                  rows))
        | inr (m, f) ↦
            let (k, e, first) = first_untyped-some 0 items f in
            let m_is_k : m ≡ k = omega arith in
            let at_m = subst (IsFirstUntyped items) (sym m_is_k) first in
            rw (s, f, upsert_flights)
              (
                refl,
                refl,
                (
                  untyped_detail m,
                  refl,
                  IsFirstUntyped-lt items m at_m,
                  λ j first'. ap untyped_detail (IsFirstUntyped-unique items m j at_m first'),
                ),
              )
      ]
    ]
