-- ===== src/Idempotency/Laws.antt =====
-- src/idempotency.rs: what `check` finds behind `store`.
use knievel.Base.{
  Bool-cases, nat_eq, ◌==◌, ==_refl, ℤ, ltb_ℤ, int_eq, In, any, find, any_of_In, Text, eqb_text_iff,
  text_eq, ◌≡◌, refl, ap, subst, inl, inr, Bool, true, false, not, ◌&&◌, ◌||◌, some, List, [], ◌∷◌,
  arith,
}
use knievel.Base.Result.{none≢some, some-injective}
use knievel.Auth.Tenancy.{Tx}
use knievel.Idempotency.{
  IdempotencyKey, is_slot, is_visible, project_or_empty, result_of, check, store,
}

-- The slot of a row.
abbrev pub slot_of : IdempotencyKey → IdempotencyKey → Bool
slot_of row = is_slot row.org_id row.project_id row.key row.route

-- No two rows stand in one slot.
unfoldable pub HasUniqueSlots : List IdempotencyKey → Type 0
HasUniqueSlots [] = Unit
HasUniqueSlots (row ∷ rows) = (any (slot_of row) rows ≡ false) × HasUniqueSlots rows

slot_sym : (a b : IdempotencyKey) → slot_of a b ≡ true → slot_of b a ≡ true
slot_sym a b h = ground (
  arith,
  eqb_text_iff b.org_id a.org_id,
  eqb_text_iff a.org_id b.org_id,
  eqb_text_iff (project_or_empty b.project_id) (project_or_empty a.project_id),
  eqb_text_iff (project_or_empty a.project_id) (project_or_empty b.project_id),
  eqb_text_iff b.key a.key,
  eqb_text_iff a.key b.key,
  eqb_text_iff b.route a.route,
  eqb_text_iff a.route b.route,
  h,
)

slot_refl : (a : IdempotencyKey) → slot_of a a ≡ true
slot_refl a =
    rw (==_refl a.org_id, ==_refl (project_or_empty a.project_id), ==_refl a.key, ==_refl a.route)
      refl

find-slot :
    (test : IdempotencyKey → Bool) (row : IdempotencyKey) (rows : List IdempotencyKey)
    → HasUniqueSlots rows
    → In row rows
    → test row ≡ true
    → ((x : IdempotencyKey) → test x ≡ true → slot_of row x ≡ true)
    → find test rows ≡ some row
unfolding find HasUniqueSlots
find-slot test row [] u i t inside = elim i [ ]
find-slot test row (x ∷ rows) (alone, u) (inl e) t inside =
    subst (λ y. find test (y ∷ rows) ≡ some row) e (rw (t, find) refl)
find-slot test row (x ∷ rows) (alone, u) (inr i) t inside = elim (Bool-cases (test x)) [
  | inr f ↦ rw (f, find) (find-slot test row rows u i t inside)
  | inl g ↦
      let both = any_of_In (slot_of x) row rows i (slot_sym row x (inside x g)) in
      ground (arith, both, alone)
]

-- A row that has not expired is found by every transaction of its organization.
pub check-stored :
    (now : ℤ) (tx : Tx) (row : IdempotencyKey) (hash : Text) (rows : List IdempotencyKey)
    → HasUniqueSlots rows
    → In row rows
    → row.org_id ≡ tx.org_id
    → ltb_ℤ now row.expires_at ≡ true
    → check true now tx row.org_id row.project_id row.key row.route hash rows
      ≡ some (result_of hash (some row))
unfolding check
check-stored now tx row hash rows u i own lives =
    ap (λ r. some (result_of hash r))
      (find-slot (λ x. slot_of row x && ltb_ℤ now x.expires_at && is_visible tx x) row rows u i
        (found ((eqb_text_iff row.org_id tx.org_id).1 own)) (λ x h. ground (arith, h)))
  where
    found :
        (row.org_id == tx.org_id) ≡ true
        → (slot_of row row && ltb_ℤ now row.expires_at && is_visible tx row) ≡ true
    found same = rw (slot_refl row, lives, same) refl

pub store-keeps :
    (answers : Bool) (tx : Tx) (row : IdempotencyKey) (rows : List IdempotencyKey)
    {rows' : List IdempotencyKey}
    → store answers tx row rows ≡ some rows'
    → HasUniqueSlots rows
    → HasUniqueSlots rows'
      × ((x : IdempotencyKey) → In x rows → In x rows')
      × (any (slot_of row) rows ≡ false → In row rows')
unfolding store HasUniqueSlots
store-keeps answers tx row rows {rows'} e u =
    elim (Bool-cases (not answers || not (row.org_id == tx.org_id))) [
      | inl t ↦ none≢some (rw (t, store) at e)
      | inr f ↦ elim (Bool-cases (any (slot_of row) rows)) [
        | inl t ↦
            subst
              (λ r.
                HasUniqueSlots r
                × ((x : IdempotencyKey) → In x rows → In x r)
                × (any (slot_of row) rows ≡ false → In row r))
              (some-injective (rw (f, t, store) at e)) (u, λ x i. i, λ v. ground (arith, t, v))
        | inr g ↦
            subst
              (λ r.
                HasUniqueSlots r
                × ((x : IdempotencyKey) → In x rows → In x r)
                × (any (slot_of row) rows ≡ false → In row r))
              (some-injective (rw (f, g, store) at e)) ((g, u), λ x i. inr i, λ v. inl refl)
      ]
    ]
