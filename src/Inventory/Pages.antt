-- ===== src/Inventory/Pages.antt =====
-- How the pages of a list query fit together.
use knievel.Base.{
  Bool-cases, nat_eq, ℤ, ◌<ℤ◌, ltb_ℤ, int_eq, length, get_elem?, drop, All, filter, get_elem?-some,
  All-filter, text_eq, ℕ, zero, suc, ◌<◌, ◌≡◌, refl, sym, ap, ◌∙◌, subst, inl, inr, Bool, false,
  Option, none, some, List, [], ◌∷◌, arith,
}
use knievel.Base.Result.{none≢some, some-injective}
use knievel.Inventory.{Entity, is_after}
use knievel.Inventory.Order.{IsDescending}

module _ {C : Type 0} where
  filter-below :
      (last : Entity C) (es : List (Entity C))
      → All (λ (x : Entity C). x.id <ℤ last.id) es
      → filter (is_after (some last.id)) es ≡ es
  unfolding filter is_after
  filter-below last [] all = refl
  filter-below last (e ∷ es) all = ground (arith, filter-below last es all.1, all.0)

  get_elem?-All :
      (P : Entity C → Type 0) (es : List (Entity C)) (n : ℕ) {last : Entity C}
      → get_elem? es n ≡ some last
      → All P es
      → P last
  get_elem?-All P [] n at all = none≢some at
  get_elem?-All P (e ∷ es) zero at all = subst P (some-injective at) all.0
  get_elem?-All P (e ∷ es) (suc n) at all = get_elem?-All P es n at all.1

  -- All rows behind a row that is in the list stand behind the last of a page.
  pub filter-page :
      (n : ℕ) (es : List (Entity C)) {last : Entity C}
      → IsDescending es
      → get_elem? es n ≡ some last
      → filter (is_after (some last.id)) es ≡ drop (suc n) es
  unfolding filter is_after
  filter-page n [] desc at = none≢some at
  filter-page zero (e ∷ es) {last} desc at =
      let same : e ≡ last = some-injective at in
      let none_before : ltb_ℤ e.id last.id ≡ false = ground (arith, ap Entity.id same) in
      rw none_before (
        filter-below last es
          (subst (λ (l : Entity C). All (λ (x : Entity C). x.id <ℤ l.id) es) same desc.0))
  filter-page (suc n) (e ∷ es) {last} desc at =
      let lt : last.id <ℤ e.id = get_elem?-All (λ (x : Entity C). x.id <ℤ e.id) es n at desc.0 in
      let none_before : ltb_ℤ e.id last.id ≡ false = ground (arith, lt) in
      rw none_before (filter-page n es desc.1 at)

  -- A page behind a page is cut from the same rows.
  pub filter-filter :
      (a b : ℤ) (es : List (Entity C))
      → b <ℤ a
      → filter (is_after (some b)) (filter (is_after (some a)) es) ≡ filter (is_after (some b)) es
  unfolding filter is_after
  filter-filter a b [] lt = refl
  filter-filter a b (e ∷ es) lt = ground (arith, filter-filter a b es lt)

  pub filter-IsDescending :
      (test : Entity C → Bool) (es : List (Entity C))
      → IsDescending es
      → IsDescending (filter test es)
  unfolding filter
  filter-IsDescending test [] desc = tt
  filter-IsDescending test (e ∷ es) desc = elim (Bool-cases (test e)) [
    | inl t ↦
        rw (t, filter)
          (
            All-filter (λ (x : Entity C). x.id <ℤ e.id) test es desc.0,
            filter-IsDescending test es desc.1,
          )
    | inr f ↦ rw (f, filter) (filter-IsDescending test es desc.1)
  ]

  below :
      (a : ℤ) (es : List (Entity C))
      → All (λ (x : Entity C). x.id <ℤ a) (filter (is_after (some a)) es)
  unfolding filter is_after
  below a [] = tt
  below a (e ∷ es) = ground (arith, below a es)

  pub filter-none : (es : List (Entity C)) → filter (is_after none) es ≡ es
  unfolding filter is_after
  filter-none [] = refl
  filter-none (e ∷ es) = ap (◌∷◌ e) (filter-none es)

  -- What a full page and the query behind it make of the rows.
  pub page-split :
      (n : ℕ) (after : Option ℤ) (all : List (Entity C))
      → IsDescending all
      → n < length (filter (is_after after) all)
      → (last : Entity C) × (get_elem? (filter (is_after after) all) n ≡ some last)
        × (filter (is_after (some last.id)) all ≡ drop (suc n) (filter (is_after after) all))
  page-split n none all desc more =
      let (last, at) = get_elem?-some n (filter (is_after none) all) more in
      (
        last,
        at,
        sym (ap (filter (is_after (some last.id))) (filter-none all))
            ∙ filter-page n (filter (is_after none) all)
                (filter-IsDescending (is_after none) all desc) at,
      )
  page-split n (some a) all desc more =
      let (last, at) = get_elem?-some n (filter (is_after (some a)) all) more in
      let lt : last.id <ℤ a =
        get_elem?-All (λ (x : Entity C). x.id <ℤ a) (filter (is_after (some a)) all) n at
          (below a all) in
      (
        last,
        at,
        sym (filter-filter a last.id all lt)
            ∙ filter-page n (filter (is_after (some a)) all)
                (filter-IsDescending (is_after (some a)) all desc) at,
      )
