-- ===== src/Inventory/Handlers/Walk.antt =====
-- The handlers of a resource: a client that follows the cursors of the list handler from page to page.
use mathlib.Core.Option
use knievel.Base.{
  leb, Bool-cases, nat_eq, ==_refl, ℤ, int_eq, length, get_elem?, take, In, filter,
  take-append-drop, length-take, length-drop, take-all, take-take, get_elem?-take, Text, text_eq, ℕ,
  zero, suc, ◌+◌, ◌-◌, ◌≤◌, ◌<◌, ◌≡◌, refl, ap, ◌∙◌, subst, ◌↔◌, inl, inr, true, false, Option,
  none, some, List, ◌++◌, map, arith,
}
use knievel.Base.Result.{ok}
use knievel.Auth.{Principal, Role}
use knievel.Auth.Tenancy.Laws.{bound_to}
use knievel.Pagination.{Codec, CursorState, limit_of, after_of, resolve, encode_cursor, next_cursor}
use knievel.Pagination.Cursor.{IsFaithful, decode-encode, limit_of-bounds}
use knievel.Inventory.Rows.{IsServed, IsServed-opens}
use knievel.Inventory.Order.{
  IsDescending, HasIds, IsShown, IsDescending-select_all, In-select_all, length-select_all,
}
use knievel.Inventory.Pages.{page-split, filter-none}
use knievel.Inventory.{Entity, Row, Env, open_tx, is_after, select_all, select_page}
use knievel.Inventory.Handlers.{Resource, ListResp, Page, page_of, list}

module _ {C New Patch Item : Type 0} (r : Resource C New Patch Item) (env : Env)
    (principal : Principal) (project : Text) (codec : Codec) (limit : Option ℤ) where
  -- The items of the pages, from a cursor on. None where a response is not a page, or where the fuel
  -- is not enough.
  unfoldable pub walk : ℕ → Option Text → List (Row C) → Option (List (Entity C))
  walk zero cursor sites = none
  walk (suc fuel) cursor sites = elim (list r env principal project codec limit cursor sites) [
    | ListResp.ok page ↦ elim page.next_page [
      | none ↦ some page.items
      | some next ↦ Option.map (λ rest. page.items ++ rest) (walk fuel (some next) sites)
    ]
    | ListResp.bad_request e ↦ none
    | ListResp.forbidden e ↦ none
    | ListResp.internal e ↦ none
  ]

  abbrev pub rows_behind : Option ℤ → List (Row C) → List (Entity C)
  rows_behind after sites = filter (is_after after) (select_all (bound_to principal project) sites)

  module _ (served : IsServed env principal project Role.reader) where
    opened : open_tx env principal project Role.reader ≡ ok (bound_to principal project)
    opened = IsServed-opens env principal project Role.reader served

    -- The rows of the page, of a cursor that is read.
    listed :
        (cursor : Option Text) (sites : List (Row C)) (n : ℕ) {after : Option ℤ}
        → limit_of limit ≡ ok n
        → after_of codec cursor r.cursor_kind ≡ ok after
        → list r env principal project codec limit cursor sites
          ≡ ListResp.ok (
              page_of r env principal project codec
                (record { after_id = after; effective_limit = n; bumped_limit = n + 1 })
                (select_page (bound_to principal project) after (n + 1) sites))
    unfolding list resolve
    listed cursor sites n {after} e f =
        rw (e, list) (rw (f, list) (rw (opened, list) (rw (served.answered, list) refl)))

    -- A page of at most `n` of the rows, and whether a next one follows.
    abbrev page : ℕ → Option ℤ → List (Entity C) → Page C
    page n after rows =
        page_of r env principal project codec
          (record { after_id = after; effective_limit = n; bumped_limit = n + 1 })
          (take (suc n) rows)

    listed_page :
        (cursor : Option Text) (sites : List (Row C)) (n : ℕ) {after : Option ℤ}
        → limit_of limit ≡ ok n
        → after_of codec cursor r.cursor_kind ≡ ok after
        → list r env principal project codec limit cursor sites
          ≡ ListResp.ok (page n after (rows_behind after sites))
    unfolding select_page
    listed_page cursor sites n {after} e f =
        subst
          (λ k.
            list r env principal project codec limit cursor sites
            ≡ ListResp.ok (
                page_of r env principal project codec
                  (record { after_id = after; effective_limit = n; bumped_limit = n + 1 })
                  (take k (rows_behind after sites))))
          {y = suc n} (omega arith) (listed cursor sites n e f)

    page-items :
        (n : ℕ) (after : Option ℤ) (rows : List (Entity C))
        → (page n after rows).items ≡ take n rows
    page-items n after rows = take-take n rows

    page-last :
        (n : ℕ) (after : Option ℤ) (rows : List (Entity C))
        → length rows ≤ n
        → (page n after rows).next_page ≡ none
    unfolding next_cursor
    page-last n after rows fits =
        let short : leb (length (take (suc n) rows)) n ≡ true =
          ground (arith, length-take (suc n) rows) in
        rw short refl

    page-next :
        (m : ℕ) (after : Option ℤ) (rows : List (Entity C)) {last : Entity C}
        → suc m < length rows
        → get_elem? rows m ≡ some last
        → (page (suc m) after rows).next_page
          ≡ some (encode_cursor codec (record { kind = r.cursor_kind; last_id = last.id }))
    unfolding next_cursor
    page-next m after rows {last} more at =
        let long : leb (length (take (suc (suc m)) rows)) (suc m) ≡ false =
          ground (arith, length-take (suc (suc m)) rows) in
        let index : suc m - 1 ≡ m = omega arith in
        rw long (rw index (rw (get_elem?-take (suc (suc m)) m rows (omega arith) ∙ at) refl))

    -- The walk from a cursor on gives the rows behind it.
    walk-from :
        (fuel : ℕ) (cursor : Option Text) (sites : List (Row C)) (m : ℕ) {after : Option ℤ}
        → IsFaithful codec
        → limit_of limit ≡ ok (suc m)
        → after_of codec cursor r.cursor_kind ≡ ok after
        → IsDescending (select_all (bound_to principal project) sites)
        → length (rows_behind after sites) < fuel
        → walk fuel cursor sites ≡ some (rows_behind after sites)
    unfolding walk after_of
    walk-from zero cursor sites m w e f desc short = ground arith
    walk-from (suc fuel) cursor sites m {after} w e f desc short =
        let rows : List (Entity C) = rows_behind after sites in
        elim (Bool-cases (leb (length rows) (suc m))) [
          | inl fits ↦
              rw (listed_page cursor sites (suc m) e f, walk)
                (rw (page-last (suc m) after rows (ground arith)) (
                  ap (λ xs. some xs)
                    (page-items (suc m) after rows ∙ take-all (suc m) rows (ground arith))))
          | inr more ↦
              let over : suc m < length rows = ground (arith, more) in
              let (last, at, next) =
                page-split m after (select_all (bound_to principal project) sites) desc
                  (omega (arith, over)) in
              let state : CursorState = record { kind = r.cursor_kind; last_id = last.id } in
              let resumed : after_of codec (some (encode_cursor codec state)) r.cursor_kind
                  ≡ ok (some last.id) =
                rw (decode-encode codec w state r.cursor_kind) (rw (==_refl r.cursor_kind) refl) in
              let ih =
                walk-from fuel (some (encode_cursor codec state)) sites m w e resumed desc
                  (omega (arith, short, over, ap length next, length-drop (suc m) rows)) in
              rw (listed_page cursor sites (suc m) e f, walk)
                (rw (page-next m after rows over at) (
                  rw ih (
                    ap (λ xs. some xs)
                      (ap (λ xs. xs ++ rows_behind (some last.id) sites)
                          (page-items (suc m) after rows)
                        ∙ ap (λ xs. take (suc m) rows ++ xs) next
                        ∙ take-append-drop (suc m) rows))))
        ]

-- A client that asks for pages of `n` rows and follows the cursors from page to page ends, with every
-- site of the project exactly once, newest first. The list handler answers the principal, the crates
-- are faithful, the ids of the rows are a key, and the client has one more request than there
-- are rows.
pub walk-Complete :
    {C New Patch Item : Type 0} (r : Resource C New Patch Item) (env : Env) (principal : Principal)
    (project : Text) (codec : Codec) (limit : Option ℤ) (sites : List (Row C)) (n fuel : ℕ)
    → IsServed env principal project Role.reader
    → IsFaithful codec
    → limit_of limit ≡ ok n
    → HasIds (map Row.entity sites)
    → length sites < fuel
    → (all : List (Entity C)) × (walk r env principal project codec limit fuel none sites
        ≡ some all)
      × IsDescending all
      × ((site : Entity C) → In site all ↔ IsShown project sites site)
unfolding after_of
walk-Complete r env principal project codec limit sites zero fuel served w e ids enough =
    let positive : 1 ≤ 0 = (limit_of-bounds limit e).0 in ground arith
walk-Complete r env principal project codec limit sites (suc m) fuel served w e ids enough =
    let tx = bound_to principal project in
    let desc = IsDescending-select_all tx sites ids in
    let whole = filter-none (select_all tx sites) in
    (
      select_all tx sites,
      walk-from r env principal project codec limit served fuel none sites m w e refl desc
            (omega (arith, enough, ap length whole, length-select_all tx sites))
          ∙ ap (λ xs. some xs) whole,
      desc,
      λ site. In-select_all tx project sites site refl,
    )
