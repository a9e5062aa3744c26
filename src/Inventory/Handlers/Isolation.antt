-- ===== src/Inventory/Handlers/Isolation.antt =====
-- The handlers of a resource: what the writes leave of other projects.
use knievel.Base.{
  nat_eq, int_eq, find, find-some, Text, eqb_text_iff, text_eq, ◌≡◌, refl, sym, ap, ◌∙◌, subst, inl,
  inr, some, List, arith,
}
use knievel.Auth.{Principal}
use knievel.Inventory.Rows.{
  insert_row→, upsert_row→, of_others, of_others-cons, of_others-without, of_others-update_rows,
}
use knievel.Inventory.{Row, Env, conflicts_with, without}
use knievel.Inventory.Handlers.{Resource, coalesced, merged}
use knievel.Inventory.Handlers.Writes.{Call, committed, IsKept, committed-keeps}

-- What a row that an upsert found may become stays in its project.
find-project :
    {C : Type 0} (row : Row C) (sites : List (Row C)) {old : Row C}
    → find (conflicts_with row) sites ≡ some old
    → old.project_id ≡ row.project_id
unfolding conflicts_with
find-project row sites {old} h =
    let (_, t) = find-some (conflicts_with row) sites h in
    ground (arith, t, eqb_text_iff old.project_id row.project_id)

module _ {C New Patch Item : Type 0} (r : Resource C New Patch Item) (env : Env)
    (principal : Principal) (project : Text) (before : List (Row C)) where
  abbrev pub Same : List (Row C) → Type 0
  Same sites = of_others project sites ≡ of_others project before

  pub Same-IsKept : IsKept r env principal project Same
  Same-IsKept = record {
    inserted = λ tx row sites written bound mine h same.
        let (free, e) = insert_row→ r.violation tx row sites h in
        subst Same e (of_others-cons project row sites mine ∙ same);
    upserted = λ n tx row new sites written bound mine h same.
        elim (upsert_row→ r.violation (merged r env principal project n) tx row sites h) [
          | inl (missing, free, _, e) ↦ subst Same e (of_others-cons project row sites mine ∙ same)
          | inr (old, found, free, m, e) ↦ subst Same e (
              of_others-cons project new (without row sites)
                (sym (ap Row.project_id m) ∙ find-project row sites found ∙ mine)
              ∙ of_others-without project row sites mine
              ∙ same)
        ];
    updated = λ tx id req sites bound same.
        of_others-update_rows project tx id (coalesced r env principal project req) sites bound
        ∙ same;
  }

-- A call on the path of one project leaves the rows of all others, in their order.
pub committed-of_others :
    {C New Patch Item : Type 0} (r : Resource C New Patch Item) (env : Env) (principal : Principal)
    (project : Text) (call : Call New Patch Item) (sites : List (Row C))
    → of_others project (committed r env principal project call sites) ≡ of_others project sites
committed-of_others r env principal project call sites =
    committed-keeps r env principal project (Same r env principal project sites)
      (Same-IsKept r env principal project sites) call sites refl
