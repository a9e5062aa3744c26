-- ===== src/Auth/Tenancy/Laws.antt =====
-- Who gets a transaction, and what it sees.
use mathlib.Core.Option
use knievel.Base.{
  ◌==◌, nat_eq, int_eq, In, In-of_any, any_of_In, Text, eqb_text_iff, text_eq, ◌≤◌, ◌≡◌, sym, ap,
  ◌∙◌, subst, ◌↔◌, true, ◌&&◌, none, some, [], arith,
}
use knievel.Base.Result.{ok}
use knievel.Auth.{Principal, Role, Scope, rank, has_role_at_least}
use knievel.Auth.Tenancy.{
  ProjectRow, Tx, Database, visible, begin_bound, select_project, addresses, open_project_tx,
}

-- Every statement is answered.
pub record IsUp (db : Database) : Type 0 where
  pub begins : db.begins ≡ true
  pub binds_org : db.binds_org ≡ true
  pub selects : db.selects ≡ true
  pub binds_project : db.binds_project ≡ true

-- The project of the path stands in the table under the principal's org.
abbrev pub Owns : Database → Principal → Text → Type 0
Owns db p path = (row : ProjectRow) × In row db.projects × (row.id ≡ path) × (row.org_id ≡ p.org_id)

-- What the route asks of the principal.
pub record IsAllowed (db : Database) (p : Principal) (path : Text) (least : Role) : Type 0 where
  pub role : rank least ≤ rank p.role
  pub scope : p.scope ≡ Scope.project → Option.get_or p.project_id [] ≡ path
  pub owned : Owns db p path

select_project→ :
    (db : Database) (p : Principal) (path : Text)
    → select_project db (record { org_id = p.org_id; project_id = none }) path ≡ true
    → Owns db p path
unfolding select_project
select_project→ db p path h =
    let (row, i, t) =
      In-of_any
        (λ (row : ProjectRow).
          row.id == path && visible (record { org_id = p.org_id; project_id = none }) row)
        db.projects h in
    (
      row,
      i,
      ground (arith, eqb_text_iff row.id path),
      ground (arith, eqb_text_iff row.org_id p.org_id),
    )

→select_project :
    (db : Database) (p : Principal) (path : Text)
    → Owns db p path
    → select_project db (record { org_id = p.org_id; project_id = none }) path ≡ true
unfolding select_project
→select_project db p path (row, i, e, f) =
    any_of_In
      (λ (row : ProjectRow).
        row.id == path && visible (record { org_id = p.org_id; project_id = none }) row)
      row db.projects i (ground (arith, eqb_text_iff row.id path, eqb_text_iff row.org_id p.org_id))

addresses→ :
    (p : Principal) (path : Text)
    → addresses p path ≡ true
    → p.scope ≡ Scope.project
    → Option.get_or p.project_id [] ≡ path
unfolding addresses
addresses→ p path h e = ground (arith, eqb_text_iff (Option.get_or p.project_id []) path)

→addresses :
    (p : Principal) (path : Text)
    → (p.scope ≡ Scope.project → Option.get_or p.project_id [] ≡ path)
    → addresses p path ≡ true
unfolding addresses
→addresses p path h = ground (arith, eqb_text_iff (Option.get_or p.project_id []) path)

-- The transaction of a principal, bound to its org and the project of the path.
abbrev pub bound_to : Principal → Text → Tx
bound_to p path = record { org_id = p.org_id; project_id = some path }

pub open_project_tx→ :
    (db : Database) (p : Principal) (path : Text) (least : Role) {tx : Tx}
    → open_project_tx db p path least ≡ ok tx
    → (tx ≡ bound_to p path) × IsAllowed db p path least
unfolding open_project_tx begin_bound has_role_at_least
open_project_tx→ db p path least h = ground (arith, select_project→ db p path, addresses→ p path)

pub →open_project_tx :
    (db : Database) (p : Principal) (path : Text) (least : Role)
    → IsUp db
    → IsAllowed db p path least
    → open_project_tx db p path least ≡ ok (bound_to p path)
unfolding open_project_tx begin_bound has_role_at_least
→open_project_tx db p path least up w = ground (
  arith,
  up.begins,
  up.binds_org,
  up.selects,
  up.binds_project,
  w.role,
  →addresses p path w.scope,
  →select_project db p path w.owned,
)

-- When the database answers, a handler gets a transaction exactly when the principal has the role, a
-- project token addresses its own project, and the path is the id of a project of the principal's
-- org; the transaction is bound to the principal's org and to that project. External ids are not looked at.
pub open_project_tx_iff :
    (db : Database) (p : Principal) (path : Text) (least : Role)
    → IsUp db
    → (open_project_tx db p path least ≡ ok (bound_to p path)) ↔ IsAllowed db p path least
open_project_tx_iff db p path least up = (
  (λ h. let (_, w) = open_project_tx→ db p path least h in w),
  →open_project_tx db p path least up,
)

-- What the primary key of the table promises: two rows with one id are one row.
abbrev pub HasKeys : Database → Type 0
HasKeys db = (r s : ProjectRow) → In r db.projects → In s db.projects → r.id ≡ s.id → r ≡ s

-- Tenant isolation: when ids are unique, every project row that the policy shows to a transaction a
-- handler was given belongs to the principal's org. This covers the row that `project_id` alone lets through.
pub open_project_tx-Isolates :
    (db : Database) (p : Principal) (path : Text) (least : Role) (tx : Tx) (row : ProjectRow)
    → HasKeys db
    → open_project_tx db p path least ≡ ok tx
    → In row db.projects
    → visible tx row ≡ true
    → row.org_id ≡ p.org_id
unfolding visible
open_project_tx-Isolates db p path least tx row keys h i v =
    let (e, w) = open_project_tx→ db p path least h in
    let (r, j, a, b) = w.owned in
    let same = keys row r i j in
    let shown = subst (λ (t : Tx). visible t row ≡ true) e v in
    let orgs = λ (q : row.id ≡ path). ap ProjectRow.org_id (same (q ∙ sym a)) ∙ b in
    ground (arith, shown, orgs, eqb_text_iff row.org_id p.org_id, eqb_text_iff row.id path)
