-- ===== src/Auth/Tenancy.antt =====
-- src/handlers.rs and src/db.rs: the tenant-bound transactions that the handlers open. The database
-- is a parameter: its projects table, and which statements it answers.
pub mod Laws
use mathlib.Core.Option
use knievel.Base.{
  if◌then◌else◌, ◌==◌, nat_eq, int_eq, any, Text, text_eq, Bool, true, false, not, ◌&&◌, ◌||◌,
  Option, none, some, List, [],
}
use knievel.Base.Result.{Result, ok, err}
use knievel.Auth.{Principal, Role, Scope, project, has_role_at_least}

pub data AuthzError : Type 0 where
  wrong_tenant wrong_project role_insufficient internal : AuthzError

pub record ProjectRow : Type 0 where
  pub id : Text
  pub org_id : Text

-- The settings that a transaction binds, `knievel.org_id` and `knievel.project_id`.
pub record Tx : Type 0 where
  pub org_id : Text
  pub project_id : Option Text

pub record Database : Type 0 where
  pub projects : List ProjectRow
  pub begins : Bool
  pub binds_org : Bool
  pub selects : Bool
  pub binds_project : Bool

-- The policy `projects_tenant_isolation`. A setting that is not bound compares as NULL.
unfoldable pub visible : Tx → ProjectRow → Bool
visible tx row =
    row.org_id == tx.org_id || elim tx.project_id [ none ↦ false | some p ↦ row.id == p ]

unfoldable pub bind_project : Database → Text → Option Text → Option Tx
bind_project db org_id none = some (record { org_id = org_id; project_id = none })
bind_project db org_id (some p) =
    if db.binds_project then some (record { org_id = org_id; project_id = some p }) else none

-- `none` is a database error.
unfoldable pub begin_bound : Database → Text → Option Text → Option Tx
unfolding bind_project
begin_bound db org_id project_id =
    if not db.begins
    then none
    else if not db.binds_org
    then none
    else bind_project db org_id project_id

-- `SELECT id FROM knievel.projects WHERE id = $1`, under the policy.
unfoldable pub select_project : Database → Tx → Text → Bool
unfolding visible
select_project db tx id = any (λ (row : ProjectRow). row.id == id && visible tx row) db.projects

-- A project-scoped token addresses its own project only.
unfoldable pub addresses : Principal → Text → Bool
addresses p path = elim p.scope [
  | Scope.org ↦ true
  | Scope.project ↦ elim p.project_id [ none ↦ [] == path | some id ↦ id == path ]
]

unfoldable pub open_project_tx : Database → Principal → Text → Role → Result AuthzError Tx
unfolding addresses begin_bound select_project has_role_at_least
open_project_tx db principal path least =
    if not (has_role_at_least principal least)
    then err role_insufficient
    else if not (addresses principal path)
    then err wrong_project
    else elim (begin_bound db principal.org_id none) [
      | none ↦ err internal
      | some tx ↦
          if not db.selects
          then err internal
          else if not (select_project db tx path)
          then err wrong_tenant
          else if not db.binds_project
          then err internal
          else ok (record tx { project_id = some path })
    ]

pub open_org_tx : Database → Principal → Text → Role → Result AuthzError Tx
unfolding begin_bound has_role_at_least
open_org_tx db principal path least =
    if not (principal.org_id == path) then err wrong_tenant else elim principal.scope [
      | Scope.project ↦ err wrong_project
      | Scope.org ↦
          if not (has_role_at_least principal least)
          then err role_insufficient
          else elim (begin_bound db principal.org_id none) [ none ↦ err internal | some tx ↦ ok tx ]
    ]
