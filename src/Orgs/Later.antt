-- ===== src/Orgs/Later.antt =====
-- src/orgs.rs: the tables after any calls of `create_project`.
use knievel.Base.{nat_eq, int_eq, Text, text_eq, ◌≡◌, sym, subst, Option, none, some, []}
use knievel.Auth.{Principal}
use knievel.Orgs.{
  CreateProjectRequest, ProjectResponse, Tables, Forms, Env, CreateProjectResponse, created,
  forbidden, conflicts, internal, create_project,
}
use knievel.Orgs.Writes.{IsCreated, IsAllOrNothing, create_project-IsAllOrNothing}

-- The calls are of whatever principals on whatever organizations.
pub data Later (forms : Forms) (start : Tables) : Tables → Type 0 where
  here : Later forms start start
  called :
      (env : Env) (principal : Principal) (org : Text) (key : Option Text)
      (req : CreateProjectRequest) {tables : Tables}
      → Later forms start tables
      → Later forms start (create_project forms env principal org key req tables).0

abbrev pub no_tables : Tables
no_tables = record {
  projects = [];
  channels = [];
  priorities = [];
  ad_types = [];
  idempotency_keys = [];
}

pub created-IsCreated :
    (forms : Forms) (env : Env) (principal : Principal) (org : Text) (key : Option Text)
    (req : CreateProjectRequest) (before : Tables) {after : Tables} {resp : ProjectResponse}
    → create_project forms env principal org key req before ≡ (after, created resp none)
    → IsCreated forms env principal org key req before after resp
unfolding IsAllOrNothing
created-IsCreated forms env principal org key req before call =
    subst (IsAllOrNothing forms env principal org key req before) call
      (create_project-IsAllOrNothing forms env principal org key req before)

-- What every new project keeps holds after any calls.
module _ (forms : Forms) (P : Tables → Type 0)
    (keep : (env : Env) (principal : Principal) (org : Text) (key : Option Text)
        (req : CreateProjectRequest) (t t' : Tables) (resp : ProjectResponse)
      → IsCreated forms env principal org key req t t' resp
      → P t
      → P t') where
  called-inv :
      (env : Env) (principal : Principal) (org : Text) (key : Option Text)
      (req : CreateProjectRequest) (t : Tables) (end : Tables × CreateProjectResponse)
      → IsAllOrNothing forms env principal org key req t end
      → P t
      → P end.0
  unfolding IsAllOrNothing
  called-inv env principal org key req t (t', created resp none) m =
      keep env principal org key req t t' resp m
  called-inv env principal org key req t (t', created resp (some r)) m = subst P (sym m)
  called-inv env principal org key req t (t', forbidden code) m = subst P (sym m)
  called-inv env principal org key req t (t', conflicts code) m = subst P (sym m)
  called-inv env principal org key req t (t', internal code) m = subst P (sym m)

  pub Later-inv : (start t : Tables) → Later forms start t → P start → P t
  Later-inv start t here p = p
  Later-inv start t (called env principal org key req {tables} l) p =
      called-inv env principal org key req tables
        (create_project forms env principal org key req tables)
        (create_project-IsAllOrNothing forms env principal org key req tables)
        (Later-inv start tables l p)
