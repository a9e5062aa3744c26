-- ===== src/Examples/Inventory.antt =====
-- The theorems on the sites of a project at a small table.
use knievel.Base.{
  nat_eq, int_eq, In, any, find, Text, text, text_eq, pos, ℤ, ℕ, ◌+◌, ◌≤◌, ◌≡◌, refl, ◌↔◌, inl,
  true, none, some, List, [], ◌∷◌, map, arith,
}
use knievel.Auth.{Principal, Role, Scope, TokenType, rank, has_role_at_least}
use knievel.Auth.Tenancy.{
  open_project_tx, addresses, begin_bound, bind_project, select_project, visible,
}
use knievel.Auth.Tenancy.Laws.{IsAllowed}
use knievel.Pagination.{limit_of}
use knievel.Inventory.{
  Row, Env, policy, select_one, insert_row, update_rows, conflicts_with, open_tx, refused,
}
use knievel.Inventory.Rows.{IsServed}
use knievel.Inventory.Order.{HasIds, IsDescending, IsShown}
use knievel.Inventory.Handlers.{UpdateResp, insert_one, coalesced, update}
use knievel.Inventory.Handlers.Writes.{create_call}
use knievel.Tables.{Tables, site_write, run}
use knievel.Tables.Isolation.{SameOthers, run-SameOthers}
use knievel.Base.Result.{Result, err}
use knievel.Sql.{DbError}
use knievel.Inventory.Handlers.Update.{Updates, update-Updates}
use knievel.Inventory.Handlers.Walk.{walk, walk-Complete}
use knievel.Sites.{
  SiteColumns, Site, Sites, CreateSiteRequest, UpsertSiteByUrlRequest, UpdateSiteRequest,
  BatchUpsertSiteRow, UpsertResp, violation, row_of_upsert, upsert_by_url, sites,
}
use knievel.Sites.Writes.{handler_call, upsert_call, site_committed}
use knievel.Sites.Keys.{IsKeyed, empty, step, Reaches-IsKeyed}
use knievel.Examples.World.{database1}
use knievel.Examples.Parts.{database1-IsUp}
use knievel.Examples.Pages.{toy_codec, toy_codec-IsFaithful}

abbrev pub pj : Text
pj = text "pj"

abbrev pub editor1 : Principal
editor1 = record {
  org_id = text "org";
  project_id = none;
  role = Role.editor;
  scope = Scope.org;
  token_type = TokenType.opaque;
  actor_id = text "tok";
}

abbrev pub env1 : Env
env1 = record {
  db = some database1;
  answers = λ n. none;
  commits = true;
  now = pos 90;
  fresh_id = λ n. pos (10 + n);
  fresh_etag = λ n. n ∷ [];
}

abbrev site_row : ℕ → Text → Text → Row SiteColumns
site_row id project url = record {
  org_id = text "org";
  project_id = project;
  entity = record {
    id = pos id;
    external_id = none;
    columns = record {
      channel_id = none;
      name = text "Shop";
      url = url;
      aliases = [];
      is_active = true;
    };
    etag = text "e";
    created_at = pos 5;
    updated_at = pos 5;
  };
}

-- Three sites of the project, and one of another.
abbrev sites1 : Sites
sites1 =
    site_row 1 pj (text "a")
    ∷ site_row 2 (text "qj") (text "a")
    ∷ site_row 3 pj (text "b")
    ∷ site_row 4 pj (text "c")
    ∷ []

ids1 : HasIds (map Row.entity sites1)
ids1 = ground arith

served : (least : Role) → IsAllowed database1 editor1 pj least → IsServed env1 editor1 pj least
served least allowed = record {
  pool = database1;
  has_pool = refl;
  is_up = database1-IsUp;
  allowed = allowed;
  answered = refl;
}

allowed : (least : Role) → rank least ≤ 1 → IsAllowed database1 editor1 pj least
allowed least low = record {
  role = low;
  scope = λ e. cc;
  owned = (record { id = pj; org_id = text "org" }, inl refl, refl, refl);
}

walk-Complete_example :
    (all : List Site) × (walk sites env1 editor1 pj toy_codec (some (pos 2)) 5 none sites1
      ≡ some all)
    × IsDescending all
    × ((site : Site) → In site all ↔ IsShown pj sites1 site)
unfolding limit_of
walk-Complete_example =
    walk-Complete sites env1 editor1 pj toy_codec (some (pos 2)) sites1 2 5
      (served Role.reader (allowed Role.reader (omega arith))) toy_codec-IsFaithful refl ids1
      (omega arith)

abbrev create1 : CreateSiteRequest
create1 = record {
  external_id = some (text "x");
  channel_id = none;
  name = text "Shop";
  url = text "d";
  aliases = none;
  is_active = none;
}

Reaches-IsKeyed_example :
    IsKeyed (site_committed env1 editor1 pj (handler_call (create_call create1)) [])
Reaches-IsKeyed_example =
    Reaches-IsKeyed (step env1 editor1 pj (handler_call (create_call create1)) empty)

abbrev rename : UpdateSiteRequest
rename = record { name = some (text "New"); aliases = none; channel_id = none; is_active = none }

abbrev renamed : Site
renamed = coalesced sites env1 editor1 pj rename (site_row 3 pj (text "b")).entity

updated1 :
    update sites env1 editor1 pj (pos 3) rename sites1
    ≡ ((update sites env1 editor1 pj (pos 3) rename sites1).0, UpdateResp.ok renamed)
unfolding update open_tx open_project_tx has_role_at_least addresses begin_bound bind_project
    select_project visible any select_one find policy update_rows
updated1 = refl

update-Updates_example :
    Updates sites env1 editor1 pj
      (pos 3)
      rename
      sites1
      (update sites env1 editor1 pj (pos 3) rename sites1).0
      renamed
update-Updates_example = update-Updates sites env1 editor1 pj (pos 3) rename sites1 updated1

abbrev batch1 : List BatchUpsertSiteRow
batch1 =
    record {
      external_id = text "x";
      channel_id = none;
      name = text "Shop";
      url = text "d";
      aliases = none;
      is_active = none;
    }
    ∷ []

abbrev upsert1 : UpsertSiteByUrlRequest
upsert1 = record { url = text "d"; name = text "Shop"; aliases = none; channel_id = none }

abbrev upsert2 : UpsertSiteByUrlRequest
upsert2 = record { url = text "d"; name = text "Other"; aliases = none; channel_id = none }

abbrev tables1 : Tables Unit
tables1 = record {
  sites = sites1;
  zones = [];
  advertisers = [];
  campaigns = [];
  flights = [];
  ads = [];
  creatives = [];
}

-- Texts that are no times.
abbrev no_times : Text → Result DbError ℤ
no_times t = err refused

run-SameOthers_example :
    SameOthers pj (run no_times env1 editor1 pj (site_write (upsert_call upsert1)) tables1) tables1
run-SameOthers_example =
    run-SameOthers no_times env1 editor1 pj (site_write (upsert_call upsert1)) tables1

abbrev written1 : Sites
written1 = row_of_upsert env1 editor1 pj upsert1 ∷ sites1

created1 :
    upsert_by_url env1 editor1 pj upsert1 sites1
    ≡ (written1, UpsertResp.created (row_of_upsert env1 editor1 pj upsert1).entity)
unfolding upsert_by_url open_tx open_project_tx has_role_at_least addresses begin_bound bind_project
    select_project visible any select_one find policy insert_one insert_row violation conflicts_with
created1 = refl
