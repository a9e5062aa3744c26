-- ===== src/Taxonomy.antt =====
-- src/taxonomy.rs (migrations/0008_taxonomy.sql): the rows that a new project is given, and the
-- handlers that read them, which the three resources write alike. The text form of times is left out.
use knievel.Base.{
  if◌then◌else◌, nat_eq, ◌==◌, ℤ, leb_ℤ, int_eq, filter, find, Text, text, text_eq, pos, ℕ, Bool,
  false, ◌&&◌, Option, none, some, List, [], ◌∷◌,
}
use knievel.Base.Result.{ok, err}
use knievel.Auth.{Principal, Role}
use knievel.Auth.Tenancy.{Database, Tx, AuthzError, open_project_tx}

pub record Channel : Type 0 where
  pub id : ℤ
  pub org_id : Text
  pub project_id : Text
  pub name : Text
  pub created_at : ℤ

pub record Priority : Type 0 where
  pub id : ℤ
  pub org_id : Text
  pub project_id : Text
  pub name : Text
  pub tier : ℤ
  pub created_at : ℤ

pub record AdType : Type 0 where
  pub id : ℤ
  pub org_id : Text
  pub project_id : Text
  pub name : Text
  pub width : Option ℤ
  pub height : Option ℤ
  pub created_at : ℤ

module _ (ids : ℕ → ℤ) (now : ℤ) (o p : Text) where
  abbrev channel_row : ℕ → Text → Channel
  channel_row i name = record {
    id = ids i;
    org_id = o;
    project_id = p;
    name = name;
    created_at = now;
  }

  abbrev priority_row : ℕ → Text → ℕ → Priority
  priority_row i name tier = record {
    id = ids i;
    org_id = o;
    project_id = p;
    name = name;
    tier = pos tier;
    created_at = now;
  }

  abbrev ad_type_row : ℕ → Text → ℕ → ℕ → AdType
  ad_type_row i name width height = record {
    id = ids i;
    org_id = o;
    project_id = p;
    name = name;
    width = some (pos width);
    height = some (pos height);
    created_at = now;
  }

  abbrev pub default_channels : List Channel
  default_channels =
      channel_row 0 (text "Web") ∷ channel_row 1 (text "Mobile") ∷ channel_row 2 (text "Email") ∷ []

  abbrev pub default_priorities : List Priority
  default_priorities =
      priority_row 0 (text "House") 1
      ∷ priority_row 1 (text "Standard") 2
      ∷ priority_row 2 (text "Backfill") 3
      ∷ []

  abbrev pub default_ad_types : List AdType
  default_ad_types =
      ad_type_row 0 (text "Medium Rectangle") 300 250
      ∷ ad_type_row 1 (text "Leaderboard") 728 90
      ∷ ad_type_row 2 (text "Mobile Banner") 320 50
      ∷ ad_type_row 3 (text "Large Leaderboard") 970 90
      ∷ []

pub data ReadResp (A : Type 0) : Type 0 where
  found : A → ReadResp A
  forbidden : AuthzError → ReadResp A
  not_found : ReadResp A
  internal : (code : Text) → ReadResp A

-- What the database answers.
pub record Env : Type 0 where
  pub db : Option Database
  pub selects : Bool

-- The row's project is the one that is bound.
abbrev pub is_bound : Tx → Text → Bool
is_bound tx project_id = elim tx.project_id [ none ↦ false | some p ↦ project_id == p ]

module _ {A : Type 0} (project_of : A → Text) (key_of : A → ℤ) where
  -- `ORDER BY key`
  unfoldable pub insert_asc : A → List A → List A
  insert_asc row [] = row ∷ []
  insert_asc row (x ∷ xs) =
      let rest = insert_asc row xs in
      if leb_ℤ (key_of row) (key_of x) then row ∷ x ∷ xs else x ∷ rest

  unfoldable pub sort_asc : List A → List A
  sort_asc [] = []
  sort_asc (x ∷ xs) = insert_asc x (sort_asc xs)

  unfoldable pub list_rows : Env → Principal → Text → List A → ReadResp (List A)
  list_rows env principal project rows = elim env.db [
    | none ↦ internal (text "no_db")
    | some db ↦ elim (open_project_tx db principal project Role.reader) [
      | err e ↦ forbidden e
      | ok tx ↦
          if env.selects
          then found (sort_asc (filter (λ row. is_bound tx (project_of row)) rows))
          else internal (text "db_error")
    ]
  ]

module _ {A : Type 0} (project_of : A → Text) (id_of : A → ℤ) where
  abbrev pub row_answer : Option A → ReadResp A
  row_answer none = not_found
  row_answer (some row) = found row

  unfoldable pub get_row : Env → Principal → Text → ℤ → List A → ReadResp A
  get_row env principal project id rows = elim env.db [
    | none ↦ internal (text "no_db")
    | some db ↦ elim (open_project_tx db principal project Role.reader) [
      | err e ↦ forbidden e
      | ok tx ↦
          if env.selects
          then row_answer (find (λ row. is_bound tx (project_of row) && (id_of row == id)) rows)
          else internal (text "db_error")
    ]
  ]

abbrev pub list_channels : Env → Principal → Text → List Channel → ReadResp (List Channel)
list_channels = list_rows Channel.project_id Channel.id

abbrev pub get_channel : Env → Principal → Text → ℤ → List Channel → ReadResp Channel
get_channel = get_row Channel.project_id Channel.id

abbrev pub list_priorities : Env → Principal → Text → List Priority → ReadResp (List Priority)
list_priorities = list_rows Priority.project_id Priority.tier

abbrev pub get_priority : Env → Principal → Text → ℤ → List Priority → ReadResp Priority
get_priority = get_row Priority.project_id Priority.id

abbrev pub list_ad_types : Env → Principal → Text → List AdType → ReadResp (List AdType)
list_ad_types = list_rows AdType.project_id AdType.id

abbrev pub get_ad_type : Env → Principal → Text → ℤ → List AdType → ReadResp AdType
get_ad_type = get_row AdType.project_id AdType.id
