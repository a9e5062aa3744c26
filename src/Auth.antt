-- ===== src/Auth.antt =====
-- src/auth/role.rs and src/auth/principal.rs: roles, and the validated identity of a request.
pub mod Tenancy
pub mod Opaque
pub mod Jwt
pub mod Bearer
use knievel.Base.{
  leb, if◌then◌else◌, ◌==◌, nat_eq, int_eq, Text, text, eqb_text_iff, text_eq, ℕ, ◌≡◌, refl, ap,
  ◌∙◌, ◌↔◌, Bool, Option, none, some, arith,
}

pub data Role : Type 0 where
  reader editor admin org_admin org_owner : Role

pub data Scope : Type 0 where
  org project : Scope

pub data TokenType : Type 0 where
  opaque jwt : TokenType

pub record Principal : Type 0 where
  pub token_type : TokenType
  pub scope : Scope
  pub org_id : Text
  pub project_id : Option Text
  pub role : Role
  pub actor_id : Text

-- The derived `Ord` goes by the order of declaration.
abbrev pub rank : Role → ℕ
rank reader = 0
rank editor = 1
rank admin = 2
rank org_admin = 3
rank org_owner = 4

unfoldable pub has_role_at_least : Principal → Role → Bool
has_role_at_least p least = leb (rank least) (rank p.role)

pub as_str : Role → Text
as_str reader = text "reader"
as_str editor = text "editor"
as_str admin = text "admin"
as_str org_admin = text "org-admin"
as_str org_owner = text "org-owner"

-- The message of the error is left out.
unfoldable pub from_str : Text → Option Role
from_str s =
    if s == text "reader"
    then some reader
    else if s == text "editor"
    then some editor
    else if s == text "admin"
    then some admin
    else if s == text "org-admin"
    then some org_admin
    else if s == text "org-owner"
    then some org_owner
    else none

from_str→ : (s : Text) (r : Role) → from_str s ≡ some r → s ≡ as_str r
unfolding from_str as_str
from_str→ s r e = ground (
  arith,
  eqb_text_iff s (text "reader"),
  eqb_text_iff s (text "editor"),
  eqb_text_iff s (text "admin"),
  eqb_text_iff s (text "org-admin"),
  eqb_text_iff s (text "org-owner"),
)

from_str-as_str : (r : Role) → from_str (as_str r) ≡ some r
unfolding from_str as_str
from_str-as_str reader = refl
from_str-as_str editor = refl
from_str-as_str admin = refl
from_str-as_str org_admin = refl
from_str-as_str org_owner = refl

-- A text is read as a role exactly when it is that role's wire form.
pub from_str_iff : (s : Text) (r : Role) → (from_str s ≡ some r) ↔ (s ≡ as_str r)
from_str_iff s r = (from_str→ s r, λ e. ap from_str e ∙ from_str-as_str r)
