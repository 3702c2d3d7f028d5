-- ===== src/Rbac/Store.antt =====
-- The tables of backend/rbac/models.py and the accounts' columns that the services read, with the
-- version of the permission cache and the audit log as lists of event names. A set of codes is a
-- list, of which only the membership is read; the sorting of the diff for the audit is left out.
use django_base_x.Prelude.{
  ℕ, ◌+◌, String, Bool, true, false, Option, none, some, List, [], ◌∷◌, ◌++◌,
}
use django_base_x.Prelude.Result.{Result, ok, err}

pub record User : Type 0 where
  pub id : ℕ
  pub is_superuser : Bool
  pub is_active : Bool
  pub mfa_enforced : Bool

pub record Permission : Type 0 where
  pub code : String
  pub is_deprecated : Bool

pub record Role : Type 0 where
  pub id : ℕ
  pub name : String
  pub slug : String
  pub description : String
  pub is_system : Bool
  pub is_elevated : Bool
  pub mfa_required : Bool
  pub created_by : Option ℕ
  pub updated_by : Option ℕ

-- RolePermission
pub record Grant : Type 0 where
  pub role : ℕ
  pub code : String
  pub granted_at : ℕ
  pub granted_by : Option ℕ

-- UserRole
pub record Assignment : Type 0 where
  pub user : ℕ
  pub role : ℕ
  pub assigned_at : ℕ
  pub assigned_by : Option ℕ

pub record Db : Type 0 where
  pub users : List User
  pub permissions : List Permission
  pub roles : List Role
  pub next_role : ℕ
  pub grants : List Grant
  pub assignments : List Assignment
  pub cache_version : ℕ
  pub audit : List String

pub data RbacError : Type 0 where
  system_role : RbacError
  role_in_use : ℕ → RbacError
  elevated_requires_superuser : RbacError
  last_administrator : RbacError
  unknown_permission : List String → RbacError
  integrity_error : RbacError

abbrev pub administrator : String
administrator = "administrator"

-- `none` is the system itself.
unfoldable pub require_superuser : Option User → Result RbacError Unit
require_superuser none = ok tt
require_superuser (some actor) = elim actor.is_superuser [
  | true ↦ ok tt
  | false ↦ err elevated_requires_superuser
]

-- `if condition: _require_superuser_for_elevated(actor)`
unfoldable pub require_if : Bool → Option User → Result RbacError Unit
unfolding require_superuser
require_if true actor = require_superuser actor
require_if false actor = ok tt

abbrev pub id_of : Option User → Option ℕ
id_of none = none
id_of (some actor) = some actor.id

-- bump_version() and log_activity(event)
unfoldable pub bumped : String → Db → Db
bumped event db = record db {
  cache_version = db.cache_version + 1;
  audit = db.audit ++ (event ∷ []);
}
