-- ===== src/Flags/Resolution.antt =====
-- The rows of feature flags and the order of the rules in flag_enabled of backend/core/flags.py. A
-- tenant is its public id.
use django_base_x.Prelude.{
  String, Bool, true, false, not, ◌&&◌, Option, none, some, List, [], ◌∷◌, str_eq, any_where,
  first_where, or_else, if◌then◌else◌,
}

pub record Flag : Type 0 where
  pub key : String
  pub enabled : Bool
  pub user_ids : Option (List String)
  pub role_slugs : Option (List String)
  pub tenant_ids : Option (List String)
  pub updated_by : Option String

-- The roles are none where the database does not answer for them.
pub record Caller : Type 0 where
  pub public_id : String
  pub is_authenticated : Bool
  pub roles : Option (List String)

unfoldable pub is_among : String → List String → Bool
is_among name names = any_where (λ n. str_eq n name) names

-- set(a) & set(b) is not empty
unfoldable pub share_one : List String → List String → Bool
share_one names others = any_where (λ name. is_among name others) names

unfoldable pub role_slugs_of : Caller → List String
role_slugs_of caller = or_else caller.roles []

abbrev pub is_none_of : List String → Bool
is_none_of [] = true
is_none_of (x ∷ xs) = false

unfoldable pub targets : Option (List String) → List String
targets names = or_else names []

unfoldable pub is_untargeted : Flag → Bool
is_untargeted flag =
    is_none_of (targets flag.user_ids)
    && is_none_of (targets flag.role_slugs)
    && is_none_of (targets flag.tenant_ids)

unfoldable pub find : List Flag → String → Option Flag
find rows key = first_where (λ flag. str_eq flag.key key) rows

unfoldable pub tenant_matches : Option String → Flag → Bool
tenant_matches none flag = false
tenant_matches (some tenant) flag = is_among tenant (targets flag.tenant_ids)

-- Rule 5, for a flag with targets.
unfoldable pub is_target : Flag → Option Caller → Option String → Bool
is_target flag none tenant = false
is_target flag (some caller) tenant =
    if not caller.is_authenticated
    then false
    else if is_among caller.public_id (targets flag.user_ids)
    then true
    else if not (is_none_of (targets flag.role_slugs))
        && share_one (role_slugs_of caller) (targets flag.role_slugs)
    then true
    else tenant_matches tenant flag

unfoldable pub is_on : Option Flag → Option Caller → Option String → Bool
is_on none user tenant = false
is_on (some flag) user tenant =
    if not flag.enabled
    then false
    else if is_untargeted flag
    then true
    else is_target flag user tenant
