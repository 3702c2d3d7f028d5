-- ===== src/Rbac/Roles.antt =====
-- create_role, update_role, delete_role, set_grants and _replace_grants of backend/rbac/services.py.
use django_base_x.Prelude.{
  ℕ, ◌+◌, String, Bool, true, false, not, ◌&&◌, ◌||◌, Option, List, [], ◌∷◌, ◌++◌, str_eq, ◌==◌,
  any_where, count_where, filter_by, map, if◌then◌else◌,
}
use django_base_x.Prelude.Result.{Result, ok, err, ◌>>=◌}
use django_base_x.Rbac.Store.{
  User, Role, Grant, Assignment, Db, RbacError, system_role, role_in_use, unknown_permission,
  integrity_error, require_if, id_of, bumped,
}

pub record GrantDiff : Type 0 where
  pub added : List String
  pub removed : List String

abbrev pub is_in : List String → String → Bool
is_in codes code = any_where (str_eq code) codes

-- the distinct members of a set given as a list
unfoldable pub distinct : List String → List String
distinct [] = []
distinct (c ∷ cs) = let rest = distinct cs in if any_where (str_eq c) rest then rest else c ∷ rest

unfoldable pub is_live_code : Db → String → Bool
is_live_code db code = any_where (λ p. str_eq p.code code && not p.is_deprecated) db.permissions

unfoldable pub current_codes : ℕ → List Grant → List String
current_codes role grants = map (λ (g : Grant). g.code) (filter_by (λ g. g.role == role) grants)

abbrev pub grant_of : ℕ → ℕ → Option ℕ → String → Grant
grant_of role now by code = record { role = role; code = code; granted_at = now; granted_by = by }

unfoldable pub replace_grants :
    Role → List String → Option User → ℕ → Db → Result RbacError (GrantDiff × Db)
unfolding distinct is_live_code current_codes
replace_grants role codes actor now db =
    elim (filter_by (λ c. not (is_live_code db c)) (distinct codes)) [
      | c ∷ unknown ↦ err (unknown_permission (c ∷ unknown))
      | [] ↦
          let current = current_codes role.id db.grants in
          let removed = filter_by (λ c. not (is_in codes c)) current in
          let added = filter_by (λ c. not (is_in current c)) (distinct codes) in
          ok (
            record { added = added; removed = removed },
            record db {
              grants =
                  filter_by (λ (g : Grant). not (g.role == role.id && is_in removed g.code))
                    db.grants
                  ++ map (grant_of role.id now (id_of actor)) added;
            },
          )
    ]

unfoldable pub set_grants :
    Option User → Role → List String → ℕ → Db → Result RbacError (GrantDiff × Db)
unfolding replace_grants require_if bumped
set_grants actor role codes now db = if role.is_system then err system_role else do
  allowed ← require_if role.is_elevated actor
  (diff, db') ← replace_grants role codes actor now db
  ok (diff, bumped "rbac.role.grants_changed" db')

-- objects.create under the unique name and slug
unfoldable pub insert_role : Role → Db → Result RbacError Db
insert_role role db =
    if any_where (λ r. str_eq r.name role.name || str_eq r.slug role.slug) db.roles
    then err integrity_error
    else ok (record db { roles = db.roles ++ (role ∷ []); next_role = db.next_role + 1 })

-- `if permission_codes:`
unfoldable pub first_grants : Role → List String → Option User → ℕ → Db → Result RbacError Db
unfolding replace_grants
first_grants role [] actor now db = ok db
first_grants role (c ∷ codes) actor now db = do
  (diff, db') ← replace_grants role (c ∷ codes) actor now db
  ok db'

unfoldable pub create_role :
    Option User
    → String
    → String
    → String
    → List String
    → Bool
    → Bool
    → ℕ
    → Db
    → Result RbacError (Role × Db)
unfolding require_if insert_role first_grants bumped
create_role actor name slug description codes is_elevated mfa_required now db = do
  allowed ← require_if is_elevated actor
  let role : Role = record {
    id = db.next_role;
    name = name;
    slug = slug;
    description = description;
    is_system = false;
    is_elevated = is_elevated;
    mfa_required = mfa_required;
    created_by = id_of actor;
    updated_by = id_of actor;
  }
  inserted ← insert_role role db
  granted ← first_grants role codes actor now inserted
  ok (role, bumped "rbac.role.created" granted)

unfoldable pub delete_role : Option User → Role → Db → Result RbacError Db
unfolding require_if bumped
delete_role actor role db = if role.is_system then err system_role else do
  allowed ← require_if role.is_elevated actor
  elim (count_where (λ (a : Assignment). a.role == role.id) db.assignments == 0) [
    | false ↦ err (role_in_use (count_where (λ (a : Assignment). a.role == role.id) db.assignments))
    | true ↦ ok (
        bumped "rbac.role.deleted" (record db {
          roles = filter_by (λ (r : Role). not (r.id == role.id)) db.roles;
          grants = filter_by (λ (g : Grant). not (g.role == role.id)) db.grants;
        }))
  ]
