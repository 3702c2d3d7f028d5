-- ===== src/Rbac/Assign.antt =====
-- update_role, assign_role, revoke_role, _would_leave_no_administrator and recompute_mfa_enforcement
-- of backend/rbac/services.py.
use django_base_x.Prelude.{
  ℕ, String, Bool, true, false, not, ◌&&◌, ◌||◌, Option, none, some, or_else, List, [], ◌∷◌, ◌++◌,
  str_eq, ◌==◌, any_where, update_where, first_where, filter_by, if◌then◌else◌,
}
use django_base_x.Prelude.Result.{Result, ok, err, ◌>>=◌}
use django_base_x.Rbac.Store.{
  User, Role, Assignment, Db, RbacError, system_role, last_administrator, integrity_error,
  administrator, require_if, id_of, bumped,
}

-- filter(user=user, role__mfa_required=True).exists()
unfoldable pub needs_mfa : ℕ → Db → Bool
needs_mfa user db =
    any_where
      (λ (a : Assignment).
        a.user == user && any_where (λ (r : Role). r.id == a.role && r.mfa_required) db.roles)
      db.assignments

unfoldable pub same_bool : Bool → Bool → Bool
same_bool true b = b
same_bool false b = not b

-- `user` is the object that was read, whose flag decides whether a write is needed.
unfoldable pub recompute_mfa_enforcement : User → Db → Db
unfolding needs_mfa same_bool
recompute_mfa_enforcement user db =
    let enforced = needs_mfa user.id db in
    if same_bool user.mfa_enforced enforced then db else record db {
      users =
          update_where (λ u. u.id == user.id) (λ u. record u { mfa_enforced = enforced }) db.users;
    }

unfoldable pub is_assigned : ℕ → ℕ → Assignment → Bool
is_assigned user role a = a.user == user && a.role == role

unfoldable pub assign_role : Option User → User → Role → ℕ → Db → Result RbacError Db
unfolding require_if is_assigned recompute_mfa_enforcement bumped
assign_role actor user role now db = do
  allowed ← require_if role.is_elevated actor
  if any_where (is_assigned user.id role.id) db.assignments
      then ok db
      else (let row : Assignment = record {
        user = user.id;
        role = role.id;
        assigned_at = now;
        assigned_by = id_of actor;
      } in
          ok (
            bumped "rbac.role.assigned" (
              recompute_mfa_enforcement user
                (record db { assignments = db.assignments ++ (row ∷ []) }))))

-- An assignment of the administrator role to an active account.
unfoldable pub is_administrator : Db → Assignment → Bool
is_administrator db a =
    any_where (λ (r : Role). r.id == a.role && str_eq r.slug administrator) db.roles
    && any_where (λ (u : User). u.id == a.user && u.is_active) db.users

unfoldable pub is_root : User → Bool
is_root u = u.is_superuser && u.is_active

unfoldable pub would_leave_no_administrator : ℕ → Db → Bool
unfolding is_administrator is_root
would_leave_no_administrator user db =
    if any_where is_root db.users
    then false
    else not (any_where (λ a. is_administrator db a && not (a.user == user)) db.assignments)

-- What follows the delete, if it deleted a row.
unfoldable pub after_revoke : User → Role → Db → Db
unfolding is_assigned recompute_mfa_enforcement bumped
after_revoke user role db =
    let kept = record db {
      assignments = filter_by (λ a. not (is_assigned user.id role.id a)) db.assignments;
    } in
    if any_where (is_assigned user.id role.id) db.assignments
    then bumped "rbac.role.revoked" (recompute_mfa_enforcement user kept)
    else kept

unfoldable pub revoke_role : Option User → User → Role → Db → Result RbacError Db
unfolding require_if would_leave_no_administrator after_revoke
revoke_role actor user role db = do
  allowed ← require_if role.is_elevated actor
  if str_eq role.slug administrator && would_leave_no_administrator user.id db
      then err last_administrator
      else ok (after_revoke user role db)

-- The keyword arguments of update_role; the slug is left out.
pub record Fields : Type 0 where
  pub name : Option String
  pub description : Option String
  pub is_elevated : Option Bool
  pub mfa_required : Option Bool

abbrev pub renames : Role → Option String → Bool
renames role none = false
renames role (some name) = not (str_eq name role.name)

abbrev pub given : Option Bool → Bool
given none = false
given (some b) = b

unfoldable pub with_fields : Fields → Option User → Role → Role
with_fields fields actor role = record role {
  name = or_else fields.name role.name;
  description = or_else fields.description role.description;
  is_elevated = or_else fields.is_elevated role.is_elevated;
  mfa_required = or_else fields.mfa_required role.mfa_required;
  updated_by = id_of actor;
}

-- The holders of a role, each with the account as it was read before the loop.
unfoldable pub holders : ℕ → List User → List Assignment → List User
holders role users [] = []
holders role users (a ∷ assignments) =
    let rest = holders role users assignments in
    if a.role == role
    then elim (first_where (λ (u : User). u.id == a.user) users) [ none ↦ rest | some u ↦ u ∷ rest ]
    else rest

unfoldable pub recompute_all : List User → Db → Db
unfolding recompute_mfa_enforcement
recompute_all [] db = db
recompute_all (u ∷ users) db = recompute_all users (recompute_mfa_enforcement u db)

unfoldable pub update_role : Option User → Role → Fields → Db → Result RbacError (Role × Db)
unfolding require_if with_fields recompute_all holders bumped same_bool
update_role actor role fields db =
    if role.is_system && renames role fields.name then err system_role else do
      allowed ← require_if (role.is_elevated || given fields.is_elevated) actor
      let changed = with_fields fields actor role
      let saved = record db {
        roles = update_where (λ (r : Role). r.id == role.id) (λ _. changed) db.roles;
      }
      let settled =
          if same_bool changed.mfa_required role.mfa_required
          then saved
          else recompute_all (holders role.id saved.users saved.assignments) saved
      if any_where (λ (r : Role). str_eq r.name changed.name && not (r.id == role.id)) db.roles
          then err integrity_error
          else ok (changed, bumped "rbac.role.updated" settled)
