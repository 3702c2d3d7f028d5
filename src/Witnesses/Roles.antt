-- ===== src/Witnesses/Roles.antt =====
-- Two accounts, of which one is an administrator who needs MFA.
use django_base_x.Prelude.{
  ℕ, ◌≡◌, refl, String, Bool, true, false, Option, none, some, List, [], ◌∷◌, arith,
}
use django_base_x.Prelude.Result.{ok, err}
use django_base_x.Rbac.Store.{
  User, Role, Assignment, Db, elevated_requires_superuser, administrator,
}
use django_base_x.Rbac.Roles.{set_grants, delete_role}
use django_base_x.Rbac.Assign.{Fields, needs_mfa, update_role, assign_role, revoke_role}
use django_base_x.Rbac.Guards.{Refused, elevated-Refused}
use django_base_x.Rbac.Administrators.{HasAdministrator, revoke_role-HasAdministrator}
use django_base_x.Rbac.Enforcement.{MfaDerived, revoke_role-MfaDerived, assign_role-MfaDerived}

abbrev admin_role : Role
admin_role = record {
  id = 1;
  name = "Administrator";
  slug = administrator;
  description = "";
  is_system = true;
  is_elevated = true;
  mfa_required = true;
  created_by = none;
  updated_by = none;
}

abbrev ann : User
ann = record { id = 1; is_superuser = false; is_active = true; mfa_enforced = true }

abbrev bob : User
bob = record { id = 2; is_superuser = false; is_active = true; mfa_enforced = false }

abbrev of_ann : Assignment
of_ann = record { user = 1; role = 1; assigned_at = 5; assigned_by = none }

abbrev of_bob : Assignment
of_bob = record { user = 2; role = 1; assigned_at = 7; assigned_by = none }

abbrev office : Db
office = record {
  users = ann ∷ bob ∷ [];
  permissions = [];
  roles = admin_role ∷ [];
  next_role = 2;
  grants = [];
  assignments = of_ann ∷ [];
  cache_version = 1;
  audit = [];
}

abbrev both : Db
both = record office {
  users = ann ∷ record bob { mfa_enforced = true } ∷ [];
  assignments = of_ann ∷ of_bob ∷ [];
  cache_version = 2;
  audit = "rbac.role.assigned" ∷ [];
}

abbrev bob_alone : Db
bob_alone = record both {
  users = record ann { mfa_enforced = false } ∷ record bob { mfa_enforced = true } ∷ [];
  assignments = of_bob ∷ [];
  cache_version = 3;
  audit = "rbac.role.assigned" ∷ "rbac.role.revoked" ∷ [];
}

bob_joins : assign_role none bob admin_role 7 office ≡ ok both
unfolding assign_role django_base_x.Prelude.any_where django_base_x.Prelude.update_where
bob_joins = refl

ann_leaves : revoke_role none ann admin_role both ≡ ok bob_alone
unfolding revoke_role django_base_x.Prelude.any_where django_base_x.Prelude.filter_by
    django_base_x.Prelude.update_where
ann_leaves = refl

abbrev edit : Fields
edit = record { name = none; description = none; is_elevated = some true; mfa_required = none }

elevated-Refused_example :
    (assign_role (some ann) bob admin_role 7 office ≡ err elevated_requires_superuser)
    × (revoke_role (some ann) bob admin_role office ≡ err elevated_requires_superuser)
    × Refused (set_grants (some ann) admin_role [] 7 office)
    × Refused (update_role (some ann) admin_role edit office)
    × Refused (delete_role (some ann) admin_role office)
elevated-Refused_example = elevated-Refused ann refl admin_role 7 office refl bob [] edit

revoke_role-HasAdministrator_example : HasAdministrator bob_alone
revoke_role-HasAdministrator_example =
    revoke_role-HasAdministrator none ann admin_role both bob_alone refl ann_leaves

assign_role-MfaDerived_example : MfaDerived both
unfolding needs_mfa django_base_x.Prelude.any_where
assign_role-MfaDerived_example =
    assign_role-MfaDerived none bob admin_role 7 office both (refl, (refl, tt))
      ((λ e. cc), ((λ e. refl), tt)) bob_joins

revoke_role-MfaDerived_example : MfaDerived bob_alone
unfolding needs_mfa django_base_x.Prelude.any_where
revoke_role-MfaDerived_example =
    revoke_role-MfaDerived none ann admin_role both bob_alone (refl, (refl, tt))
      ((λ e. refl), ((λ e. cc), tt)) ann_leaves
