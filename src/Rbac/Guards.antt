-- ===== src/Rbac/Guards.antt =====
-- The guards of elevated roles (backend/rbac/services.py).
use django_base_x.Prelude.{
  ℕ, ◌≡◌, ◌⊎◌, inl, inr, String, Bool, true, false, ◌&&◌, some, List, arith, Bool-cases,
}
use django_base_x.Prelude.Result.{Result, err}
use django_base_x.Rbac.Store.{
  User, Role, Db, RbacError, system_role, elevated_requires_superuser, require_superuser,
  require_if,
}
use django_base_x.Rbac.Roles.{create_role, set_grants, delete_role}
use django_base_x.Rbac.Assign.{Fields, given, renames, update_role, assign_role, revoke_role}

-- Refused, for the caller's rank or because the role is a system role.
abbrev pub Refused : {A : Type 0} → Result RbacError A → Type 0
Refused {A} r = (r ≡ err elevated_requires_superuser) ⊎ (r ≡ err system_role)

module _ (actor : User) (ordinary : actor.is_superuser ≡ false) (role : Role) (now : ℕ)
    (db : Db) where
  -- An actor who is no superuser is refused every operation on an elevated role: to assign it, to
  -- revoke it, to replace its grants, to edit it and to delete it.
  pub elevated-Refused :
      role.is_elevated ≡ true
      → (user : User) (codes : List String) (fields : Fields)
      → (assign_role (some actor) user role now db ≡ err elevated_requires_superuser)
        × (revoke_role (some actor) user role db ≡ err elevated_requires_superuser)
        × Refused (set_grants (some actor) role codes now db)
        × Refused (update_role (some actor) role fields db)
        × Refused (delete_role (some actor) role db)
  unfolding assign_role revoke_role set_grants update_role delete_role require_if require_superuser
  elevated-Refused high user codes fields = (
    ground (arith, high, ordinary),
    ground (arith, high, ordinary),
    elim (Bool-cases role.is_system) [
      | inl s ↦ inr (ground (arith, s))
      | inr n ↦ inl (ground (arith, n, high, ordinary))
    ],
    elim (Bool-cases (role.is_system && renames role fields.name)) [
      | inl s ↦ inr (ground (arith, s))
      | inr n ↦ inl (ground (arith, n, high, ordinary))
    ],
    elim (Bool-cases role.is_system) [
      | inl s ↦ inr (ground (arith, s))
      | inr n ↦ inl (ground (arith, n, high, ordinary))
    ],
  )

  -- Nor can such an actor make a role elevated, by creating it so or by an edit.
  elevating-Refused :
      (name slug description : String) (codes : List String) (mfa_required : Bool) (fields : Fields)
      → given fields.is_elevated ≡ true
      → (create_role (some actor) name slug description codes true mfa_required now db
          ≡ err elevated_requires_superuser)
        × Refused (update_role (some actor) role fields db)
  unfolding create_role update_role require_if require_superuser
  elevating-Refused name slug description codes mfa_required fields raised = (
    ground (arith, ordinary),
    elim (Bool-cases (role.is_system && renames role fields.name)) [
      | inl s ↦ inr (ground (arith, s))
      | inr n ↦ inl (ground (arith, n, raised, ordinary))
    ],
  )
