-- ===== src/Rbac/Administrators.antt =====
-- The last-administrator guard of revoke_role (backend/rbac/services.py).
use django_base_x.Prelude.{
  ℕ, ◌≡◌, refl, subst, ◌∙◌, Bool, true, false, not, ◌&&◌, ◌⊎◌, inl, inr, Option, List, [], ◌∷◌,
  arith, str_eq, ◌==◌, any_where, update_where, filter_by, Bool-cases,
}
use django_base_x.Prelude.Result.{ok, >>=-eq-ok}
use django_base_x.Rbac.Store.{User, Role, Db, administrator, require_if, bumped}
use django_base_x.Rbac.Assign.{
  needs_mfa, same_bool, recompute_mfa_enforcement, is_assigned, is_administrator, is_root,
  would_leave_no_administrator, after_revoke, revoke_role,
}

-- An active superuser, or an active account with the administrator role.
abbrev pub HasAdministrator : Db → Type 0
HasAdministrator db =
    (any_where is_root db.users ≡ true) ⊎ (any_where (is_administrator db) db.assignments ≡ true)

any_where-update_where :
    {A : Type 0} (p q : A → Bool) (f : A → A)
    → ((x : A) → p (f x) ≡ p x)
    → (xs : List A) → any_where p (update_where q f xs) ≡ any_where p xs
unfolding any_where update_where
any_where-update_where p q f same [] = refl
any_where-update_where p q f same (x ∷ xs) =
    ground (arith, same x, any_where-update_where p q f same xs)

pub any_where-impl :
    {A : Type 0} (p q : A → Bool)
    → ((x : A) → p x ≡ true → q x ≡ true)
    → (xs : List A) → any_where p xs ≡ true
    → any_where q xs ≡ true
unfolding any_where
any_where-impl p q imp [] h = cc
any_where-impl p q imp (x ∷ xs) h = ground (arith, imp x, any_where-impl p q imp xs)

any_where-filter_by :
    {A : Type 0} (p keep : A → Bool)
    → (xs : List A) → any_where (λ x. p x && keep x) xs ≡ true
    → any_where p (filter_by keep xs) ≡ true
unfolding any_where filter_by
any_where-filter_by p keep [] h = cc
any_where-filter_by p keep (x ∷ xs) h = ground (arith, any_where-filter_by p keep xs)

-- The enforcement flag plays no part in it.
recompute-HasAdministrator :
    (user : User) (db : Db)
    → HasAdministrator db
    → HasAdministrator (recompute_mfa_enforcement user db)
unfolding recompute_mfa_enforcement is_administrator is_root
recompute-HasAdministrator user db h =
    let enforced = needs_mfa user.id db in
    let f = λ (u : User). record u { mfa_enforced = enforced } in
    let q = λ (u : User). u.id == user.id in
    elim (Bool-cases (same_bool user.mfa_enforced enforced)) [
      | inl t ↦ rw (recompute_mfa_enforcement, t) h
      | inr n ↦
          rw (recompute_mfa_enforcement, n)
            (elim h [
              | inl root ↦ inl (any_where-update_where is_root q f (λ u. refl) db.users ∙ root)
              | inr held ↦ inr (
                  any_where-impl _ _
                    (λ a old. ground (
                      arith,
                      old,
                      any_where-update_where (λ (u : User). u.id == a.user && u.is_active) q f
                          (λ u. refl) db.users,
                    ))
                    db.assignments held)
            ])
    ]

kept-HasAdministrator :
    (user : User) (role : ℕ) (db : Db)
    → would_leave_no_administrator user.id db ≡ false
    → HasAdministrator (record db {
      assignments = filter_by (λ a. not (is_assigned user.id role a)) db.assignments;
    })
unfolding would_leave_no_administrator is_assigned is_administrator
kept-HasAdministrator user role db fine = elim (Bool-cases (any_where is_root db.users)) [
  | inl root ↦ inl root
  | inr none_root ↦ inr (
      any_where-filter_by (is_administrator db) (λ a. not (is_assigned user.id role a))
        db.assignments
        (any_where-impl (λ a. is_administrator db a && not (a.user == user.id))
          (λ a. is_administrator db a && not (is_assigned user.id role a))
          (λ a h. ground (arith, h)) db.assignments (ground (arith, fine, none_root))))
]

-- When the administrator role has been taken from an account, whoever did it, there is still an
-- active superuser, or another active account with the administrator role.
pub revoke_role-HasAdministrator :
    (actor : Option User) (user : User) (role : Role) (db db' : Db)
    → str_eq role.slug administrator ≡ true
    → revoke_role actor user role db ≡ ok db'
    → HasAdministrator db'
unfolding revoke_role after_revoke bumped
revoke_role-HasAdministrator actor user role db db' top e =
    let (allowed, passed, rest) = >>=-eq-ok (require_if role.is_elevated actor) _ e in
    elim (Bool-cases (would_leave_no_administrator user.id db)) [
      | inl alone ↦ absurd (ground (arith, rest, top, alone))
      | inr fine ↦
          let made : after_revoke user role db ≡ db' = ground (arith, rest, top, fine) in
          subst HasAdministrator made
            (elim (Bool-cases (any_where (is_assigned user.id role.id) db.assignments)) [
              | inl held ↦
                  rw (after_revoke, held)
                    (recompute-HasAdministrator user _ (kept-HasAdministrator user role.id db fine))
              | inr free ↦ rw (after_revoke, free) (kept-HasAdministrator user role.id db fine)
            ])
    ]
