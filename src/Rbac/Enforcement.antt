-- ===== src/Rbac/Enforcement.antt =====
-- The mfa_enforced flag under assign_role and revoke_role (backend/rbac/services.py).
use django_base_x.Prelude.{
  ℕ, ◌≡◌, refl, sym, subst, ◌∙◌, Bool, true, false, not, ◌&&◌, inl, inr, Option, List, [], ◌∷◌,
  ◌++◌, arith, str_eq, ◌==◌, any_where, filter_by, Bool-cases, All, All-impl, All-zip, ap,
  All-update_where_on,
}
use django_base_x.Prelude.Result.{ok, >>=-eq-ok}
use django_base_x.Rbac.Store.{User, Role, Assignment, Db, administrator, require_if, bumped, id_of}
use django_base_x.Rbac.Assign.{
  needs_mfa, same_bool, recompute_mfa_enforcement, is_assigned, would_leave_no_administrator,
  after_revoke, assign_role, revoke_role,
}

abbrev pub Derived : Db → User → Type 0
Derived db u = u.mfa_enforced ≡ needs_mfa u.id db

abbrev pub MfaDerived : Db → Type 0
MfaDerived db = All (Derived db) db.users

-- The object agrees with the row it was read from.
abbrev pub Read : User → Db → Type 0
Read user db =
    All (λ (u : User). (u.id == user.id) ≡ true → u.mfa_enforced ≡ user.mfa_enforced) db.users

any_where-filter_same :
    (p keep : Assignment → Bool)
    → ((a : Assignment) → p a ≡ true → keep a ≡ true)
    → (xs : List Assignment) → any_where p (filter_by keep xs) ≡ any_where p xs
unfolding any_where filter_by
any_where-filter_same p keep imp [] = refl
any_where-filter_same p keep imp (x ∷ xs) =
    ground (arith, imp x, any_where-filter_same p keep imp xs)

any_where-snoc :
    (p : Assignment → Bool) (xs : List Assignment) (x : Assignment)
    → p x ≡ false
    → any_where p (xs ++ (x ∷ [])) ≡ any_where p xs
unfolding any_where
any_where-snoc p [] x f = ground (arith, f)
any_where-snoc p (y ∷ xs) x f = ground (arith, any_where-snoc p xs x f)

same_bool-eq : (a b : Bool) → same_bool a b ≡ true → a ≡ b
unfolding same_bool
same_bool-eq true b h = sym h
same_bool-eq false b h = ground (arith, h)

-- Where only the assignments of `user` changed, recomputing that account is enough.
recompute-MfaDerived :
    (user : User) (db changed : Db)
    → changed.users ≡ db.users
    → ((k : ℕ) → (k == user.id) ≡ false → needs_mfa k changed ≡ needs_mfa k db)
    → MfaDerived db
    → Read user db
    → MfaDerived (recompute_mfa_enforcement user changed)
unfolding recompute_mfa_enforcement needs_mfa
recompute-MfaDerived user db changed kept others h read =
    let enforced = needs_mfa user.id changed in
    let Good = λ (u : User). u.mfa_enforced ≡ needs_mfa u.id changed in
    let both =
      All-zip (Derived db)
        (λ (u : User). (u.id == user.id) ≡ true → u.mfa_enforced ≡ user.mfa_enforced) db.users h
        read in
    let elsewhere : (u : User) → Derived db u → (u.id == user.id) ≡ false → Good u =
      λ u d f. d ∙ sym (others u.id f) in
    elim (Bool-cases (same_bool user.mfa_enforced enforced)) [
      | inl t ↦
          rw (recompute_mfa_enforcement, t, kept)
            (All-impl _ Good
              (λ u each. elim (Bool-cases (u.id == user.id)) [
                | inl this ↦
                    each.1 this
                    ∙ same_bool-eq user.mfa_enforced enforced t
                    ∙ ap (λ k. needs_mfa k changed) (sym (is_id u this))
                | inr f ↦ elsewhere u each.0 f
              ])
              db.users both)
      | inr n ↦
          rw (recompute_mfa_enforcement, n, kept)
            (All-update_where_on Good (λ (u : User). u.id == user.id)
              (λ u. record u { mfa_enforced = enforced }) db.users
              (All-impl _
                (λ u.
                  ((u.id == user.id) ≡ true → Good (record u { mfa_enforced = enforced }))
                  × ((u.id == user.id) ≡ false → Good u))
                (λ u each.
                  (λ this. ap (λ k. needs_mfa k changed) (sym (is_id u this)), elsewhere u each.0))
                db.users both))
    ]
  where
    is_id : (u : User) → (u.id == user.id) ≡ true → u.id ≡ user.id
    is_id u this = ground (arith, this)

revoked_elsewhere :
    (user role : ℕ) (db : Db) (k : ℕ)
    → (k == user) ≡ false
    → needs_mfa k
        (record db { assignments = filter_by (λ a. not (is_assigned user role a)) db.assignments })
      ≡ needs_mfa k db
unfolding needs_mfa is_assigned
revoked_elsewhere user role db k other =
    any_where-filter_same _ (λ a. not (is_assigned user role a)) (λ a h. ground (arith, h, other))
      db.assignments

assigned_elsewhere :
    (user : ℕ) (row : Assignment) (db : Db)
    → row.user ≡ user
    → (k : ℕ) → (k == user) ≡ false
    → needs_mfa k (record db { assignments = db.assignments ++ (row ∷ []) }) ≡ needs_mfa k db
unfolding needs_mfa
assigned_elsewhere user row db same k other =
    any_where-snoc _ db.assignments row (ground (arith, same, other))

filter_by-nothing :
    (drop : Assignment → Bool) (xs : List Assignment)
    → any_where drop xs ≡ false
    → filter_by (λ a. not (drop a)) xs ≡ xs
unfolding any_where filter_by
filter_by-nothing drop [] h = refl
filter_by-nothing drop (x ∷ xs) h = ground (arith, h, filter_by-nothing drop xs)

-- Enforcement stays derived: if every account's mfa_enforced says whether a role that it holds
-- requires MFA, and `user` is an account as the table has it, then this is so after a role has been
-- taken from it.
pub revoke_role-MfaDerived :
    (actor : Option User) (user : User) (role : Role) (db db' : Db)
    → MfaDerived db
    → Read user db
    → revoke_role actor user role db ≡ ok db'
    → MfaDerived db'
unfolding revoke_role after_revoke bumped
revoke_role-MfaDerived actor user role db db' h read taken =
    let (allowed, passed, rest) = >>=-eq-ok (require_if role.is_elevated actor) _ taken in
    let mine = is_assigned user.id role.id in
    elim (Bool-cases (str_eq role.slug administrator && would_leave_no_administrator user.id db)) [
      | inl alone ↦ absurd (ground (arith, rest, alone))
      | inr fine ↦
          let made : after_revoke user role db ≡ db' = ground (arith, rest, fine) in
          subst MfaDerived made (elim (Bool-cases (any_where mine db.assignments)) [
            | inl held ↦
                rw (after_revoke, held)
                  (recompute-MfaDerived user db _ refl (revoked_elsewhere user.id role.id db) h
                    read)
            | inr free ↦ rw (after_revoke, free, filter_by-nothing mine db.assignments free) h
          ])
    ]

-- The same after a role has been given to the account.
pub assign_role-MfaDerived :
    (actor : Option User) (user : User) (role : Role) (now : ℕ) (db db' : Db)
    → MfaDerived db
    → Read user db
    → assign_role actor user role now db ≡ ok db'
    → MfaDerived db'
unfolding assign_role bumped
assign_role-MfaDerived actor user role now db db' h read assigned =
    let (allowed, passed, rest) = >>=-eq-ok (require_if role.is_elevated actor) _ assigned in
    let row : Assignment = record {
      user = user.id;
      role = role.id;
      assigned_at = now;
      assigned_by = id_of actor;
    } in
    let changed = record db { assignments = db.assignments ++ (row ∷ []) } in
    elim (Bool-cases (any_where (is_assigned user.id role.id) db.assignments)) [
      | inl held ↦ let made : db ≡ db' = ground (arith, rest, held) in subst MfaDerived made h
      | inr free ↦
          let made : bumped "rbac.role.assigned" (recompute_mfa_enforcement user changed) ≡ db' =
            ground (arith, rest, free) in
          subst MfaDerived made (
            recompute-MfaDerived user db changed refl (assigned_elsewhere user.id row db refl) h
              read)
    ]
